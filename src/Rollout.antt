-- ===== src/Rollout.antt =====
-- src/rllib_async/rollout: the publication of weights, the identity of episodes and the scheduler
-- `AsyncRolloutGroup`. The state of the group is here, its operations and their proofs are below.
--
-- A remote call is named by the number of calls before it. Times and rewards are floating point
-- numbers: they are left out, with the statistics that are made of them.
pub mod Weights
pub mod EpisodeId
pub mod Action
pub mod Schedule
pub mod Group
pub mod Lifecycle
pub mod Construct
pub mod Invariant
pub mod Keeps
pub mod Arrivals
pub mod Polling
pub mod Steps
pub mod Reach
pub mod Checkpoint
pub mod Resumed
pub mod Publication
pub mod Backpressure
use rllib_async_runtime.Common.{ℕ, String, Bool, List}
use rllib_async_runtime.Dict.{Dict}
use rllib_async_runtime.Episode.Envelope.{EpisodeEnvelope}
use rllib_async_runtime.Replay.{CommitAck}
use rllib_async_runtime.Rollout.Weights.{WeightsDescriptor}

pub data RolloutGroupState : Type 0 where
  created running paused halted : RolloutGroupState

pub record RolloutCompletion : Type 0 where
  pub episode : EpisodeEnvelope
  pub acknowledgement : CommitAck
  pub policy_version_lag : ℕ

pub record PendingCommit : Type 0 where
  pub runner_id : String
  pub episode : EpisodeEnvelope
  pub policy_version_lag : ℕ

-- The arguments of the constructor that do not change.
pub record Limits : Type 0 where
  pub member_id : String
  pub runner_count : ℕ
  pub high_watermark : ℕ
  pub low_watermark : ℕ
  pub metrics_window : ℕ

pub record AsyncRolloutGroup : Type 0 where
  pub limits : Limits
  pub open limits use *
  pub state : RolloutGroupState
  pub latest_weights : WeightsDescriptor
  pub runner_weight_versions : Dict (Dict ℕ)
  pub runner_generations : Dict ℕ
  pub idle_runners : List String
  pub pending_samples : List (ℕ × String)
  pub pending_commits : List (ℕ × PendingCommit)
  pub calls : ℕ
  pub episodes_collected : ℕ
  pub episodes_committed : ℕ
  pub duplicate_commits : ℕ
  pub env_steps : ℕ
  pub agent_steps : ℕ
  pub sample_calls_started : ℕ
  pub sample_failures : ℕ
  pub commit_failures : ℕ
  pub runner_restarts : ℕ
  pub outstanding_high_watermark : ℕ
  pub backpressure_events : ℕ
  pub backpressured : Bool
  pub policy_lags : List ℕ
  pub episodes_since_metric_reset : ℕ
