-- ===== src/Fast.antt =====
-- `FastReplay` of src/rllib_async/replay/fast.py: the learner's replay whose sampling index a background
-- thread rebuilds. Its state; the operations and the thread are in the modules below. Times in
-- milliseconds are not modelled.
pub mod Index
pub mod Target
pub mod Writer
pub mod Rebuild
pub mod System
pub mod Progress
pub mod Deltas
pub mod Interleaving
pub mod Idle
pub mod Sample
pub mod Positions
use rllib_async_runtime.Common.{ℕ, String, Bool, false, List, [], Option, none, Error}
use rllib_async_runtime.Dict.{Dict}
use rllib_async_runtime.Episode.Envelope.{EpisodeEnvelope}
use rllib_async_runtime.Replay.{ReplayCursor}

pub record EpisodeRecord : Type 0 where
  pub episode : EpisodeEnvelope
  pub transition_count : ℕ

-- `_TargetState` but for its records, which are a read-only view of `_records` of the replay itself.
pub record TargetState : Type 0 where
  pub cursor : ReplayCursor
  pub total_transitions : ℕ
  pub total_estimated_bytes : ℕ

pub record SamplingIndex : Type 0 where
  pub episode_ids : List String
  pub cumulative_lengths : List ℕ
  pub total_transitions : ℕ

pub record ModuleSamplingIndex : Type 0 where
  pub episode_indices : List ℕ
  pub cumulative_lengths : List ℕ
  pub total_transitions : ℕ

pub record MaterializedView : Type 0 where
  pub cursor : ReplayCursor
  pub episodes : List EpisodeEnvelope
  pub sampling_index : SamplingIndex
  pub module_sampling_indices : Dict ModuleSamplingIndex
  pub total_estimated_bytes : ℕ

pub record BuildRequest : Type 0 where
  pub revision : ℕ
  pub cursor : ReplayCursor
  pub records : List EpisodeRecord
  pub total_transitions : ℕ
  pub total_estimated_bytes : ℕ

pub record FastReplay : Type 0 where
  pub records : Dict EpisodeRecord
  pub target : Option TargetState
  pub active_view : Option MaterializedView
  pub target_revision : ℕ
  pub active_revision : ℕ
  pub delta_lag_agent_steps : ℕ
  pub rebuild_running : Bool
  pub rebuild_error : Option Error
  pub completed_rebuilds : ℕ
  pub discarded_rebuilds : ℕ
  pub rebuild_failures : ℕ
  pub full_resyncs : ℕ
  pub closed : Bool

-- `FastReplay.__init__`
abbrev pub empty_replay : FastReplay
empty_replay = record {
  records = [];
  target = none;
  active_view = none;
  target_revision = 0;
  active_revision = 0;
  delta_lag_agent_steps = 0;
  rebuild_running = false;
  rebuild_error = none;
  completed_rebuilds = 0;
  discarded_rebuilds = 0;
  rebuild_failures = 0;
  full_resyncs = 0;
  closed = false;
}
