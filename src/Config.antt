-- ===== src/Config.antt =====
-- `AsyncSACRuntimeConfig` of src/rllib_async/runtime/config.py. Its floating-point settings and their checks
-- are left out.
use rllib_async_runtime.Common.{
  ℕ, String, Bool, true, false, not, ◌&&◌, ◌==◌, ltb, leb, if◌then◌else◌, Result, ok, value_error,
  guard, ◌>>=◌, ◌>>◌,
}
use rllib_async_runtime.Episode.Value.{
  Value, int, negative, equal_to, other, positive, non_negative,
}
use rllib_async_runtime.Population.Step.{validate_id_segment}
pub mod Components

pub record RuntimeArgs : Type 0 where
  pub member_id : String
  pub runner_count : Value
  pub max_episode_steps : Value
  pub replay_capacity_transitions : Value
  pub replay_capacity_bytes : Value
  pub replay_journal_capacity : Value
  pub replay_sync_max_bytes : Value
  pub pending_commit_high_watermark : Value
  pub pending_commit_low_watermark : Value
  pub batch_size : Value
  pub batch_queue_capacity : Value
  pub learner_updates_per_tick : Value
  pub publication_interval_updates : Value
  pub evaluation_interval_env_steps : Value
  pub evaluation_num_episodes : Value
  pub seed : Value

pub record AsyncSacRuntimeConfig : Type 0 where
  pub member_id : String
  pub runner_count : ℕ
  pub max_episode_steps : ℕ
  pub replay_capacity_transitions : ℕ
  pub replay_capacity_bytes : ℕ
  pub replay_journal_capacity : ℕ
  pub replay_sync_max_bytes : ℕ
  pub pending_commit_high_watermark : ℕ
  pub pending_commit_low_watermark : ℕ
  pub batch_size : ℕ
  pub batch_queue_capacity : ℕ
  pub learner_updates_per_tick : ℕ
  pub publication_interval_updates : ℕ
  pub evaluation_interval_env_steps : ℕ
  pub evaluation_num_episodes : ℕ
  pub seed : Value

-- an integer, negative or not
abbrev is_int : Value → Bool
is_int (equal_to n) = false
is_int other = false
is_int _ = true

abbrev same_bool : Bool → Bool → Bool
same_bool true b = b
same_bool false b = not b

-- `AsyncSACRuntimeConfig.__post_init__`
unfoldable pub async_sac_runtime_config : RuntimeArgs → Result AsyncSacRuntimeConfig
unfolding validate_id_segment positive non_negative
async_sac_runtime_config a = do
  validate_id_segment a.member_id
  runners ← positive value_error a.runner_count
  guard (leb runners 16) value_error
  steps ← positive value_error a.max_episode_steps
  transitions ← positive value_error a.replay_capacity_transitions
  bytes ← positive value_error a.replay_capacity_bytes
  journal ← positive value_error a.replay_journal_capacity
  sync ← positive value_error a.replay_sync_max_bytes
  high ← positive value_error a.pending_commit_high_watermark
  batch ← positive value_error a.batch_size
  updates ← positive value_error a.learner_updates_per_tick
  publication ← positive value_error a.publication_interval_updates
  queue ← non_negative value_error a.batch_queue_capacity
  low ← non_negative value_error a.pending_commit_low_watermark
  guard (ltb low high) value_error
  interval ← non_negative value_error a.evaluation_interval_env_steps
  episodes ← non_negative value_error a.evaluation_num_episodes
  guard (leb episodes 16) value_error
  guard (same_bool (interval == 0) (episodes == 0)) value_error
  guard (is_int a.seed) value_error
  ok (record {
    member_id = a.member_id;
    runner_count = runners;
    max_episode_steps = steps;
    replay_capacity_transitions = transitions;
    replay_capacity_bytes = bytes;
    replay_journal_capacity = journal;
    replay_sync_max_bytes = sync;
    pending_commit_high_watermark = high;
    pending_commit_low_watermark = low;
    batch_size = batch;
    batch_queue_capacity = queue;
    learner_updates_per_tick = updates;
    publication_interval_updates = publication;
    evaluation_interval_env_steps = interval;
    evaluation_num_episodes = episodes;
    seed = a.seed;
  })
