-- ===== src/Rollout/Construct.antt =====
-- The checks of `AsyncRolloutGroup.__init__`. The tests that concern Ray, the number of processors and
-- `explore` are left out.
use rllib_async_runtime.Common.{
  ℕ, String, none, ltb, leb, Result, ok, value_error, guard, ◌>>=◌, ◌>>◌,
}
use rllib_async_runtime.Episode.Value.{Value, int, positive, non_negative}
use rllib_async_runtime.Rollout.{AsyncRolloutGroup}
use rllib_async_runtime.Rollout.Weights.{WeightsDescriptor, accept_weight_publication}
use rllib_async_runtime.Rollout.EpisodeId.{make_episode_id}
use rllib_async_runtime.Rollout.Lifecycle.{default_modules, new_group}

pub record GroupArgs : Type 0 where
  pub member_id : String
  pub initial_weights : WeightsDescriptor
  pub runner_count : Value
  pub max_episode_steps : Value
  pub pending_commit_high_watermark : Value
  pub pending_commit_low_watermark : Value
  pub metrics_window : Value
  pub reward_window_episodes : Value

unfoldable pub async_rollout_group : (str name : ℕ → String) → GroupArgs → Result AsyncRolloutGroup
async_rollout_group str name a = do
  k ← make_episode_id str a.member_id "runner-0" (int 0) (int 0)
  runner_count ← positive value_error a.runner_count
  guard (leb runner_count 16) value_error
  high ← positive value_error a.pending_commit_high_watermark
  low ← non_negative value_error a.pending_commit_low_watermark
  guard (ltb low high) value_error
  steps ← positive value_error a.max_episode_steps
  window ← positive value_error a.metrics_window
  rewards ← positive value_error a.reward_window_episodes
  b ← accept_weight_publication none a.initial_weights a.member_id default_modules
  ok (
      new_group name
        (record {
          member_id = a.member_id;
          runner_count = runner_count;
          high_watermark = high;
          low_watermark = low;
          metrics_window = window;
        })
        a.initial_weights)
