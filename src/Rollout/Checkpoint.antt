-- ===== src/Rollout/Checkpoint.antt =====
-- `get_checkpoint_state` and `_restore_checkpoint_state` of `AsyncRolloutGroup`. What comes out of a file
-- is a `Value` where the code tests that it is an integer.
use rllib_async_runtime.Common.{
  ℕ, ◌+◌, String, str_eq, Bool, true, false, Option, none, some, List, [], ◌∷◌, map, length, leb,
  Result, ok, raise, value_error, rollout_group, guard, ◌>>=◌, ◌>>◌,
}
use rllib_async_runtime.Dict.{Dict, keys}
use rllib_async_runtime.Episode.Value.{Value, int, is_integer, non_negative}
use rllib_async_runtime.Episode.Versions.{sort_by_key}
use rllib_async_runtime.Rollout.{RolloutGroupState, paused, AsyncRolloutGroup}
use rllib_async_runtime.Rollout.Weights.{same_set}
use rllib_async_runtime.Rollout.Schedule.{same_versions}
use rllib_async_runtime.Rollout.Group.{nothing_pending}

-- the keys of the mapping; `policy_lags` is `none` where the value is no tuple
pub record CheckpointState : Type 0 where
  pub state_version : Value
  pub member_id : String
  pub runner_count : Value
  pub latest_module_versions : Dict ℕ
  pub runner_generations : Dict Value
  pub episodes_collected : Value
  pub episodes_committed : Value
  pub duplicate_commits : Value
  pub env_steps : Value
  pub agent_steps : Value
  pub sample_calls_started : Value
  pub sample_failures : Value
  pub commit_failures : Value
  pub runner_restarts : Value
  pub outstanding_high_watermark : Value
  pub backpressure_events : Value
  pub policy_lags : Option (List Value)

abbrev pub is_paused : RolloutGroupState → Bool
is_paused paused = true
is_paused _ = false

abbrev pub integers : Dict ℕ → Dict Value
integers = map (λ x. (x.0, int x.1))

-- the mapping that `get_checkpoint_state` returns
abbrev pub state_of : AsyncRolloutGroup → CheckpointState
state_of g = record {
  state_version = int 1;
  member_id = g.member_id;
  runner_count = int g.runner_count;
  latest_module_versions = g.latest_weights.module_versions;
  runner_generations = integers g.runner_generations;
  episodes_collected = int g.episodes_collected;
  episodes_committed = int g.episodes_committed;
  duplicate_commits = int g.duplicate_commits;
  env_steps = int g.env_steps;
  agent_steps = int g.agent_steps;
  sample_calls_started = int g.sample_calls_started;
  sample_failures = int g.sample_failures;
  commit_failures = int g.commit_failures;
  runner_restarts = int g.runner_restarts;
  outstanding_high_watermark = int g.outstanding_high_watermark;
  backpressure_events = int g.backpressure_events;
  policy_lags = some (map int g.policy_lags);
}

unfoldable pub get_checkpoint_state : AsyncRolloutGroup → Result CheckpointState
unfolding same_set
get_checkpoint_state g = do
  guard (is_paused g.state) rollout_group
  guard (nothing_pending g) rollout_group
  guard (same_set g.idle_runners (keys g.runner_generations)) rollout_group
  ok (state_of g)

-- the loop over the generations: each is one more than the one in the file
unfoldable pub restored_generations : Dict Value → Result (Dict ℕ)
unfolding non_negative
restored_generations [] = ok []
restored_generations ((r, v) ∷ d) = do
  n ← non_negative value_error v
  rest ← restored_generations d
  ok ((r, n + 1) ∷ rest)

unfoldable pub all_counts : List Value → Result (List ℕ)
unfolding non_negative
all_counts [] = ok []
all_counts (v ∷ vs) = do n ← non_negative value_error v; ns ← all_counts vs; ok (n ∷ ns)

-- `_checkpoint_window`, for integers
unfoldable pub checkpoint_window : ℕ → Option (List Value) → Result (List ℕ)
unfolding all_counts
checkpoint_window n none = raise value_error
checkpoint_window n (some vs) = do guard (leb (length vs) n) value_error; all_counts vs

-- `_restore_checkpoint_state`, of a group that was just constructed
unfoldable pub restore_checkpoint_state :
    AsyncRolloutGroup → CheckpointState → Result AsyncRolloutGroup
unfolding is_integer same_versions same_set restored_generations checkpoint_window
restore_checkpoint_state g st = do
  guard (is_integer st.state_version 1) value_error
  guard (str_eq st.member_id g.member_id) value_error
  guard (is_integer st.runner_count g.runner_count) value_error
  guard
      (same_versions (sort_by_key st.latest_module_versions)
        (sort_by_key g.latest_weights.module_versions))
      value_error
  guard (same_set (keys st.runner_generations) (keys g.runner_generations)) value_error
  generations ← restored_generations st.runner_generations
  collected ← non_negative value_error st.episodes_collected
  committed ← non_negative value_error st.episodes_committed
  duplicates ← non_negative value_error st.duplicate_commits
  env_steps ← non_negative value_error st.env_steps
  agent_steps ← non_negative value_error st.agent_steps
  started ← non_negative value_error st.sample_calls_started
  sample_failures ← non_negative value_error st.sample_failures
  commit_failures ← non_negative value_error st.commit_failures
  restarts ← non_negative value_error st.runner_restarts
  outstanding ← non_negative value_error st.outstanding_high_watermark
  events ← non_negative value_error st.backpressure_events
  lags ← checkpoint_window g.metrics_window st.policy_lags
  guard (leb committed collected) value_error
  guard (leb collected started) value_error
  ok (record g {
    episodes_collected = collected;
    episodes_committed = committed;
    duplicate_commits = duplicates;
    env_steps = env_steps;
    agent_steps = agent_steps;
    sample_calls_started = started;
    sample_failures = sample_failures;
    commit_failures = commit_failures;
    runner_restarts = restarts + g.runner_count;
    outstanding_high_watermark = outstanding;
    backpressure_events = events;
    runner_generations = generations;
    idle_runners = keys generations;
    policy_lags = lags;
  })
