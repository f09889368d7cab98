-- ===== src/Rollout/Invariant.antt =====
-- What holds of a rollout group between two calls of its methods.
use rllib_async_runtime.Common.{
  ℕ, ◌+◌, ◌≤◌, ◌≡◌, ◌⊎◌, String, str_eq, false, List, [], ◌∷◌, ◌++◌, map, length, arith,
  if◌then◌else◌,
}
use rllib_async_runtime.Rollout.{running, AsyncRolloutGroup}
use rllib_async_runtime.Rollout.Schedule.{outstanding}

-- how often a runner stands in a list
abbrev pub occurrences : String → List String → ℕ
occurrences k [] = 0
occurrences k (j ∷ js) = (if str_eq j k then 1 else 0) + occurrences k js

pub occurrences-append :
    (k : String) (xs ys : List String)
    → occurrences k (xs ++ ys) ≡ occurrences k xs + occurrences k ys
occurrences-append k [] ys = omega arith
occurrences-append k (x ∷ xs) ys = ground (arith, occurrences-append k xs ys)

-- the runners that collect an episode now
abbrev pub collecting : List (ℕ × String) → List String
collecting = map (λ c. c.1)

-- The calls that are outstanding keep the bound; a runner is idle or in one call; the counters agree
-- with the calls that are pending; only a running group is under backpressure.
pub record IsSound (g : AsyncRolloutGroup) : Type 0 where
  pub bounded : outstanding g ≤ g.high_watermark
  pub single :
      (k : String) → occurrences k g.idle_runners + occurrences k (collecting g.pending_samples) ≤ 1
  pub collected : g.episodes_collected + length g.pending_samples ≤ g.sample_calls_started
  pub committed : g.episodes_committed + length g.pending_commits ≤ g.episodes_collected
  pub pressed : (g.backpressured ≡ false) ⊎ (g.state ≡ running)
  pub window : length g.policy_lags ≤ g.metrics_window
