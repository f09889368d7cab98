-- ===== src/Rollout/Resumed.antt =====
-- A checkpoint of a rollout group, and the group that is restored from it.
use rllib_async_runtime.Common.{
  ℕ, ◌+◌, ◌≤◌, ◌≡◌, refl, ap, String, eq_refl, true, List, [], ◌∷◌, map, some, length, length-map,
  leb, ==_refl, arith, ok, rollout_group, guard, >>=-eq-ok, ok-injective,
}
use rllib_async_runtime.Dict.{Dict, keys}
use rllib_async_runtime.Episode.Value.{is_integer, int, non_negative}
use rllib_async_runtime.Episode.Versions.{sort_by_key}
use rllib_async_runtime.Rollout.{AsyncRolloutGroup}
use rllib_async_runtime.Rollout.Weights.{same_set}
use rllib_async_runtime.Rollout.Schedule.{same_versions}
use rllib_async_runtime.Rollout.Group.{nothing_pending}
use rllib_async_runtime.Rollout.Lifecycle.{new_group}
use rllib_async_runtime.Rollout.Invariant.{IsSound}
use rllib_async_runtime.Rollout.Checkpoint.{
  CheckpointState, is_paused, get_checkpoint_state, restored_generations, all_counts,
  checkpoint_window, restore_checkpoint_state,
}

pub same_versions_refl : (v : Dict ℕ) → same_versions v v ≡ true
unfolding same_versions
same_versions_refl [] = refl
same_versions_refl ((k, n) ∷ v) = rw (eq_refl k, ==_refl n) (same_versions_refl v)

keys-integers : (d : Dict ℕ) → keys (map (λ x. (x.0, int x.1)) d) ≡ keys d
keys-integers [] = refl
keys-integers ((k, n) ∷ d) = ap (λ ks. k ∷ ks) (keys-integers d)

-- every runner once more than before
abbrev pub next_generations : Dict ℕ → Dict ℕ
next_generations = map (λ x. (x.0, x.1 + 1))

restored_generations_lem :
    (d : Dict ℕ) → restored_generations (map (λ x. (x.0, int x.1)) d) ≡ ok (next_generations d)
unfolding restored_generations non_negative
restored_generations_lem [] = refl
restored_generations_lem ((k, n) ∷ d) = rw (restored_generations_lem d)

all_counts_lem : (ns : List ℕ) → all_counts (map int ns) ≡ ok ns
unfolding all_counts non_negative
all_counts_lem [] = refl
all_counts_lem (n ∷ ns) = rw (all_counts_lem ns)

window_lem : (n : ℕ) (ns : List ℕ) → length ns ≤ n → checkpoint_window n (some (map int ns)) ≡ ok ns
unfolding checkpoint_window
window_lem n ns l =
    let fits : leb (length (map int ns)) n ≡ true = ground (arith, length-map int ns) in
    rw fits (all_counts_lem ns)

module _ (name : ℕ → String) (g : AsyncRolloutGroup) (h : IsSound g) where
  abbrev rebuilt : AsyncRolloutGroup
  rebuilt = new_group name g.limits g.latest_weights

  -- The group after the restart: the counters of the old one, each runner in its next generation and
  -- idle, each counted as restarted.
  abbrev pub resumed : AsyncRolloutGroup
  resumed = record rebuilt {
    episodes_collected = g.episodes_collected;
    episodes_committed = g.episodes_committed;
    duplicate_commits = g.duplicate_commits;
    env_steps = g.env_steps;
    agent_steps = g.agent_steps;
    sample_calls_started = g.sample_calls_started;
    sample_failures = g.sample_failures;
    commit_failures = g.commit_failures;
    runner_restarts = g.runner_restarts + g.runner_count;
    outstanding_high_watermark = g.outstanding_high_watermark;
    backpressure_events = g.backpressure_events;
    runner_generations = next_generations g.runner_generations;
    idle_runners = keys (next_generations g.runner_generations);
    policy_lags = g.policy_lags;
  }

  -- From a sound group whose runners are those that the constructor makes: a checkpoint that it gives
  -- is accepted by a new group with the same limits and weights, which resumes it.
  pub restore_checkpoint_state-get_checkpoint_state :
      (st : CheckpointState)
      → get_checkpoint_state g ≡ ok st
      → same_set (keys g.runner_generations) (keys rebuilt.runner_generations) ≡ true
      → restore_checkpoint_state rebuilt st ≡ ok resumed
  unfolding get_checkpoint_state restore_checkpoint_state is_integer non_negative
  restore_checkpoint_state-get_checkpoint_state st p q =
      let (_, _, p1) = >>=-eq-ok (guard (is_paused g.state) rollout_group) _ p in
      let (_, _, p2) = >>=-eq-ok (guard (nothing_pending g) rollout_group) _ p1 in
      let (_, _, p3) =
        >>=-eq-ok (guard (same_set g.idle_runners (keys g.runner_generations)) rollout_group) _
          p2 in
      let fits : leb g.episodes_committed g.episodes_collected ≡ true =
        ground (arith, h.committed) in
      let enough : leb g.episodes_collected g.sample_calls_started ≡ true =
        ground (arith, h.collected) in
      rw (← ok-injective p3) (
        rw (
          eq_refl g.member_id,
          ==_refl g.runner_count,
          same_versions_refl (sort_by_key g.latest_weights.module_versions),
          keys-integers g.runner_generations,
          q,
          restored_generations_lem g.runner_generations,
          window_lem g.metrics_window g.policy_lags h.window,
          fits,
          enough,
        ))
