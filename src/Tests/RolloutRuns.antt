-- ===== src/Tests/RolloutRuns.antt =====
-- A rollout group of two runners at concrete inputs, with names that count in ones.
use rllib_async_runtime.Common.{
  ℕ, zero, suc, ◌≤◌, ◌<◌, ◌≡◌, ◌⊎◌, refl, ap, String, true, false, some, [], ◌∷◌, ok,
}
use rllib_async_runtime.Dict.{get, lookup, tally}
use rllib_async_runtime.Episode.Value.{int, positive, non_negative}
use rllib_async_runtime.Episode.Envelope.{EpisodeEnvelope}
use rllib_async_runtime.Replay.{CommitAck}
use rllib_async_runtime.Rollout.{running, Limits, AsyncRolloutGroup}
use rllib_async_runtime.Rollout.Weights.{
  WeightsDescriptor, listed, all_listed, same_set, any_below, compare_publication,
  accept_weight_publication,
}
use rllib_async_runtime.Rollout.EpisodeId.{
  has_slash, path_segment, joined, make_episode_id, make_episode_id-injective,
}
use rllib_async_runtime.Rollout.Schedule.{
  outstanding, relieve_backpressure_if_due, same_versions, holds_versions, call_runner, call_idle,
  press_if_full, schedule_available,
}
use rllib_async_runtime.Rollout.Group.{
  sample_failed, sampled, commit_failed, acknowledged, Arrival, find_call, drop_call, append_within,
  largest_lag, policy_lag, check_sample, finish_sample, check_commit, finish_commit, finish_found,
  finish_arrival, finish_arrivals, poll,
}
use rllib_async_runtime.Rollout.Lifecycle.{new_group, run, start_from, start, pause_from, pause}
use rllib_async_runtime.Rollout.Invariant.{IsSound}
use rllib_async_runtime.Rollout.Reach.{
  Reachable, built, calls, starts, pauses, polls, Reachable-IsSound,
}
use rllib_async_runtime.Rollout.Backpressure.{schedule_available_fills}
use rllib_async_runtime.Rollout.Publication.{IsAtLeast, accept_weight_publication-true}
use rllib_async_runtime.Rollout.Checkpoint.{
  state_of, get_checkpoint_state, restore_checkpoint_state,
}
use rllib_async_runtime.Rollout.Resumed.{resumed, restore_checkpoint_state-get_checkpoint_state}
use rllib_async_runtime.Tests.Samples.{first}

-- What a test has to open to run the group.
group_runs : Unit {0}
unfolding positive non_negative listed all_listed same_set any_below compare_publication
    accept_weight_publication relieve_backpressure_if_due same_versions holds_versions call_runner
    call_idle press_if_full schedule_available find_call drop_call append_within largest_lag
    policy_lag check_sample finish_sample check_commit finish_commit finish_found finish_arrival
    finish_arrivals poll run start_from pause_from get_checkpoint_state tally get lookup
group_runs = tt

unary : ℕ → String
unary zero = ""
unary (suc n) = String.◌∷◌ "1" (unary n)

unary-injective : (m n : ℕ) → unary m ≡ unary n → m ≡ n
unfolding unary
unary-injective zero zero h = refl
unary-injective zero (suc n) h = cc
unary-injective (suc m) zero h = cc
unary-injective (suc m) (suc n) h = ap suc (unary-injective m n (cc))

unary_plain : (n : ℕ) → has_slash (unary n) ≡ false
unfolding unary has_slash
unary_plain zero = refl
unary_plain (suc n) = unary_plain n

make_episode_id-injective_example :
    (◌≡◌ {A = String} "m" "m") × (◌≡◌ {A = String} "r" "r") × (int 1 ≡ int 1) × (int 2 ≡ int 2)
unfolding make_episode_id path_segment has_slash non_negative joined unary
make_episode_id-injective_example =
    make_episode_id-injective unary unary-injective unary_plain "m" "r" "m" "r" (int 1) (int 2)
      (int 1) (int 2) {k = "m/r/1/11"} refl refl

abbrev weights : WeightsDescriptor
weights = record {
  member_id = "member-0";
  module_versions = ("default_policy", 4) ∷ [];
  learner_updates = 9;
  state_ids = some ("default_policy" ∷ []);
}

abbrev newer : WeightsDescriptor
newer = record weights { module_versions = ("default_policy", 5) ∷ []; learner_updates = 10 }

accept_weight_publication-true_example :
    (◌≡◌ {A = String} "member-0" "member-0")
    × IsAtLeast ("default_policy" ∷ []) newer.module_versions weights.module_versions
    × ((m : String) × (tally weights.module_versions m < tally newer.module_versions m))
    × (9 ≤ 10)
unfolding group_runs
accept_weight_publication-true_example =
    accept_weight_publication-true weights newer "member-0" ("default_policy" ∷ []) refl

abbrev limits : Limits
limits = record {
  member_id = "member-0";
  runner_count = 2;
  high_watermark = 1;
  low_watermark = 0;
  metrics_window = 3;
}

abbrev fresh_group : AsyncRolloutGroup
fresh_group = new_group unary limits weights

abbrev failing : Arrival
failing = record {
  call = 0;
  sample_outcome = sample_failed;
  submits = true;
  commit_outcome = commit_failed;
}

-- started, with one call for two runners, and this call failed
abbrev stalled : AsyncRolloutGroup
stalled = (poll true (int 1) (failing ∷ []) (start fresh_group).1).1

reach_stalled : Reachable unary limits weights stalled
reach_stalled = calls (calls built starts) (polls true (int 1) (failing ∷ []))

Reachable-IsSound_example : IsSound stalled
Reachable-IsSound_example = Reachable-IsSound unary unary-injective limits weights reach_stalled

-- one call, for two runners
abbrev full_group : AsyncRolloutGroup
full_group = (start fresh_group).1

abbrev ready_group : AsyncRolloutGroup
ready_group = record fresh_group { state = running }

schedule_available_fills_example :
    ((schedule_available ready_group).idle_runners ≡ [])
    ⊎ ((schedule_available ready_group).high_watermark
        ≤ outstanding (schedule_available ready_group))
      × ((schedule_available ready_group).backpressured ≡ true)
schedule_available_fills_example = schedule_available_fills ready_group refl refl

abbrev episode_of : String → EpisodeEnvelope
episode_of r = record first { runner_id = r }

abbrev ack : CommitAck
ack = record {
  cursor = record { store_generation = "g"; mutation_seq = 1 };
  committed = true;
  duplicate = false;
  evicted_episode_ids = [];
}

abbrev arrival : ℕ → Arrival
arrival n = record {
  call = n;
  sample_outcome = sampled (episode_of "");
  submits = true;
  commit_outcome = acknowledged ack;
}

abbrev single : Limits
single = record limits { runner_count = 1 }

-- one runner, paused during its episode; the episode and its commit arrive
abbrev drained : AsyncRolloutGroup
drained =
    (poll true (int 1) (arrival 1 ∷ [])
      (poll true (int 1) (arrival 0 ∷ []) (pause (start (new_group unary single weights)).1).1).1).1

reach_drained : Reachable unary single weights drained
reach_drained =
    calls (calls (calls (calls built starts) pauses) (polls true (int 1) (arrival 0 ∷ [])))
      (polls true (int 1) (arrival 1 ∷ []))

drained-IsSound : IsSound drained
drained-IsSound = Reachable-IsSound unary unary-injective single weights reach_drained

restore_checkpoint_state-get_checkpoint_state_example :
    restore_checkpoint_state
      (new_group unary drained.limits drained.latest_weights)
      (state_of drained)
    ≡ ok (resumed unary drained drained-IsSound)
unfolding group_runs unary
restore_checkpoint_state-get_checkpoint_state_example =
    restore_checkpoint_state-get_checkpoint_state unary drained drained-IsSound (state_of drained)
      refl refl
