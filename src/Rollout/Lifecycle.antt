-- ===== src/Rollout/Lifecycle.antt =====
-- The constructor of `AsyncRolloutGroup` and the methods that change its state: start, pause, resume,
-- drain, restart of a runner, new weights, stop. The text of a runner's number is Python's: it is an
-- argument.

use rllib_async_runtime.Common.{
  ℕ, zero, suc, ◌+◌, String, str_eq, Bool, true, false, not, Option, none, some, List, [], ◌∷◌,
  ◌++◌, map, if◌then◌else◌, Result, ok, raise, value_error, rollout_group, timeout_error, max,
}
use rllib_async_runtime.Dict.{put, lookup}
use rllib_async_runtime.Episode.Value.{int}
use rllib_async_runtime.Rollout.{
  RolloutGroupState, created, running, paused, halted, RolloutCompletion, Limits, AsyncRolloutGroup,
}
use rllib_async_runtime.Rollout.Weights.{WeightsDescriptor, accept_weight_publication}
use rllib_async_runtime.Rollout.Action.{Action, ◌>>=◌, ◌>>◌, pure, get, modify, require, lift}
use rllib_async_runtime.Rollout.Schedule.{
  outstanding, relieve_backpressure_if_due, schedule_available,
}
use rllib_async_runtime.Rollout.Group.{Arrival, poll, is_stopped, nothing_pending}

-- `DEFAULT_MODULE_ID` of RLlib
abbrev pub default_modules : List String
default_modules = "default_policy" ∷ []

-- `f"runner-{index}"` for the first indices, from `index` on
abbrev pub runner_ids : (name : ℕ → String) → (count index : ℕ) → List String
runner_ids name zero index = []
runner_ids name (suc n) index = name index ∷ runner_ids name n (suc index)

-- the group after the constructor's checks
abbrev pub new_group : (name : ℕ → String) → Limits → WeightsDescriptor → AsyncRolloutGroup
new_group name limits weights = record {
  limits = limits;
  state = created;
  latest_weights = weights;
  runner_weight_versions =
      map (λ r. (r, weights.module_versions)) (runner_ids name limits.runner_count 0);
  runner_generations = map (λ r. (r, 0)) (runner_ids name limits.runner_count 0);
  idle_runners = runner_ids name limits.runner_count 0;
  pending_samples = [];
  pending_commits = [];
  calls = 0;
  episodes_collected = 0;
  episodes_committed = 0;
  duplicate_commits = 0;
  env_steps = 0;
  agent_steps = 0;
  sample_calls_started = 0;
  sample_failures = 0;
  commit_failures = 0;
  runner_restarts = 0;
  outstanding_high_watermark = 0;
  backpressure_events = 0;
  backpressured = false;
  policy_lags = [];
  episodes_since_metric_reset = 0;
}

-- a group that was not running before: scheduling begins
unfoldable pub run : Action (Unit {0})
unfolding schedule_available
run g = (ok tt, schedule_available (record g { state = running }))

-- the methods `start`, `pause` and `resume`, by the state that they find
unfoldable pub start_from : RolloutGroupState → Action (Unit {0})
unfolding run
start_from running g = (ok tt, g)
start_from halted g = (raise rollout_group, g)
start_from paused g = run g
start_from created g = run g

abbrev pub start : Action (Unit {0})
start g = start_from g.state g

unfoldable pub pause_from : RolloutGroupState → Action (Unit {0})
pause_from paused g = (ok tt, g)
pause_from running g = (ok tt, record g { backpressured = false; state = paused })
pause_from created g = (raise rollout_group, g)
pause_from halted g = (raise rollout_group, g)

abbrev pub pause : Action (Unit {0})
pause g = pause_from g.state g

unfoldable pub resume_from : RolloutGroupState → Action (Unit {0})
unfolding run
resume_from running g = (ok tt, g)
resume_from paused g = run g
resume_from created g = (raise rollout_group, g)
resume_from halted g = (raise rollout_group, g)

abbrev pub resume : Action (Unit {0})
resume g = resume_from g.state g

-- One turn of the loop of `drain`: whether the time is up, and what the poll finds ready.
pub record Turn : Type 0 where
  pub expired : Bool
  pub arrivals : List Arrival

-- the loop of `drain`, for the turns given; `none` where it goes on after them
unfoldable pub drain_turns : List Turn → Action (Option (List RolloutCompletion))
unfolding poll
drain_turns [] g = (ok (if nothing_pending g then some [] else none), g)
drain_turns (t ∷ turns) g =
    let rest : Result (Option (List RolloutCompletion)) × AsyncRolloutGroup =
      (do
        require (not t.expired) timeout_error
        cs ← poll true (int (max (outstanding g) 1)) t.arrivals
        more ← drain_turns turns
        pure (elim more [ none ↦ none | some ds ↦ some (cs ++ ds) ]))
        g in
    if nothing_pending g then (ok (some []), g) else rest

unfoldable pub drain : (timeout_valid : Bool) → List Turn → Action (Option (List RolloutCompletion))
unfolding pause_from drain_turns
drain timeout_valid turns = do pause; require timeout_valid value_error; drain_turns turns

unfoldable pub update_weights : WeightsDescriptor → Action Bool
unfolding accept_weight_publication
update_weights weights = do
  g ← get
  require (not (is_stopped g.state)) rollout_group
  accepted ←
      lift (accept_weight_publication (some g.latest_weights) weights g.member_id default_modules)
  (if accepted then modify (λ h. record h { latest_weights = weights }) else pure tt)
  pure accepted

-- the pending samples without those of a runner
unfoldable pub cancel_runner : String → List (ℕ × String) → List (ℕ × String)
cancel_runner runner_id [] = []
cancel_runner runner_id ((c, r) ∷ calls) =
    if str_eq r runner_id
    then cancel_runner runner_id calls
    else (c, r) ∷ cancel_runner runner_id calls

unfoldable pub without : String → List String → List String
without runner_id [] = []
without runner_id (r ∷ rs) =
    if str_eq r runner_id then without runner_id rs else r ∷ without runner_id rs

-- the assignments of `restart_runner`, with those of `_new_actor`
unfoldable pub renew : String → (generation : ℕ) → AsyncRolloutGroup → AsyncRolloutGroup
unfolding cancel_runner without
renew runner_id generation g = record g {
  pending_samples = cancel_runner runner_id g.pending_samples;
  runner_generations = put g.runner_generations runner_id (generation + 1);
  runner_weight_versions = put g.runner_weight_versions runner_id g.latest_weights.module_versions;
  idle_runners = without runner_id g.idle_runners ++ runner_id ∷ [];
  runner_restarts = g.runner_restarts + 1;
}

unfoldable pub restart_runner : String → Action ℕ
unfolding renew relieve_backpressure_if_due schedule_available
restart_runner runner_id = do
  g ← get
  require (not (is_stopped g.state)) rollout_group
  generation ← lift (lookup g.runner_generations runner_id)
  modify (renew runner_id generation)
  modify relieve_backpressure_if_due
  modify schedule_available
  pure (generation + 1)

unfoldable pub reset_reward_metrics : Action (Unit {0})
reset_reward_metrics = do
  g ← get
  require (not (is_stopped g.state)) rollout_group
  modify (λ h. record h { episodes_since_metric_reset = 0 })

abbrev pub stopped_group : AsyncRolloutGroup → AsyncRolloutGroup
stopped_group g = record g {
  backpressured = false;
  pending_samples = [];
  pending_commits = [];
  idle_runners = [];
  state = halted;
}

-- a group that was stopped before has nothing left
unfoldable pub stop : AsyncRolloutGroup → AsyncRolloutGroup
stop g = if is_stopped g.state then g else stopped_group g
