-- ===== src/Rollout/Group.antt =====
-- The methods of `AsyncRolloutGroup`. What Ray answers is given: which calls are ready and how each
-- ended. Creating and killing an actor is Ray's; a new actor holds the latest weights.
use rllib_async_runtime.Common.{
  ℕ, ◌+◌, ◌-◌, String, str_eq, Bool, true, false, ◌&&◌, Option, none, some, List, [], ◌∷◌, ◌++◌,
  length, drop, max, ◌==◌, if◌then◌else◌, Result, ok, raise, value_error, key_error, rollout_group,
}
use rllib_async_runtime.Dict.{Dict, tally, keys, lookup}
use rllib_async_runtime.Episode.Value.{Value, positive}
use rllib_async_runtime.Episode.Envelope.{EpisodeEnvelope}
use rllib_async_runtime.Replay.{CommitAck}
use rllib_async_runtime.Rollout.{
  RolloutGroupState, running, paused, halted, RolloutCompletion, PendingCommit, AsyncRolloutGroup,
}
use rllib_async_runtime.Rollout.Weights.{WeightsDescriptor, same_set, any_below}
use rllib_async_runtime.Rollout.Action.{
  Action, ◌>>=◌, ◌>>◌, pure, throw, get, modify, require, lift,
}
use rllib_async_runtime.Rollout.Schedule.{is_empty, relieve_backpressure_if_due, schedule_available}

-- how a call of `collect_episode` ended: an exception, something that is no result, a result
pub data SampleOutcome : Type 0 where
  sample_failed sample_invalid : SampleOutcome
  sampled : EpisodeEnvelope → SampleOutcome

pub data CommitOutcome : Type 0 where
  commit_failed commit_invalid : CommitOutcome
  acknowledged : CommitAck → CommitOutcome

-- A call that is ready; `submits` tells whether a commit can be sent when its episode arrives.
pub record Arrival : Type 0 where
  pub call : ℕ
  pub sample_outcome : SampleOutcome
  pub submits : Bool
  pub commit_outcome : CommitOutcome

module _ {ℓ} {A : Type ℓ} where
  -- the value of a pending call, and the pending calls without it
  unfoldable pub find_call : List (ℕ × A) → ℕ → Option A
  find_call [] c = none
  find_call ((d, a) ∷ calls) c = if d == c then some a else find_call calls c

  unfoldable pub drop_call : List (ℕ × A) → ℕ → List (ℕ × A)
  drop_call [] c = []
  drop_call ((d, a) ∷ calls) c = if d == c then calls else (d, a) ∷ drop_call calls c

-- `append` to a `deque(maxlen=n)`
unfoldable pub append_within : ℕ → List ℕ → ℕ → List ℕ
append_within n xs x = drop (length xs + 1 - n) (xs ++ x ∷ [])

-- `max(latest[m] - behavior[m] for m in latest)`
unfoldable pub largest_lag : Dict ℕ → Dict ℕ → ℕ
largest_lag [] behavior = 0
largest_lag ((m, n) ∷ latest) behavior = max (n - tally behavior m) (largest_lag latest behavior)

-- `_policy_lag`
unfoldable pub policy_lag : WeightsDescriptor → EpisodeEnvelope → Result ℕ
unfolding same_set any_below largest_lag
policy_lag w e =
    if same_set (keys e.behavior_versions) (keys w.module_versions)
    then (if any_below (keys w.module_versions) w.module_versions e.behavior_versions
        then raise rollout_group
        else ok (largest_lag w.module_versions e.behavior_versions))
    else raise rollout_group

abbrev pub fail_sample : AsyncRolloutGroup → AsyncRolloutGroup
fail_sample g = record g { sample_failures = g.sample_failures + 1 }

abbrev pub fail_commit : AsyncRolloutGroup → AsyncRolloutGroup
fail_commit g = record g { commit_failures = g.commit_failures + 1 }

-- the checks on what a runner returned
unfoldable pub check_sample : String → SampleOutcome → Action EpisodeEnvelope
check_sample runner_id sample_failed = modify fail_sample >> throw rollout_group
check_sample runner_id sample_invalid = modify fail_sample >> throw rollout_group
check_sample runner_id (sampled e) = do
  (if str_eq e.runner_id runner_id then pure tt else (modify fail_sample >> throw rollout_group))
  g ← get
  expected ← lift (lookup g.runner_generations runner_id)
  if e.runner_generation == expected then pure e else (modify fail_sample >> throw rollout_group)

-- the counters of an episode that arrived; its runner is idle again
abbrev pub collect : String → EpisodeEnvelope → ℕ → AsyncRolloutGroup → AsyncRolloutGroup
unfolding append_within
collect runner_id e lag g = record g {
  episodes_collected = g.episodes_collected + 1;
  env_steps = g.env_steps + e.env_steps;
  agent_steps = g.agent_steps + e.agent_steps;
  episodes_since_metric_reset = g.episodes_since_metric_reset + 1;
  policy_lags = append_within g.metrics_window g.policy_lags lag;
  idle_runners = g.idle_runners ++ runner_id ∷ [];
}

abbrev pub submit_commit : PendingCommit → AsyncRolloutGroup → AsyncRolloutGroup
submit_commit p g = record g {
  calls = g.calls + 1;
  pending_commits = g.pending_commits ++ (g.calls, p) ∷ [];
}

-- `_finish_sample`, for the runner of the pending call
unfoldable pub finish_sample : String → Arrival → Action (Unit {0})
unfolding drop_call check_sample policy_lag collect
finish_sample runner_id a = do
  modify (λ g. record g { pending_samples = drop_call g.pending_samples a.call })
  e ← check_sample runner_id a.sample_outcome
  g ← get
  lag ← lift (policy_lag g.latest_weights e)
  modify (collect runner_id e lag)
  if a.submits
      then modify
          (submit_commit (record { runner_id = runner_id; episode = e; policy_version_lag = lag }))
      else (modify fail_commit >> throw rollout_group)

abbrev pub count_ack : CommitAck → AsyncRolloutGroup → AsyncRolloutGroup
count_ack ack g = record g {
  episodes_committed = if ack.committed then g.episodes_committed + 1 else g.episodes_committed;
  duplicate_commits = if ack.duplicate then g.duplicate_commits + 1 else g.duplicate_commits;
}

unfoldable pub check_commit : CommitOutcome → Action CommitAck
check_commit commit_failed = modify fail_commit >> throw rollout_group
check_commit commit_invalid = modify fail_commit >> throw rollout_group
check_commit (acknowledged ack) = modify (count_ack ack) >> pure ack

abbrev pub found : Option PendingCommit → Action PendingCommit
found none = throw key_error
found (some p) = pure p

-- `_finish_commit`; popping a call that is not pending raises
unfoldable pub finish_commit : Arrival → Action RolloutCompletion
unfolding find_call drop_call check_commit
finish_commit a = do
  g ← get
  pending ← found (find_call g.pending_commits a.call)
  modify (λ h. record h { pending_commits = drop_call h.pending_commits a.call })
  ack ← check_commit a.commit_outcome
  pure (record {
    episode = pending.episode;
    acknowledgement = ack;
    policy_version_lag = pending.policy_version_lag;
  })

-- `if ref in self._pending_samples`, with what it finds
unfoldable pub finish_found : Option String → Arrival → Action (List RolloutCompletion)
unfolding finish_sample finish_commit
finish_found (some runner_id) a = finish_sample runner_id a >> pure []
finish_found none a = finish_commit a >>= λ c. pure (c ∷ [])

unfoldable pub finish_arrival : Arrival → Action (List RolloutCompletion)
unfolding find_call finish_found
finish_arrival a g = finish_found (find_call g.pending_samples a.call) a g

-- the loop over the calls that are ready
unfoldable pub finish_arrivals : List Arrival → Action (List RolloutCompletion)
unfolding finish_arrival relieve_backpressure_if_due schedule_available
finish_arrivals [] = pure []
finish_arrivals (a ∷ arrivals) = do
  c ← finish_arrival a
  modify relieve_backpressure_if_due
  modify schedule_available
  cs ← finish_arrivals arrivals
  pure (c ++ cs)

abbrev pub is_pollable : RolloutGroupState → Bool
is_pollable running = true
is_pollable paused = true
is_pollable _ = false

abbrev pub is_stopped : RolloutGroupState → Bool
is_stopped halted = true
is_stopped _ = false

abbrev pub nothing_pending : AsyncRolloutGroup → Bool
nothing_pending g = is_empty g.pending_samples && is_empty g.pending_commits

-- `poll`: the time-out is valid or not; `arrivals` is what `ray.wait` finds ready
unfoldable pub poll :
    (timeout_valid : Bool) → (max_events : Value) → List Arrival → Action (List RolloutCompletion)
unfolding finish_arrivals schedule_available
poll timeout_valid max_events arrivals = do
  g ← get
  require (is_pollable g.state) rollout_group
  require timeout_valid value_error
  n ← lift (positive value_error max_events)
  modify (λ h. if nothing_pending h then schedule_available h else h)
  h ← get
  if nothing_pending h then pure [] else finish_arrivals arrivals
