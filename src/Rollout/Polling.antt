-- ===== src/Rollout/Polling.antt =====
-- `poll` keeps the invariant for any calls that are ready and however they ended.
use rllib_async_runtime.Common.{
  ℕ, ◌+◌, ◌<◌, ◌≡◌, inl, inr, refl, String, Bool, true, false, Option, none, some, Option-cases,
  List, [], ◌∷◌, length, arith, if_ind, if◌then◌else◌, value_error, rollout_group, Result, ok,
  raise,
}
use rllib_async_runtime.Episode.Value.{Value, positive}
use rllib_async_runtime.Replay.{CommitAck}
use rllib_async_runtime.Rollout.{RolloutCompletion, PendingCommit, AsyncRolloutGroup}
use rllib_async_runtime.Rollout.Action.{Action, after, pure, require, lift}
use rllib_async_runtime.Rollout.Schedule.{schedule_available}
use rllib_async_runtime.Rollout.Group.{
  CommitOutcome, commit_failed, commit_invalid, acknowledged, Arrival, find_call, drop_call,
  finish_sample, count_ack, check_commit, finish_commit, finish_found, finish_arrival,
  finish_arrivals, is_pollable, nothing_pending, poll,
}
use rllib_async_runtime.Rollout.Invariant.{IsSound}
use rllib_async_runtime.Rollout.Keeps.{
  relieve_backpressure_if_due-IsSound, schedule_available-IsSound,
}
use rllib_async_runtime.Rollout.Arrivals.{
  Keeps, >>=-Keeps, require-Keeps, length-drop_call, fail_commit-IsSound, finish_sample-IsSound,
}

-- A group whose acknowledgement is not yet counted: one episode more was collected than is accounted.
record IsAwaiting (g : AsyncRolloutGroup) : Type 0 where
  sound : IsSound g
  uncounted : g.episodes_committed + length g.pending_commits < g.episodes_collected

count_ack-IsSound :
    (ack : CommitAck) (g : AsyncRolloutGroup) → IsAwaiting g → IsSound (count_ack ack g)
count_ack-IsSound ack g h = record {
  bounded = h.sound.bounded;
  single = h.sound.single;
  collected = h.sound.collected;
  committed = ground (arith, h.uncounted);
  pressed = h.sound.pressed;
  window = h.sound.window;
}

check_commit-IsSound :
    (o : CommitOutcome) (g : AsyncRolloutGroup) → IsAwaiting g → IsSound (check_commit o g).1
unfolding check_commit
check_commit-IsSound commit_failed g h = fail_commit-IsSound g h.sound
check_commit-IsSound commit_invalid g h = fail_commit-IsSound g h.sound
check_commit-IsSound (acknowledged ack) g h = count_ack-IsSound ack g h

popped-IsAwaiting :
    (g : AsyncRolloutGroup) (c : ℕ) (p : PendingCommit)
    → find_call g.pending_commits c ≡ some p
    → IsSound g
    → IsAwaiting (record g { pending_commits = drop_call g.pending_commits c })
popped-IsAwaiting g c p q h =
    let l = length-drop_call g.pending_commits c p q in
    record {
      sound = record {
        bounded = omega (arith, l, h.bounded);
        single = h.single;
        collected = h.collected;
        committed = omega (arith, l, h.committed);
        pressed = h.pressed;
        window = h.window;
      };
      uncounted = omega (arith, l, h.committed);
    }

-- The completion is built after the state is final.
completed :
    (p : PendingCommit) (x : Result CommitAck × AsyncRolloutGroup)
    → IsSound x.1
    → IsSound
        (after x (λ ack. pure {A = RolloutCompletion} (record {
          episode = p.episode;
          acknowledgement = ack;
          policy_version_lag = p.policy_version_lag;
        }))).1
completed p (raise e, g) h = h
completed p (ok ack, g) h = h

finish_commit-Keeps : (a : Arrival) → Keeps (finish_commit a)
unfolding finish_commit
finish_commit-Keeps a g h = elim (Option-cases (find_call g.pending_commits a.call)) [
  | inl q ↦ rw (finish_commit, q) h
  | inr (p, q) ↦
      rw (finish_commit, q)
        (completed p _ (check_commit-IsSound a.commit_outcome _ (popped-IsAwaiting g a.call p q h)))
]

-- a sample ends with no completion
closing :
    (x : Result (Unit {0}) × AsyncRolloutGroup)
    → IsSound x.1
    → IsSound (after x (λ u. pure {A = List RolloutCompletion} [])).1
closing (raise e, k) s = s
closing (ok u, k) s = s

finish_found-IsSound :
    (o : Option String) (a : Arrival) (g : AsyncRolloutGroup)
    → find_call g.pending_samples a.call ≡ o
    → IsSound g
    → IsSound (finish_found o a g).1
unfolding finish_found
finish_found-IsSound (some r) a g q h =
    closing (finish_sample r a g) (finish_sample-IsSound r a g q h)
finish_found-IsSound none a g q h =
    >>=-Keeps (finish_commit a) _ (finish_commit-Keeps a) (λ c k s. s) g h

finish_arrival-Keeps : (a : Arrival) → Keeps (finish_arrival a)
unfolding finish_arrival
finish_arrival-Keeps a g h = finish_found-IsSound _ a g refl h

finish_arrivals-Keeps : (arrivals : List Arrival) → Keeps (finish_arrivals arrivals)
unfolding finish_arrivals
finish_arrivals-Keeps [] g h = h
finish_arrivals-Keeps (a ∷ arrivals) g h =
    >>=-Keeps (finish_arrival a) _ (finish_arrival-Keeps a)
      (λ c k s.
        >>=-Keeps (finish_arrivals arrivals) _ (finish_arrivals-Keeps arrivals) (λ cs j t. t) _
          (schedule_available-IsSound _ (relieve_backpressure_if_due-IsSound k s)))
      g h

pub if-Keeps {ℓ} :
    {A : Type ℓ} (b : Bool) (m n : Action A) → Keeps m → Keeps n → Keeps (if b then m else n)
if-Keeps true m n h k = h
if-Keeps false m n h k = k

-- the scheduling of a group with nothing pending
started :
    (g : AsyncRolloutGroup)
    → IsSound g
    → IsSound (if nothing_pending g then schedule_available g else g)
started g h = if_ind IsSound (nothing_pending g) (λ _. schedule_available-IsSound g h) (λ _. h)

pub poll-Keeps :
    (timeout_valid : Bool) (max_events : Value) (arrivals : List Arrival)
    → Keeps (poll timeout_valid max_events arrivals)
unfolding poll
poll-Keeps timeout_valid max_events arrivals g =
    >>=-Keeps (require (is_pollable g.state) rollout_group) _ (require-Keeps _ _)
      (λ _. >>=-Keeps (require timeout_valid value_error) _ (require-Keeps _ _) (λ _.
        >>=-Keeps (lift (positive value_error max_events)) _ (λ k s. s)
          (λ _ k s.
            let k' = if nothing_pending k then schedule_available k else k in
            if-Keeps (nothing_pending k') (pure []) (finish_arrivals arrivals) (λ j t. t)
              (finish_arrivals-Keeps arrivals) k' (started k s))))
      g
