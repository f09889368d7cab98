-- ===== src/Rollout/Steps.antt =====
-- Every method of the group, in any order and with any answers of Ray.
use rllib_async_runtime.Common.{
  ℕ, ◌≤◌, ◌≡◌, inl, inr, refl, String, str_eq, eq_iff, Bool, true, false, not, Option, some, List,
  [], ◌∷◌, length, arith, if◌then◌else◌, Result, value_error, rollout_group, timeout_error, if_ind,
}
use rllib_async_runtime.Dict.{lookup}
use rllib_async_runtime.Rollout.{
  RolloutGroupState, created, running, paused, halted, RolloutCompletion, AsyncRolloutGroup,
}
use rllib_async_runtime.Rollout.Weights.{WeightsDescriptor, accept_weight_publication}
use rllib_async_runtime.Rollout.Action.{pure, modify, require, lift}
use rllib_async_runtime.Rollout.Group.{poll, is_stopped, nothing_pending}
use rllib_async_runtime.Rollout.Lifecycle.{
  default_modules, run, start_from, pause_from, resume_from, Turn, drain_turns, drain,
  update_weights, cancel_runner, without, renew, restart_runner, reset_reward_metrics, stop,
}
use rllib_async_runtime.Rollout.Invariant.{occurrences, occurrences-append, collecting, IsSound}
use rllib_async_runtime.Rollout.Keeps.{
  relieve_backpressure_if_due-IsSound, schedule_available-IsSound,
}
use rllib_async_runtime.Rollout.Arrivals.{Keeps, >>=-Keeps, require-Keeps}
use rllib_async_runtime.Rollout.Polling.{if-Keeps, poll-Keeps}

-- another state, without backpressure
restated-IsSound :
    (g : AsyncRolloutGroup) (q : RolloutGroupState)
    → IsSound g
    → IsSound (record g { backpressured = false; state = q })
restated-IsSound g q h = record {
  bounded = h.bounded;
  single = h.single;
  collected = h.collected;
  committed = h.committed;
  pressed = inl refl;
  window = h.window;
}

running-IsSound : (g : AsyncRolloutGroup) → IsSound g → IsSound (record g { state = running })
running-IsSound g h = record {
  bounded = h.bounded;
  single = h.single;
  collected = h.collected;
  committed = h.committed;
  pressed = inr refl;
  window = h.window;
}

run-Keeps : Keeps run
unfolding run
run-Keeps g h = schedule_available-IsSound _ (running-IsSound g h)

pub start_from-Keeps : (q : RolloutGroupState) → Keeps (start_from q)
unfolding start_from
start_from-Keeps running g h = h
start_from-Keeps halted g h = h
start_from-Keeps paused g h = run-Keeps g h
start_from-Keeps created g h = run-Keeps g h

pub pause_from-Keeps : (q : RolloutGroupState) → Keeps (pause_from q)
unfolding pause_from
pause_from-Keeps running g h = restated-IsSound g paused h
pause_from-Keeps _ g h = h

pub resume_from-Keeps : (q : RolloutGroupState) → Keeps (resume_from q)
unfolding resume_from
resume_from-Keeps paused g h = run-Keeps g h
resume_from-Keeps _ g h = h

drain_turns-Keeps : (turns : List Turn) → Keeps (drain_turns turns)
unfolding drain_turns
drain_turns-Keeps [] g h = h
drain_turns-Keeps (t ∷ turns) g h =
    if_ind {A = Result (Option (List RolloutCompletion)) × AsyncRolloutGroup} (λ x. IsSound x.1)
      (nothing_pending g) (λ _. h)
      (λ _.
        >>=-Keeps (require (not t.expired) timeout_error) _ (require-Keeps _ _)
          (λ _.
            >>=-Keeps (poll true _ t.arrivals) _ (poll-Keeps true _ t.arrivals)
              (λ cs. >>=-Keeps (drain_turns turns) _ (drain_turns-Keeps turns) (λ more k s. s)))
          g h)

pub drain-Keeps : (timeout_valid : Bool) (turns : List Turn) → Keeps (drain timeout_valid turns)
unfolding drain
drain-Keeps timeout_valid turns g h =
    >>=-Keeps (pause_from g.state) _ (pause_from-Keeps g.state)
      (λ _.
        >>=-Keeps (require timeout_valid value_error) _ (require-Keeps _ _)
          (λ _. drain_turns-Keeps turns))
      g h

weighted-IsSound :
    (g : AsyncRolloutGroup) (w : WeightsDescriptor)
    → IsSound g
    → IsSound (record g { latest_weights = w })
weighted-IsSound g w h = record {
  bounded = h.bounded;
  single = h.single;
  collected = h.collected;
  committed = h.committed;
  pressed = h.pressed;
  window = h.window;
}

pub update_weights-Keeps : (w : WeightsDescriptor) → Keeps (update_weights w)
unfolding update_weights
update_weights-Keeps w g h =
    >>=-Keeps (require (not (is_stopped g.state)) rollout_group) _ (require-Keeps _ _)
      (λ _.
        >>=-Keeps
          (lift (accept_weight_publication (some g.latest_weights) w g.member_id default_modules)) _
          (λ k s. s)
          (λ accepted.
            >>=-Keeps (if accepted then modify (λ k. record k { latest_weights = w }) else pure tt)
              _ (if-Keeps accepted _ _ (λ k s. weighted-IsSound k w s) (λ k s. s)) (λ _ k s. s)))
      g h

occurrences-without :
    (r k : String) (xs : List String)
    → occurrences k (without r xs) ≡ (if str_eq r k then 0 else occurrences k xs)
unfolding without
occurrences-without r k [] = ground arith
occurrences-without r k (x ∷ xs) =
    ground (arith, occurrences-without r k xs, eq_iff r k, eq_iff x k, eq_iff x r)

occurrences-cancel_runner :
    (r k : String) (calls : List (ℕ × String))
    → occurrences k (collecting (cancel_runner r calls))
      ≡ (if str_eq r k then 0 else occurrences k (collecting calls))
unfolding cancel_runner
occurrences-cancel_runner r k [] = ground arith
occurrences-cancel_runner r k ((c, x) ∷ calls) =
    ground (arith, occurrences-cancel_runner r k calls, eq_iff r k, eq_iff x k, eq_iff x r)

length-cancel_runner :
    (r : String) (calls : List (ℕ × String)) → length (cancel_runner r calls) ≤ length calls
unfolding cancel_runner
length-cancel_runner r [] = omega arith
length-cancel_runner r ((c, x) ∷ calls) = ground (arith, length-cancel_runner r calls)

renew-IsSound : (r : String) (n : ℕ) (g : AsyncRolloutGroup) → IsSound g → IsSound (renew r n g)
unfolding renew
renew-IsSound r n g h = record {
  bounded = omega (arith, h.bounded, length-cancel_runner r g.pending_samples);
  single = λ k. ground (
    arith,
    h.single k,
    occurrences-append k (without r g.idle_runners) (r ∷ []),
    occurrences-without r k g.idle_runners,
    occurrences-cancel_runner r k g.pending_samples,
  );
  collected = omega (arith, h.collected, length-cancel_runner r g.pending_samples);
  committed = h.committed;
  pressed = h.pressed;
  window = h.window;
}

pub restart_runner-Keeps : (r : String) → Keeps (restart_runner r)
unfolding restart_runner
restart_runner-Keeps r g h =
    >>=-Keeps (require (not (is_stopped g.state)) rollout_group) _ (require-Keeps _ _)
      (λ _.
        >>=-Keeps (lift (lookup g.runner_generations r)) _ (λ k s. s)
          (λ n k s.
            schedule_available-IsSound _
              (relieve_backpressure_if_due-IsSound _ (renew-IsSound r n k s))))
      g h

pub reset_reward_metrics-Keeps : Keeps reset_reward_metrics
unfolding reset_reward_metrics
reset_reward_metrics-Keeps g h =
    >>=-Keeps (require (not (is_stopped g.state)) rollout_group) _ (require-Keeps _ _)
      (λ _ k s. record {
        bounded = s.bounded;
        single = s.single;
        collected = s.collected;
        committed = s.committed;
        pressed = s.pressed;
        window = s.window;
      })
      g h

pub stop-IsSound : (g : AsyncRolloutGroup) → IsSound g → IsSound (stop g)
unfolding stop
stop-IsSound g h =
    if_ind {A = AsyncRolloutGroup} IsSound (is_stopped g.state) (λ _. h)
      (λ _. record {
        bounded = omega arith;
        single = λ k. omega arith;
        collected = omega (arith, h.collected);
        committed = omega (arith, h.committed);
        pressed = inl refl;
        window = h.window;
      })
