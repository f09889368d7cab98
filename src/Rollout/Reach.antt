-- ===== src/Rollout/Reach.antt =====
-- What a new group reaches by calls of its methods, with any answers of Ray.
use rllib_async_runtime.Common.{
  ℕ, zero, suc, ◌≤◌, ◌<◌, ◌≡◌, inl, inr, refl, String, str_eq, eq_iff, Bool, List, arith, subst,
  Bool-cases,
}
use rllib_async_runtime.Dict.Laws.{str_eq_ne}
use rllib_async_runtime.Episode.Value.{Value}
use rllib_async_runtime.Rollout.{Limits, AsyncRolloutGroup}
use rllib_async_runtime.Rollout.Weights.{WeightsDescriptor}
use rllib_async_runtime.Rollout.Group.{Arrival, poll}
use rllib_async_runtime.Rollout.Lifecycle.{
  runner_ids, new_group, start, pause, resume, Turn, drain, update_weights, restart_runner,
  reset_reward_metrics, stop,
}
use rllib_async_runtime.Rollout.Invariant.{occurrences, IsSound}
use rllib_async_runtime.Rollout.Polling.{poll-Keeps}
use rllib_async_runtime.Rollout.Steps.{
  start_from-Keeps, pause_from-Keeps, resume_from-Keeps, drain-Keeps, update_weights-Keeps,
  restart_runner-Keeps, reset_reward_metrics-Keeps, stop-IsSound,
}

pub data Call : AsyncRolloutGroup → AsyncRolloutGroup → Type 0 where
  starts : {g : AsyncRolloutGroup} → Call g (start g).1
  pauses : {g : AsyncRolloutGroup} → Call g (pause g).1
  resumes : {g : AsyncRolloutGroup} → Call g (resume g).1
  polls :
      {g : AsyncRolloutGroup} (timeout_valid : Bool) (max_events : Value) (arrivals : List Arrival)
      → Call g (poll timeout_valid max_events arrivals g).1
  drains :
      {g : AsyncRolloutGroup} (timeout_valid : Bool) (turns : List Turn)
      → Call g (drain timeout_valid turns g).1
  updates : {g : AsyncRolloutGroup} (w : WeightsDescriptor) → Call g (update_weights w g).1
  restarts : {g : AsyncRolloutGroup} (runner_id : String) → Call g (restart_runner runner_id g).1
  resets : {g : AsyncRolloutGroup} → Call g (reset_reward_metrics g).1
  stops : {g : AsyncRolloutGroup} → Call g (stop g)

pub data Reachable (name : ℕ → String) (limits : Limits) (w : WeightsDescriptor)
    : AsyncRolloutGroup → Type 0 where
  built : Reachable name limits w (new_group name limits w)
  calls :
      {g g' : AsyncRolloutGroup}
      → Reachable name limits w g
      → Call g g'
      → Reachable name limits w g'

pub Call-IsSound : {g g' : AsyncRolloutGroup} → Call g g' → IsSound g → IsSound g'
Call-IsSound (starts {g}) h = start_from-Keeps g.state g h
Call-IsSound (pauses {g}) h = pause_from-Keeps g.state g h
Call-IsSound (resumes {g}) h = resume_from-Keeps g.state g h
Call-IsSound (polls {g} v m a) h = poll-Keeps v m a g h
Call-IsSound (drains {g} v t) h = drain-Keeps v t g h
Call-IsSound (updates {g} w) h = update_weights-Keeps w g h
Call-IsSound (restarts {g} r) h = restart_runner-Keeps r g h
Call-IsSound (resets {g}) h = reset_reward_metrics-Keeps g h
Call-IsSound (stops {g}) h = stop-IsSound g h

module _ (name : ℕ → String) (injective : (i j : ℕ) → name i ≡ name j → i ≡ j) where
  -- names from an index on are not among the earlier ones
  occurrences_later : (i n m : ℕ) → i < m → occurrences (name i) (runner_ids name n m) ≡ 0
  occurrences_later i zero m l = omega arith
  occurrences_later i (suc n) m l =
      rw (str_eq_ne (name m) (name i) (λ e. absurd (omega (arith, l, injective m i e))))
        (omega (arith, occurrences_later i n (suc m) (omega arith)))

  occurrences-runner_ids : (k : String) (n m : ℕ) → occurrences k (runner_ids name n m) ≤ 1
  occurrences-runner_ids k zero m = omega arith
  occurrences-runner_ids k (suc n) m = elim (Bool-cases (str_eq (name m) k)) [
    | inl e ↦
        let same : name m ≡ k = (eq_iff (name m) k).0 e in
        rw e (
          omega (
            arith,
            subst (λ j. occurrences j (runner_ids name n (suc m)) ≡ 0) same
                (occurrences_later m n (suc m) (omega arith)),
          ))
    | inr e ↦ rw e (omega (arith, occurrences-runner_ids k n (suc m)))
  ]

  new_group-IsSound : (limits : Limits) (w : WeightsDescriptor) → IsSound (new_group name limits w)
  new_group-IsSound limits w = record {
    bounded = omega arith;
    single = λ k. omega (arith, occurrences-runner_ids k limits.runner_count 0);
    collected = omega arith;
    committed = omega arith;
    pressed = inl refl;
    window = omega arith;
  }

  -- Where the runners have distinct names: after any calls of its methods, with any answers of Ray,
  -- also where a method raised, a group has at most as many calls outstanding as the high watermark,
  -- a runner is idle or in one call or neither, no more episodes are committed or being committed than
  -- were collected, nor more collected or being collected than were started, only a running group
  -- is under backpressure, and the window of lags keeps its length.
  pub Reachable-IsSound :
      (limits : Limits) (w : WeightsDescriptor) {g : AsyncRolloutGroup}
      → Reachable name limits w g
      → IsSound g
  Reachable-IsSound limits w built = new_group-IsSound limits w
  Reachable-IsSound limits w (calls r c) = Call-IsSound c (Reachable-IsSound limits w r)
