-- ===== src/Rollout/Keeps.antt =====
-- The scheduler keeps the invariant.
use rllib_async_runtime.Common.{
  ◌<◌, ◌≡◌, inl, inr, refl, ◌∙◌, String, Bool, true, not, ◌&&◌, List, [], ◌∷◌, length-append, arith,
  ltb, leb, if_ind, map-append,
}
use rllib_async_runtime.Rollout.{RolloutGroupState, running, AsyncRolloutGroup}
use rllib_async_runtime.Rollout.Schedule.{
  outstanding, is_running, is_empty, enter_backpressure, leave_backpressure,
  relieve_backpressure_if_due, call_runner, call_idle, press_if_full, schedule_available,
}
use rllib_async_runtime.Rollout.Invariant.{occurrences-append, collecting, IsSound}

pub leave_backpressure-IsSound :
    (g : AsyncRolloutGroup) → IsSound g → IsSound (leave_backpressure g)
leave_backpressure-IsSound g h = record {
  bounded = h.bounded;
  single = h.single;
  collected = h.collected;
  committed = h.committed;
  pressed = inl refl;
  window = h.window;
}

pub relieve_backpressure_if_due-IsSound :
    (g : AsyncRolloutGroup) → IsSound g → IsSound (relieve_backpressure_if_due g)
unfolding relieve_backpressure_if_due
relieve_backpressure_if_due-IsSound g h =
    if_ind IsSound (g.backpressured && leb (outstanding g) g.low_watermark)
      (λ _. leave_backpressure-IsSound g h) (λ _. h)

-- one call, whose runner was taken from the idle ones
called-IsSound :
    (runner_id : String) (idle : List String) (g : AsyncRolloutGroup)
    → outstanding g < g.high_watermark
    → IsSound (record g { idle_runners = runner_id ∷ idle })
    → IsSound (record (call_runner runner_id g) { idle_runners = idle })
unfolding call_runner
called-IsSound runner_id idle g l h = record {
  bounded = omega (arith, length-append {0} g.pending_samples ((g.calls, runner_id) ∷ []));
  single = λ k. rw (map-append (λ c. c.1) g.pending_samples ((g.calls, runner_id) ∷ [])) (
      ground
        (arith, h.single k, occurrences-append k (collecting g.pending_samples) (runner_id ∷ [])));
  collected =
      omega (arith, h.collected, length-append {0} g.pending_samples ((g.calls, runner_id) ∷ []));
  committed = h.committed;
  pressed = h.pressed;
  window = h.window;
}

call_idle-IsSound :
    (idle : List String) (g : AsyncRolloutGroup)
    → IsSound (record g { idle_runners = idle })
    → IsSound (call_idle idle g)
unfolding call_idle
call_idle-IsSound [] g h = h
call_idle-IsSound (r ∷ idle) g h =
    if_ind {A = AsyncRolloutGroup} IsSound _
      (λ p.
        call_idle-IsSound idle (call_runner r g) (called-IsSound r idle g (ground (arith, p)) h))
      (λ _. h)

pressed-IsSound :
    (g : AsyncRolloutGroup) → g.state ≡ running → IsSound g → IsSound (enter_backpressure g)
pressed-IsSound g r h =
    if_ind {A = AsyncRolloutGroup} IsSound g.backpressured (λ _. h)
      (λ _. record {
        bounded = h.bounded;
        single = h.single;
        collected = h.collected;
        committed = h.committed;
        pressed = inr r;
        window = h.window;
      })

press_if_full-IsSound :
    (g : AsyncRolloutGroup) → g.state ≡ running → IsSound g → IsSound (press_if_full g)
unfolding press_if_full
press_if_full-IsSound g r h =
    if_ind IsSound (not (is_empty g.idle_runners) && leb g.high_watermark (outstanding g))
      (λ _. pressed-IsSound g r h) (λ _. h)

pub call_idle_state :
    (idle : List String) (g : AsyncRolloutGroup) → (call_idle idle g).state ≡ g.state
unfolding call_idle call_runner
call_idle_state [] g = refl
call_idle_state (r ∷ idle) g =
    if_ind {A = AsyncRolloutGroup} (λ h. h.state ≡ g.state) (ltb (outstanding g) g.high_watermark)
      (λ _. call_idle_state idle (call_runner r g)) (λ _. refl)

is_running_lem : (s : RolloutGroupState) (b : Bool) → (is_running s && b) ≡ true → s ≡ running
is_running_lem running b h = refl
is_running_lem _ b h = cc

pub schedule_available-IsSound :
    (g : AsyncRolloutGroup) → IsSound g → IsSound (schedule_available g)
unfolding schedule_available
schedule_available-IsSound g h =
    if_ind IsSound (is_running g.state && not g.backpressured)
      (λ p.
        press_if_full-IsSound (call_idle g.idle_runners g)
          (call_idle_state g.idle_runners g ∙ is_running_lem g.state (not g.backpressured) p)
          (call_idle-IsSound g.idle_runners g h))
      (λ _. h)
