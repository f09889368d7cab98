-- ===== src/Rollout/Backpressure.antt =====
-- Backpressure: when scheduling stops, and when it is not taken up again.
use rllib_async_runtime.Common.{
  ◌≤◌, ◌≡◌, ◌⊎◌, inl, inr, refl, sym, ap, ◌∙◌, Bool, true, false, not, ◌&&◌, String, List, [], ◌∷◌,
  ltb, leb, arith, if_ind,
}
use rllib_async_runtime.Rollout.{running, PendingCommit, AsyncRolloutGroup}
use rllib_async_runtime.Rollout.Schedule.{
  outstanding, is_running, is_empty, enter_backpressure, call_runner, call_idle, press_if_full,
  schedule_available,
}
use rllib_async_runtime.Rollout.Action.{Action}
use rllib_async_runtime.Rollout.Group.{
  Arrival, sample_failed, sample_invalid, commit_failed, commit_invalid, fail_sample, fail_commit,
}

abbrev IsFull : AsyncRolloutGroup → Type 0
IsFull g = g.high_watermark ≤ outstanding g

call_idle_fills :
    (idle : List String) (g : AsyncRolloutGroup)
    → ((call_idle idle g).idle_runners ≡ []) ⊎ IsFull (call_idle idle g)
unfolding call_idle call_runner
call_idle_fills [] g = inl refl
call_idle_fills (r ∷ idle) g =
    if_ind {A = AsyncRolloutGroup} (λ h. (h.idle_runners ≡ []) ⊎ IsFull h)
      (ltb (outstanding g) g.high_watermark) (λ _. call_idle_fills idle (call_runner r g))
      (λ p. inr (ground (arith, p)))

abbrev IsBusy : AsyncRolloutGroup → Type 0
IsBusy g = (g.idle_runners ≡ []) ⊎ (IsFull g × (g.backpressured ≡ true))

pressed-IsBusy : (g : AsyncRolloutGroup) → IsFull g → IsBusy (enter_backpressure g)
pressed-IsBusy g f =
    if_ind {A = AsyncRolloutGroup} IsBusy g.backpressured (λ p. inr (f, p)) (λ _. inr (f, refl))

press_if_full-IsBusy :
    (g : AsyncRolloutGroup) → (g.idle_runners ≡ []) ⊎ IsFull g → IsBusy (press_if_full g)
unfolding press_if_full
press_if_full-IsBusy g f =
    if_ind {A = AsyncRolloutGroup} IsBusy
      (not (is_empty g.idle_runners) && leb g.high_watermark (outstanding g))
      (λ p. pressed-IsBusy g (ground (arith, p)))
      (λ p. elim f [
        | inl e ↦ inl e
        | inr l ↦
            inl (empty_lem g.idle_runners (leb g.high_watermark (outstanding g)) p (ground arith))
      ])
  where
    empty_lem :
        (xs : List String) (b : Bool) → (not (is_empty xs) && b) ≡ false → b ≡ true → xs ≡ []
    empty_lem [] b p q = refl
    empty_lem (x ∷ xs) b p q = cc

-- Scheduling in a running group that is not under backpressure leaves no runner idle, or it fills the
-- outstanding calls up to the high watermark and puts the group under backpressure.
pub schedule_available_fills :
    (g : AsyncRolloutGroup)
    → g.state ≡ running
    → g.backpressured ≡ false
    → ((schedule_available g).idle_runners ≡ [])
      ⊎ ((schedule_available g).high_watermark ≤ outstanding (schedule_available g))
        × ((schedule_available g).backpressured ≡ true)
unfolding schedule_available
schedule_available_fills g r b =
    if_ind {A = AsyncRolloutGroup} IsBusy (is_running g.state && not g.backpressured)
      (λ _. press_if_full-IsBusy (call_idle g.idle_runners g) (call_idle_fills g.idle_runners g))
      (λ p. absurd (cc (sym p ∙ ap (λ q. is_running q && not g.backpressured) r ∙ ap not b)))

-- The call `a` is the only outstanding one of the group, and it failed.
pub data LastFails (g : AsyncRolloutGroup) (a : Arrival) : Type 0 where
  last_sample :
      (r : String)
      → g.pending_samples ≡ (a.call, r) ∷ []
      → g.pending_commits ≡ []
      → (a.sample_outcome ≡ sample_failed) ⊎ (a.sample_outcome ≡ sample_invalid)
      → LastFails g a
  last_commit :
      (p : PendingCommit)
      → g.pending_samples ≡ []
      → g.pending_commits ≡ (a.call, p) ∷ []
      → (a.commit_outcome ≡ commit_failed) ⊎ (a.commit_outcome ≡ commit_invalid)
      → LastFails g a

-- What a failed call leaves: no call outstanding, one more failure.
abbrev failed_state : (g : AsyncRolloutGroup) (a : Arrival) → LastFails g a → AsyncRolloutGroup
failed_state g a (last_sample r p q f) = fail_sample (record g { pending_samples = [] })
failed_state g a (last_commit w p q f) = fail_commit (record g { pending_commits = [] })
