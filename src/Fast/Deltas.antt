-- ===== src/Fast/Deltas.antt =====
-- `apply_delta` beside the rebuild thread, and every interleaving of the system's steps.
use rllib_async_runtime.Common.{
  ◌+◌, ◌≤◌, ◌<◌, ◌≡◌, ◌⊎◌, inl, inr, refl, sym, subst, Bool, true, false, ◌||◌, Option, none, some,
  ◌==◌, if_ind, Error, arith,
}
use rllib_async_runtime.Fast.{FastReplay}
use rllib_async_runtime.Fast.Writer.{schedule_rebuild}
use rllib_async_runtime.Fast.Rebuild.{Worker, stopped, checking, building}
use rllib_async_runtime.Fast.System.{
  woken, target_cursor, view_cursor, IsStanding, IsUntouched, IsConsistent,
}

or_true : (a b : Bool) → (a || b) ≡ true → (a ≡ true) ⊎ (b ≡ true)
or_true true b p = inl refl
or_true false b p = inr p

or_false : (a b : Bool) → (a || b) ≡ false → (a ≡ false) × (b ≡ false)
or_false true b p = cc
or_false false b p = (refl, p)

pub woken_same : (b : Bool) (w : Worker) → woken b b w ≡ w
woken_same true w = refl
woken_same false w = refl

woken_started : (b : Bool) (w : Worker) → b ≡ false → woken b true w ≡ checking
woken_started true w p = cc
woken_started false w p = refl

woken_failed : (b : Bool) (w : Worker) → b ≡ false → woken b false w ≡ w
woken_failed true w p = cc
woken_failed false w p = refl

-- The thread before a rebuild is scheduled: one that is stopped may have work.
abbrev pub IsWaiting : FastReplay → Worker → Type 0
IsWaiting s stopped = s.rebuild_running ≡ false
IsWaiting s checking = IsStanding s checking
IsWaiting s (building r) = IsStanding s (building r)

module _ (s : FastReplay) where
  unneeded-IsStanding :
      (w : Worker)
      → IsWaiting s w
      → (s.closed || (s.rebuild_running || s.active_revision == s.target_revision)) ≡ true
      → IsStanding s w
  unfolding IsStanding
  unneeded-IsStanding stopped h p = elim (or_true s.closed _ p) [
    | inl c ↦ (h, inl c)
    | inr q ↦ elim (or_true s.rebuild_running _ q) [
      | inl r ↦ absurd (cc (h, r))
      | inr e ↦ (h, inr (inr (ground (arith, e))))
    ]
  ]
  unneeded-IsStanding checking h p = h
  unneeded-IsStanding (building r) h p = h

  failed-IsStanding :
      (w : Worker) (e : Error)
      → IsWaiting s w
      → s.rebuild_running ≡ false
      → IsStanding
          (record s {
            rebuild_running = false;
            rebuild_error = some e;
            rebuild_failures = s.rebuild_failures + 1;
          })
          w
  unfolding IsStanding
  failed-IsStanding stopped e h p = (refl, inr (inl refl))
  failed-IsStanding checking e h p = absurd (cc (h, p))
  failed-IsStanding (building r) e h p = absurd (cc (h.0, p))

  pub schedule_rebuild-IsConsistent :
      (start_error : Option Error) (w : Worker)
      → s.active_revision ≤ s.target_revision
      → IsUntouched s
      → IsWaiting s w
      → (s.active_revision < s.target_revision) ⊎ (view_cursor s ≡ target_cursor s)
      → IsConsistent
          (schedule_rebuild start_error s)
          (woken s.rebuild_running (schedule_rebuild start_error s).rebuild_running w)
  unfolding schedule_rebuild IsStanding
  schedule_rebuild-IsConsistent none w o u h v =
      if_ind {A = FastReplay} (λ r. IsConsistent r (woken s.rebuild_running r.rebuild_running w)) _
        (λ p.
          subst (IsConsistent s) (sym (woken_same s.rebuild_running w)) (record {
            ordered = o;
            untouched = u;
            standing = unneeded-IsStanding w h p;
            shown = v;
          }))
        (λ p.
          let (c, q) = or_false s.closed _ p in
          let (r, _) = or_false s.rebuild_running _ q in
          subst (IsConsistent _) (sym (woken_started s.rebuild_running w r))
            (record { ordered = o; untouched = u; standing = refl; shown = v }))
  schedule_rebuild-IsConsistent (some e) w o u h v =
      if_ind {A = FastReplay} (λ r. IsConsistent r (woken s.rebuild_running r.rebuild_running w)) _
        (λ p.
          subst (IsConsistent s) (sym (woken_same s.rebuild_running w)) (record {
            ordered = o;
            untouched = u;
            standing = unneeded-IsStanding w h p;
            shown = v;
          }))
        (λ p.
          let (c, q) = or_false s.closed _ p in
          let (r, _) = or_false s.rebuild_running _ q in
          subst (IsConsistent _) (sym (woken_failed s.rebuild_running w r)) (record {
            ordered = o;
            untouched = u;
            standing = failed-IsStanding w e h r;
            shown = v;
          }))
