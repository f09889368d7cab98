-- ===== src/Fast/Idle.antt =====
-- What `wait_for_idle` can rely on, in the states that Fast.System reaches.
use rllib_async_runtime.Common.{
  ◌≡◌, ◌⊎◌, inl, inr, refl, Bool, true, false, Option, none, some, ◌==◌, ok, arith,
}
use rllib_async_runtime.Episode.Codec.{EpisodeCodec}
use rllib_async_runtime.Fast.{BuildRequest, FastReplay}
use rllib_async_runtime.Fast.Index.{ModuleCodec}
use rllib_async_runtime.Fast.Writer.{poll_idle}
use rllib_async_runtime.Fast.Rebuild.{Worker, stopped, checking, building}
use rllib_async_runtime.Fast.System.{
  Reachable, target_cursor, view_cursor, has_error, IsStanding, IsConsistent,
}
use rllib_async_runtime.Fast.Interleaving.{Reachable-IsConsistent}

level_shown :
    {s : FastReplay} {w : Worker}
    → IsConsistent s w
    → s.active_revision ≡ s.target_revision
    → view_cursor s ≡ target_cursor s
level_shown h e = elim h.shown [ inl l ↦ absurd (omega (arith, l, e)) | inr p ↦ p ]

poll_idle-eq-ok :
    (expired : Bool) (s : FastReplay)
    → poll_idle expired s ≡ some (ok tt)
    → s.active_revision ≡ s.target_revision
unfolding poll_idle
poll_idle-eq-ok expired s p = ground arith

poll_idle-none :
    (expired : Bool) (s : FastReplay)
    → poll_idle expired s ≡ none
    → ((s.active_revision == s.target_revision) ≡ false)
      × ((s.rebuild_running ≡ true) ⊎ ((has_error s ≡ false) × (s.closed ≡ false)))
unfolding poll_idle
poll_idle-none expired s p = ground arith

stopped_over :
    (expired : Bool) (s : FastReplay) → IsStanding s stopped → poll_idle expired s ≡ none → ⊥
unfolding IsStanding
stopped_over expired s h p =
    let (e, q) = poll_idle-none expired s p in
    elim q [
      | inl r ↦ cc (h.0, r)
      | inr f ↦ elim h.1 [
        | inl c ↦ cc (c, f.1)
        | inr g ↦ elim g [ inl x ↦ cc (x, f.0) | inr y ↦ ground (arith, y, e) ]
      ]
    ]

module _ (codec : EpisodeCodec) (modules : Option ModuleCodec) (expired : Bool) where
  -- In a reachable state, if a turn of `wait_for_idle` answers with success, the sampled view has the
  -- target's cursor.
  pub poll_idle_shows :
      {s : FastReplay} {w : Worker}
      → Reachable codec modules s w
      → poll_idle expired s ≡ some (ok tt)
      → view_cursor s ≡ target_cursor s
  poll_idle_shows h p =
      level_shown (Reachable-IsConsistent codec modules h) (poll_idle-eq-ok expired _ p)

  waits_for :
      {s : FastReplay} (w : Worker)
      → IsConsistent s w
      → poll_idle expired s ≡ none
      → (w ≡ checking) ⊎ ((r : BuildRequest) × (w ≡ building r))
  waits_for stopped h p = absurd (stopped_over expired _ h.standing p)
  waits_for checking h p = inl refl
  waits_for (building r) h p = inr (r, refl)

  -- In a reachable state, if a turn of `wait_for_idle` waits on, the rebuild thread is at work: no
  -- caller waits for a thread that has stopped.
  pub poll_idle_waits :
      {s : FastReplay} {w : Worker}
      → Reachable codec modules s w
      → poll_idle expired s ≡ none
      → (w ≡ checking) ⊎ ((r : BuildRequest) × (w ≡ building r))
  poll_idle_waits h p = waits_for _ (Reachable-IsConsistent codec modules h) p
