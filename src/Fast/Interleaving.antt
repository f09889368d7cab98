-- ===== src/Fast/Interleaving.antt =====
-- A delta that is published, and every interleaving of the steps of Fast.System.
use rllib_async_runtime.Common.{
  ℕ, ◌+◌, inl, inr, refl, sym, subst, Option, none, some, if_ind, Error, Result, Result-cases,
  arith,
}
use rllib_async_runtime.Dict.{Dict}
use rllib_async_runtime.Episode.Codec.{EpisodeCodec}
use rllib_async_runtime.Replay.{ReplayDelta}
use rllib_async_runtime.Fast.{EpisodeRecord, TargetState, FastReplay}
use rllib_async_runtime.Fast.Index.{ModuleCodec}
use rllib_async_runtime.Fast.Target.{Accepted, write_records, accept_delta}
use rllib_async_runtime.Fast.Writer.{publish_delta, is_empty, apply_to_target, apply_delta}
use rllib_async_runtime.Fast.Rebuild.{Worker, stopped, checking, building}
use rllib_async_runtime.Fast.System.{
  woken, Step, loads, applies, closes, takes, finishes, Reachable, starts, steps, IsStanding,
  IsConsistent,
}
use rllib_async_runtime.Fast.Progress.{
  load_snapshot-IsConsistent, close-IsConsistent, take_request-IsConsistent,
  finish_build-IsConsistent,
}
use rllib_async_runtime.Fast.Deltas.{IsWaiting, woken_same, schedule_rebuild-IsConsistent}

module _ (s : FastReplay) where
  records-IsStanding :
      (w : Worker) (records : Dict EpisodeRecord)
      → IsStanding s w
      → IsStanding (record s { records = records }) w
  unfolding IsStanding
  records-IsStanding stopped records h = h
  records-IsStanding checking records h = h
  records-IsStanding (building r) records h = h

  resync-IsStanding :
      (w : Worker) (n : ℕ) → IsStanding s w → IsStanding (record s { full_resyncs = n }) w
  unfolding IsStanding
  resync-IsStanding stopped n h = h
  resync-IsStanding checking n h = h
  resync-IsStanding (building r) n h = h

  published-IsWaiting :
      (w : Worker) (records : Dict EpisodeRecord) (t : TargetState) (lag : ℕ)
      → IsStanding s w
      → IsWaiting
          (record s {
            records = records;
            target = some t;
            target_revision = s.target_revision + 1;
            delta_lag_agent_steps = lag;
            rebuild_error = none;
          })
          w
  unfolding IsStanding
  published-IsWaiting stopped records t lag h = h.0
  published-IsWaiting checking records t lag h = h
  published-IsWaiting (building r) records t lag h =
      (h.0, omega (arith, h.1), inl (omega (arith, h.1)))

  -- A step of the writer that leaves the thread alone.
  abbrev IsKept : Worker → Result (Unit {0}) × FastReplay → Type 0
  IsKept w r = IsConsistent r.1 (woken s.rebuild_running r.1.rebuild_running w)

  unchanged :
      (w : Worker) → IsConsistent s w → IsConsistent s (woken s.rebuild_running s.rebuild_running w)
  unchanged w h = subst (IsConsistent s) (sym (woken_same s.rebuild_running w)) h

  publish_delta-IsConsistent :
      (start_error : Option Error) (w : Worker) (d : ReplayDelta) (a : Accepted)
      → IsConsistent s w
      → IsKept w (publish_delta start_error s d a)
  unfolding publish_delta
  publish_delta-IsConsistent start_error w d a h =
      elim (Result-cases (write_records a.added_records s.records d.transactions).0) [
        | inl (e, q) ↦
            rw (publish_delta, q)
              (subst (IsConsistent _) (sym (woken_same s.rebuild_running w)) (record {
                ordered = h.ordered;
                untouched = h.untouched;
                standing = records-IsStanding w _ h.standing;
                shown = h.shown;
              }))
        | inr (u, q) ↦
            rw (publish_delta, q)
              (schedule_rebuild-IsConsistent _ start_error w (omega (arith, h.ordered))
                (inr (_, refl)) (published-IsWaiting w _ _ _ h.standing)
                (inl (omega (arith, h.ordered))))
      ]

module _ (codec : EpisodeCodec) (modules : Option ModuleCodec) (s : FastReplay) where
  apply_to_target-IsConsistent :
      (start_error : Option Error) (w : Worker) (o : Option TargetState) (d : ReplayDelta)
      → IsConsistent s w
      → IsKept s w (apply_to_target codec modules start_error s o d)
  unfolding apply_to_target
  apply_to_target-IsConsistent start_error w none d h = unchanged s w h
  apply_to_target-IsConsistent start_error w (some t) d h =
      elim (Result-cases (accept_delta codec t s.records d)) [
        | inl (e, q) ↦ rw (apply_to_target, q) (unchanged s w h)
        | inr (a, q) ↦
            rw (apply_to_target, q)
              (if_ind {A = Result (Unit {0}) × FastReplay} (IsKept s w) (is_empty d.transactions)
                (λ _. unchanged s w h) (λ _. publish_delta-IsConsistent s start_error w d a h))
      ]

  apply_delta-IsConsistent :
      (start_error : Option Error) (w : Worker) (d : ReplayDelta)
      → IsConsistent s w
      → IsKept s w (apply_delta codec modules start_error s d)
  unfolding apply_delta
  apply_delta-IsConsistent start_error w d h =
      if_ind {A = Result (Unit {0}) × FastReplay} (IsKept s w) s.closed (λ _. unchanged s w h)
        (λ _.
          if_ind {A = Result (Unit {0}) × FastReplay} (IsKept s w) d.full_resync_required
            (λ _. subst (IsConsistent _) (sym (woken_same s.rebuild_running w)) (record {
              ordered = h.ordered;
              untouched = h.untouched;
              standing = resync-IsStanding s w _ h.standing;
              shown = h.shown;
            }))
            (λ _. apply_to_target-IsConsistent start_error w s.target d h))

module _ (codec : EpisodeCodec) (modules : Option ModuleCodec) where
  Step-IsConsistent :
      {s s' : FastReplay} {w w' : Worker}
      → Step codec modules s w s' w'
      → IsConsistent s w
      → IsConsistent s' w'
  Step-IsConsistent (loads snapshot) h = load_snapshot-IsConsistent codec modules _ _ snapshot h
  Step-IsConsistent (applies start_error d) h =
      apply_delta-IsConsistent codec modules _ start_error _ d h
  Step-IsConsistent closes h = close-IsConsistent codec modules _ _ h
  Step-IsConsistent takes h = take_request-IsConsistent codec modules _ h
  Step-IsConsistent (finishes r) h = finish_build-IsConsistent codec modules _ r h

  -- In every state that a new replay reaches, under any interleaving of the writer, of `close` and of
  -- the rebuild thread: the active revision is at most the target's; the sampled view has the target's
  -- cursor unless its revision is older; and a thread that stopped has published the target, unless
  -- the replay is closed or a rebuild failed.
  pub Reachable-IsConsistent :
      {s : FastReplay} {w : Worker} → Reachable codec modules s w → IsConsistent s w
  unfolding IsStanding
  Reachable-IsConsistent starts = record {
    ordered = omega arith;
    untouched = inl refl;
    standing = (refl, inr (inr refl));
    shown = inr refl;
  }
  Reachable-IsConsistent (steps r t) = Step-IsConsistent t (Reachable-IsConsistent r)
