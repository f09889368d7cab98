-- ===== src/Fast/Progress.antt =====
-- What the system of Fast.System keeps.
use rllib_async_runtime.Common.{
  ◌+◌, ◌<◌, ◌≡◌, inl, inr, refl, sym, ap, ◌∙◌, Option, none, some, ◌==◌, if_ind, guard,
  replay_error, Result, ok, Result-cases, >>=-eq-ok, ok-injective, arith,
}
use rllib_async_runtime.Episode.Codec.{EpisodeCodec}
use rllib_async_runtime.Replay.{ReplaySnapshot}
use rllib_async_runtime.Fast.{TargetState, MaterializedView, BuildRequest, FastReplay}
use rllib_async_runtime.Fast.Index.{
  ModuleCodec, build_view, index_records, no_building, module_indices,
}
use rllib_async_runtime.Episode.Versions.{sort_by_key}
use rllib_async_runtime.Fast.Target.{request_of, target_from_snapshot}
use rllib_async_runtime.Fast.Writer.{bootstrap, load_snapshot, close}
use rllib_async_runtime.Fast.Rebuild.{
  Worker, stopped, checking, building, request_from, take_request, finish_build,
}
use rllib_async_runtime.Fast.System.{IsStanding, IsConsistent}

build_view_cursor :
    (modules : Option ModuleCodec) (r : BuildRequest) {v : MaterializedView}
    → build_view modules r ≡ ok v
    → v.cursor ≡ r.cursor
unfolding build_view
build_view_cursor modules r p =
    let (b, pb, p1) = >>=-eq-ok (index_records modules 0 r.records no_building) _ p in
    let (u, pu, p2) =
      >>=-eq-ok (guard (b.total_transitions == r.total_transitions) replay_error) _ p1 in
    let (m, pm, p3) = >>=-eq-ok (module_indices b.modules (sort_by_key b.modules.totals)) _ p2 in
    ap (λ v. v.cursor) (sym (ok-injective p3))

module _ (codec : EpisodeCodec) (modules : Option ModuleCodec) (s : FastReplay) where
  bootstrap_cursor :
      (snapshot : ReplaySnapshot) {x : _}
      → bootstrap codec modules snapshot ≡ ok x
      → x.1.1.cursor ≡ x.0.cursor
  unfolding bootstrap
  bootstrap_cursor snapshot p =
      let ((t, records), pt, p1) = >>=-eq-ok (target_from_snapshot codec snapshot) _ p in
      let (v, pv, p2) = >>=-eq-ok (build_view modules (request_of 0 t records)) _ p1 in
      ap (λ x. x.1.1.cursor) (sym (ok-injective p2))
      ∙ build_view_cursor modules (request_of 0 t records) pv
      ∙ ap (λ x. x.0.cursor) (ok-injective p2)

  loaded-IsStanding :
      (w : Worker) (t : TargetState) (r : _) (v : MaterializedView)
      → IsStanding s w
      → IsStanding
          (record s {
            target_revision = s.target_revision + 1;
            active_revision = s.target_revision + 1;
            records = r;
            target = some t;
            active_view = some v;
            delta_lag_agent_steps = 0;
            rebuild_error = none;
          })
          w
  unfolding IsStanding
  loaded-IsStanding stopped t r v h = (h.0, inr (inr refl))
  loaded-IsStanding checking t r v h = h
  loaded-IsStanding (building q) t r v h = (h.0, omega (arith, h.1), inl (omega (arith, h.1)))

  pub load_snapshot-IsConsistent :
      (w : Worker) (snapshot : ReplaySnapshot)
      → IsConsistent s w
      → IsConsistent (load_snapshot codec modules s snapshot).1 w
  unfolding load_snapshot
  load_snapshot-IsConsistent w snapshot h =
      if_ind {A = Result (Unit {0}) × FastReplay} (λ r. IsConsistent r.1 w) s.closed (λ _. h)
        (λ _. elim (Result-cases (bootstrap codec modules snapshot)) [
          | inl (e, q) ↦ rw q h
          | inr (x, q) ↦ rw q (record {
            ordered = omega arith;
            untouched = inr (x.0, refl);
            standing = loaded-IsStanding w x.0 x.1.0 x.1.1 h.standing;
            shown = inr (ap some (bootstrap_cursor snapshot q));
          })
        ])

  close-IsStanding : (w : Worker) → IsStanding s w → IsStanding (close s) w
  unfolding IsStanding
  close-IsStanding stopped h = (h.0, inl refl)
  close-IsStanding checking h = h
  close-IsStanding (building r) h = h

  pub close-IsConsistent : (w : Worker) → IsConsistent s w → IsConsistent (close s) w
  close-IsConsistent w h = record {
    ordered = h.ordered;
    untouched = h.untouched;
    standing = close-IsStanding w h.standing;
    shown = h.shown;
  }

  request_from-IsConsistent :
      (o : Option TargetState)
      → s.target ≡ o
      → s.active_revision < s.target_revision
      → IsConsistent s checking
      → IsConsistent (request_from s o).0 (request_from s o).1
  unfolding request_from IsStanding
  request_from-IsConsistent none q l h = elim h.untouched [
    | inl z ↦ absurd (omega (arith, l, z))
    | inr (t, p) ↦ absurd (cc (sym p ∙ q))
  ]
  request_from-IsConsistent (some t) q l h = record {
    ordered = h.ordered;
    untouched = h.untouched;
    standing = (h.standing, omega arith, inr (rw q));
    shown = h.shown;
  }

  pub take_request-IsConsistent :
      IsConsistent s checking → IsConsistent (take_request s).0 (take_request s).1
  unfolding take_request IsStanding
  take_request-IsConsistent h =
      if_ind {A = FastReplay × Worker} (λ r. IsConsistent r.0 r.1) s.closed
        (λ p. record {
          ordered = h.ordered;
          untouched = h.untouched;
          standing = (refl, inl p);
          shown = h.shown;
        })
        (λ _.
          if_ind {A = FastReplay × Worker} (λ r. IsConsistent r.0 r.1)
            (s.active_revision == s.target_revision)
            (λ p. record {
              ordered = h.ordered;
              untouched = h.untouched;
              standing = (refl, inr (inr (ground (arith, p))));
              shown = h.shown;
            })
            (λ p. request_from-IsConsistent s.target refl (ground (arith, p, h.ordered)) h))

  -- A build that ends late: the thread stops, or checks again.
  pub finish_build-IsConsistent :
      (r : BuildRequest)
      → IsConsistent s (building r)
      → IsConsistent (finish_build modules r s).0 (finish_build modules r s).1
  unfolding finish_build IsStanding
  finish_build-IsConsistent r h = elim (Result-cases (build_view modules r)) [
    | inl (e, q) ↦
        rw (finish_build, q)
          (if_ind {A = FastReplay × Worker} (λ r. IsConsistent r.0 r.1)
            (r.revision == s.target_revision)
            (λ p. record {
              ordered = h.ordered;
              untouched = h.untouched;
              standing = (refl, inr (inl refl));
              shown = h.shown;
            })
            (λ p. record {
              ordered = h.ordered;
              untouched = h.untouched;
              standing = h.standing.0;
              shown = h.shown;
            }))
    | inr (v, q) ↦
        rw (finish_build, q)
          (if_ind {A = FastReplay × Worker} (λ r. IsConsistent r.0 r.1) s.closed
            (λ p. record {
              ordered = h.ordered;
              untouched = h.untouched;
              standing = (refl, inl p);
              shown = h.shown;
            })
            (λ _.
              if_ind {A = FastReplay × Worker} (λ r. IsConsistent r.0 r.1)
                (r.revision == s.target_revision)
                (λ p.
                  let same : r.revision ≡ s.target_revision = ground (arith, p) in
                  record {
                    ordered = omega (arith, same);
                    untouched = h.untouched;
                    standing = (refl, inr (inr same));
                    shown = elim h.standing.2 [
                      | inl l ↦ absurd (omega (arith, l, same))
                      | inr c ↦ inr (ap some (build_view_cursor modules r q) ∙ sym c)
                    ];
                  })
                (λ p. record {
                  ordered = h.ordered;
                  untouched = h.untouched;
                  standing = h.standing.0;
                  shown = h.shown;
                })))
  ]
