-- ===== src/Fast/Writer.antt =====
-- The methods of `FastReplay` that the learner calls. One writer runs at a time, and only a writer
-- assigns the target and the records, so each call is one step beside the rebuild thread; a call
-- returns its result or exception beside the state it leaves.
use rllib_async_runtime.Common.{
  ◌+◌, Bool, true, false, ◌||◌, Option, none, some, List, [], ◌∷◌, map, ◌==◌, if◌then◌else◌, Error,
  Result, ok, raise, replay_error, replay_closed, index_rebuild, timeout_error,
  full_resync_required, cursor_mismatch, ◌>>=◌,
}
use rllib_async_runtime.Dict.{Dict, values}
use rllib_async_runtime.Episode.Codec.{EpisodeCodec}
use rllib_async_runtime.Replay.{ReplayTransaction, ReplaySnapshot, ReplayDelta}
use rllib_async_runtime.Fast.{EpisodeRecord, TargetState, MaterializedView, FastReplay}
use rllib_async_runtime.Fast.Index.{ModuleCodec, build_view}
use rllib_async_runtime.Fast.Target.{
  Accepted, request_of, write_records, accept_delta, target_from_snapshot,
}

-- `_schedule_rebuild_locked`; `start_error` is what `Thread.start` raises, if it does
unfoldable pub schedule_rebuild : (start_error : Option Error) → FastReplay → FastReplay
schedule_rebuild start_error s =
    if s.closed || (s.rebuild_running || s.active_revision == s.target_revision)
    then s
    else elim start_error [
      | none ↦ record s { rebuild_running = true }
      | some error ↦ record s {
        rebuild_running = false;
        rebuild_error = some error;
        rebuild_failures = s.rebuild_failures + 1;
      }
    ]

-- the assignments of `apply_delta` under the lock
unfoldable pub publish_delta :
    (start_error : Option Error)
    → FastReplay
    → ReplayDelta
    → Accepted
    → Result (Unit {0}) × FastReplay
unfolding schedule_rebuild
publish_delta start_error s d a =
    let (done, records) = write_records a.added_records s.records d.transactions in
    elim done [
      | raise error ↦ (raise error, record s { records = records })
      | ok _ ↦ (
        ok tt,
        schedule_rebuild start_error (record s {
          records = records;
          target = some (record {
            cursor = d.next_cursor;
            total_transitions = a.total_transitions;
            total_estimated_bytes = a.total_estimated_bytes;
          });
          target_revision = s.target_revision + 1;
          delta_lag_agent_steps = s.delta_lag_agent_steps + a.added_agent_steps;
          rebuild_error = none;
        }),
      )
    ]

abbrev pub is_empty : List ReplayTransaction → Bool
is_empty [] = true
is_empty (t ∷ ts) = false

module _ (codec : EpisodeCodec) (modules : Option ModuleCodec) where
  -- what `load_snapshot` computes before it assigns any field
  unfoldable pub bootstrap :
      ReplaySnapshot → Result (TargetState × (Dict EpisodeRecord × MaterializedView))
  bootstrap snapshot = do
    (t, records) ← target_from_snapshot codec snapshot
    view ← build_view modules (request_of 0 t records)
    ok (t, (records, view))

  unfoldable pub load_snapshot : FastReplay → ReplaySnapshot → Result (Unit {0}) × FastReplay
  load_snapshot s snapshot =
      if s.closed then (raise replay_closed, s) else elim (bootstrap snapshot) [
        | raise error ↦ (raise error, s)
        | ok x ↦ (
          ok tt,
          record s {
            target_revision = s.target_revision + 1;
            active_revision = s.target_revision + 1;
            records = x.1.0;
            target = some x.0;
            active_view = some x.1.1;
            delta_lag_agent_steps = 0;
            rebuild_error = none;
          },
        )
      ]

  -- `apply_delta` after the first critical section, which read the target
  unfoldable pub apply_to_target :
      (start_error : Option Error)
      → FastReplay
      → Option TargetState
      → ReplayDelta
      → Result (Unit {0}) × FastReplay
  apply_to_target start_error s none d = (raise cursor_mismatch, s)
  apply_to_target start_error s (some t) d = elim (accept_delta codec t s.records d) [
    | raise error ↦ (raise error, s)
    | ok a ↦ if is_empty d.transactions then (ok tt, s) else publish_delta start_error s d a
  ]

  unfoldable pub apply_delta :
      (start_error : Option Error) → FastReplay → ReplayDelta → Result (Unit {0}) × FastReplay
  apply_delta start_error s d =
      if s.closed
      then (raise replay_closed, s)
      else if d.full_resync_required
      then (raise full_resync_required, record s { full_resyncs = s.full_resyncs + 1 })
      else apply_to_target start_error s s.target d

unfoldable pub get_snapshot : FastReplay → Result ReplaySnapshot
get_snapshot s = if s.closed then raise replay_closed else elim s.target [
  | none ↦ raise replay_error
  | some t ↦ ok (record {
    cursor = t.cursor;
    episodes = map (λ r. r.episode) (values s.records);
    total_transitions = t.total_transitions;
    total_estimated_bytes = t.total_estimated_bytes;
  })
]

-- one turn of the loop of `wait_for_idle`: its answer, or `none` where it waits on; `expired` tells
-- whether no time remains
unfoldable pub poll_idle : (expired : Bool) → FastReplay → Option (Result (Unit {0}))
poll_idle expired s =
    let late : Option (Result (Unit {0})) =
      if s.closed then (if s.rebuild_running then none else some (raise replay_closed)) else none in
    let failed : Option (Result (Unit {0})) = elim s.rebuild_error [
      | none ↦ late
      | some error ↦ if s.rebuild_running then late else some (raise index_rebuild)
    ] in
    if s.active_revision == s.target_revision then some (ok tt) else elim failed [
      | some answer ↦ some answer
      | none ↦ if expired then some (raise timeout_error) else none
    ]

-- the last critical section of `close`
abbrev pub close : FastReplay → FastReplay
close s = record s { closed = true }
