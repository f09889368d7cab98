-- ===== src/Fast/System.antt =====
-- `FastReplay` and its rebuild thread as one system: the steps of the writer, of `close` and of the
-- thread interleave in any order.
use rllib_async_runtime.Common.{◌≤◌, ◌<◌, ◌≡◌, ◌⊎◌, Bool, true, false, Option, none, some, Error}
use rllib_async_runtime.Episode.Codec.{EpisodeCodec}
use rllib_async_runtime.Replay.{ReplayCursor, ReplaySnapshot, ReplayDelta}
use rllib_async_runtime.Fast.{TargetState, FastReplay, empty_replay}
use rllib_async_runtime.Fast.Index.{ModuleCodec}
use rllib_async_runtime.Fast.Writer.{load_snapshot, apply_delta, close}
use rllib_async_runtime.Fast.Rebuild.{
  Worker, stopped, checking, building, take_request, finish_build,
}

-- The thread after a call of the writer: it starts where the call set `_rebuild_running`.
abbrev pub woken : (before after : Bool) → Worker → Worker
woken false true w = checking
woken false false w = w
woken true after w = w

module _ (codec : EpisodeCodec) (modules : Option ModuleCodec) where
  pub data Step : FastReplay → Worker → FastReplay → Worker → Type 0 where
    loads :
        {s : FastReplay} {w : Worker} (snapshot : ReplaySnapshot)
        → Step s w (load_snapshot codec modules s snapshot).1 w
    applies :
        {s : FastReplay} {w : Worker} (start_error : Option Error) (d : ReplayDelta)
        → Step s w (apply_delta codec modules start_error s d).1 (
            woken s.rebuild_running (apply_delta codec modules start_error s d).1.rebuild_running w)
    closes : {s : FastReplay} {w : Worker} → Step s w (close s) w
    takes : {s : FastReplay} → Step s checking (take_request s).0 (take_request s).1
    finishes :
        {s : FastReplay} (r : _)
        → Step s (building r) (finish_build modules r s).0 (finish_build modules r s).1

  -- What a new replay reaches by steps.
  pub data Reachable : FastReplay → Worker → Type 0 where
    starts : Reachable empty_replay stopped
    steps : {s s' : FastReplay} {w w' : Worker} → Reachable s w → Step s w s' w' → Reachable s' w'

abbrev pub target_cursor : FastReplay → Option ReplayCursor
target_cursor s = elim s.target [ none ↦ none | some t ↦ some t.cursor ]

abbrev pub view_cursor : FastReplay → Option ReplayCursor
view_cursor s = elim s.active_view [ none ↦ none | some v ↦ some v.cursor ]

abbrev pub has_error : FastReplay → Bool
has_error s = elim s.rebuild_error [ none ↦ false | some error ↦ true ]

-- Where the thread stands. A stopped thread has nothing left to publish, unless the replay is closed
-- or the last rebuild failed; a request is older than the target, or of the target.
unfoldable pub IsStanding : FastReplay → Worker → Type 0
IsStanding s stopped =
    (s.rebuild_running ≡ false)
    × ((s.closed ≡ true) ⊎ ((has_error s ≡ true) ⊎ (s.active_revision ≡ s.target_revision)))
IsStanding s checking = s.rebuild_running ≡ true
IsStanding s (building r) =
    (s.rebuild_running ≡ true)
    × (r.revision ≤ s.target_revision)
    × ((r.revision < s.target_revision) ⊎ (target_cursor s ≡ some r.cursor))

abbrev pub IsUntouched : FastReplay → Type 0
IsUntouched s = (s.target_revision ≡ 0) ⊎ ((t : TargetState) × (s.target ≡ some t))

pub record IsConsistent (s : FastReplay) (w : Worker) : Type 0 where
  pub ordered : s.active_revision ≤ s.target_revision
  pub untouched : IsUntouched s
  pub standing : IsStanding s w
  pub shown : (s.active_revision < s.target_revision) ⊎ (view_cursor s ≡ target_cursor s)
