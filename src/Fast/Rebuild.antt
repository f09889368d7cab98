-- ===== src/Fast/Rebuild.antt =====
-- The rebuild thread of `FastReplay`: the two critical sections of `_rebuild_loop`, and where the thread
-- stands between them.
use rllib_async_runtime.Common.{◌+◌, false, none, some, Option, ◌==◌, if◌then◌else◌, ok, raise}
use rllib_async_runtime.Fast.{TargetState, BuildRequest, FastReplay}
use rllib_async_runtime.Fast.Index.{ModuleCodec, build_view}
use rllib_async_runtime.Fast.Target.{request_of}

-- No thread; before the first critical section; with a request, before the second.
pub data Worker : Type 0 where
  stopped checking : Worker
  building : BuildRequest → Worker

abbrev pub stop : FastReplay → FastReplay × Worker
stop s = (record s { rebuild_running = false }, stopped)

-- the request for a target; without one the assertion fails, which ends the thread
unfoldable pub request_from : FastReplay → Option TargetState → FastReplay × Worker
request_from s none = (s, stopped)
request_from s (some t) = (s, building (request_of s.target_revision t s.records))

-- the first critical section
unfoldable pub take_request : FastReplay → FastReplay × Worker
take_request s =
    if s.closed
    then stop s
    else if s.active_revision == s.target_revision
    then stop s
    else request_from s s.target

-- the build and the second critical section
unfoldable pub finish_build : Option ModuleCodec → BuildRequest → FastReplay → FastReplay × Worker
finish_build modules request s = elim (build_view modules request) [
  | raise error ↦
      let s' = record s { rebuild_failures = s.rebuild_failures + 1 } in
      if request.revision == s.target_revision
      then stop (record s' { rebuild_error = some error })
      else (s', checking)
  | ok view ↦
      if s.closed
      then stop s
      else if request.revision == s.target_revision
      then stop (record s {
        active_view = some view;
        active_revision = request.revision;
        delta_lag_agent_steps = 0;
        rebuild_error = none;
        completed_rebuilds = s.completed_rebuilds + 1;
      })
      else (record s { discarded_rebuilds = s.discarded_rebuilds + 1 }, checking)
]
