-- ===== src/Tests/FastRuns.antt =====
-- The fast replay and its thread at concrete inputs, and the positions that it samples.
use rllib_async_runtime.Common.{ℕ, ◌-◌, ◌<◌, ◌≡◌, ◌⊎◌, refl, none, [], ◌∷◌, false, arith, ok}
use rllib_async_runtime.Episode.Flat.{flat_codec}
use rllib_async_runtime.Episode.Versions.{sort_by_key}
use rllib_async_runtime.Replay.{ReplayDelta}
use rllib_async_runtime.Store.Delta.{snapshot_of}
use rllib_async_runtime.Episode.Value.{int}
use rllib_async_runtime.Fast.Sample.{sample_positions}
use rllib_async_runtime.Fast.Positions.{counts, Answer, sample_positions_lem}
use rllib_async_runtime.Fast.{MaterializedView, BuildRequest, FastReplay, empty_replay}
use rllib_async_runtime.Fast.Index.{
  index_episode_modules, index_records, module_indices, build_view,
}
use rllib_async_runtime.Fast.Target.{
  evicted_record, evict_ids, delete_each, write_records, accept_transactions, accept_delta,
  load_records, target_from_snapshot,
}
use rllib_async_runtime.Fast.Writer.{
  schedule_rebuild, publish_delta, bootstrap, load_snapshot, apply_to_target, apply_delta,
  poll_idle,
}
use rllib_async_runtime.Fast.Rebuild.{
  Worker, stopped, checking, building, request_from, take_request, finish_build,
}
use rllib_async_runtime.Fast.System.{
  Reachable, starts, steps, loads, applies, takes, finishes, IsConsistent, view_cursor,
  target_cursor,
}
use rllib_async_runtime.Fast.Interleaving.{Reachable-IsConsistent}
use rllib_async_runtime.Fast.Idle.{poll_idle_shows, poll_idle_waits}
use rllib_async_runtime.Tests.Samples.{first, second}
use rllib_async_runtime.Tests.StoreRuns.{program, one}

-- What a test has to open to run the replay.
fast_runs : Unit {0}
unfolding index_episode_modules index_records module_indices build_view evicted_record evict_ids
    delete_each write_records accept_transactions accept_delta load_records target_from_snapshot
    schedule_rebuild publish_delta bootstrap load_snapshot apply_to_target apply_delta poll_idle
    request_from take_request finish_build sort_by_key
fast_runs = tt

abbrev delta : ReplayDelta
delta = record {
  base_cursor = record { store_generation = "g"; mutation_seq = 1 };
  next_cursor = record { store_generation = "g"; mutation_seq = 2 };
  transactions = record { mutation_seq = 2; added = second; evicted_episode_ids = [] } ∷ [];
  full_resync_required = false;
  has_more = false;
}

abbrev loaded : FastReplay
loaded = (load_snapshot flat_codec none empty_replay (snapshot_of one)).1

abbrev applied : FastReplay
applied = (apply_delta flat_codec none none loaded delta).1

abbrev taken : FastReplay
taken = (take_request applied).0

abbrev request : BuildRequest
unfolding program fast_runs
request = elim (take_request applied).1 [
  | building r ↦ r
  | _ ↦ record {
    revision = 0;
    cursor = delta.base_cursor;
    records = [];
    total_transitions = 0;
    total_estimated_bytes = 0;
  }
]

abbrev finished : FastReplay
finished = (finish_build none request taken).0

reach_applied : Reachable flat_codec none applied checking
unfolding program fast_runs
reach_applied = steps (steps starts (loads (snapshot_of one))) (applies none delta)

reach_taken : Reachable flat_codec none taken (building request)
unfolding program fast_runs request
reach_taken = steps reach_applied takes

reach_finished : Reachable flat_codec none finished stopped
unfolding program fast_runs request
reach_finished = steps reach_taken (finishes request)

Reachable-IsConsistent_example : IsConsistent finished stopped
Reachable-IsConsistent_example = Reachable-IsConsistent flat_codec none reach_finished

poll_idle_shows_example : view_cursor finished ≡ target_cursor finished
unfolding program fast_runs request
poll_idle_shows_example = poll_idle_shows flat_codec none false reach_finished refl

poll_idle_waits_example :
    (◌≡◌ {A = Worker} checking checking) ⊎ ((r : BuildRequest) × (checking ≡ building r))
unfolding program fast_runs request
poll_idle_waits_example = poll_idle_waits flat_codec none false reach_applied refl

-- a generator that always draws the last index
abbrev last_drawn : ℕ → ℕ → ℕ
last_drawn i n = n - 1

last_in_range : (i n : ℕ) → 0 < n → last_drawn i n < n
last_in_range i n p = omega arith

-- two transitions of one episode and one of another
abbrev small_request : BuildRequest
small_request = record {
  revision = 1;
  cursor = delta.base_cursor;
  records =
      record { episode = first; transition_count = 2 }
      ∷ record { episode = second; transition_count = 1 }
      ∷ [];
  total_transitions = 3;
  total_estimated_bytes = 4;
}

abbrev small_view : MaterializedView
small_view = record {
  cursor = delta.base_cursor;
  episodes = first ∷ second ∷ [];
  sampling_index = record {
    episode_ids = "a" ∷ "b" ∷ [];
    cumulative_lengths = 2 ∷ 3 ∷ [];
    total_transitions = 3;
  };
  module_sampling_indices = [];
  total_estimated_bytes = 4;
}

small_built : build_view none small_request ≡ ok small_view
unfolding fast_runs
small_built = refl

sample_positions_example :
    Answer last_drawn
      (counts small_request.records)
      0
      (int 2)
      (sample_positions last_drawn 0 small_view (int 2))
sample_positions_example =
    sample_positions_lem none small_request small_view last_drawn 0 (int 2) small_built
      last_in_range
