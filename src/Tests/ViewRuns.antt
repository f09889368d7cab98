-- ===== src/Tests/ViewRuns.antt =====
-- A learner's view that follows the store, at concrete inputs.
use rllib_async_runtime.Common.{◌+◌, ◌≤◌, ◌<◌, ◌≡◌, ◌⊎◌, refl, inl, [], ◌∷◌, ok}
use rllib_async_runtime.Episode.Flat.{flat_codec}
use rllib_async_runtime.Replay.{transaction_bytes}
use rllib_async_runtime.Store.Commit.{commit_episode}
use rllib_async_runtime.Store.Delta.{
  snapshot_of, outside_journal, requires_full_resync, pending_after, select_within, last_seq,
  cursor_after, get_delta,
}
use rllib_async_runtime.View.{
  View, remove_each, load_snapshot, apply_transaction, apply_transactions, apply_at, apply_delta,
}
use rllib_async_runtime.View.Sync.{IsBehind, commit_episode-IsBehind}
use rllib_async_runtime.View.Resync.{IsResynced, IsAdvanced, sync_or_resync}
use rllib_async_runtime.View.Snapshot.{level_view, load_snapshot_lem, level_view-IsBehind}
use rllib_async_runtime.Tests.Samples.{first, second, third, third-IsEnvelope, mark}
use rllib_async_runtime.Tests.StoreRuns.{program, one, two, one-Inv, two-Inv}

-- What a test has to open to run a view.
runs : Unit {0}
unfolding remove_each apply_transaction apply_transactions apply_at apply_delta outside_journal
    requires_full_resync pending_after transaction_bytes select_within last_seq cursor_after
    get_delta
runs = tt

-- The view is loaded before the second commit, whose transaction is then pending.
abbrev behind_two : IsBehind flat_codec two (level_view flat_codec one one-Inv)
unfolding program runs
behind_two = record {
  seq = 1;
  standing = refl;
  pending = record { mutation_seq = 2; added = second; evicted_episode_ids = [] } ∷ [];
  catches = refl;
  agrees = inl (record { mutation_seq = 1; added = first; evicted_episode_ids = [] } ∷ [], refl);
}

load_snapshot_example :
    load_snapshot flat_codec (snapshot_of two) ≡ ok (level_view flat_codec two two-Inv)
load_snapshot_example = load_snapshot_lem flat_codec two two-Inv

commit_episode-IsBehind_example :
    IsBehind flat_codec
      (commit_episode flat_codec mark two third).1
      (level_view flat_codec two two-Inv)
commit_episode-IsBehind_example =
    commit_episode-IsBehind flat_codec mark two two-Inv third third-IsEnvelope
      (level_view flat_codec two two-Inv) (level_view-IsBehind flat_codec two two-Inv)

abbrev view_one : View
view_one = level_view flat_codec one one-Inv

sync_or_resync_example :
    ((1 + two.journal_capacity < 2) × IsResynced flat_codec two two-Inv view_one behind_two 100)
    ⊎ ((2 ≤ 1 + two.journal_capacity) × IsAdvanced flat_codec two two-Inv view_one behind_two 100)
unfolding program behind_two
sync_or_resync_example = sync_or_resync flat_codec two two-Inv view_one behind_two 100 refl
