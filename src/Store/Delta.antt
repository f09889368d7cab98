-- ===== src/Store/Delta.antt =====
-- What the store sends to a learner: snapshots, bounded deltas and statistics.
use rllib_async_runtime.Common.{
  ℕ, ◌+◌, ◌-◌, str_eq, Bool, true, false, not, ◌&&◌, Option, none, some, List, [], ◌∷◌, length, ltb,
  ◌==◌, if◌then◌else◌, Result, ok, value_error, snapshot_too_large, guard, ◌>>◌,
}
use rllib_async_runtime.Dict.{values}
use rllib_async_runtime.Episode.Versions.{sort_by_key}
use rllib_async_runtime.Replay.{
  ReplayCursor, ReplayTransaction, ReplaySnapshot, ReplayDelta, ReplayStats, transaction_bytes,
}
use rllib_async_runtime.Store.{EpisodeStore, cursor}

abbrev pub snapshot_of : EpisodeStore → ReplaySnapshot
snapshot_of s = record {
  cursor = cursor s;
  episodes = values s.episodes;
  total_transitions = s.total_transitions;
  total_estimated_bytes = s.total_estimated_bytes;
}

unfoldable pub get_snapshot : EpisodeStore → Option ℕ → Result ReplaySnapshot
get_snapshot s none = ok (snapshot_of s)
get_snapshot s (some max_bytes) = do
  guard (not (ltb max_bytes 1)) value_error
  guard (not (ltb max_bytes s.total_estimated_bytes)) snapshot_too_large
  ok (snapshot_of s)

-- the last two tests of `_requires_full_resync`
unfoldable pub outside_journal : List ReplayTransaction → (at now : ℕ) → Bool
outside_journal [] at now = not (at == now)
outside_journal (t ∷ journal) at now = ltb at (t.mutation_seq - 1)

unfoldable pub requires_full_resync : EpisodeStore → ReplayCursor → Bool
unfolding outside_journal
requires_full_resync s c =
    if not (str_eq c.store_generation s.store_generation)
    then true
    else if ltb s.mutation_seq c.mutation_seq
    then true
    else outside_journal s.journal c.mutation_seq s.mutation_seq

-- `[t for t in journal if t.mutation_seq > at]`
unfoldable pub pending_after : ℕ → List ReplayTransaction → List ReplayTransaction
pending_after at [] = []
pending_after at (t ∷ journal) =
    let rest = pending_after at journal in if ltb at t.mutation_seq then t ∷ rest else rest

-- The loop that fills a delta: `started` tells whether a transaction was selected before.
unfoldable pub select_within :
    (max_bytes : ℕ) → Bool → ℕ → List ReplayTransaction → List ReplayTransaction
unfolding transaction_bytes
select_within max_bytes started bytes [] = []
select_within max_bytes started bytes (t ∷ pending) =
    let rest = t ∷ select_within max_bytes true (bytes + transaction_bytes t) pending in
    if started && ltb max_bytes (bytes + transaction_bytes t) then [] else rest

-- the sequence number of the last transaction, or the given one
unfoldable pub last_seq : ℕ → List ReplayTransaction → ℕ
last_seq at [] = at
last_seq at (t ∷ ts) = last_seq t.mutation_seq ts

-- the cursor after the selected transactions
unfoldable pub cursor_after : EpisodeStore → ReplayCursor → List ReplayTransaction → ReplayCursor
unfolding last_seq
cursor_after s c [] = c
cursor_after s c (t ∷ ts) = record {
  store_generation = s.store_generation;
  mutation_seq = last_seq t.mutation_seq ts;
}

unfoldable pub get_delta : EpisodeStore → ReplayCursor → ℕ → Result ReplayDelta
unfolding requires_full_resync pending_after select_within cursor_after
get_delta s c max_bytes = do
  guard (not (ltb max_bytes 1)) value_error
  let selected = select_within max_bytes false 0 (pending_after c.mutation_seq s.journal)
  let next_cursor = cursor_after s c selected
  ok (
      if requires_full_resync s c
      then record {
        base_cursor = c;
        next_cursor = cursor s;
        transactions = [];
        full_resync_required = true;
        has_more = false;
      }
      else record {
        base_cursor = c;
        next_cursor = next_cursor;
        transactions = selected;
        full_resync_required = false;
        has_more = ltb next_cursor.mutation_seq s.mutation_seq;
      })

abbrev oldest_available : List ReplayTransaction → ℕ → ℕ
oldest_available [] now = now + 1
oldest_available (t ∷ journal) now = t.mutation_seq

unfoldable pub get_stats : EpisodeStore → ReplayStats
unfolding sort_by_key
get_stats s = record {
  cursor = cursor s;
  episode_count = length s.episodes;
  total_transitions = s.total_transitions;
  total_estimated_bytes = s.total_estimated_bytes;
  producer_episode_counts = sort_by_key s.producer_episode_counts;
  producer_transition_counts = sort_by_key s.producer_transition_counts;
  oldest_available_mutation_seq = oldest_available s.journal s.mutation_seq;
  journal_entries = length s.journal;
  deduplication_entries = length s.episode_records;
  commit_attempts = s.commit_attempts;
  committed_episodes = s.committed_episodes;
  duplicate_commits = s.duplicate_commits;
  rejected_commits = s.rejected_commits;
  conflicting_commits = s.conflicting_commits;
  evicted_episodes = s.evicted_episodes;
}
