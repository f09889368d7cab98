-- ===== src/View.antt =====
-- `ReferenceFastReplay` of src/rllib_async/replay/reference.py: a learner's copy of the store, loaded
-- from a snapshot and advanced by deltas. A method that raises leaves the copy as it was, since the
-- source assigns its two fields last.
pub mod Transactions
pub mod Numbering
pub mod Sync
pub mod Round
pub mod Snapshot
pub mod Resync
pub mod Sampling
pub mod Coordinates
use rllib_async_runtime.Common.{
  ℕ, suc, ◌+◌, String, str_eq, Bool, true, false, not, ◌&&◌, Option, none, some, List, [], ◌∷◌,
  ◌==◌, if◌then◌else◌, sum_of, Result, ok, raise, replay_error, cursor_mismatch,
  full_resync_required, guard, ◌>>=◌, ◌>>◌,
}
use rllib_async_runtime.Dict.{Dict, contains, put, remove, keys, values}
use rllib_async_runtime.Episode.Envelope.{EpisodeEnvelope}
use rllib_async_runtime.Episode.Codec.{EpisodeCodec}
use rllib_async_runtime.Replay.{
  ReplayCursor, same_cursor, ReplayTransaction, ReplaySnapshot, ReplayDelta,
}

pub record View : Type 0 where
  pub cursor : Option ReplayCursor
  pub episodes : Dict EpisodeEnvelope

-- `ReferenceFastReplay.__init__`
abbrev pub empty_view : View
empty_view = record { cursor = none; episodes = [] }

-- the inner loop of `apply_delta`
unfoldable pub remove_each : Dict EpisodeEnvelope → List String → Result (Dict EpisodeEnvelope)
remove_each episodes [] = ok episodes
remove_each episodes (k ∷ ks) =
    let rest = remove_each (remove episodes k) ks in
    if contains episodes k then rest else raise replay_error

-- The local variables of the loop of `load_snapshot`.
pub record Loaded : Type 0 where
  pub episodes : Dict EpisodeEnvelope
  pub total_transitions : ℕ
  pub total_estimated_bytes : ℕ

module _ (codec : EpisodeCodec) where
  -- the loop of `load_snapshot`
  unfoldable pub load_episodes : List EpisodeEnvelope → Loaded → Result Loaded
  load_episodes [] l = ok l
  load_episodes (e ∷ es) l = do
    codec.validate e
    guard (not (contains l.episodes e.episode_id)) replay_error
    n ← codec.transition_count e
    load_episodes es (record {
      episodes = put l.episodes e.episode_id e;
      total_transitions = l.total_transitions + n;
      total_estimated_bytes = l.total_estimated_bytes + e.estimated_bytes;
    })

  unfoldable pub load_snapshot : ReplaySnapshot → Result View
  load_snapshot snapshot = do
    l ←
        load_episodes snapshot.episodes
          (record { episodes = []; total_transitions = 0; total_estimated_bytes = 0 })
    guard (l.total_transitions == snapshot.total_transitions) replay_error
    guard (l.total_estimated_bytes == snapshot.total_estimated_bytes) replay_error
    ok (record { cursor = some snapshot.cursor; episodes = l.episodes })

  -- the body of the loop of `apply_delta`; `at` is `expected_mutation_seq` before it is raised
  unfoldable pub apply_transaction :
      Dict EpisodeEnvelope → (at : ℕ) → ReplayTransaction → Result (Dict EpisodeEnvelope)
  apply_transaction episodes at t = do
    guard (t.mutation_seq == at + 1) cursor_mismatch
    codec.validate t.added
    guard (not (contains episodes t.added.episode_id)) replay_error
    remove_each (put episodes t.added.episode_id t.added) t.evicted_episode_ids

  -- the loop; it returns the episodes and the last expected sequence number
  unfoldable pub apply_transactions :
      Dict EpisodeEnvelope → (at : ℕ) → List ReplayTransaction → Result (Dict EpisodeEnvelope × ℕ)
  apply_transactions episodes at [] = ok (episodes, at)
  apply_transactions episodes at (t ∷ ts) = do
    episodes' ← apply_transaction episodes at t
    apply_transactions episodes' (at + 1) ts

  -- the method after the cursor was found
  unfoldable pub apply_at : ReplayCursor → Dict EpisodeEnvelope → ReplayDelta → Result View
  apply_at c episodes delta = do
    guard (same_cursor delta.base_cursor c) cursor_mismatch
    (episodes', expected) ← apply_transactions episodes c.mutation_seq delta.transactions
    guard (str_eq delta.next_cursor.store_generation c.store_generation) cursor_mismatch
    guard (delta.next_cursor.mutation_seq == expected) cursor_mismatch
    ok (record { cursor = some delta.next_cursor; episodes = episodes' })

  unfoldable pub apply_delta : View → ReplayDelta → Result View
  apply_delta v delta = do
    guard (not delta.full_resync_required) full_resync_required
    elim v.cursor [ none ↦ raise cursor_mismatch | some c ↦ apply_at c v.episodes delta ]

  -- `apply_deltas`: where one raises, those before it stay applied
  unfoldable pub apply_deltas : View → List ReplayDelta → Result (Unit {0}) × View
  apply_deltas v [] = (ok tt, v)
  apply_deltas v (d ∷ ds) = elim (apply_delta v d) [
    | raise error ↦ (raise error, v)
    | ok v' ↦ apply_deltas v' ds
  ]

  -- the sum of the transition counts
  unfoldable pub sum_counts : List EpisodeEnvelope → Result ℕ
  sum_counts [] = ok 0
  sum_counts (e ∷ es) = do n ← codec.transition_count e; m ← sum_counts es; ok (n + m)

  unfoldable pub get_snapshot : View → Result ReplaySnapshot
  get_snapshot v = elim v.cursor [
    | none ↦ raise replay_error
    | some c ↦ do
      n ← sum_counts (values v.episodes)
      ok (record {
        cursor = c;
        episodes = values v.episodes;
        total_transitions = n;
        total_estimated_bytes = sum_of (λ e. e.estimated_bytes) (values v.episodes);
      })
  ]
