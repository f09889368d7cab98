-- ===== src/Replay.antt =====
-- src/rllib_async/protocols/replay.py: the values by which replay stores synchronise.
use Prim.Native.String.{len}
use rllib_async_runtime.Common.{
  ℕ, ◌+◌, String, str_eq, Bool, not, ◌&&◌, List, sum_of, ◌==◌, Result, ok, value_error, guard,
  ◌>>=◌, ◌>>◌,
}
use rllib_async_runtime.Dict.{Dict}
use rllib_async_runtime.Episode.Value.{Value, non_negative}
use rllib_async_runtime.Episode.Envelope.{EpisodeEnvelope}

pub record ReplayCursor : Type 0 where
  pub store_generation : String
  pub mutation_seq : ℕ

-- `ReplayCursor.__post_init__`
unfoldable pub replay_cursor : String → Value → Result ReplayCursor
unfolding non_negative
replay_cursor store_generation mutation_seq = do
  guard (not (str_eq store_generation "")) value_error
  n ← non_negative value_error mutation_seq
  ok (record { store_generation = store_generation; mutation_seq = n })

-- `==` of two cursors
abbrev pub same_cursor : ReplayCursor → ReplayCursor → Bool
same_cursor a b = str_eq a.store_generation b.store_generation && a.mutation_seq == b.mutation_seq

pub record ReplayTransaction : Type 0 where
  pub mutation_seq : ℕ
  pub added : EpisodeEnvelope
  pub evicted_episode_ids : List String

-- `ReplayTransaction.estimated_bytes`; `len` counts the bytes of UTF-8.
unfoldable pub transaction_bytes : ReplayTransaction → ℕ
transaction_bytes t = t.added.estimated_bytes + sum_of len t.evicted_episode_ids

pub record CommitAck : Type 0 where
  pub cursor : ReplayCursor
  pub committed : Bool
  pub duplicate : Bool
  pub evicted_episode_ids : List String

pub record ReplaySnapshot : Type 0 where
  pub cursor : ReplayCursor
  pub episodes : List EpisodeEnvelope
  pub total_transitions : ℕ
  pub total_estimated_bytes : ℕ

pub record ReplayDelta : Type 0 where
  pub base_cursor : ReplayCursor
  pub next_cursor : ReplayCursor
  pub transactions : List ReplayTransaction
  pub full_resync_required : Bool
  pub has_more : Bool

pub record ReplayStats : Type 0 where
  pub cursor : ReplayCursor
  pub episode_count : ℕ
  pub total_transitions : ℕ
  pub total_estimated_bytes : ℕ
  pub producer_episode_counts : Dict ℕ
  pub producer_transition_counts : Dict ℕ
  pub oldest_available_mutation_seq : ℕ
  pub journal_entries : ℕ
  pub deduplication_entries : ℕ
  pub commit_attempts : ℕ
  pub committed_episodes : ℕ
  pub duplicate_commits : ℕ
  pub rejected_commits : ℕ
  pub conflicting_commits : ℕ
  pub evicted_episodes : ℕ
