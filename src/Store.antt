-- ===== src/Store.antt =====
-- `EpisodeStore` of src/rllib_async/replay/reference.py, the authoritative FIFO episode store: its
-- state and constructor. The operations and their proofs are in the modules below.
pub mod Commit
pub mod Delta
pub mod Invariant
pub mod Evict
pub mod Journal
pub mod Prepare
pub mod Preserve
pub mod Outcome
pub mod Behaviour
pub mod Retry
pub mod History
pub mod State
pub mod Restore
pub mod Loaded
pub mod Restored
pub mod FromState
pub mod Stamps
pub mod Exported
pub mod Reloaded
pub mod Reread
pub mod RoundTrip
pub mod Producers
use rllib_async_runtime.Common.{
  ℕ, String, str_eq, Bool, true, false, not, List, [], ◌∷◌, Option, none, some, Result, ok, raise,
  value_error, guard, ◌>>=◌, ◌>>◌,
}
use rllib_async_runtime.Dict.{Dict}
use rllib_async_runtime.Episode.Value.{Value, positive}
use rllib_async_runtime.Episode.Payload.{Bytes}
use rllib_async_runtime.Episode.Envelope.{EpisodeEnvelope}
use rllib_async_runtime.Replay.{ReplayCursor, ReplayTransaction}
use rllib_async_runtime.Retention.{Manifest}

-- One entry of `_episode_records`: fingerprint, transitions, bytes.
pub record EpisodeRecord : Type 0 where
  pub fingerprint : Bytes
  pub transition_count : ℕ
  pub estimated_bytes : ℕ

pub record Config : Type 0 where
  pub capacity_transitions : ℕ
  pub capacity_bytes : ℕ
  pub journal_capacity : ℕ
  pub store_generation : String

pub record EpisodeStore : Type 0 where
  pub config : Config
  pub open config use *
  pub mutation_seq : ℕ
  pub episodes : Dict EpisodeEnvelope
  pub transition_counts : Dict ℕ
  pub episode_records : Dict EpisodeRecord
  pub total_transitions : ℕ
  pub total_estimated_bytes : ℕ
  pub producer_episode_counts : Dict ℕ
  pub producer_transition_counts : Dict ℕ
  pub journal_base_manifest : Manifest
  pub journal : List ReplayTransaction
  pub commit_attempts : ℕ
  pub committed_episodes : ℕ
  pub duplicate_commits : ℕ
  pub rejected_commits : ℕ
  pub conflicting_commits : ℕ
  pub evicted_episodes : ℕ

-- `store_generation or uuid.uuid4().hex`: a given generation is a non-empty text; the random one is
-- the argument `fresh`.
unfoldable pub generation : Option String → String → Result String
generation none fresh = ok fresh
generation (some g) fresh = do guard (not (str_eq g "")) value_error; ok g

abbrev pub empty_store : Config → EpisodeStore
empty_store c = record {
  config = c;
  mutation_seq = 0;
  episodes = [];
  transition_counts = [];
  episode_records = [];
  total_transitions = 0;
  total_estimated_bytes = 0;
  producer_episode_counts = [];
  producer_transition_counts = [];
  journal_base_manifest = [];
  journal = [];
  commit_attempts = 0;
  committed_episodes = 0;
  duplicate_commits = 0;
  rejected_commits = 0;
  conflicting_commits = 0;
  evicted_episodes = 0;
}

-- `EpisodeStore.__init__`
unfoldable pub init :
    (capacity_transitions capacity_bytes journal_capacity : Value)
    → (store_generation : Option String) → (fresh : String) → Result EpisodeStore
unfolding positive generation
init capacity_transitions capacity_bytes journal_capacity store_generation fresh = do
  t ← positive value_error capacity_transitions
  b ← positive value_error capacity_bytes
  j ← positive value_error journal_capacity
  g ← generation store_generation fresh
  ok (
      empty_store (record {
        capacity_transitions = t;
        capacity_bytes = b;
        journal_capacity = j;
        store_generation = g;
      }))

-- the property `cursor`
abbrev pub cursor : EpisodeStore → ReplayCursor
cursor s = record { store_generation = s.store_generation; mutation_seq = s.mutation_seq }
