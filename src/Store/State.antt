-- ===== src/Store/State.antt =====
-- `EpisodeStoreState` of src/rllib_async/replay/reference.py, `EpisodeStore.export_state`, and the loops
-- of `EpisodeStore.from_state` over the parts of a state. What a file may hold in place of an integer is
-- a `Value`; that the sequences are tuples of entries of the right length is left to the types.
use rllib_async_runtime.Common.{
  ℕ, suc, ◌+◌, String, str_eq, Bool, true, false, not, ◌&&◌, Option, none, some, List, [], ◌∷◌, map,
  length, leb, ◌==◌, if◌then◌else◌, Result, ok, raise, replay_error, invalid_store_state, guard,
  rethrow, ◌>>=◌, ◌>>◌,
}
use rllib_async_runtime.Dict.{Dict, get, contains, put, lookup, increase}
use rllib_async_runtime.Episode.Value.{Value, int, positive}
use rllib_async_runtime.Episode.Payload.{Bytes}
use rllib_async_runtime.Episode.Envelope.{EpisodeEnvelope}
use rllib_async_runtime.Episode.Codec.{EpisodeCodec}
use rllib_async_runtime.Replay.{ReplayTransaction}
use rllib_async_runtime.Retention.{Manifest, apply_retention_transaction}
use rllib_async_runtime.Store.{EpisodeStore, EpisodeRecord}
use rllib_async_runtime.Store.Commit.{same_bytes}

-- an entry of `episode_records`
pub record RecordEntry : Type 0 where
  pub episode_id : String
  pub fingerprint : Bytes
  pub transition_count : Value
  pub estimated_bytes : Value

-- an entry of `journal_base_manifest`
pub record BaseEntry : Type 0 where
  pub episode_id : String
  pub transition_count : Value
  pub estimated_bytes : Value

pub record EpisodeStoreState : Type 0 where
  pub format_version : Value
  pub codec_id : String
  pub codec_schema_version : Value
  pub capacity_transitions : Value
  pub capacity_bytes : Value
  pub journal_capacity : Value
  pub store_generation : Option String
  pub mutation_seq : Value
  pub episodes : List EpisodeEnvelope
  pub episode_records : List RecordEntry
  pub journal_base_manifest : List BaseEntry
  pub journal : List ReplayTransaction
  pub commit_attempts : Value
  pub committed_episodes : Value
  pub duplicate_commits : Value
  pub rejected_commits : Value
  pub conflicting_commits : Value
  pub evicted_episodes : Value

abbrev pub record_entry : String × EpisodeRecord → RecordEntry
record_entry (k, r) = record {
  episode_id = k;
  fingerprint = r.fingerprint;
  transition_count = int r.transition_count;
  estimated_bytes = int r.estimated_bytes;
}

abbrev pub base_entry : String × (ℕ × ℕ) → BaseEntry
base_entry (k, (t, b)) = record {
  episode_id = k;
  transition_count = int t;
  estimated_bytes = int b;
}

abbrev pub export_state : EpisodeCodec → EpisodeStore → EpisodeStoreState
export_state codec s = record {
  format_version = int 2;
  codec_id = codec.codec_id;
  codec_schema_version = int codec.schema_version;
  capacity_transitions = int s.capacity_transitions;
  capacity_bytes = int s.capacity_bytes;
  journal_capacity = int s.journal_capacity;
  store_generation = some s.store_generation;
  mutation_seq = int s.mutation_seq;
  episodes = map (λ x. x.1) s.episodes;
  episode_records = map record_entry s.episode_records;
  journal_base_manifest = map base_entry s.journal_base_manifest;
  journal = s.journal;
  commit_attempts = int s.commit_attempts;
  committed_episodes = int s.committed_episodes;
  duplicate_commits = int s.duplicate_commits;
  rejected_commits = int s.rejected_commits;
  conflicting_commits = int s.conflicting_commits;
  evicted_episodes = int s.evicted_episodes;
}

-- what the loop over the live episodes builds
pub record Live : Type 0 where
  pub episodes : Dict EpisodeEnvelope
  pub transition_counts : Dict ℕ
  pub producer_episode_counts : Dict ℕ
  pub producer_transition_counts : Dict ℕ
  pub total_transitions : ℕ
  pub total_estimated_bytes : ℕ

abbrev pub no_episodes : Live
no_episodes = record {
  episodes = [];
  transition_counts = [];
  producer_episode_counts = [];
  producer_transition_counts = [];
  total_transitions = 0;
  total_estimated_bytes = 0;
}

abbrev pub add_live : Live → EpisodeEnvelope → ℕ → Live
add_live l e n = record {
  episodes = put l.episodes e.episode_id e;
  transition_counts = put l.transition_counts e.episode_id n;
  producer_episode_counts = increase l.producer_episode_counts e.producer_member_id 1;
  producer_transition_counts = increase l.producer_transition_counts e.producer_member_id n;
  total_transitions = l.total_transitions + n;
  total_estimated_bytes = l.total_estimated_bytes + e.estimated_bytes;
}

-- `hashlib.sha256().digest_size`
abbrev pub digest_size : ℕ
digest_size = 32

-- the loop over `episode_records`; the two dictionaries that it fills have the same keys: they are one
unfoldable pub load_records :
    (capacity_transitions capacity_bytes : ℕ)
    → List RecordEntry
    → Dict EpisodeRecord
    → Result (Dict EpisodeRecord)
unfolding positive contains put
load_records cap_t cap_b [] d = ok d
load_records cap_t cap_b (r ∷ rs) d = do
  guard (not (str_eq r.episode_id "")) invalid_store_state
  guard (length r.fingerprint == digest_size) invalid_store_state
  t ← positive invalid_store_state r.transition_count
  b ← positive invalid_store_state r.estimated_bytes
  guard (not (contains d r.episode_id)) invalid_store_state
  guard (leb t cap_t && leb b cap_b) invalid_store_state
  load_records cap_t cap_b rs (
      put d r.episode_id
        (record { fingerprint = r.fingerprint; transition_count = t; estimated_bytes = b }))

-- `retention_metadata[k] == (t, b)`
unfoldable pub same_sizes : Dict EpisodeRecord → String → ℕ → ℕ → Bool
unfolding get
same_sizes d k t b = elim (get d k) [
  | none ↦ false
  | some r ↦ r.transition_count == t && r.estimated_bytes == b
]

-- the loop over `journal_base_manifest`
unfoldable pub load_base : Dict EpisodeRecord → List BaseEntry → Manifest → Result Manifest
unfolding positive contains put same_sizes
load_base d [] m = ok m
load_base d (x ∷ xs) m = do
  guard (not (str_eq x.episode_id "")) invalid_store_state
  t ← positive invalid_store_state x.transition_count
  b ← positive invalid_store_state x.estimated_bytes
  guard (not (contains m x.episode_id)) invalid_store_state
  guard (contains d x.episode_id) invalid_store_state
  guard (same_sizes d x.episode_id t b) invalid_store_state
  load_base d xs (put m x.episode_id (t, b))

-- `==` of two `OrderedDict`s of sizes: the order counts
unfoldable pub same_manifest : Manifest → Manifest → Bool
same_manifest [] [] = true
same_manifest [] (y ∷ m) = false
same_manifest (x ∷ l) [] = false
same_manifest ((k, (t, b)) ∷ l) ((j, (u, c)) ∷ m) =
    let rest = same_manifest l m in if str_eq k j && (t == u && b == c) then rest else false

-- every evicted ID is a non-empty text
unfoldable pub all_named : List String → Bool
all_named [] = true
all_named (k ∷ ks) = not (str_eq k "") && all_named ks

-- `except ReplayError as error: raise InvalidEpisodeStoreStateError(…) from error`
abbrev pub except_replay {ℓ} : {A : Type ℓ} → Result A → Result A
except_replay (ok a) = ok a
except_replay (raise replay_error) = raise invalid_store_state
except_replay (raise e) = raise e

module _ (codec : EpisodeCodec) where
  unfoldable pub load_live : List EpisodeEnvelope → Live → Result Live
  unfolding contains put increase
  load_live [] l = ok l
  load_live (e ∷ es) l = do
    n ← rethrow invalid_store_state (codec.validate e >> codec.transition_count e)
    guard (not (contains l.episodes e.episode_id)) invalid_store_state
    load_live es (add_live l e n)

  module _ (fingerprint : EpisodeEnvelope → Bytes) where
    -- `fingerprints.get(e.episode_id) == cls._fingerprint(e)`
    unfoldable pub same_fingerprint : Dict EpisodeRecord → EpisodeEnvelope → Bool
    unfolding get same_bytes
    same_fingerprint d e = elim (get d e.episode_id) [
      | none ↦ false
      | some r ↦ same_bytes r.fingerprint (fingerprint e)
    ]

    -- the loop that compares the live episodes with their records
    unfoldable pub check_live :
        Dict EpisodeRecord → (transition_counts : Dict ℕ) → Dict EpisodeEnvelope → Result (Unit {0})
    unfolding same_fingerprint same_sizes lookup
    check_live d counts [] = ok tt
    check_live d counts ((k, e) ∷ es) = do
      guard (same_fingerprint d e) invalid_store_state
      n ← lookup counts e.episode_id
      guard (same_sizes d e.episode_id n e.estimated_bytes) invalid_store_state
      check_live d counts es

    -- the loop over the journal; `seq` is the expected sequence number
    unfoldable pub replay_journal :
        (capacity_transitions capacity_bytes : ℕ)
        → Dict EpisodeRecord
        → (seq : ℕ) → Manifest
        → (total_transitions total_estimated_bytes : ℕ) → List ReplayTransaction
        → Result Manifest
    unfolding same_fingerprint same_sizes all_named apply_retention_transaction
    replay_journal cap_t cap_b d seq m total_t total_b [] = ok m
    replay_journal cap_t cap_b d seq m total_t total_b (t ∷ ts) = do
      guard (t.mutation_seq == seq) invalid_store_state
      rethrow invalid_store_state (codec.validate t.added)
      guard (same_fingerprint d t.added) invalid_store_state
      n ← codec.transition_count t.added
      guard (same_sizes d t.added.episode_id n t.added.estimated_bytes) invalid_store_state
      guard (all_named t.evicted_episode_ids) invalid_store_state
      r ← except_replay (apply_retention_transaction codec cap_t cap_b m t total_t total_b)
      replay_journal cap_t cap_b d (suc seq) r.manifest r.total_transitions r.total_estimated_bytes
          ts
