-- ===== src/Retention.antt =====
-- The retention manifests of src/rllib_async/replay/reference.py: for each episode its number of
-- transitions and of bytes, in commit order, and the functions that advance and check one.
pub mod Laws
use rllib_async_runtime.Common.{
  ℕ, ◌+◌, ◌-◌, String, str_eq, Bool, true, false, not, List, [], ◌∷◌, if◌then◌else◌, Result, ok,
  raise, key_error, replay_error, guard, ◌>>=◌, ◌>>◌,
}
use rllib_async_runtime.Dict.{Dict, contains, put, lookup}
use rllib_async_runtime.Fifo.{is_over}
use rllib_async_runtime.Episode.Envelope.{EpisodeEnvelope}
use rllib_async_runtime.Episode.Codec.{EpisodeCodec}
use rllib_async_runtime.Replay.{ReplayTransaction}

abbrev pub Manifest : Type 0
Manifest = Dict (ℕ × ℕ)

-- `_retention_manifest`
unfoldable pub retention_manifest : Dict EpisodeEnvelope → Dict ℕ → Result Manifest
unfolding lookup
retention_manifest [] counts = ok []
retention_manifest ((episode_id, e) ∷ episodes) counts = do
  n ← lookup counts episode_id
  rest ← retention_manifest episodes counts
  ok ((episode_id, (n, e.estimated_bytes)) ∷ rest)

-- What the eviction loop leaves: the manifest, what it popped, and the two totals.
pub record Trimmed : Type 0 where
  pub manifest : Manifest
  pub evicted_episode_ids : List String
  pub total_transitions : ℕ
  pub total_estimated_bytes : ℕ

module _ (capacity_transitions capacity_bytes : ℕ) where
  -- `while total > capacity: manifest.popitem(last=False); …`; popping an empty one raises.
  unfoldable pub trim : Manifest → ℕ → ℕ → Result Trimmed
  trim [] total_t total_b =
      if is_over capacity_transitions capacity_bytes total_t total_b
      then raise key_error
      else ok (record {
        manifest = [];
        evicted_episode_ids = [];
        total_transitions = total_t;
        total_estimated_bytes = total_b;
      })
  trim ((episode_id, (t, b)) ∷ manifest) total_t total_b =
      let popped : Result Trimmed = (do
        r ← trim manifest (total_t - t) (total_b - b)
        ok (record r { evicted_episode_ids = episode_id ∷ r.evicted_episode_ids })) in
      if is_over capacity_transitions capacity_bytes total_t total_b
      then popped
      else ok (record {
        manifest = (episode_id, (t, b)) ∷ manifest;
        evicted_episode_ids = [];
        total_transitions = total_t;
        total_estimated_bytes = total_b;
      })

  -- the loop of `_retention_manifest_from_history`, over its local variables
  unfoldable pub replay_history : Manifest → Manifest → ℕ → ℕ → Result Manifest
  unfolding trim put
  replay_history [] manifest total_t total_b = ok manifest
  replay_history ((episode_id, (t, b)) ∷ history) manifest total_t total_b = do
    r ← trim (put manifest episode_id (t, b)) (total_t + t) (total_b + b)
    replay_history history r.manifest r.total_transitions r.total_estimated_bytes

  -- `_retention_manifest_from_history`
  unfoldable pub retention_manifest_from_history : Manifest → Result Manifest
  unfolding replay_history
  retention_manifest_from_history history = replay_history history [] 0 0

-- `==` of two tuples of texts
unfoldable pub same_ids : List String → List String → Bool
same_ids [] [] = true
same_ids [] (b ∷ bs) = false
same_ids (a ∷ ids) [] = false
same_ids (a ∷ ids) (b ∷ bs) = let rest = same_ids ids bs in if str_eq a b then rest else false

-- `del` of each evicted ID, which must be the oldest of the manifest
unfoldable pub evict_fifo : Manifest → List String → Result Manifest
evict_fifo manifest [] = ok manifest
evict_fifo [] (k ∷ ks) = raise replay_error
evict_fifo ((j, v) ∷ manifest) (k ∷ ks) =
    let rest = evict_fifo manifest ks in if str_eq j k then rest else raise replay_error

module _ (codec : EpisodeCodec) where
  -- `_apply_retention_transaction`; the manifest is mutated in place in the source, here returned.
  unfoldable pub apply_retention_transaction :
      (capacity_transitions capacity_bytes : ℕ)
      → Manifest
      → ReplayTransaction
      → (total_transitions total_estimated_bytes : ℕ) → Result Trimmed
  unfolding contains put trim same_ids
  apply_retention_transaction capacity_transitions capacity_bytes manifest t total_t total_b = do
    guard (not (contains manifest t.added.episode_id)) replay_error
    n ← codec.transition_count t.added
    r ←
        trim capacity_transitions capacity_bytes
          (put manifest t.added.episode_id (n, t.added.estimated_bytes)) (total_t + n)
          (total_b + t.added.estimated_bytes)
    guard (same_ids t.evicted_episode_ids r.evicted_episode_ids) replay_error
    ok r

  -- `_advance_retention_manifest`
  unfoldable pub advance_retention_manifest : Manifest → ReplayTransaction → Result Manifest
  unfolding contains put evict_fifo
  advance_retention_manifest manifest t = do
    guard (not (contains manifest t.added.episode_id)) replay_error
    n ← codec.transition_count t.added
    evict_fifo (put manifest t.added.episode_id (n, t.added.estimated_bytes)) t.evicted_episode_ids
