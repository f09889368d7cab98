-- ===== src/Fast/Target.antt =====
-- What the writer of `FastReplay` checks: the loops of `apply_delta` and of `_target_from_snapshot`.
use rllib_async_runtime.Common.{
  ℕ, ◌+◌, ◌-◌, String, str_eq, not, none, some, List, [], ◌∷◌, ◌++◌, map, ◌==◌, if◌then◌else◌,
  Result, ok, raise, replay_error, key_error, index_error, cursor_mismatch, guard, ◌>>=◌, ◌>>◌,
}
use rllib_async_runtime.Dict.{Dict, get, contains, put, remove, lookup, keys, values}
use rllib_async_runtime.Episode.Envelope.{EpisodeEnvelope}
use rllib_async_runtime.Episode.Codec.{EpisodeCodec}
use rllib_async_runtime.Replay.{same_cursor, ReplayTransaction, ReplaySnapshot, ReplayDelta}
use rllib_async_runtime.Fast.{EpisodeRecord, TargetState, BuildRequest}

abbrev pub request_of : ℕ → TargetState → Dict EpisodeRecord → BuildRequest
request_of revision t records = record {
  revision = revision;
  cursor = t.cursor;
  records = values records;
  total_transitions = t.total_transitions;
  total_estimated_bytes = t.total_estimated_bytes;
}

-- The local variables of the loop of `apply_delta`; `present_ids` is a set.
pub record Accepted : Type 0 where
  pub manifest_ids : List String
  pub present_ids : Dict (Unit {0})
  pub added_records : Dict EpisodeRecord
  pub total_transitions : ℕ
  pub total_estimated_bytes : ℕ
  pub added_agent_steps : ℕ

-- `added_records.get(evicted_id)`, else `target.records[evicted_id]`
unfoldable pub evicted_record :
    Dict EpisodeRecord → Dict EpisodeRecord → String → Result EpisodeRecord
evicted_record added records k = elim (get added k) [ none ↦ lookup records k | some r ↦ ok r ]

-- the inner loop over the evicted IDs
unfoldable pub evict_ids : Dict EpisodeRecord → List String → Accepted → Result Accepted
unfolding evicted_record
evict_ids records [] a = ok a
evict_ids records (k ∷ ks) a = do
  guard (contains a.present_ids k) replay_error
  manifest_ids ← elim a.manifest_ids [
    | [] ↦ raise index_error
    | first ∷ rest ↦ guard (str_eq first k) replay_error >> ok rest
  ]
  r ← evicted_record a.added_records records k
  evict_ids records ks (record a {
    manifest_ids = manifest_ids;
    present_ids = remove a.present_ids k;
    total_transitions = a.total_transitions - r.transition_count;
    total_estimated_bytes = a.total_estimated_bytes - r.episode.estimated_bytes;
  })

-- the assignments to `_records`; an exception would leave those before it done
unfoldable pub delete_each :
    Dict EpisodeRecord → List String → Result (Unit {0}) × Dict EpisodeRecord
delete_each records [] = (ok tt, records)
delete_each records (k ∷ ks) =
    let rest = delete_each (remove records k) ks in
    if contains records k then rest else (raise key_error, records)

unfoldable pub write_records :
    Dict EpisodeRecord
    → Dict EpisodeRecord
    → List ReplayTransaction
    → Result (Unit {0}) × Dict EpisodeRecord
write_records added records [] = (ok tt, records)
write_records added records (t ∷ ts) = elim (lookup added t.added.episode_id) [
  | raise error ↦ (raise error, records)
  | ok r ↦
      let (done, records') = delete_each (put records t.added.episode_id r) t.evicted_episode_ids in
      elim done [ raise error ↦ (raise error, records') | ok _ ↦ write_records added records' ts ]
]

module _ (codec : EpisodeCodec) where
  -- the loop of `apply_delta`; `at` is `expected_mutation_seq`, which it returns too
  unfoldable pub accept_transactions :
      Dict EpisodeRecord → (at : ℕ) → List ReplayTransaction → Accepted → Result (ℕ × Accepted)
  accept_transactions records at [] a = ok (at, a)
  accept_transactions records at (t ∷ ts) a = do
    guard (t.mutation_seq == at + 1) cursor_mismatch
    codec.validate t.added
    guard (not (contains a.present_ids t.added.episode_id)) replay_error
    n ← codec.transition_count t.added
    a' ← evict_ids records t.evicted_episode_ids (record {
      manifest_ids = a.manifest_ids ++ t.added.episode_id ∷ [];
      present_ids = put a.present_ids t.added.episode_id tt;
      added_records =
          put a.added_records t.added.episode_id
            (record { episode = t.added; transition_count = n });
      total_transitions = a.total_transitions + n;
      total_estimated_bytes = a.total_estimated_bytes + t.added.estimated_bytes;
      added_agent_steps = a.added_agent_steps + t.added.agent_steps;
    })
    accept_transactions records (at + 1) ts a'

  abbrev pub accepted_from : TargetState → Dict EpisodeRecord → Accepted
  accepted_from t records = record {
    manifest_ids = keys records;
    present_ids = map (λ x. (x.0, tt)) records;
    added_records = [];
    total_transitions = t.total_transitions;
    total_estimated_bytes = t.total_estimated_bytes;
    added_agent_steps = 0;
  }

  -- the checks of `apply_delta` against the target: what they accept
  unfoldable pub accept_delta : TargetState → Dict EpisodeRecord → ReplayDelta → Result Accepted
  accept_delta t records d = do
    guard (same_cursor d.base_cursor t.cursor) cursor_mismatch
    (expected, a) ←
        accept_transactions records t.cursor.mutation_seq d.transactions (accepted_from t records)
    guard (str_eq d.next_cursor.store_generation t.cursor.store_generation) cursor_mismatch
    guard (d.next_cursor.mutation_seq == expected) cursor_mismatch
    ok a

  -- the loop of `_target_from_snapshot`
  unfoldable pub load_records :
      List EpisodeEnvelope → Dict EpisodeRecord → ℕ → ℕ → Result (Dict EpisodeRecord × (ℕ × ℕ))
  load_records [] records total bytes = ok (records, (total, bytes))
  load_records (e ∷ es) records total bytes = do
    codec.validate e
    guard (not (contains records e.episode_id)) replay_error
    n ← codec.transition_count e
    load_records es (put records e.episode_id (record { episode = e; transition_count = n }))
        (total + n) (bytes + e.estimated_bytes)

  unfoldable pub target_from_snapshot : ReplaySnapshot → Result (TargetState × Dict EpisodeRecord)
  target_from_snapshot snapshot = do
    (records, (total, bytes)) ← load_records snapshot.episodes [] 0 0
    guard (total == snapshot.total_transitions) replay_error
    guard (bytes == snapshot.total_estimated_bytes) replay_error
    ok (
      record { cursor = snapshot.cursor; total_transitions = total; total_estimated_bytes = bytes },
      records,
    )
