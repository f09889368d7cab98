-- ===== src/Store/Commit.antt =====
-- `EpisodeStore.commit_episode`. A call returns its result or exception beside the state it leaves,
-- since counters that were raised before an exception stay raised. The fingerprint is a parameter: that an
-- envelope can be pickled is taken for granted.
use rllib_async_runtime.Common.{
  ℕ, ◌+◌, ◌-◌, String, Bool, true, false, none, some, List, [], ◌∷◌, ◌++◌, length, ltb, ◌==◌,
  if◌then◌else◌, Result, ok, raise, key_error, episode_too_large, duplicate_conflict, ◌>>=◌, ◌>>◌,
}
use rllib_async_runtime.Dict.{Dict, get, put, remove, lookup, increase, decrease}
use rllib_async_runtime.Fifo.{is_over}
use rllib_async_runtime.Episode.Payload.{Bytes}
use rllib_async_runtime.Episode.Envelope.{EpisodeEnvelope}
use rllib_async_runtime.Episode.Codec.{EpisodeCodec}
use rllib_async_runtime.Replay.{ReplayTransaction, CommitAck}
use rllib_async_runtime.Retention.{Manifest, retention_manifest, advance_retention_manifest}
use rllib_async_runtime.Store.{EpisodeStore, EpisodeRecord, cursor}

-- The local copies that the eviction loop works on.
pub record Retained : Type 0 where
  pub episodes : Dict EpisodeEnvelope
  pub transition_counts : Dict ℕ
  pub total_transitions : ℕ
  pub total_estimated_bytes : ℕ
  pub producer_episode_counts : Dict ℕ
  pub producer_transition_counts : Dict ℕ
  pub evicted_episode_ids : List String

-- `while total > capacity: episodes.popitem(last=False); …`, by recursion on the episodes, the
-- other variables as arguments.
unfoldable pub evict_episodes :
    (capacity_transitions capacity_bytes : ℕ)
    → (episodes : Dict EpisodeEnvelope) → (transition_counts : Dict ℕ)
    → (total_transitions total_estimated_bytes : ℕ)
    → (producer_episode_counts producer_transition_counts : Dict ℕ) → Result Retained
evict_episodes cap_t cap_b [] counts total_t total_b by_episode by_transition =
    if is_over cap_t cap_b total_t total_b
    then raise key_error
    else ok (record {
      episodes = [];
      transition_counts = counts;
      total_transitions = total_t;
      total_estimated_bytes = total_b;
      producer_episode_counts = by_episode;
      producer_transition_counts = by_transition;
      evicted_episode_ids = [];
    })
evict_episodes cap_t cap_b ((evicted_id, evicted) ∷ episodes) counts total_t total_b by_episode
      by_transition =
    let popped : Result Retained = (do
      n ← lookup counts evicted_id
      r ←
          evict_episodes cap_t cap_b episodes (remove counts evicted_id) (total_t - n)
            (total_b - evicted.estimated_bytes) (decrease by_episode evicted.producer_member_id 1)
            (decrease by_transition evicted.producer_member_id n)
      ok (record r { evicted_episode_ids = evicted_id ∷ r.evicted_episode_ids })) in
    if is_over cap_t cap_b total_t total_b
    then popped
    else ok (record {
      episodes = (evicted_id, evicted) ∷ episodes;
      transition_counts = counts;
      total_transitions = total_t;
      total_estimated_bytes = total_b;
      producer_episode_counts = by_episode;
      producer_transition_counts = by_transition;
      evicted_episode_ids = [];
    })

-- `==` of two fingerprints
unfoldable pub same_bytes : Bytes → Bytes → Bool
same_bytes [] [] = true
same_bytes [] (b ∷ bs) = false
same_bytes (a ∷ as') [] = false
same_bytes (a ∷ as') (b ∷ bs) = let rest = same_bytes as' bs in if a == b then rest else false

-- The values that the commit of a new episode computes before it assigns any field.
pub record Prepared : Type 0 where
  pub retained : Retained
  pub base : Manifest
  pub journal : List ReplayTransaction

module _ (codec : EpisodeCodec) where
  -- `while len(journal) > journal_capacity: …`
  unfoldable pub compact :
      (journal_capacity : ℕ)
      → Manifest
      → List ReplayTransaction
      → Result (Manifest × List ReplayTransaction)
  compact capacity base [] = ok (base, [])
  compact capacity base (t ∷ journal) =
      let popped : Result (Manifest × List ReplayTransaction) = (do
        base' ← advance_retention_manifest codec base t
        compact capacity base' journal) in
      if ltb capacity (length (t ∷ journal)) then popped else ok (base, t ∷ journal)

  -- the base of an empty journal is the manifest before the commit
  unfoldable pub journal_base : EpisodeStore → List ReplayTransaction → Result Manifest
  journal_base s [] = retention_manifest s.episodes s.transition_counts
  journal_base s (t ∷ journal) = ok s.journal_base_manifest

  unfoldable pub prepare : EpisodeStore → EpisodeEnvelope → ℕ → Result Prepared
  prepare s e n = do
    r ←
        evict_episodes s.capacity_transitions s.capacity_bytes (put s.episodes e.episode_id e)
          (put s.transition_counts e.episode_id n) (s.total_transitions + n)
          (s.total_estimated_bytes + e.estimated_bytes)
          (increase s.producer_episode_counts e.producer_member_id 1)
          (increase s.producer_transition_counts e.producer_member_id n)
    base ← journal_base s s.journal
    (base', journal) ← compact s.journal_capacity base (
        s.journal
        ++ record {
          mutation_seq = s.mutation_seq + 1;
          added = e;
          evicted_episode_ids = r.evicted_episode_ids;
        }
          ∷ [])
    ok (record { retained = r; base = base'; journal = journal })

  module _ (fingerprint : EpisodeEnvelope → Bytes) where
    -- the assignments at the end of the method
    unfoldable pub publish : EpisodeStore → EpisodeEnvelope → ℕ → Prepared → EpisodeStore
    publish s e n p = record {
      config = s.config;
      mutation_seq = s.mutation_seq + 1;
      episodes = p.retained.episodes;
      transition_counts = p.retained.transition_counts;
      episode_records = put s.episode_records e.episode_id (record {
        fingerprint = fingerprint e;
        transition_count = n;
        estimated_bytes = e.estimated_bytes;
      });
      total_transitions = p.retained.total_transitions;
      total_estimated_bytes = p.retained.total_estimated_bytes;
      producer_episode_counts = p.retained.producer_episode_counts;
      producer_transition_counts = p.retained.producer_transition_counts;
      journal_base_manifest = p.base;
      journal = p.journal;
      commit_attempts = s.commit_attempts;
      committed_episodes = s.committed_episodes + 1;
      duplicate_commits = s.duplicate_commits;
      rejected_commits = s.rejected_commits;
      conflicting_commits = s.conflicting_commits;
      evicted_episodes = s.evicted_episodes + length p.retained.evicted_episode_ids;
    }

    unfoldable pub commit_new : EpisodeStore → EpisodeEnvelope → ℕ → Result CommitAck × EpisodeStore
    commit_new s e n = elim (prepare s e n) [
      | raise error ↦ (raise error, s)
      | ok p ↦
          let s' = publish s e n p in
          (
            ok (record {
              cursor = cursor s';
              committed = true;
              duplicate = false;
              evicted_episode_ids = p.retained.evicted_episode_ids;
            }),
            s',
          )
    ]

    unfoldable pub commit_known :
        EpisodeStore → EpisodeEnvelope → EpisodeRecord → Result CommitAck × EpisodeStore
    unfolding same_bytes
    commit_known s e existing =
        if same_bytes existing.fingerprint (fingerprint e)
        then (
          ok (record {
            cursor = cursor s;
            committed = false;
            duplicate = true;
            evicted_episode_ids = [];
          }),
          record s { duplicate_commits = s.duplicate_commits + 1 },
        )
        else (
          raise duplicate_conflict,
          record s {
            rejected_commits = s.rejected_commits + 1;
            conflicting_commits = s.conflicting_commits + 1;
          },
        )

    -- the method after the episode was validated, counted and fingerprinted
    unfoldable pub commit_counted :
        EpisodeStore → EpisodeEnvelope → ℕ → Result CommitAck × EpisodeStore
    commit_counted s e n =
        if is_over s.capacity_transitions s.capacity_bytes n e.estimated_bytes
        then (raise episode_too_large, record s { rejected_commits = s.rejected_commits + 1 })
        else elim (get s.episode_records e.episode_id) [
          | none ↦ commit_new s e n
          | some existing ↦ commit_known s e existing
        ]

    unfoldable pub commit_episode : EpisodeStore → EpisodeEnvelope → Result CommitAck × EpisodeStore
    commit_episode s e =
        let s' = record s { commit_attempts = s.commit_attempts + 1 } in
        elim (codec.validate e >> codec.transition_count e) [
          | raise error ↦ (raise error, record s' { rejected_commits = s'.rejected_commits + 1 })
          | ok n ↦ commit_counted s' e n
        ]
