-- ===== src/Store/Retry.antt =====
-- A commit that was acknowledged, and the same commit again.
use rllib_async_runtime.Common.{
  ◌+◌, ◌≡◌, sym, ap, ◌∙◌, true, false, some, [], ◌∷◌, ◌++◌, arith, eq_refl, Result, ok,
}
use rllib_async_runtime.Dict.{Dict, get}
use rllib_async_runtime.Dict.Laws.{get-put}
use rllib_async_runtime.Fifo.{is_over}
use rllib_async_runtime.Fifo.Laws.{survivors_new}
use rllib_async_runtime.Episode.Payload.{Bytes}
use rllib_async_runtime.Episode.Envelope.{EpisodeEnvelope, IsEnvelope}
use rllib_async_runtime.Episode.Codec.{EpisodeCodec, count_of, examine_lem}
use rllib_async_runtime.Replay.{CommitAck}
use rllib_async_runtime.Store.{EpisodeStore, EpisodeRecord, cursor}
use rllib_async_runtime.Store.Commit.{
  same_bytes, commit_known, commit_counted, commit_episode, publish,
}
use rllib_async_runtime.Store.Evict.{entry_transitions, entry_bytes}
use rllib_async_runtime.Store.Invariant.{Inv}
use rllib_async_runtime.Store.Preserve.{with_counters}
use rllib_async_runtime.Store.Outcome.{Outcome, rejected, repeated, new, outcome}
use rllib_async_runtime.Store.Behaviour.{same_bytes_refl}

module _ (codec : EpisodeCodec) (fingerprint : EpisodeEnvelope → Bytes) (e : EpisodeEnvelope)
    (w : IsEnvelope e) where
  -- The answer to a commit of known content, and the store that it leaves.
  abbrev pub repeated_commit : EpisodeStore → Result CommitAck × EpisodeStore
  repeated_commit s = (
    ok (record {
      cursor = cursor s;
      committed = false;
      duplicate = true;
      evicted_episode_ids = [];
    }),
    with_counters s (s.commit_attempts + 1) (s.duplicate_commits + 1) s.rejected_commits
        s.conflicting_commits,
  )

  commit_known_content :
      (s : EpisodeStore) (known : EpisodeRecord)
      → codec.validate e ≡ ok tt
      → is_over s.capacity_transitions s.capacity_bytes (count_of codec e) e.estimated_bytes ≡ false
      → get s.episode_records e.episode_id ≡ some known
      → same_bytes known.fingerprint (fingerprint e) ≡ true
      → commit_episode codec fingerprint s e ≡ repeated_commit s
  unfolding commit_episode commit_counted commit_known
  commit_known_content s known v f g b = rw (examine_lem codec w v, commit_episode, f, g, b)

  module _ (s : EpisodeStore) (h : Inv codec s) where
    abbrev answer : Result CommitAck
    answer = (commit_episode codec fingerprint s e).0

    abbrev after : EpisodeStore
    after = (commit_episode codec fingerprint s e).1

    Outcome-retry :
        {o : Result CommitAck × EpisodeStore} {a : CommitAck}
        → Outcome codec fingerprint s h e w o
        → o.0 ≡ ok a
        → commit_episode codec fingerprint o.1 e ≡ repeated_commit o.1
    unfolding publish
    Outcome-retry (rejected error c r p) q = absurd (cc (sym q ∙ ap (λ x. x.0) p))
    Outcome-retry (repeated v f known g b p) q = rw p (commit_known_content _ known v f g b)
    Outcome-retry (new v f fresh p) q =
        let known : EpisodeRecord = record {
          fingerprint = fingerprint e;
          transition_count = count_of codec e;
          estimated_bytes = e.estimated_bytes;
        } in
        rw p (
          commit_known_content _ known v f
            (get-put s.episode_records e.episode_id e.episode_id known ∙ rw (eq_refl e.episode_id))
            (same_bytes_refl (fingerprint e)))

    -- After a commit that was acknowledged, committing the same envelope again is acknowledged as a
    -- duplicate at the same cursor; only the counters of attempts and of duplicates change.
    pub commit_episode_retry :
        (a : CommitAck)
        → answer ≡ ok a
        → commit_episode codec fingerprint after e ≡ repeated_commit after
    commit_episode_retry a q = Outcome-retry (outcome codec fingerprint s h e w) q

    Outcome-committed :
        {o : Result CommitAck × EpisodeStore} {a : CommitAck}
        → Outcome codec fingerprint s h e w o
        → o.0 ≡ ok a
        → a.committed ≡ true
        → (earlier : Dict EpisodeEnvelope) × (o.1.episodes ≡ earlier ++ (e.episode_id, e) ∷ [])
          × (a.cursor ≡ cursor o.1)
          × (o.1.mutation_seq ≡ s.mutation_seq + 1)
    unfolding publish
    Outcome-committed (rejected error c r p) q k = absurd (cc (sym q ∙ ap (λ x. x.0) p))
    Outcome-committed (repeated v f known g b p) q k = absurd (cc (sym q ∙ ap (λ x. x.0) p))
    Outcome-committed (new v f fresh p) q k =
        let (earlier, l) =
          survivors_new (entry_transitions codec) (entry_bytes codec) s.capacity_transitions
            s.capacity_bytes s.episodes (e.episode_id, e) (ground (arith, f)) (ground (arith, f)) in
        (earlier, rw p l, cc (sym q ∙ ap (λ x. x.0) p, ap (λ x. cursor x.1) p), rw p)

    -- When a commit answers that it committed, the envelope is the newest retained episode, and the
    -- answer's cursor is the store's, one mutation further.
    pub commit_episode_committed :
        (a : CommitAck)
        → answer ≡ ok a
        → a.committed ≡ true
        → (earlier : Dict EpisodeEnvelope) × (after.episodes ≡ earlier ++ (e.episode_id, e) ∷ [])
          × (a.cursor ≡ cursor after)
          × (after.mutation_seq ≡ s.mutation_seq + 1)
    commit_episode_committed a q k = Outcome-committed (outcome codec fingerprint s h e w) q k
