-- ===== src/Store/Outcome.antt =====
-- The three ways a commit can end, with the store that each leaves: rejected with an exception, a
-- repeated commit of known content, or a new episode.
use rllib_async_runtime.Common.{
  ℕ, ◌+◌, ◌≡◌, refl, true, false, some, [], inl, inr, Bool-cases, Option-cases, Result, ok, raise,
  Error, episode_too_large, duplicate_conflict, ◌>>◌,
}
use rllib_async_runtime.Dict.{get, contains}
use rllib_async_runtime.Fifo.{is_over}
use rllib_async_runtime.Episode.Payload.{Bytes}
use rllib_async_runtime.Episode.Envelope.{EpisodeEnvelope, IsEnvelope}
use rllib_async_runtime.Episode.Codec.{EpisodeCodec, count_of, examine_lem, validated}
use rllib_async_runtime.Replay.{CommitAck}
use rllib_async_runtime.Store.{EpisodeStore, EpisodeRecord, cursor}
use rllib_async_runtime.Store.Commit.{same_bytes, commit_known, commit_counted, commit_episode}
use rllib_async_runtime.Store.Invariant.{history_of, Inv}
use rllib_async_runtime.Store.Prepare.{prepared}
use rllib_async_runtime.Store.Preserve.{
  published, counted, commit_new_lem, with_counters, get-history,
}

module _ (codec : EpisodeCodec) (fingerprint : EpisodeEnvelope → Bytes) (s : EpisodeStore)
    (h : Inv codec s) (e : EpisodeEnvelope) (w : IsEnvelope e) where
  -- The reason of a rejection.
  pub data Rejected (error : Error) (conflicting : ℕ) : Type 0 where
    invalid :
        (codec.validate e >> codec.transition_count e) ≡ raise error
        → conflicting ≡ s.conflicting_commits
        → Rejected error conflicting
    oversized :
        codec.validate e ≡ ok tt
        → is_over s.capacity_transitions s.capacity_bytes (count_of codec e) e.estimated_bytes
          ≡ true
        → error ≡ episode_too_large
        → conflicting ≡ s.conflicting_commits
        → Rejected error conflicting
    conflict :
        codec.validate e ≡ ok tt
        → is_over s.capacity_transitions s.capacity_bytes (count_of codec e) e.estimated_bytes
          ≡ false
        → (known : EpisodeRecord) → get s.episode_records e.episode_id ≡ some known
        → same_bytes known.fingerprint (fingerprint e) ≡ false
        → error ≡ duplicate_conflict
        → conflicting ≡ s.conflicting_commits + 1
        → Rejected error conflicting

  abbrev pub repeated_ack : CommitAck
  repeated_ack = record {
    cursor = cursor s;
    committed = false;
    duplicate = true;
    evicted_episode_ids = [];
  }

  abbrev pub new_ack :
      (v : codec.validate e ≡ ok tt) → contains (history_of s) e.episode_id ≡ false → CommitAck
  new_ack v fresh = record {
    cursor = cursor (published codec fingerprint s h e w v fresh);
    committed = true;
    duplicate = false;
    evicted_episode_ids =
        (prepared codec s h.retains h.counts h.journals e w v fresh
          h.journaling).retained.evicted_episode_ids;
  }

  abbrev pub new_store :
      (v : codec.validate e ≡ ok tt) → contains (history_of s) e.episode_id ≡ false → EpisodeStore
  new_store v fresh =
      with_counters (published codec fingerprint s h e w v fresh) (s.commit_attempts + 1)
        s.duplicate_commits s.rejected_commits s.conflicting_commits

  pub data Outcome (o : Result CommitAck × EpisodeStore) : Type 0 where
    rejected :
        (error : Error) (conflicting : ℕ)
        → Rejected error conflicting
        → o ≡ (
          raise error,
          with_counters s
              (s.commit_attempts + 1)
              s.duplicate_commits
              (s.rejected_commits + 1)
              conflicting,
        )
        → Outcome o
    repeated :
        codec.validate e ≡ ok tt
        → is_over s.capacity_transitions s.capacity_bytes (count_of codec e) e.estimated_bytes
          ≡ false
        → (known : EpisodeRecord) → get s.episode_records e.episode_id ≡ some known
        → same_bytes known.fingerprint (fingerprint e) ≡ true
        → o ≡ (
          ok repeated_ack,
          with_counters s
              (s.commit_attempts + 1)
              (s.duplicate_commits + 1)
              s.rejected_commits
              s.conflicting_commits,
        )
        → Outcome o
    new :
        (v : codec.validate e ≡ ok tt)
        → is_over s.capacity_transitions s.capacity_bytes (count_of codec e) e.estimated_bytes
          ≡ false
        → (fresh : contains (history_of s) e.episode_id ≡ false)
        → o ≡ (ok (new_ack v fresh), new_store v fresh)
        → Outcome o

  module _ (v : codec.validate e ≡ ok tt)
      (fits : is_over s.capacity_transitions s.capacity_bytes (count_of codec e) e.estimated_bytes
        ≡ false) where
    Outcome-known :
        (known : EpisodeRecord)
        → get s.episode_records e.episode_id ≡ some known
        → Outcome (commit_known codec fingerprint (counted s) e known)
    unfolding commit_known
    Outcome-known known p = elim (Bool-cases (same_bytes known.fingerprint (fingerprint e))) [
      | inl q ↦ repeated v fits known p q (rw q)
      | inr q ↦
          rejected duplicate_conflict (s.conflicting_commits + 1)
            (conflict v fits known p q refl refl) (rw q)
    ]

    Outcome-fitting : Outcome (commit_counted codec fingerprint (counted s) e (count_of codec e))
    unfolding commit_counted
    Outcome-fitting = elim (Option-cases (get s.episode_records e.episode_id)) [
      | inl p ↦
          let fresh = get-history codec fingerprint s h e w v p in
          rw (fits, p) (new v fits fresh (commit_new_lem codec fingerprint s h e w v fresh))
      | inr (known, p) ↦ rw (fits, p) (Outcome-known known p)
    ]

  Outcome-valid :
      (v : codec.validate e ≡ ok tt)
      → Outcome (commit_counted codec fingerprint (counted s) e (count_of codec e))
  unfolding commit_counted
  Outcome-valid v =
      elim (Bool-cases
        (is_over s.capacity_transitions s.capacity_bytes (count_of codec e) e.estimated_bytes)) [
          | inl p ↦
              rejected episode_too_large s.conflicting_commits (oversized v p refl refl) (rw p)
          | inr p ↦ Outcome-fitting v p
        ]

  pub outcome : Outcome (commit_episode codec fingerprint s e)
  unfolding commit_episode
  outcome = elim (validated codec e) [
    | inl (error, p) ↦
        rw (p, commit_episode) (rejected error s.conflicting_commits (invalid p refl) refl)
    | inr v ↦ rw (examine_lem codec w v, commit_episode) (Outcome-valid v)
  ]
