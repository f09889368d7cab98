-- ===== src/Store/RoundTrip.antt =====
-- `EpisodeStore.from_state` accepts what `EpisodeStore.export_state` writes, and gives the store back.
use rllib_async_runtime.Common.{
  ℕ, ◌+◌, ◌-◌, min, ◌≡◌, refl, sym, ap, ◌∙◌, String, true, [], ◌∷◌, ◌++◌, map, map-append, map-map,
  length, length-append, length-map, drop, drop-append, leb, ◌==◌, arith, All, ok,
}
use rllib_async_runtime.Dict.{keys}
use rllib_async_runtime.Episode.Value.{non_negative}
use rllib_async_runtime.Episode.Payload.{Bytes}
use rllib_async_runtime.Episode.Envelope.{EpisodeEnvelope}
use rllib_async_runtime.Episode.Codec.{EpisodeCodec}
use rllib_async_runtime.Replay.{ReplayTransaction}
use rllib_async_runtime.Retention.{Manifest}
use rllib_async_runtime.Retention.Laws.{keep, same_ids_refl}
use rllib_async_runtime.Store.{EpisodeStore}
use rllib_async_runtime.Store.Invariant.{record_item, history_of, transaction_item, Inv}
use rllib_async_runtime.Store.Loaded.{IsLoaded-manifest}
use rllib_async_runtime.Store.Stamps.{IsStamped}
use rllib_async_runtime.Store.Exported.{same_manifest_refl, IsRecorded}
use rllib_async_runtime.Store.Reloaded.{Named, replay_journal_entries}
use rllib_async_runtime.Store.State.{export_state}
use rllib_async_runtime.Store.Restore.{Metrics, restore_metrics, restore_journal, from_state}
use rllib_async_runtime.Store.Reread.{
  IsConfig, reload, recounted, exported, opened, reloaded, reload-IsLoaded, within, rerecorded,
  rechecked, history-IsRecorded, whole, rebased,
}

module _ (codec : EpisodeCodec) (fingerprint : EpisodeEnvelope → Bytes) (s : EpisodeStore)
    (u : IsConfig s.config) (h : Inv codec s) (a : IsStamped codec fingerprint s) where
  abbrev cap_t : ℕ
  cap_t = s.capacity_transitions

  abbrev cap_b : ℕ
  cap_b = s.capacity_bytes

  abbrev older : Manifest
  older = h.journals.older

  abbrev items : Manifest
  items = map (transaction_item codec) s.journal

  history-Named : (m : Manifest) → All (IsRecorded s.episode_records) m → All Named m
  history-Named [] r = tt
  history-Named (x ∷ m) r = (r.0.named, history-Named m r.1)

  journal_ids :
      map (λ (t : ReplayTransaction). t.added.episode_id) s.journal
      ≡ drop (length older) (keys s.episode_records)
  journal_ids =
      let all : keys s.episode_records ≡ keys older ++ keys items =
        sym (map-map record_item (λ x. x.0) s.episode_records)
        ∙ ap keys h.journals.split
        ∙ map-append (λ x. x.0) older items in
      sym (map-map (transaction_item codec) (λ x. x.0) s.journal)
      ∙ sym (drop-append (keys older) (keys items))
      ∙ ap (λ n. drop n (keys older ++ keys items)) (length-map (λ x. x.0) older)
      ∙ ap (drop (length older)) (sym all)

  replayed :
      restore_journal codec fingerprint s.config s.episode_records
        (reload codec fingerprint s u h a)
        (length older)
        s.journal_base_manifest
        s.journal
      ≡ ok tt
  unfolding restore_journal
  replayed =
      rw
        (
          h.journals.base,
          replay_journal_entries codec fingerprint cap_t cap_b s.episode_records older s.journal
              h.journals.journaled (whole codec fingerprint s u h a)
              (history-Named (older ++ items)
                (rw (← h.journals.split) (history-IsRecorded codec fingerprint s u h a)))
              a.journaled,
          journal_ids,
          same_ids_refl (drop (length older) (keys s.episode_records)),
          IsLoaded-manifest codec (reload codec fingerprint s u h a)
              (reload-IsLoaded codec fingerprint s u h a),
          h.retains.retained,
          h.journals.split,
          same_manifest_refl (keep cap_t cap_b (older ++ items)),
        )
        refl

  abbrev metrics : Metrics
  metrics = record {
    commit_attempts = s.commit_attempts;
    committed_episodes = s.committed_episodes;
    duplicate_commits = s.duplicate_commits;
    rejected_commits = s.rejected_commits;
    conflicting_commits = s.conflicting_commits;
    evicted_episodes = s.evicted_episodes;
  }

  remeasured :
      restore_metrics
        (exported codec fingerprint s u h a)
        s.mutation_seq
        (length s.episodes)
        (length s.episode_records)
      ≡ ok metrics
  unfolding restore_metrics non_negative
  remeasured =
      let recorded : length s.episode_records ≡ s.mutation_seq =
        sym (length-map record_item s.episode_records) ∙ h.counts.recorded in
      let c : (s.committed_episodes == s.mutation_seq) ≡ true =
        ground (arith, h.counts.committed) in
      let t : (s.commit_attempts == s.committed_episodes + s.duplicate_commits + s.rejected_commits)
          ≡ true =
        ground (arith, h.counts.attempts) in
      let x : leb s.conflicting_commits s.rejected_commits ≡ true =
        ground (arith, h.counts.conflicts) in
      let v : (s.evicted_episodes + length s.episodes == s.committed_episodes) ≡ true =
        ground (arith, h.counts.evicted) in
      let r : (length s.episode_records == s.committed_episodes) ≡ true =
        ground (arith, recorded, h.counts.committed) in
      rw (c, t, x, v, r) refl

  -- Of a store whose configuration the constructor accepts, that satisfies the invariant and whose
  -- live and journaled episodes have the records of their fingerprints and sizes, the (exported codec fingerprint s u h a) state
  -- is accepted, and gives the same store, with only the counts of the producers taken again.
  pub from_state-export_state :
      (fresh : String)
      → from_state codec fingerprint fresh (export_state codec s)
        ≡ ok (recounted codec fingerprint s u h a)
  unfolding from_state non_negative
  from_state-export_state fresh =
      let lengths : length (history_of s) ≡ length older + length items =
        ap (length {0}) h.journals.split ∙ length-append {0} older items in
      let start : s.mutation_seq - length s.journal ≡ length older =
        omega (arith, lengths, h.counts.recorded, length-map (transaction_item codec) s.journal) in
      let bounded : (length s.journal == min s.mutation_seq s.journal_capacity) ≡ true =
        ground (arith, h.journals.bounded) in
      rw
        (
          opened codec fingerprint s u h a fresh,
          (reloaded codec fingerprint s u h a),
          (within codec fingerprint s u h a),
          (rerecorded codec fingerprint s u h a),
          (rechecked codec fingerprint s u h a),
          bounded,
          start,
          (rebased codec fingerprint s u h a),
          replayed,
          remeasured,
        )
        refl
