-- ===== src/Store/Prepare.antt =====
-- What the commit of a new episode computes before it assigns any field.
use rllib_async_runtime.Common.{
  ℕ, ◌+◌, ◌<◌, String, ◌≡◌, refl, sym, ap, ◌∙◌, subst, false, List, [], ◌∷◌, ◌++◌, map, map-append,
  append_assoc, length, arith, sum_of, sum_of-append, sum_of-map, eq-nil_of_length, length-append,
  length-map, ok,
}
use rllib_async_runtime.Dict.{Dict, keys, contains, put, increase}
use rllib_async_runtime.Dict.Laws.{Distinct, Distinct-snoc, put_new, contains-map}
use rllib_async_runtime.Fifo.{survivors}
use rllib_async_runtime.Episode.Envelope.{EpisodeEnvelope, IsEnvelope}
use rllib_async_runtime.Episode.Codec.{EpisodeCodec, count_of}
use rllib_async_runtime.Replay.{ReplayTransaction}
use rllib_async_runtime.Retention.{retention_manifest}
use rllib_async_runtime.Retention.Laws.{transitions_of, bytes_of, keep, dropped, keep-contains}
use rllib_async_runtime.Store.{EpisodeStore}
use rllib_async_runtime.Store.Commit.{Retained, evict_episodes, journal_base, Prepared, prepare}
use rllib_async_runtime.Store.Invariant.{
  item, entry_item, entry_count, manifest_of, counts_of, transaction_item, history_of, IsRetained,
  IsCounted, IsJournaled, Journaled,
}
use rllib_async_runtime.Store.Evict.{
  entry_transitions, entry_bytes, retained_of, evict_episodes_lem, keys-gone,
}
use rllib_async_runtime.Store.Journal.{Compacted, compact_lem, Journaled_snoc}

module _ (codec : EpisodeCodec) (s : EpisodeStore) (r : IsRetained codec s) (c : IsCounted s)
    (j : IsJournaled codec s) where
  abbrev cap_t : ℕ
  cap_t = s.capacity_transitions

  abbrev cap_b : ℕ
  cap_b = s.capacity_bytes

  -- An episode that was never committed is not retained.
  pub episodes-fresh :
      (k : String) → contains (history_of s) k ≡ false → contains s.episodes k ≡ false
  episodes-fresh k h =
      sym (contains-map (entry_item codec) (λ x. refl) s.episodes k)
      ∙ rw r.retained (keep-contains cap_t cap_b (history_of s) k h)

  empty_history : s.mutation_seq ≡ 0 → history_of s ≡ []
  empty_history h = eq-nil_of_length (history_of s) (c.recorded ∙ h)

  base_of_empty :
      s.mutation_seq ≡ 0
      → retention_manifest s.episodes s.transition_counts ≡ ok (keep cap_t cap_b j.older)
  unfolding retention_manifest survivors
  base_of_empty h =
      let total : length (history_of s)
          ≡ length j.older + length (map (transaction_item codec) s.journal) =
        ap (length {0}) j.split
        ∙ length-append {0} j.older (map (transaction_item codec) s.journal) in
      let no_older : j.older ≡ [] = eq-nil_of_length j.older (omega (arith, c.recorded)) in
      let nothing_kept : manifest_of codec s.episodes ≡ [] = r.retained ∙ rw (empty_history h) in
      let no_episodes : s.episodes ≡ [] =
        eq-nil_of_length s.episodes
          (sym (length-map (entry_item codec) s.episodes) ∙ ap (length {0}) nothing_kept) in
      rw (no_older, no_episodes)

  journal_base_lem :
      (js : List ReplayTransaction)
      → s.journal ≡ js
      → 0 < s.journal_capacity
      → journal_base codec s js ≡ ok (keep cap_t cap_b j.older)
  unfolding journal_base
  journal_base_lem [] e h = base_of_empty (omega (arith, j.bounded, ap (length {0}) e))
  journal_base_lem (t ∷ js) e h = ap ok j.base

  module _ (e : EpisodeEnvelope) (w : IsEnvelope e) (v : codec.validate e ≡ ok tt)
      (fresh : contains (history_of s) e.episode_id ≡ false)
      (journaling : 0 < s.journal_capacity) where
    abbrev pub after_eviction : Retained
    after_eviction =
        retained_of codec cap_t cap_b (s.episodes ++ (e.episode_id, e) ∷ [])
          (increase s.producer_episode_counts e.producer_member_id 1)
          (increase s.producer_transition_counts e.producer_member_id (count_of codec e))

    abbrev pub transaction : ReplayTransaction
    transaction = record {
      mutation_seq = s.mutation_seq + 1;
      added = e;
      evicted_episode_ids = after_eviction.evicted_episode_ids;
    }

    abbrev pub episodes_after : Dict EpisodeEnvelope
    episodes_after = s.episodes ++ (e.episode_id, e) ∷ []

    counts_after :
        put s.transition_counts e.episode_id (count_of codec e) ≡ counts_of codec episodes_after
    counts_after =
        let absent : contains (counts_of codec s.episodes) e.episode_id ≡ false =
          contains-map (entry_count codec) (λ x. refl) s.episodes e.episode_id
          ∙ episodes-fresh e.episode_id fresh in
        rw r.counts (
          put_new (counts_of codec s.episodes) e.episode_id (count_of codec e) absent
          ∙ sym (map-append (entry_count codec) s.episodes ((e.episode_id, e) ∷ [])))

    transitions_after :
        s.total_transitions + count_of codec e ≡ sum_of (entry_transitions codec) episodes_after
    transitions_after =
        let before = r.transitions ∙ sum_of-map (entry_item codec) transitions_of s.episodes in
        omega (
          arith,
          before,
          sum_of-append {0} (entry_transitions codec) s.episodes ((e.episode_id, e) ∷ []),
        )

    bytes_after :
        s.total_estimated_bytes + e.estimated_bytes ≡ sum_of (entry_bytes codec) episodes_after
    bytes_after =
        let before = r.bytes ∙ sum_of-map (entry_item codec) bytes_of s.episodes in
        omega
          (arith, before, sum_of-append {0} (entry_bytes codec) s.episodes ((e.episode_id, e) ∷ []))

    eviction :
        evict_episodes cap_t cap_b
          (put s.episodes e.episode_id e)
          (put s.transition_counts e.episode_id (count_of codec e))
          (s.total_transitions + count_of codec e)
          (s.total_estimated_bytes + e.estimated_bytes)
          (increase s.producer_episode_counts e.producer_member_id 1)
          (increase s.producer_transition_counts e.producer_member_id (count_of codec e))
        ≡ ok after_eviction
    eviction =
        rw
          (
            put_new s.episodes e.episode_id e (episodes-fresh e.episode_id fresh),
            counts_after,
            transitions_after,
            bytes_after,
          )
          (evict_episodes_lem codec cap_t cap_b episodes_after _ _)

    pub manifest_after :
        manifest_of codec episodes_after ≡ keep cap_t cap_b (history_of s) ++ item codec e ∷ []
    manifest_after =
        map-append (entry_item codec) s.episodes ((e.episode_id, e) ∷ []) ∙ rw r.retained

    journals : Journaled codec cap_t cap_b j.older (s.journal ++ transaction ∷ [])
    journals = Journaled_snoc codec cap_t cap_b j.older s.journal transaction j.journaled (
        subst (λ y. Journaled codec cap_t cap_b y (transaction ∷ [])) j.split
          (
            omega (arith, c.recorded),
            w,
            v,
            keys-gone codec cap_t cap_b episodes_after
                ∙ ap (λ y. keys (dropped cap_t cap_b y)) manifest_after,
            tt,
          ))

    pub history_after :
        history_of s ++ item codec e ∷ []
        ≡ j.older ++ map (transaction_item codec) (s.journal ++ transaction ∷ [])
    history_after =
        rw (j.split, map-append (transaction_item codec) s.journal (transaction ∷ []))
          (append_assoc j.older (map (transaction_item codec) s.journal) (item codec e ∷ []))

    Distinct-after :
        Distinct (j.older ++ map (transaction_item codec) (s.journal ++ transaction ∷ []))
    Distinct-after = rw (← history_after) (
        Distinct-snoc (history_of s) e.episode_id (count_of codec e, e.estimated_bytes) r.distinct
          fresh)

    pub compacted :
        Compacted codec cap_t cap_b s.journal_capacity j.older (s.journal ++ transaction ∷ [])
    compacted = compact_lem codec cap_t cap_b s.journal_capacity j.older _ Distinct-after journals

    abbrev pub prepared : Prepared
    prepared = record {
      retained = after_eviction;
      base = keep cap_t cap_b compacted.older;
      journal = compacted.journal;
    }

    pub prepare_lem : prepare codec s e (count_of codec e) ≡ ok prepared
    unfolding prepare
    prepare_lem = rw (eviction, journal_base_lem s.journal refl journaling, compacted.computes)
