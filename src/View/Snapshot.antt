-- ===== src/View/Snapshot.antt =====
-- Loading a snapshot of the store.
use rllib_async_runtime.Common.{
  ℕ, ◌+◌, ◌≡◌, refl, sym, ap, ◌∙◌, false, some, [], ◌∷◌, ◌++◌, arith, append_assoc, append-nil, All,
  sum_of, sum_of-map, ==_refl, inl, ok,
}
use rllib_async_runtime.Dict.{Dict, contains, put, values}
use rllib_async_runtime.Dict.Laws.{
  Distinct, Distinct-middle, Distinct-append_right, Distinct-map, put_new,
}
use rllib_async_runtime.Fifo.Laws.{victims-append-survivors}
use rllib_async_runtime.Episode.Envelope.{EpisodeEnvelope}
use rllib_async_runtime.Episode.Codec.{EpisodeCodec, count_of, transition_count-count_of}
use rllib_async_runtime.Retention.Laws.{transitions_of, bytes_of, keep, dropped}
use rllib_async_runtime.Store.{EpisodeStore, cursor}
use rllib_async_runtime.Store.Delta.{snapshot_of}
use rllib_async_runtime.Store.Invariant.{Inv, IsEntry, history_of, entry_item}
use rllib_async_runtime.Store.Evict.{entry_transitions, entry_bytes}
use rllib_async_runtime.View.{View, load_episodes, load_snapshot, apply_transactions}
use rllib_async_runtime.View.Sync.{IsBehind}

module _ (codec : EpisodeCodec) where
  load_episodes_lem :
      (done : Dict EpisodeEnvelope) (t b : ℕ) (es : Dict EpisodeEnvelope)
      → All (IsEntry codec) es
      → Distinct (done ++ es)
      → load_episodes codec
          (values es)
          (record { episodes = done; total_transitions = t; total_estimated_bytes = b })
        ≡ ok (record {
          episodes = done ++ es;
          total_transitions = t + sum_of (entry_transitions codec) es;
          total_estimated_bytes = b + sum_of (entry_bytes codec) es;
        })
  unfolding load_episodes
  load_episodes_lem done t b [] a d = ground (arith, append-nil done)
  load_episodes_lem done t b ((k, e) ∷ es) a d =
      let named : k ≡ e.episode_id = a.0.named in
      let absent : contains done e.episode_id ≡ false =
        rw (← named) (Distinct-middle done es k e d) in
      let placed : put done e.episode_id e ≡ done ++ (k, e) ∷ [] =
        put_new done e.episode_id e absent ∙ ap (λ y. done ++ (y, e) ∷ []) (sym named) in
      let split = append_assoc done ((k, e) ∷ []) es in
      rw (a.0.valid, absent, transition_count-count_of codec a.0.constructed a.0.valid, placed)
        (load_episodes_lem (done ++ (k, e) ∷ []) (t + count_of codec e) (b + e.estimated_bytes) es
            a.1 (rw split d)
          ∙ ground (arith, split))

  module _ (s : EpisodeStore) (h : Inv codec s) where
    pub episodes-Distinct : Distinct s.episodes
    episodes-Distinct =
        let m = history_of s in
        Distinct-map (entry_item codec) (λ x. refl) s.episodes
          (rw h.retains.retained (
            Distinct-append_right (dropped s.capacity_transitions s.capacity_bytes m)
              (keep s.capacity_transitions s.capacity_bytes m)
              (rw
                (victims-append-survivors transitions_of bytes_of s.capacity_transitions
                  s.capacity_bytes m)
                h.retains.distinct)))

    abbrev pub level_view : View
    level_view = record { cursor = some (cursor s); episodes = s.episodes }

    -- Loading a snapshot of a store that satisfies the invariant succeeds, with the store's episodes
    -- in order and its cursor.
    pub load_snapshot_lem : load_snapshot codec (snapshot_of s) ≡ ok level_view
    unfolding load_snapshot
    load_snapshot_lem =
        let t = h.retains.transitions ∙ sum_of-map (entry_item codec) transitions_of s.episodes in
        let b = h.retains.bytes ∙ sum_of-map (entry_item codec) bytes_of s.episodes in
        let zero_t : 0 + sum_of (entry_transitions codec) s.episodes ≡ s.total_transitions =
          omega (arith, t) in
        let zero_b : 0 + sum_of (entry_bytes codec) s.episodes ≡ s.total_estimated_bytes =
          omega (arith, b) in
        rw (
          load_episodes_lem [] 0 0 s.episodes h.retains.entries episodes-Distinct,
          zero_t,
          zero_b,
          ==_refl s.total_transitions,
          ==_refl s.total_estimated_bytes,
        )

    pub level_view-IsBehind : IsBehind codec s level_view
    unfolding apply_transactions
    level_view-IsBehind = record {
      seq = s.mutation_seq;
      standing = refl;
      pending = [];
      catches = refl;
      agrees = inl (s.journal, sym (append-nil s.journal));
    }
