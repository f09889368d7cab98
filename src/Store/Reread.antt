-- ===== src/Store/Reread.antt =====
-- The parts of `EpisodeStore.from_state` up to the base of the journal, on the exported state of a store.
use rllib_async_runtime.Common.{
  ℕ, ◌<◌, ◌≡◌, refl, sym, ap, ◌∙◌, subst, String, str_eq, eq_refl, false, [], ◌∷◌, ◌++◌, map,
  length, take-append, ==_refl, arith, All, All-append_left, All-append_right, sum_of, ok,
  value_error,
}
use rllib_async_runtime.Dict.{Dict}
use rllib_async_runtime.Dict.Laws.{
  Distinct, Distinct-map, Distinct-append_left, Distinct-append_right,
}
use rllib_async_runtime.Fifo.{is_over}
use rllib_async_runtime.Fifo.Laws.{victims-append-survivors}
use rllib_async_runtime.Episode.Value.{is_integer, positive_int}
use rllib_async_runtime.Episode.Payload.{Bytes}
use rllib_async_runtime.Episode.Envelope.{EpisodeEnvelope, IsEnvelope}
use rllib_async_runtime.Episode.Codec.{EpisodeCodec}
use rllib_async_runtime.Retention.{Manifest}
use rllib_async_runtime.Retention.Laws.{
  transitions_of, bytes_of, keep, dropped, retention_manifest_from_history_lem,
}
use rllib_async_runtime.Store.{EpisodeStore, Config, empty_store, init, generation}
use rllib_async_runtime.Store.Behaviour.{retained_within}
use rllib_async_runtime.Store.Invariant.{
  record_item, history_of, entry_item, transaction_item, manifest_of, counts_of, IsEntry, Inv,
}
use rllib_async_runtime.Store.Loaded.{IsLoaded, no_episodes-IsLoaded, load_live-IsLoaded}
use rllib_async_runtime.Store.Stamps.{IsStamped}
use rllib_async_runtime.Store.Exported.{
  same_manifest_refl, load_records_entries, IsRecorded, IsRecorded-All, load_base_entries,
}
use rllib_async_runtime.Store.Reloaded.{live_of, load_live_entries, check_live_entries}
use rllib_async_runtime.Store.State.{
  EpisodeStoreState, export_state, Live, no_episodes, load_live, record_entry, base_entry,
  load_records, check_live,
}
use rllib_async_runtime.Store.Restore.{open_state, restore_base}

-- What the constructor checks of its arguments, and that a random generation is not empty.
pub record IsConfig (c : Config) : Type 0 where
  pub transitions : 0 < c.capacity_transitions
  pub bytes : 0 < c.capacity_bytes
  pub named : str_eq c.store_generation "" ≡ false

module _ (codec : EpisodeCodec) (fingerprint : EpisodeEnvelope → Bytes) (s : EpisodeStore)
    (u : IsConfig s.config) (h : Inv codec s) (a : IsStamped codec fingerprint s) where
  abbrev pub cap_t : ℕ
  cap_t = s.capacity_transitions

  abbrev pub cap_b : ℕ
  cap_b = s.capacity_bytes

  abbrev read : Live
  read = live_of codec no_episodes s.episodes

  -- the loop's locals, with the store's own fields
  abbrev pub reload : Live
  reload = record {
    episodes = s.episodes;
    transition_counts = s.transition_counts;
    producer_episode_counts = read.producer_episode_counts;
    producer_transition_counts = read.producer_transition_counts;
    total_transitions = s.total_transitions;
    total_estimated_bytes = s.total_estimated_bytes;
  }

  -- The store with its producers counted again, in the order of the live episodes.
  abbrev pub recounted : EpisodeStore
  recounted = record s {
    producer_episode_counts = read.producer_episode_counts;
    producer_transition_counts = read.producer_transition_counts;
  }

  abbrev pub exported : EpisodeStoreState
  exported = export_state codec s

  pub opened : (fresh : String) → open_state codec fresh exported ≡ ok (empty_store s.config)
  unfolding open_state init generation is_integer
  opened fresh = rw (
    eq_refl codec.codec_id,
    ==_refl codec.schema_version,
    positive_int value_error s.capacity_transitions u.transitions,
    positive_int value_error s.capacity_bytes u.bytes,
    positive_int value_error s.journal_capacity h.journaling,
    u.named,
  )

  envelopes : (d : Dict EpisodeEnvelope) → All (IsEntry codec) d → All IsEnvelope (map (λ x. x.1) d)
  envelopes [] e = tt
  envelopes (x ∷ d) e = (e.0.constructed, envelopes d e.1)

  live-Distinct : Distinct s.episodes
  live-Distinct =
      Distinct-map (entry_item codec) (λ x. refl) s.episodes
        (rw h.retains.retained (
          Distinct-append_right (dropped cap_t cap_b (history_of s))
            (keep cap_t cap_b (history_of s))
            (rw (victims-append-survivors transitions_of bytes_of cap_t cap_b (history_of s))
              h.retains.distinct)))

  abbrev loading :
      (load_live codec (map (λ x. x.1) s.episodes) no_episodes ≡ ok read)
      × (read.episodes ≡ s.episodes)
  loading = load_live_entries codec no_episodes s.episodes live-Distinct h.retains.entries

  read-IsLoaded : IsLoaded codec read
  read-IsLoaded =
      load_live-IsLoaded codec (map (λ x. x.1) s.episodes) no_episodes
        (envelopes s.episodes h.retains.entries) (no_episodes-IsLoaded codec) loading.0

  same_live : read ≡ reload
  same_live =
      let e = loading.1 in
      let c : read.transition_counts ≡ s.transition_counts =
        read-IsLoaded.counts ∙ ap (counts_of codec) e ∙ sym h.retains.counts in
      let t : read.total_transitions ≡ s.total_transitions =
        read-IsLoaded.transitions
        ∙ ap (λ d. sum_of transitions_of (manifest_of codec d)) e
        ∙ sym h.retains.transitions in
      let b : read.total_estimated_bytes ≡ s.total_estimated_bytes =
        read-IsLoaded.bytes
        ∙ ap (λ d. sum_of bytes_of (manifest_of codec d)) e
        ∙ sym h.retains.bytes in
      λ i. record {
        episodes = e i;
        transition_counts = c i;
        producer_episode_counts = read.producer_episode_counts;
        producer_transition_counts = read.producer_transition_counts;
        total_transitions = t i;
        total_estimated_bytes = b i;
      }

  pub reloaded : load_live codec (map (λ x. x.1) s.episodes) no_episodes ≡ ok reload
  reloaded = loading.0 ∙ ap ok same_live

  pub reload-IsLoaded : IsLoaded codec reload
  reload-IsLoaded = subst (IsLoaded codec) same_live read-IsLoaded

  pub within : is_over cap_t cap_b s.total_transitions s.total_estimated_bytes ≡ false
  within = ground (arith, retained_within codec s h)

  records-Distinct : Distinct s.episode_records
  records-Distinct = Distinct-map record_item (λ x. refl) s.episode_records h.retains.distinct

  pub rerecorded :
      load_records cap_t cap_b (map record_entry s.episode_records) [] ≡ ok s.episode_records
  rerecorded = load_records_entries cap_t cap_b [] s.episode_records records-Distinct a.records

  pub rechecked :
      check_live codec fingerprint s.episode_records s.transition_counts s.episodes ≡ ok tt
  rechecked = rw h.retains.counts (
      check_live_entries codec fingerprint s.episode_records [] s.episodes reload-IsLoaded.distinct
        h.retains.entries a.live)

  pub history-IsRecorded : All (IsRecorded s.episode_records) (history_of s)
  history-IsRecorded = IsRecorded-All cap_t cap_b [] s.episode_records records-Distinct a.records

  abbrev pub older : Manifest
  older = h.journals.older

  abbrev pub items : Manifest
  items = map (transaction_item codec) s.journal

  pub whole : Distinct (older ++ items)
  whole = rw (← h.journals.split) h.retains.distinct

  pub rebased :
      restore_base s.config s.episode_records
        (length older)
        (map base_entry s.journal_base_manifest)
      ≡ ok s.journal_base_manifest
  unfolding restore_base
  rebased =
      let old = Distinct-append_left older items whole in
      let cut = victims-append-survivors transitions_of bytes_of cap_t cap_b older in
      let kept_recorded : All (IsRecorded s.episode_records) (keep cap_t cap_b older) =
        All-append_right (IsRecorded s.episode_records) (dropped cap_t cap_b older)
          (keep cap_t cap_b older)
          (rw cut (
            All-append_left (IsRecorded s.episode_records) older items
              (rw (← h.journals.split) history-IsRecorded))) in
      let kept_distinct : Distinct (keep cap_t cap_b older) =
        Distinct-append_right (dropped cap_t cap_b older) (keep cap_t cap_b older) (rw cut old) in
      rw
        (
          h.journals.base,
          load_base_entries s.episode_records [] (keep cap_t cap_b older) kept_distinct
              kept_recorded,
          h.journals.split,
          take-append older items,
          retention_manifest_from_history_lem cap_t cap_b older old,
          same_manifest_refl (keep cap_t cap_b older),
        )
        refl
