-- ===== src/Store/FromState.antt =====
-- `EpisodeStore.from_state` as a whole: what it accepts satisfies the invariant of the store.
use rllib_async_runtime.Common.{
  ℕ, suc, ◌+◌, ◌-◌, ◌≤◌, ◌<◌, min, ◌≡◌, sym, ap, ◌∙◌, subst, String, str_eq, not, some, map-map,
  List, [], ◌++◌, map, length, length-take, length-map, take, drop, drop-map, take-append-drop, leb,
  ◌==◌, ==_iff, ◌&&◌, arith, All, sum_of, ok, invalid_store_state, guard, >>=-eq-ok, guard-eq-ok,
  rethrow-eq-ok, ok-injective,
}
use rllib_async_runtime.Dict.{Dict, get, keys}
use rllib_async_runtime.Dict.Laws.{Distinct}
use rllib_async_runtime.Fifo.{is_over}
use rllib_async_runtime.Episode.Value.{is_integer, non_negative}
use rllib_async_runtime.Episode.Payload.{Bytes}
use rllib_async_runtime.Episode.Envelope.{EpisodeEnvelope, IsEnvelope}
use rllib_async_runtime.Episode.Codec.{EpisodeCodec}
use rllib_async_runtime.Replay.{ReplayTransaction}
use rllib_async_runtime.Retention.{Manifest, same_ids, retention_manifest}
use rllib_async_runtime.Retention.Laws.{transitions_of, bytes_of, keep, same_ids_sound}
use rllib_async_runtime.Store.{EpisodeStore, EpisodeRecord, Config}
use rllib_async_runtime.Store.Invariant.{record_item, transaction_item, manifest_of, Journaled, Inv}
use rllib_async_runtime.Store.History.{init-Inv}
use rllib_async_runtime.Store.State.{
  EpisodeStoreState, Live, no_episodes, load_live, load_records, check_live, replay_journal,
}
use rllib_async_runtime.Store.Restore.{
  open_state, restore_base, Metrics, restore_metrics, restore_journal, from_state,
}
use rllib_async_runtime.Store.Loaded.{
  same_manifest_sound, IsLoaded, IsLoaded-manifest, no_episodes-IsLoaded, load_live-IsLoaded,
  load_records-Distinct, restore_base_lem,
}
use rllib_async_runtime.Store.Restored.{history_end, Replayed, replay_journal_lem}

record IsMeasured (m : Metrics) (seq live recorded : ℕ) : Type 0 where
  committed : m.committed_episodes ≡ seq
  attempts : m.commit_attempts ≡ m.committed_episodes + m.duplicate_commits + m.rejected_commits
  conflicts : m.conflicting_commits ≤ m.rejected_commits
  evicted : m.evicted_episodes + live ≡ m.committed_episodes
  covered : recorded ≡ m.committed_episodes

restore_metrics-IsMeasured :
    (st : EpisodeStoreState) (seq live recorded : ℕ) {m : Metrics}
    → restore_metrics st seq live recorded ≡ ok m
    → IsMeasured m seq live recorded
unfolding restore_metrics
restore_metrics-IsMeasured st seq live recorded h =
    let (a, _, h1) = >>=-eq-ok (non_negative invalid_store_state st.commit_attempts) _ h in
    let (c, _, h2) = >>=-eq-ok (non_negative invalid_store_state st.committed_episodes) _ h1 in
    let (d, _, h3) = >>=-eq-ok (non_negative invalid_store_state st.duplicate_commits) _ h2 in
    let (r, _, h4) = >>=-eq-ok (non_negative invalid_store_state st.rejected_commits) _ h3 in
    let (x, _, h5) = >>=-eq-ok (non_negative invalid_store_state st.conflicting_commits) _ h4 in
    let (v, _, h6) = >>=-eq-ok (non_negative invalid_store_state st.evicted_episodes) _ h5 in
    let (_, g1, h7) = >>=-eq-ok (guard (c == seq) invalid_store_state) _ h6 in
    let (_, g2, h8) = >>=-eq-ok (guard (a == c + d + r) invalid_store_state) _ h7 in
    let (_, g3, h9) = >>=-eq-ok (guard (leb x r) invalid_store_state) _ h8 in
    let (_, g4, h10) = >>=-eq-ok (guard (v + live == c) invalid_store_state) _ h9 in
    let (_, g5, h11) = >>=-eq-ok (guard (recorded == c) invalid_store_state) _ h10 in
    subst (λ m. IsMeasured m seq live recorded) (ok-injective h11)
      (record {
        committed = (==_iff c seq).0 (guard-eq-ok _ _ g1);
        attempts = (==_iff a (c + d + r)).0 (guard-eq-ok _ _ g2);
        conflicts = ground (arith, guard-eq-ok _ _ g3);
        evicted = (==_iff (v + live) c).0 (guard-eq-ok _ _ g4);
        covered = (==_iff recorded c).0 (guard-eq-ok _ _ g5);
      })

open_state_lem :
    (codec : EpisodeCodec) (fresh : String) (st : EpisodeStoreState) {store : EpisodeStore}
    → open_state codec fresh st ≡ ok store
    → 0 < store.journal_capacity
unfolding open_state
open_state_lem codec fresh st h =
    let (_, _, h1) = >>=-eq-ok (guard (is_integer st.format_version 2) invalid_store_state) _ h in
    let (_, _, h2) =
      >>=-eq-ok
        (guard
          (str_eq st.codec_id codec.codec_id
            && is_integer st.codec_schema_version codec.schema_version)
          invalid_store_state)
        _ h1 in
    (init-Inv codec st.capacity_transitions st.capacity_bytes st.journal_capacity
      st.store_generation fresh (rethrow-eq-ok _ _ h2)).journaling

module _ (codec : EpisodeCodec) (fingerprint : EpisodeEnvelope → Bytes) where
  -- The history ends with the journal, which continues what stands before it, and the live
  -- episodes are what the policy keeps of it.
  record IsReplayed (c : Config) (l : Live) (history older : Manifest)
      (journal : List ReplayTransaction) : Type 0 where
    split : history ≡ older ++ map (transaction_item codec) journal
    journaled : Journaled codec c.capacity_transitions c.capacity_bytes older journal
    retained : manifest_of codec l.episodes ≡ keep c.capacity_transitions c.capacity_bytes history

  restore_journal-IsReplayed :
      (c : Config) (d : Dict EpisodeRecord) (l : Live) (n : ℕ) (base : Manifest)
      (journal : List ReplayTransaction) {u : Unit {0}}
      → Distinct (map record_item d)
      → IsLoaded codec l
      → n ≤ length (map record_item d)
      → base ≡ keep c.capacity_transitions c.capacity_bytes (take n (map record_item d))
      → All (λ (t : ReplayTransaction). IsEnvelope t.added) journal
      → restore_journal codec fingerprint c d l n base journal ≡ ok u
      → IsReplayed c l (map record_item d) (take n (map record_item d)) journal
  unfolding restore_journal
  restore_journal-IsReplayed c d l n base journal distinct loaded within b w h =
      let cap_t = c.capacity_transitions in
      let cap_b = c.capacity_bytes in
      let history = map record_item d in
      let older = take n history in
      let items = map (transaction_item codec) journal in
      let (m, p, h1) =
        >>=-eq-ok
          (replay_journal codec fingerprint cap_t cap_b d (suc n) base (sum_of transitions_of base)
            (sum_of bytes_of base) journal)
          _ h in
      let (_, q, h2) =
        >>=-eq-ok
          (guard
            (same_ids (map (λ (t : ReplayTransaction). t.added.episode_id) journal)
              (drop n (keys d)))
            invalid_store_state)
          _ h1 in
      let (e, r, h3) = >>=-eq-ok (retention_manifest l.episodes l.transition_counts) _ h2 in
      let whole : history ≡ older ++ drop n history = sym (take-append-drop n history) in
      let rep : Replayed codec cap_t cap_b fingerprint d older journal m =
        replay_journal_lem codec cap_t cap_b fingerprint d older (suc n) journal
          (ap suc (sym (length-take n history within))) w (rw b at p) in
      let ids : keys (drop n history) ≡ keys items =
        sym (drop-map (λ x. x.0) n history)
        ∙ ap (drop n) (map-map record_item (λ x. x.0) d)
        ∙ sym (same_ids_sound _ _ (guard-eq-ok _ _ q))
        ∙ sym (map-map (transaction_item codec) (λ x. x.0) journal) in
      let end : drop n history ≡ items =
        history_end older (drop n history) items (rw whole at distinct) ids
          (subst (λ y. All (λ x. get y x.0 ≡ some x.1) items) whole rep.sizes) in
      let split : history ≡ older ++ items = whole ∙ ap (◌++◌ older) end in
      record {
        split = split;
        journaled = rep.journaled;
        retained =
            ok-injective (sym (IsLoaded-manifest codec l loaded) ∙ r)
            ∙ sym (same_manifest_sound m e (guard-eq-ok _ _ h3))
            ∙ rep.manifest
            ∙ ap (keep cap_t cap_b) (sym split);
      }

  -- A checkpoint state whose episodes were constructed as envelopes: where `from_state` accepts it,
  -- the store satisfies the invariant, so it holds what the policy keeps of its recorded history,
  -- its totals and counters agree with it, and its journal continues its base to it.
  pub from_state-Inv :
      (fresh : String) (st : EpisodeStoreState) {s : EpisodeStore}
      → All IsEnvelope st.episodes
      → All (λ (t : ReplayTransaction). IsEnvelope t.added) st.journal
      → from_state codec fingerprint fresh st ≡ ok s
      → Inv codec s
  unfolding from_state
  from_state-Inv fresh st w wj h =
      let (store, p, h1) = >>=-eq-ok (open_state codec fresh st) _ h in
      let c = store.config in
      let (seq, _, h2) = >>=-eq-ok (non_negative invalid_store_state st.mutation_seq) _ h1 in
      let (l, pl, h3) = >>=-eq-ok (load_live codec st.episodes no_episodes) _ h2 in
      let (_, _, h4) =
        >>=-eq-ok
          (guard
            (not (
              is_over c.capacity_transitions c.capacity_bytes l.total_transitions
                l.total_estimated_bytes))
            invalid_store_state)
          _ h3 in
      let (d, pd, h5) =
        >>=-eq-ok (load_records c.capacity_transitions c.capacity_bytes st.episode_records []) _
          h4 in
      let (_, _, h6) =
        >>=-eq-ok (check_live codec fingerprint d l.transition_counts l.episodes) _ h5 in
      let (_, pj, h7) =
        >>=-eq-ok (guard (length st.journal == min seq c.journal_capacity) invalid_store_state) _
          h6 in
      let n = seq - length st.journal in
      let (base, pb, h8) = >>=-eq-ok (restore_base c d n st.journal_base_manifest) _ h7 in
      let (_, pr, h9) =
        >>=-eq-ok (restore_journal codec fingerprint c d l n base st.journal) _ h8 in
      let (m, pm, h10) = >>=-eq-ok (restore_metrics st seq (length l.episodes) (length d)) _ h9 in
      let loaded =
        load_live-IsLoaded codec st.episodes no_episodes w (no_episodes-IsLoaded codec) pl in
      let distinct =
        load_records-Distinct c.capacity_transitions c.capacity_bytes st.episode_records [] tt pd in
      let measured = restore_metrics-IsMeasured st seq (length l.episodes) (length d) pm in
      let recorded : length (map record_item d) ≡ seq =
        length-map record_item d ∙ measured.covered ∙ measured.committed in
      let bounded : length st.journal ≡ min seq c.journal_capacity =
        (==_iff (length st.journal) (min seq c.journal_capacity)).0 (guard-eq-ok _ _ pj) in
      let from_base = restore_base_lem c d n st.journal_base_manifest distinct pb in
      let replayed =
        restore_journal-IsReplayed c d l n base st.journal distinct loaded (omega arith) from_base
          wj pr in
      subst (Inv codec) (ok-injective h10) (record {
        journaling = open_state_lem codec fresh st p;
        retains = record {
          entries = loaded.entries;
          counts = loaded.counts;
          distinct = distinct;
          retained = replayed.retained;
          transitions = loaded.transitions;
          bytes = loaded.bytes;
        };
        counts = record {
          committed = measured.committed;
          recorded = recorded;
          attempts = measured.attempts;
          conflicts = measured.conflicts;
          evicted = measured.evicted;
        };
        journals = record {
          older = take n (map record_item d);
          split = replayed.split;
          base = from_base;
          bounded = bounded;
          journaled = replayed.journaled;
        };
      })
