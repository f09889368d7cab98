-- ===== src/Store/Preserve.antt =====
-- The store after the commit of a new episode: its history and its invariant.
use rllib_async_runtime.Common.{
  ℕ, ◌+◌, ◌≤◌, String, ◌≡◌, refl, sym, ap, ◌∙◌, true, false, none, List, [], ◌∷◌, ◌++◌, map-append,
  length, arith, sum_of-map, length-append, length-map, All, All-append, All-append_right, ok,
}
use rllib_async_runtime.Dict.{get, contains}
use rllib_async_runtime.Dict.Laws.{Distinct-snoc, put_new, contains-map, contains_of_get-none}
use rllib_async_runtime.Fifo.Laws.{survivors_snoc, victims-append-survivors}
use rllib_async_runtime.Episode.Payload.{Bytes}
use rllib_async_runtime.Episode.Envelope.{EpisodeEnvelope, IsEnvelope}
use rllib_async_runtime.Episode.Codec.{EpisodeCodec, count_of}
use rllib_async_runtime.Replay.{ReplayTransaction}
use rllib_async_runtime.Retention.Laws.{transitions_of, bytes_of, keep}
use rllib_async_runtime.Store.{EpisodeStore, cursor}
use rllib_async_runtime.Store.Commit.{journal_base, prepare, publish, commit_new}
use rllib_async_runtime.Store.Invariant.{
  item, entry_item, manifest_of, history_of, record_item, IsEntry, IsRetained, IsJournaled, Inv,
}
use rllib_async_runtime.Store.Evict.{entry_transitions, entry_bytes, kept, gone, manifest_of-kept}
use rllib_async_runtime.Store.Prepare.{
  prepare_lem, prepared, transaction, compacted, history_after, manifest_after, episodes_after,
}

-- The same store with other commit counters.
abbrev pub with_counters :
    EpisodeStore → (attempts duplicates rejected conflicting : ℕ) → EpisodeStore
with_counters s a d r c = record s {
  commit_attempts = a;
  duplicate_commits = d;
  rejected_commits = r;
  conflicting_commits = c;
}

-- The store once the attempt is counted.
abbrev pub counted : EpisodeStore → EpisodeStore
counted s = record s { commit_attempts = s.commit_attempts + 1 }

module _ (codec : EpisodeCodec) where
  IsRetained-with_counters :
      {s : EpisodeStore} (a d r c : ℕ)
      → IsRetained codec s
      → IsRetained codec (with_counters s a d r c)
  IsRetained-with_counters a d r c h = record {
    entries = h.entries;
    counts = h.counts;
    distinct = h.distinct;
    retained = h.retained;
    transitions = h.transitions;
    bytes = h.bytes;
  }

  IsJournaled-with_counters :
      {s : EpisodeStore} (a d r c : ℕ)
      → IsJournaled codec s
      → IsJournaled codec (with_counters s a d r c)
  IsJournaled-with_counters a d r c h = record {
    older = h.older;
    split = h.split;
    base = h.base;
    bounded = h.bounded;
    journaled = h.journaled;
  }

  pub Inv-with_counters :
      {s : EpisodeStore} (a d r c : ℕ)
      → Inv codec s
      → a ≡ s.committed_episodes + d + r
      → c ≤ r
      → Inv codec (with_counters s a d r c)
  Inv-with_counters a d r c h p q = record {
    journaling = h.journaling;
    retains = IsRetained-with_counters a d r c h.retains;
    counts = record {
      committed = h.counts.committed;
      recorded = h.counts.recorded;
      attempts = p;
      conflicts = q;
      evicted = h.counts.evicted;
    };
    journals = IsJournaled-with_counters a d r c h.journals;
  }

  module _ (fingerprint : EpisodeEnvelope → Bytes) (s : EpisodeStore) (h : Inv codec s)
      (e : EpisodeEnvelope) (w : IsEnvelope e) (v : codec.validate e ≡ ok tt)
      (fresh : contains (history_of s) e.episode_id ≡ false) where
    -- The store after a new episode.
    abbrev pub published : EpisodeStore
    published =
        publish codec fingerprint s e (count_of codec e)
          (prepared codec s h.retains h.counts h.journals e w v fresh h.journaling)

    pub history-published : history_of published ≡ history_of s ++ item codec e ∷ []
    unfolding publish
    history-published =
        let absent : contains s.episode_records e.episode_id ≡ false =
          sym (contains-map record_item (λ x. refl) s.episode_records e.episode_id) ∙ fresh in
        rw (put_new s.episode_records e.episode_id _ absent)
          (map-append record_item s.episode_records _)

    entries-published : All (IsEntry codec) published.episodes
    unfolding publish
    entries-published =
        let l = episodes_after codec s h.retains h.counts h.journals e w v fresh h.journaling in
        let t = entry_transitions codec in
        let b = entry_bytes codec in
        let new : IsEntry codec (e.episode_id, e) = record {
          named = refl;
          constructed = w;
          valid = v;
        } in
        All-append_right (IsEntry codec) (gone codec s.capacity_transitions s.capacity_bytes l)
          (kept codec s.capacity_transitions s.capacity_bytes l)
          (rw (victims-append-survivors t b s.capacity_transitions s.capacity_bytes l) (
            All-append (IsEntry codec) s.episodes ((e.episode_id, e) ∷ []) h.retains.entries
              (new, tt)))

    pub retained-published :
        manifest_of codec published.episodes
        ≡ keep s.capacity_transitions s.capacity_bytes (history_of published)
    unfolding publish
    retained-published =
        manifest_of-kept codec s.capacity_transitions s.capacity_bytes
          (episodes_after codec s h.retains h.counts h.journals e w v fresh h.journaling)
        ∙ ap (keep s.capacity_transitions s.capacity_bytes)
            (manifest_after codec s h.retains h.counts h.journals e w v fresh h.journaling)
        ∙ survivors_snoc transitions_of bytes_of s.capacity_transitions s.capacity_bytes
            (history_of s) (item codec e)
        ∙ ap (keep s.capacity_transitions s.capacity_bytes) (sym history-published)

    published-IsRetained : IsRetained codec published
    unfolding publish
    published-IsRetained = record {
      entries = entries-published;
      counts = refl;
      distinct = rw history-published (
          Distinct-snoc (history_of s) e.episode_id (count_of codec e, e.estimated_bytes)
            h.retains.distinct fresh);
      retained = retained-published;
      transitions = sym (sum_of-map (entry_item codec) transitions_of _);
      bytes = sym (sum_of-map (entry_item codec) bytes_of _);
    }

    evicted-published :
        published.evicted_episodes + length published.episodes ≡ s.committed_episodes + 1
    unfolding publish
    evicted-published =
        let l = episodes_after codec s h.retains h.counts h.journals e w v fresh h.journaling in
        let lost = gone codec s.capacity_transitions s.capacity_bytes l in
        let left = kept codec s.capacity_transitions s.capacity_bytes l in
        let parts = ap (length {0}) (
          victims-append-survivors (entry_transitions codec) (entry_bytes codec)
            s.capacity_transitions s.capacity_bytes l) in
        omega (
          arith,
          parts,
          length-append {0} lost left,
          length-map (λ (x : String × EpisodeEnvelope). x.0) lost,
          length-append {0} s.episodes ((e.episode_id, e) ∷ []),
          h.counts.evicted,
        )

    published-IsJournaled : IsJournaled codec published
    unfolding publish
    published-IsJournaled =
        let c = compacted codec s h.retains h.counts h.journals e w v fresh h.journaling in
        record {
          older = c.older;
          split =
              history-published
              ∙ history_after codec s h.retains h.counts h.journals e w v fresh h.journaling
              ∙ c.split;
          base = refl;
          bounded = omega (
            arith,
            c.bounded,
            h.journals.bounded,
            length-append {0} s.journal
                (transaction codec s h.retains h.counts h.journals e w v fresh h.journaling ∷ []),
          );
          journaled = c.journaled;
        }

    -- With the attempt counted, the new store is as good as the old one.
    pub published-Inv : Inv codec (
        with_counters published
          (s.commit_attempts + 1)
          s.duplicate_commits
          s.rejected_commits
          s.conflicting_commits)
    unfolding publish
    published-Inv = record {
      journaling = h.journaling;
      retains = IsRetained-with_counters _ _ _ _ published-IsRetained;
      counts = record {
        committed = omega (arith, h.counts.committed);
        recorded =
            ap (length {0}) history-published
            ∙ length-append {0} (history_of s) (item codec e ∷ [])
            ∙ ap (λ n. n + 1) h.counts.recorded;
        attempts = omega (arith, h.counts.attempts);
        conflicts = h.counts.conflicts;
        evicted = evicted-published;
      };
      journals = IsJournaled-with_counters _ _ _ _ published-IsJournaled;
    }

  journal_base-attempts :
      (n : ℕ) (s : EpisodeStore) (js : List ReplayTransaction)
      → journal_base codec (record s { commit_attempts = n }) js ≡ journal_base codec s js
  unfolding journal_base
  journal_base-attempts n s [] = refl
  journal_base-attempts n s (t ∷ js) = refl

  prepare-attempts :
      (n : ℕ) (s : EpisodeStore) (e : EpisodeEnvelope) (k : ℕ)
      → prepare codec (record s { commit_attempts = n }) e k ≡ prepare codec s e k
  unfolding prepare
  prepare-attempts n s e k = rw (journal_base-attempts n s s.journal)

  module _ (fingerprint : EpisodeEnvelope → Bytes) (s : EpisodeStore) (h : Inv codec s)
      (e : EpisodeEnvelope) (w : IsEnvelope e) (v : codec.validate e ≡ ok tt) where
    -- What a new episode's commit returns, and the store it leaves.
    pub commit_new_lem :
        (fresh : contains (history_of s) e.episode_id ≡ false)
        → commit_new codec fingerprint (counted s) e (count_of codec e) ≡ (
          ok (record {
            cursor = cursor (published fingerprint s h e w v fresh);
            committed = true;
            duplicate = false;
            evicted_episode_ids =
                (prepared codec s h.retains h.counts h.journals e w v fresh
                  h.journaling).retained.evicted_episode_ids;
          }),
          with_counters
              (published fingerprint s h e w v fresh)
              (s.commit_attempts + 1)
              s.duplicate_commits
              s.rejected_commits
              s.conflicting_commits,
        )
    unfolding commit_new publish
    commit_new_lem fresh = rw (
      commit_new,
      prepare-attempts (s.commit_attempts + 1) s e (count_of codec e),
      prepare_lem codec s h.retains h.counts h.journals e w v fresh h.journaling,
    )

    pub get-history :
        get s.episode_records e.episode_id ≡ none → contains (history_of s) e.episode_id ≡ false
    get-history p =
        contains-map record_item (λ x. refl) s.episode_records e.episode_id
        ∙ contains_of_get-none s.episode_records e.episode_id p
