-- ===== src/Store/Journal.antt =====
-- The journal: appending a transaction continues the history, compaction moves its oldest
-- transaction into the base, and the base stays what was retained there.
use rllib_async_runtime.Common.{
  ℕ, min, String, ◌≡◌, refl, sym, ap, ◌∙◌, subst, false, List, [], ◌∷◌, ◌++◌, map, append_assoc,
  append-nil, length, ltb, arith, Bool-cases, inl, inr, ok,
}
use rllib_async_runtime.Dict.{keys, contains}
use rllib_async_runtime.Dict.Laws.{Distinct, Distinct-middle, put_new}
use rllib_async_runtime.Fifo.Laws.{victims-append-survivors, survivors_snoc}
use rllib_async_runtime.Episode.Codec.{EpisodeCodec, count_of, transition_count-count_of}
use rllib_async_runtime.Replay.{ReplayTransaction}
use rllib_async_runtime.Retention.{Manifest, evict_fifo, advance_retention_manifest}
use rllib_async_runtime.Retention.Laws.{
  transitions_of, bytes_of, keep, dropped, keep-contains, evict_fifo-append,
}
use rllib_async_runtime.Store.Commit.{compact}
use rllib_async_runtime.Store.Invariant.{item, transaction_item, Journaled}

module _ (codec : EpisodeCodec) (cap_t cap_b : ℕ) where
  -- Popping the oldest items in order leaves what is kept.
  pub evict_fifo-keep :
      (m : Manifest) (x : String × (ℕ × ℕ))
      → evict_fifo
          (keep cap_t cap_b m ++ x ∷ [])
          (keys (dropped cap_t cap_b (keep cap_t cap_b m ++ x ∷ [])))
        ≡ ok (keep cap_t cap_b (m ++ x ∷ []))
  evict_fifo-keep m x =
      let l = keep cap_t cap_b m ++ x ∷ [] in
      subst (λ y. evict_fifo y (keys (dropped cap_t cap_b l)) ≡ ok (keep cap_t cap_b (m ++ x ∷ [])))
        (victims-append-survivors transitions_of bytes_of cap_t cap_b l)
        (evict_fifo-append (dropped cap_t cap_b l) (keep cap_t cap_b l)
          ∙ ap ok (survivors_snoc transitions_of bytes_of cap_t cap_b m x))

  advance_lem :
      (m : Manifest) (t : ReplayTransaction) (ts : List ReplayTransaction)
      → contains m t.added.episode_id ≡ false
      → Journaled codec cap_t cap_b m (t ∷ ts)
      → advance_retention_manifest codec (keep cap_t cap_b m) t
        ≡ ok (keep cap_t cap_b (m ++ item codec t.added ∷ []))
  unfolding advance_retention_manifest
  advance_lem m t ts fresh (seq, made, valid, evicted, later) =
      let absent = keep-contains cap_t cap_b m t.added.episode_id fresh in
      rw
        (
          absent,
          transition_count-count_of codec made valid,
          put_new (keep cap_t cap_b m) t.added.episode_id
              (count_of codec t.added, t.added.estimated_bytes) absent,
          evicted,
        )
        (evict_fifo-keep m (item codec t.added))

  -- What compaction leaves continues the same history.
  pub record Compacted (capacity : ℕ) (m : Manifest) (ts : List ReplayTransaction) : Type 0 where
    pub older : Manifest
    pub journal : List ReplayTransaction
    pub computes :
        compact codec capacity (keep cap_t cap_b m) ts ≡ ok (keep cap_t cap_b older, journal)
    pub split : m ++ map (transaction_item codec) ts ≡ older ++ map (transaction_item codec) journal
    pub journaled : Journaled codec cap_t cap_b older journal
    pub bounded : length journal ≡ min (length ts) capacity
    pub lost : List ReplayTransaction
    pub suffix : ts ≡ lost ++ journal

  pub compact_lem :
      (capacity : ℕ) (m : Manifest) (ts : List ReplayTransaction)
      → Distinct (m ++ map (transaction_item codec) ts)
      → Journaled codec cap_t cap_b m ts
      → Compacted capacity m ts
  unfolding compact
  compact_lem capacity m [] d j = record {
    older = m;
    journal = [];
    computes = refl;
    split = refl;
    journaled = j;
    bounded = omega arith;
    lost = [];
    suffix = refl;
  }
  compact_lem capacity m (t ∷ ts) d j = elim (Bool-cases (ltb capacity (length (t ∷ ts)))) [
    | inl e ↦
        let x = item codec t.added in
        let later = map (transaction_item codec) ts in
        let split : (m ++ x ∷ []) ++ later ≡ m ++ x ∷ later = append_assoc m (x ∷ []) later in
        let c = compact_lem capacity (m ++ x ∷ []) ts (rw split d) j.4 in
        record {
          older = c.older;
          journal = c.journal;
          computes = rw (e, advance_lem m t ts (Distinct-middle m later x.0 x.1 d) j) c.computes;
          split = sym split ∙ c.split;
          journaled = c.journaled;
          bounded = ground (arith, c.bounded);
          lost = t ∷ c.lost;
          suffix = ap (◌∷◌ t) c.suffix;
        }
    | inr e ↦ record {
      older = m;
      journal = t ∷ ts;
      computes = rw e;
      split = refl;
      journaled = j;
      bounded = ground arith;
      lost = [];
      suffix = refl;
    }
  ]

  -- A transaction that continues the history of the journal may be appended.
  pub Journaled_snoc :
      (m : Manifest) (ts : List ReplayTransaction) (t : ReplayTransaction)
      → Journaled codec cap_t cap_b m ts
      → Journaled codec cap_t cap_b (m ++ map (transaction_item codec) ts) (t ∷ [])
      → Journaled codec cap_t cap_b m (ts ++ t ∷ [])
  Journaled_snoc m [] t j h = rw (append-nil m) at h
  Journaled_snoc m (u ∷ ts) t j h =
      let x = item codec u.added in
      let later = map (transaction_item codec) ts in
      (
        j.0,
        j.1,
        j.2,
        j.3,
        Journaled_snoc (m ++ x ∷ []) ts t j.4 (
            subst (λ y. Journaled codec cap_t cap_b y (t ∷ []))
              (sym (append_assoc m (x ∷ []) later)) h),
      )
