-- ===== src/View/Round.antt =====
-- One round of synchronisation: the delta that the store answers to a view's cursor, and the view
-- that it is applied to.
use rllib_async_runtime.Common.{
  ℕ, true, Bool-cases, ◌+◌, ◌≤◌, ◌<◌, ◌≡◌, ◌⊎◌, refl, sym, ap, ◌∙◌, subst, false, some, List, [],
  ◌∷◌, ◌++◌, map, length, arith, append_assoc, ltb, ==_refl, length-append, length-map,
  eq-nil_of_length, inl, inr, ok, >>=-eq-ok, eq_refl,
}
use rllib_async_runtime.Dict.{Dict}
use rllib_async_runtime.Episode.Envelope.{EpisodeEnvelope}
use rllib_async_runtime.Episode.Codec.{EpisodeCodec}
use rllib_async_runtime.Replay.{ReplayCursor, ReplayTransaction, ReplayDelta}
use rllib_async_runtime.Store.{EpisodeStore, cursor}
use rllib_async_runtime.Store.Delta.{
  outside_journal, requires_full_resync, pending_after, select_within, get_delta,
}
use rllib_async_runtime.Store.Invariant.{Inv, transaction_item}
use rllib_async_runtime.View.{View, apply_transactions, apply_at, apply_delta}
use rllib_async_runtime.View.Transactions.{apply_transactions-append, apply_transactions_seq}
use rllib_async_runtime.View.Numbering.{
  Numbered, Journaled-Numbered, Numbered-append_left, apply_transactions-Numbered,
  pending_after_old, pending_after_new, select_within_prefix, select_within_first, cursor_after_lem,
}
use rllib_async_runtime.View.Sync.{IsSuffix, IsBehind, distance}

module _ (codec : EpisodeCodec) (s : EpisodeStore) (h : Inv codec s) (v : View)
    (b : IsBehind codec s v) where
  abbrev pub view_cursor : ReplayCursor
  view_cursor = record { store_generation = s.store_generation; mutation_seq = b.seq }

  base_seq : ℕ
  base_seq = length h.journals.older

  pub journal-Numbered : Numbered (length h.journals.older) s.journal
  journal-Numbered =
      Journaled-Numbered codec s.capacity_transitions s.capacity_bytes h.journals.older s.journal
        (length h.journals.older) refl h.journals.journaled

  pub journal_reaches : length h.journals.older + length s.journal ≡ s.mutation_seq
  journal_reaches =
      sym (
        ap (length {0}) h.journals.split
        ∙ length-append {0} h.journals.older (map (transaction_item codec) s.journal)
        ∙ ap (λ n. length h.journals.older + n) (length-map (transaction_item codec) s.journal))
      ∙ h.counts.recorded

  -- The journal begins at or before the cursor of a view that needs no full resync.
  within_journal :
      (js : List ReplayTransaction)
      → Numbered (length h.journals.older) js
      → length h.journals.older + length js ≡ s.mutation_seq
      → outside_journal js b.seq s.mutation_seq ≡ false
      → b.seq ≤ s.mutation_seq
      → length h.journals.older ≤ b.seq
  unfolding outside_journal
  within_journal [] n r o l = ground arith
  within_journal (j ∷ js) n r o l = ground (arith, n.0)

  module _ (fresh : requires_full_resync s view_cursor ≡ false) where
    pub covered : length h.journals.older ≤ b.seq
    unfolding requires_full_resync
    covered =
        within_journal s.journal journal-Numbered journal_reaches
          (ground (arith, eq_refl s.store_generation, distance codec s v b))
          (omega (arith, distance codec s v b))

    pending_suffix : IsSuffix b.pending s.journal
    pending_suffix = elim b.agrees [
      | inl x ↦ x
      | inr (x, p) ↦
          let none_lost : x ≡ [] = eq-nil_of_length x (
            omega (
              arith,
              distance codec s v b,
              journal_reaches,
              covered,
              ap (length {0}) p,
              length-append {0} x s.journal,
            )) in
          ([], sym (p ∙ ap (λ y. y ++ s.journal) none_lost))
    ]

    pending-Numbered : Numbered b.seq b.pending
    pending-Numbered = apply_transactions-Numbered codec b.pending v.episodes b.seq b.catches

    -- What the store takes to be pending is what leads the view to it.
    pub pending_after_lem : pending_after b.seq s.journal ≡ b.pending
    pending_after_lem =
        let (x, p) = pending_suffix in
        let numbered = subst (Numbered (length h.journals.older)) p journal-Numbered in
        let bound : length h.journals.older + length x ≤ b.seq = omega (
          arith,
          distance codec s v b,
          journal_reaches,
          ap (length {0}) p,
          length-append {0} x b.pending,
        ) in
        ap (pending_after b.seq) p
        ∙ pending_after_old b.seq (length h.journals.older) x b.pending
            (Numbered-append_left (length h.journals.older) x b.pending numbered) bound
        ∙ pending_after_new b.seq b.seq b.pending pending-Numbered (omega arith)

    module _ (max_bytes : ℕ) (budget : ltb max_bytes 1 ≡ false) where
      abbrev pub selected : List ReplayTransaction
      selected = select_within max_bytes false 0 b.pending

      abbrev pub reached : ℕ
      reached = b.seq + length selected

      abbrev pub delta : ReplayDelta
      delta = record {
        base_cursor = view_cursor;
        next_cursor = record { store_generation = s.store_generation; mutation_seq = reached };
        transactions = selected;
        full_resync_required = false;
        has_more = ltb reached s.mutation_seq;
      }

      abbrev rest : List ReplayTransaction
      rest = (select_within_prefix max_bytes false 0 b.pending).0

      split : b.pending ≡ selected ++ rest
      split = (select_within_prefix max_bytes false 0 b.pending).1

      pub get_delta_lem : get_delta s view_cursor max_bytes ≡ ok delta
      unfolding get_delta
      get_delta_lem =
          let numbered =
            Numbered-append_left b.seq selected rest
              (subst (Numbered b.seq) split pending-Numbered) in
          rw (budget, pending_after_lem, fresh, cursor_after_lem s b.seq selected numbered)

      -- What a successful round leaves.
      pub record Advanced : Type 0 where
        pub view : View
        pub applies : apply_delta codec v delta ≡ ok view
        pub behind : IsBehind codec s view
        pub seq : behind.seq ≡ reached
        pub level :
            ltb reached s.mutation_seq ≡ false
            → (view.episodes ≡ s.episodes) × (view.cursor ≡ some (cursor s))

      -- The selected part of the pending transactions is applied, the rest stays pending.
      applied :
          (r : Dict EpisodeEnvelope × ℕ) × (apply_transactions codec v.episodes b.seq selected
            ≡ ok r)
          × (apply_transactions codec r.0 r.1 rest ≡ ok (s.episodes, s.mutation_seq))
      applied = >>=-eq-ok (apply_transactions codec v.episodes b.seq selected) _ (
          sym (apply_transactions-append codec selected rest v.episodes b.seq)
          ∙ ap (apply_transactions codec v.episodes b.seq) (sym split)
          ∙ b.catches)

      applied_seq : applied.0.1 ≡ reached
      applied_seq = apply_transactions_seq codec selected v.episodes b.seq applied.1

      abbrev advanced_view : View
      advanced_view = record { cursor = some delta.next_cursor; episodes = applied.0.0 }

      apply_delta_lem : apply_delta codec v delta ≡ ok advanced_view
      unfolding apply_delta apply_at
      apply_delta_lem = rw (
        b.standing,
        apply_delta,
        eq_refl s.store_generation,
        ==_refl b.seq,
        applied.1,
        applied_seq,
        ==_refl reached,
      )

      rest_empty : ltb reached s.mutation_seq ≡ false → rest ≡ []
      rest_empty e =
          let past : s.mutation_seq ≤ reached = ground (arith, e) in
          eq-nil_of_length rest (
            omega (
              arith,
              past,
              distance codec s v b,
              ap (length {0}) split,
              length-append {0} selected rest,
            ))

      level_seq : ltb reached s.mutation_seq ≡ false → reached ≡ s.mutation_seq
      level_seq e = omega (
        arith,
        distance codec s v b,
        ap (length {0}) split,
        length-append {0} selected rest,
        ap (length {0}) (rest_empty e),
      )

      level_episodes :
          (d : Dict EpisodeEnvelope) (n : ℕ) (us : List ReplayTransaction)
          → us ≡ []
          → apply_transactions codec d n us ≡ ok (s.episodes, s.mutation_seq)
          → d ≡ s.episodes
      unfolding apply_transactions
      level_episodes d n [] e p = cc
      level_episodes d n (u ∷ us) e p = cc

      advance : Advanced
      advance = record {
        view = advanced_view;
        applies = apply_delta_lem;
        behind = record {
          seq = reached;
          standing = refl;
          pending = rest;
          catches =
              ap (λ n. apply_transactions codec applied.0.0 n rest) (sym applied_seq) ∙ applied.2;
          agrees =
              let (x, p) = pending_suffix in
              inl (x ++ selected, p ∙ ap (λ y. x ++ y) split ∙ sym (append_assoc x selected rest));
        };
        seq = refl;
        level = λ e. (
          level_episodes applied.0.0 applied.0.1 rest (rest_empty e) applied.2,
          ap (λ n. some (record { store_generation = s.store_generation; mutation_seq = n }))
              (level_seq e),
        );
      }

      nearer : (b.seq ≡ s.mutation_seq) ⊎ (b.seq < advance.behind.seq)
      unfolding advance
      nearer = elim (Bool-cases (ltb b.seq s.mutation_seq)) [
        | inl l ↦
            let some_pending : 0 < length b.pending = ground (arith, distance codec s v b, l) in
            inr (omega (arith, select_within_first max_bytes b.pending some_pending))
        | inr g ↦ inl (ground (arith, distance codec s v b, g))
      ]

      level_or_more :
          (delta.has_more ≡ true) ⊎ (delta.has_more ≡ false)
          → (delta.has_more ≡ true)
            ⊎ ((advance.view.episodes ≡ s.episodes) × (advance.view.cursor ≡ some (cursor s)))
      level_or_more (inl p) = inl p
      level_or_more (inr p) = inr (advance.level p)

      -- Where the journal covers the view's cursor and the byte limit is positive, a round succeeds:
      -- the store answers the cursor with a delta, the view applies it and is still behind the store; it was level or stands further on now; and the delta says that
      -- there is more, or the view has the store's episodes and cursor.
      pub sync_round :
          (d : ReplayDelta) × (v' : View) × (b' : IsBehind codec s v') × (get_delta s view_cursor
              max_bytes
            ≡ ok d)
          × (apply_delta codec v d ≡ ok v')
          × ((b.seq ≡ s.mutation_seq) ⊎ (b.seq < b'.seq))
          × ((d.has_more ≡ true) ⊎ ((v'.episodes ≡ s.episodes) × (v'.cursor ≡ some (cursor s))))
      unfolding advance
      sync_round = (
        delta,
        advance.view,
        advance.behind,
        get_delta_lem,
        advance.applies,
        nearer,
        level_or_more (Bool-cases delta.has_more),
      )
