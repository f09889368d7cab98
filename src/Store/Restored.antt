-- ===== src/Store/Restored.antt =====
-- A state that `EpisodeStore.from_state` accepts gives a store that satisfies the invariant.
use rllib_async_runtime.Common.{
  ℕ, suc, ◌+◌, ◌≡◌, refl, sym, ap, ◌∙◌, subst, String, not, false, true, some, List, [], ◌∷◌, ◌++◌,
  map, append_assoc, append-nil, length, length-append, ◌==◌, ==_iff, arith, All, sum_of, Result,
  ok, raise, replay_error, invalid_store_state, guard, rethrow, >>=-eq-ok, guard-eq-ok,
  rethrow-eq-ok, ok-injective,
}
use rllib_async_runtime.Dict.{Dict, get, contains, put, keys}
use rllib_async_runtime.Dict.Laws.{Distinct, Distinct-middle, get-append_right, get_head}
use rllib_async_runtime.Fifo.Laws.{survivors_snoc}
use rllib_async_runtime.Episode.Payload.{Bytes}
use rllib_async_runtime.Episode.Envelope.{EpisodeEnvelope, IsEnvelope}
use rllib_async_runtime.Episode.Codec.{EpisodeCodec, count_of, transition_count-count_of}
use rllib_async_runtime.Replay.{ReplayTransaction}
use rllib_async_runtime.Retention.{Manifest, Trimmed, trim, apply_retention_transaction, same_ids}
use rllib_async_runtime.Retention.Laws.{
  transitions_of, bytes_of, keep, dropped, trimmed, trim_snoc, same_ids_sound,
}
use rllib_async_runtime.Store.{EpisodeRecord}
use rllib_async_runtime.Store.Invariant.{record_item, item, transaction_item, Journaled}
use rllib_async_runtime.Store.State.{
  same_sizes, same_fingerprint, all_named, except_replay, replay_journal,
}

except_replay-eq-ok {ℓ} : {A : Type ℓ} (m : Result A) {a : A} → except_replay m ≡ ok a → m ≡ ok a
except_replay-eq-ok (ok a) h = h
except_replay-eq-ok (raise replay_error) h = cc
except_replay-eq-ok (raise _) h = cc

-- The records have these sizes under this ID.
abbrev pub HasSizes : Dict EpisodeRecord → String × (ℕ × ℕ) → Type 0
HasSizes d x = get (map record_item d) x.0 ≡ some x.1

same_sizes_sound :
    (d : Dict EpisodeRecord) (k : String) (t b : ℕ)
    → same_sizes d k t b ≡ true
    → HasSizes d (k, (t, b))
unfolding same_sizes get
same_sizes_sound [] k t b h = cc
same_sizes_sound ((j, r) ∷ d) k t b h =
    ground
      (arith, same_sizes_sound d k t b, ==_iff r.transition_count t, ==_iff r.estimated_bytes b)

-- The end of a history, by its IDs and the sizes under them.
pub history_end :
    (before later items : Manifest)
    → Distinct (before ++ later)
    → keys later ≡ keys items
    → All (λ x. get (before ++ later) x.0 ≡ some x.1) items
    → later ≡ items
history_end before [] [] h p q = refl
history_end before [] (y ∷ items) h p q = cc
history_end before (x ∷ later) [] h p q = cc
history_end before ((k, v) ∷ later) ((j, u) ∷ items) h p q =
    let split : (before ++ (k, v) ∷ []) ++ later ≡ before ++ (k, v) ∷ later =
      append_assoc before ((k, v) ∷ []) later in
    let same : k ≡ j = cc in
    let rest : keys later ≡ keys items = cc in
    let found : get (before ++ (k, v) ∷ later) k ≡ some v =
      get-append_right before ((k, v) ∷ later) k (Distinct-middle before later k v h)
      ∙ get_head later k v in
    let first : get (before ++ (k, v) ∷ later) k ≡ some u =
      subst (λ i. get (before ++ (k, v) ∷ later) i ≡ some u) (sym same) q.0 in
    let end : later ≡ items =
      history_end (before ++ (k, v) ∷ []) later items (rw split h) rest (rw split q.1) in
    cc

module _ (codec : EpisodeCodec) (cap_t cap_b : ℕ) where
  -- One transaction against the manifest of a history.
  apply_lem :
      (m : Manifest) (t : ReplayTransaction) {r : Trimmed}
      → codec.transition_count t.added ≡ ok (count_of codec t.added)
      → apply_retention_transaction codec cap_t cap_b
          (keep cap_t cap_b m)
          t
          (sum_of transitions_of (keep cap_t cap_b m))
          (sum_of bytes_of (keep cap_t cap_b m))
        ≡ ok r
      → (r ≡ trimmed cap_t cap_b (keep cap_t cap_b m ++ item codec t.added ∷ []))
        × (t.evicted_episode_ids
            ≡ keys (dropped cap_t cap_b (keep cap_t cap_b m ++ item codec t.added ∷ [])))
  unfolding apply_retention_transaction
  apply_lem m t {r} c h =
      let k = keep cap_t cap_b m in
      let (_, f, h1) = >>=-eq-ok (guard (not (contains k t.added.episode_id)) replay_error) _ h in
      let fresh : contains k t.added.episode_id ≡ false = ground (arith, guard-eq-ok _ _ f) in
      let (n, cn, h2) = >>=-eq-ok (codec.transition_count t.added) _ h1 in
      let same : n ≡ count_of codec t.added = ok-injective (sym cn ∙ c) in
      let (r', tr, h3) =
        >>=-eq-ok
          (trim cap_t cap_b (put k t.added.episode_id (n, t.added.estimated_bytes))
            (sum_of transitions_of k + n) (sum_of bytes_of k + t.added.estimated_bytes))
          _ h2 in
      let (_, s, h4) =
        >>=-eq-ok (guard (same_ids t.evicted_episode_ids r'.evicted_episode_ids) replay_error) _
          h3 in
      let computed : r' ≡ trimmed cap_t cap_b (k ++ item codec t.added ∷ []) =
        ok-injective (sym (rw same at tr) ∙ trim_snoc cap_t cap_b (item codec t.added) k fresh) in
      (
        sym (ok-injective h4) ∙ computed,
        same_ids_sound t.evicted_episode_ids r'.evicted_episode_ids (guard-eq-ok _ _ s)
            ∙ ap (λ (y : Trimmed). y.evicted_episode_ids) computed,
      )

  module _ (fingerprint : EpisodeEnvelope → Bytes) (d : Dict EpisodeRecord) where
    -- What the loop over the journal finds out.
    pub record Replayed (m : Manifest) (ts : List ReplayTransaction) (m' : Manifest) : Type 0 where
      pub journaled : Journaled codec cap_t cap_b m ts
      pub sizes : All (HasSizes d) (map (transaction_item codec) ts)
      pub manifest : m' ≡ keep cap_t cap_b (m ++ map (transaction_item codec) ts)

    pub replay_journal_lem :
        (m : Manifest) (seq : ℕ) (ts : List ReplayTransaction) {m' : Manifest}
        → seq ≡ suc (length m)
        → All (λ (t : ReplayTransaction). IsEnvelope t.added) ts
        → replay_journal codec fingerprint cap_t cap_b d seq
            (keep cap_t cap_b m)
            (sum_of transitions_of (keep cap_t cap_b m))
            (sum_of bytes_of (keep cap_t cap_b m))
            ts
          ≡ ok m'
        → Replayed m ts m'
    unfolding replay_journal
    replay_journal_lem m seq [] e w h = record {
      journaled = tt;
      sizes = tt;
      manifest = sym (ok-injective h) ∙ ap (keep cap_t cap_b) (sym (append-nil m));
    }
    replay_journal_lem m seq (t ∷ ts) {m'} e w h =
        let (_, n, h1) = >>=-eq-ok (guard (t.mutation_seq == seq) invalid_store_state) _ h in
        let (_, v, h2) = >>=-eq-ok (rethrow invalid_store_state (codec.validate t.added)) _ h1 in
        let valid : codec.validate t.added ≡ ok tt = rethrow-eq-ok _ _ v in
        let (_, _, h3) =
          >>=-eq-ok (guard (same_fingerprint codec fingerprint d t.added) invalid_store_state) _
            h2 in
        let (c, p, h4) = >>=-eq-ok (codec.transition_count t.added) _ h3 in
        let counted = transition_count-count_of codec w.0 valid in
        let same : c ≡ count_of codec t.added = ok-injective (sym p ∙ counted) in
        let (_, z, h5) =
          >>=-eq-ok
            (guard (same_sizes d t.added.episode_id c t.added.estimated_bytes) invalid_store_state)
            _ h4 in
        let (_, _, h6) =
          >>=-eq-ok (guard (all_named t.evicted_episode_ids) invalid_store_state) _ h5 in
        let (r, a, h7) =
          >>=-eq-ok
            (except_replay (
              apply_retention_transaction codec cap_t cap_b (keep cap_t cap_b m) t
                (sum_of transitions_of (keep cap_t cap_b m))
                (sum_of bytes_of (keep cap_t cap_b m))))
            _ h6 in
        let (computed, evicted) = apply_lem m t counted (except_replay-eq-ok _ a) in
        let x = item codec t.added in
        let kept = survivors_snoc transitions_of bytes_of cap_t cap_b m x in
        let split : (m ++ x ∷ []) ++ map (transaction_item codec) ts
            ≡ m ++ x ∷ map (transaction_item codec) ts =
          append_assoc m (x ∷ []) (map (transaction_item codec) ts) in
        let rest =
          replay_journal_lem (m ++ x ∷ []) (suc seq) ts
            (omega (arith, e, length-append {0} m (x ∷ []))) w.1 (rw (computed, kept) at h7) in
        record {
          journaled = (
            (==_iff t.mutation_seq seq).0 (guard-eq-ok _ _ n) ∙ e,
            w.0,
            valid,
            evicted,
            rest.journaled,
          );
          sizes = (
            subst (λ i. HasSizes d (t.added.episode_id, (i, t.added.estimated_bytes))) same
                (same_sizes_sound d t.added.episode_id c t.added.estimated_bytes
                  (guard-eq-ok _ _ z)),
            rest.sizes,
          );
          manifest = rest.manifest ∙ ap (keep cap_t cap_b) split;
        }
