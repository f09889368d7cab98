-- ===== src/View/Sync.antt =====
-- A view that is behind the store: from where it stands, some pending transactions lead to what the
-- store retains.
use rllib_async_runtime.Common.{
  ℕ, ◌+◌, ◌≡◌, sym, ap, ◌∙◌, false, some, List, [], ◌∷◌, ◌++◌, length, append_assoc, ◌⊎◌, inl, inr,
  Result, ok, ◌>>=◌,
}
use mathlib.Core.List.{tail}
use rllib_async_runtime.Dict.{Dict, contains}
use rllib_async_runtime.Episode.Payload.{Bytes}
use rllib_async_runtime.Episode.Envelope.{EpisodeEnvelope, IsEnvelope}
use rllib_async_runtime.Episode.Codec.{EpisodeCodec}
use rllib_async_runtime.Replay.{ReplayTransaction, CommitAck}
use rllib_async_runtime.Store.{EpisodeStore}
use rllib_async_runtime.Store.Commit.{commit_episode, publish}
use rllib_async_runtime.Store.Invariant.{Inv, history_of}
use rllib_async_runtime.Store.Prepare.{transaction, compacted}
use rllib_async_runtime.Store.Preserve.{published, with_counters}
use rllib_async_runtime.Store.Outcome.{Outcome, rejected, repeated, new, outcome}
use rllib_async_runtime.View.{View, apply_transactions}
use rllib_async_runtime.View.Transactions.{
  apply_transactions-append, apply_transactions_seq, apply_transaction-published,
}

-- `b` is a suffix of `a`.
abbrev pub IsSuffix {ℓ} : {A : Type ℓ} → List A → List A → Type ℓ
IsSuffix {A} b a = (x : List A) × (a ≡ x ++ b)

module _ {ℓ} {A : Type ℓ} where
  -- Of two suffixes of one list, one is a suffix of the other.
  suffixes_meet : (a b c d : List A) → a ++ b ≡ c ++ d → IsSuffix b d ⊎ IsSuffix d b
  suffixes_meet [] b c d p = inr (c, p)
  suffixes_meet (x ∷ a) b [] d p = inl (x ∷ a, sym p)
  suffixes_meet (x ∷ a) b (y ∷ c) d p = suffixes_meet a b c d (ap tail p)

module _ (codec : EpisodeCodec) where
  pub record IsBehind (s : EpisodeStore) (v : View) : Type 0 where
    pub seq : ℕ
    pub standing :
        v.cursor ≡ some (record { store_generation = s.store_generation; mutation_seq = seq })
    pub pending : List ReplayTransaction
    pub catches : apply_transactions codec v.episodes seq pending ≡ ok (s.episodes, s.mutation_seq)
    pub agrees : IsSuffix pending s.journal ⊎ IsSuffix s.journal pending

  -- What a view is behind by, in numbers.
  pub distance :
      (s : EpisodeStore) (v : View) (b : IsBehind s v) → s.mutation_seq ≡ b.seq + length b.pending
  distance s v b = apply_transactions_seq codec b.pending v.episodes b.seq b.catches

  agrees_snoc :
      (j : List ReplayTransaction) (p : List ReplayTransaction) (t : ReplayTransaction)
      → (lost j' : List ReplayTransaction) → j ++ t ∷ [] ≡ lost ++ j'
      → IsSuffix p j ⊎ IsSuffix j p
      → IsSuffix (p ++ t ∷ []) j' ⊎ IsSuffix j' (p ++ t ∷ [])
  agrees_snoc j p t lost j' e (inl (x, q)) =
      suffixes_meet x (p ++ t ∷ []) lost j'
        (sym (append_assoc x p (t ∷ [])) ∙ ap (λ y. y ++ t ∷ []) (sym q) ∙ e)
  agrees_snoc j p t lost j' e (inr (x, q)) = inr (
    x ++ lost,
    ap (λ y. y ++ t ∷ []) q
        ∙ append_assoc x j (t ∷ [])
        ∙ ap (◌++◌ x) e
        ∙ sym (append_assoc x lost j'),
  )

  module _ (fingerprint : EpisodeEnvelope → Bytes) (s : EpisodeStore) (h : Inv codec s)
      (e : EpisodeEnvelope) (w : IsEnvelope e) (v : View) (b : IsBehind s v) where
    behind_published :
        (u : codec.validate e ≡ ok tt) (fresh : contains (history_of s) e.episode_id ≡ false)
        → IsBehind (published codec fingerprint s h e w u fresh) v
    unfolding publish apply_transactions
    behind_published u fresh =
        let t = transaction codec s h.retains h.counts h.journals e w u fresh h.journaling in
        let c = compacted codec s h.retains h.counts h.journals e w u fresh h.journaling in
        let one : apply_transactions codec s.episodes s.mutation_seq (t ∷ [])
            ≡ ok ((published codec fingerprint s h e w u fresh).episodes, s.mutation_seq + 1) =
          rw (apply_transaction-published codec fingerprint s h e w u fresh) in
        record {
          seq = b.seq;
          standing = b.standing;
          pending = b.pending ++ t ∷ [];
          catches =
              apply_transactions-append codec b.pending (t ∷ []) v.episodes b.seq
              ∙ ap
                  (λ (m : Result (Dict EpisodeEnvelope × ℕ)).
                    m >>= λ r. apply_transactions codec r.0 r.1 (t ∷ []))
                  b.catches
              ∙ one;
          agrees = agrees_snoc s.journal b.pending t c.lost c.journal c.suffix b.agrees;
        }

    behind_outcome :
        {o : Result CommitAck × EpisodeStore} → Outcome codec fingerprint s h e w o → IsBehind o.1 v
    behind_outcome (rejected error c r p) = rw p (keep_behind _ _ _ _)
      where
        keep_behind : (a d r c : ℕ) → IsBehind (with_counters s a d r c) v
        keep_behind a d r c = record {
          seq = b.seq;
          standing = b.standing;
          pending = b.pending;
          catches = b.catches;
          agrees = b.agrees;
        }
    behind_outcome (repeated u f known g q p) = rw p (record {
      seq = b.seq;
      standing = b.standing;
      pending = b.pending;
      catches = b.catches;
      agrees = b.agrees;
    })
    behind_outcome (new u f fresh p) =
        let n = behind_published u fresh in
        rw p (record {
          seq = n.seq;
          standing = n.standing;
          pending = n.pending;
          catches = n.catches;
          agrees = n.agrees;
        })

    -- A view that is behind a store is behind it still after any commit.
    pub commit_episode-IsBehind : IsBehind (commit_episode codec fingerprint s e).1 v
    commit_episode-IsBehind = behind_outcome (outcome codec fingerprint s h e w)
