-- ===== src/View/Numbering.antt =====
-- The sequence numbers of transactions: consecutive in a journal and in whatever a view may apply, so
-- a cursor splits a journal in two.
use rllib_async_runtime.Common.{
  ℕ, suc, ◌+◌, ◌≤◌, ◌<◌, ◌≡◌, refl, ap, ◌∙◌, Bool, true, false, List, [], ◌∷◌, ◌++◌, length, arith,
  ltb, ◌==◌, ==_iff, length-append, inl, inr, ok, guard, >>=-eq-ok, guard-eq-ok, ◌&&◌, subst,
  Bool-cases,
}
use rllib_async_runtime.Dict.{Dict}
use rllib_async_runtime.Episode.Envelope.{EpisodeEnvelope}
use rllib_async_runtime.Episode.Codec.{EpisodeCodec}
use rllib_async_runtime.Replay.{ReplayTransaction, transaction_bytes}
use rllib_async_runtime.Retention.{Manifest}
use rllib_async_runtime.Store.{EpisodeStore}
use rllib_async_runtime.Store.Delta.{pending_after, select_within, last_seq, cursor_after}
use rllib_async_runtime.Store.Invariant.{Journaled, item}
use rllib_async_runtime.View.{apply_transaction, apply_transactions}

abbrev pub Numbered : ℕ → List ReplayTransaction → Type 0
Numbered n [] = Unit
Numbered n (t ∷ ts) = (t.mutation_seq ≡ suc n) × Numbered (suc n) ts

pub Journaled-Numbered :
    (codec : EpisodeCodec) (cap_t cap_b : ℕ) (m : Manifest) (ts : List ReplayTransaction) (n : ℕ)
    → length m ≡ n
    → Journaled codec cap_t cap_b m ts
    → Numbered n ts
Journaled-Numbered codec cap_t cap_b m [] n l j = tt
Journaled-Numbered codec cap_t cap_b m (t ∷ ts) n l j = (
  omega (arith, j.0, l),
  Journaled-Numbered codec cap_t cap_b (m ++ item codec t.added ∷ []) ts (suc n)
      (omega (arith, l, length-append {0} m (item codec t.added ∷ []))) j.4,
)

pub Numbered-append_left :
    (n : ℕ) (ts us : List ReplayTransaction) → Numbered n (ts ++ us) → Numbered n ts
Numbered-append_left n [] us h = tt
Numbered-append_left n (t ∷ ts) us h = (h.0, Numbered-append_left (suc n) ts us h.1)

pub apply_transactions-Numbered :
    (codec : EpisodeCodec) (ts : List ReplayTransaction) (d : Dict EpisodeEnvelope) (n : ℕ)
    → {r : Dict EpisodeEnvelope × ℕ} → apply_transactions codec d n ts ≡ ok r
    → Numbered n ts
unfolding apply_transactions apply_transaction
apply_transactions-Numbered codec [] d n p = tt
apply_transactions-Numbered codec (t ∷ ts) d n p =
    let (d1, p1, p2) = >>=-eq-ok (apply_transaction codec d n t) _ p in
    let (u, q1, q2) = >>=-eq-ok (guard (t.mutation_seq == n + 1) _) _ p1 in
    let seq = (==_iff t.mutation_seq (n + 1)).0 (guard-eq-ok (t.mutation_seq == n + 1) _ q1) in
    (
      omega (arith, seq),
      subst (λ k. Numbered k ts) (omega arith) (apply_transactions-Numbered codec ts d1 (n + 1) p2),
    )

-- What is at or below the cursor is not pending, what is above it is.
pub pending_after_old :
    (n m : ℕ) (xs ys : List ReplayTransaction)
    → Numbered m xs
    → m + length xs ≤ n
    → pending_after n (xs ++ ys) ≡ pending_after n ys
unfolding pending_after
pending_after_old n m [] ys h l = refl
pending_after_old n m (x ∷ xs) ys h l =
    ground (arith, h.0, pending_after_old n (suc m) xs ys h.1 (omega arith))

pub pending_after_new :
    (n m : ℕ) (ys : List ReplayTransaction) → Numbered m ys → n ≤ m → pending_after n ys ≡ ys
unfolding pending_after
pending_after_new n m [] h l = refl
pending_after_new n m (y ∷ ys) h l =
    ground (arith, h.0, pending_after_new n (suc m) ys h.1 (omega arith))

-- The selection for a delta is a prefix of what is pending.
pub select_within_prefix :
    (max_bytes : ℕ) (started : Bool) (bytes : ℕ) (ts : List ReplayTransaction)
    → (rest : List ReplayTransaction) × (ts ≡ select_within max_bytes started bytes ts ++ rest)
unfolding select_within
select_within_prefix max_bytes started bytes [] = ([], refl)
select_within_prefix max_bytes started bytes (t ∷ ts) =
    let (rest, p) = select_within_prefix max_bytes true (bytes + transaction_bytes t) ts in
    elim (Bool-cases (started && ltb max_bytes (bytes + transaction_bytes t))) [
      | inl e ↦ (t ∷ ts, rw e)
      | inr e ↦ (rest, rw e (ap (◌∷◌ t) p))
    ]

-- The first pending transaction is always selected.
pub select_within_first :
    (max_bytes : ℕ) (ts : List ReplayTransaction)
    → 0 < length ts
    → 0 < length (select_within max_bytes false 0 ts)
unfolding select_within
select_within_first max_bytes [] h = h
select_within_first max_bytes (t ∷ ts) h = omega arith

last_seq_lem : (n : ℕ) (ts : List ReplayTransaction) → Numbered n ts → last_seq n ts ≡ n + length ts
unfolding last_seq
last_seq_lem n [] h = omega arith
last_seq_lem n (t ∷ ts) h = rw h.0 (last_seq_lem (suc n) ts h.1 ∙ omega arith)

pub cursor_after_lem :
    (s : EpisodeStore) (n : ℕ) (ts : List ReplayTransaction)
    → Numbered n ts
    → cursor_after s (record { store_generation = s.store_generation; mutation_seq = n }) ts
      ≡ record { store_generation = s.store_generation; mutation_seq = n + length ts }
unfolding cursor_after
cursor_after_lem s n [] h = ground arith
cursor_after_lem s n (t ∷ ts) h = rw (h.0, last_seq_lem (suc n) ts h.1) (ground arith)
