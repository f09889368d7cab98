-- ===== src/View/Transactions.antt =====
-- Applying transactions: in sequence, and one that a commit of the store recorded.
use rllib_async_runtime.Common.{
  ℕ, ◌+◌, ◌≡◌, refl, sym, ap, ◌∙◌, false, List, [], ◌∷◌, ◌++◌, length, arith, ==_refl, Result, ok,
  ◌>>=◌, >>=-eq-ok, ok-injective, subst, >>=_assoc, fun_ext,
}
use rllib_async_runtime.Dict.{Dict, contains, keys}
use rllib_async_runtime.Dict.Laws.{put_new, remove_head, contains_head}
use rllib_async_runtime.Fifo.Laws.{victims-append-survivors}
use rllib_async_runtime.Episode.Payload.{Bytes}
use rllib_async_runtime.Episode.Envelope.{EpisodeEnvelope, IsEnvelope}
use rllib_async_runtime.Episode.Codec.{EpisodeCodec}
use rllib_async_runtime.Replay.{ReplayTransaction}
use rllib_async_runtime.Store.{EpisodeStore}
use rllib_async_runtime.Store.Commit.{publish}
use rllib_async_runtime.Store.Evict.{entry_transitions, entry_bytes, gone, kept}
use rllib_async_runtime.Store.Invariant.{Inv, history_of}
use rllib_async_runtime.Store.Prepare.{transaction, episodes-fresh}
use rllib_async_runtime.Store.Preserve.{published}
use rllib_async_runtime.View.{remove_each, apply_transaction, apply_transactions}

remove_each-append : (d m : Dict EpisodeEnvelope) → remove_each (d ++ m) (keys d) ≡ ok m
unfolding remove_each
remove_each-append [] m = refl
remove_each-append ((k, v) ∷ d) m =
    rw (contains_head (d ++ m) k v, remove_head (d ++ m) k v) (remove_each-append d m)

module _ (codec : EpisodeCodec) where
  pub apply_transactions-append :
      (ts us : List ReplayTransaction) (d : Dict EpisodeEnvelope) (at : ℕ)
      → apply_transactions codec d at (ts ++ us)
        ≡ (apply_transactions codec d at ts >>= λ r. apply_transactions codec r.0 r.1 us)
  unfolding apply_transactions
  apply_transactions-append [] us d at = refl
  apply_transactions-append (t ∷ ts) us d at =
      let m = apply_transaction codec d at t in
      ap (λ (f : Dict EpisodeEnvelope → Result (Dict EpisodeEnvelope × ℕ)). m >>= f)
        (fun_ext λ d'. apply_transactions-append ts us d' (at + 1))
      ∙ sym (>>=_assoc m (λ d'. apply_transactions codec d' (at + 1) ts) _)

  -- A run that succeeds ends as many numbers further as it has transactions.
  pub apply_transactions_seq :
      (ts : List ReplayTransaction) (d : Dict EpisodeEnvelope) (at : ℕ)
      → {d' : Dict EpisodeEnvelope} {n : ℕ} → apply_transactions codec d at ts ≡ ok (d', n)
      → n ≡ at + length ts
  unfolding apply_transactions
  apply_transactions_seq [] d at p = omega (arith, ap (λ x. x.1) (ok-injective p))
  apply_transactions_seq (t ∷ ts) d at p =
      let (d1, p1, p2) = >>=-eq-ok (apply_transaction codec d at t) _ p in
      omega (arith, apply_transactions_seq ts d1 (at + 1) p2)

  module _ (fingerprint : EpisodeEnvelope → Bytes) (s : EpisodeStore) (h : Inv codec s)
      (e : EpisodeEnvelope) (w : IsEnvelope e) (v : codec.validate e ≡ ok tt)
      (fresh : contains (history_of s) e.episode_id ≡ false) where
    -- The transaction that a commit records takes the retained episodes before it to those after it.
    pub apply_transaction-published :
        apply_transaction codec s.episodes s.mutation_seq
          (transaction codec s h.retains h.counts h.journals e w v fresh h.journaling)
        ≡ ok (published codec fingerprint s h e w v fresh).episodes
    unfolding apply_transaction publish
    apply_transaction-published =
        let absent = episodes-fresh codec s h.retains h.counts h.journals e.episode_id fresh in
        let l = s.episodes ++ (e.episode_id, e) ∷ [] in
        let lost = gone codec s.capacity_transitions s.capacity_bytes l in
        let left = kept codec s.capacity_transitions s.capacity_bytes l in
        let removed : remove_each l (keys lost) ≡ ok left =
          subst (λ y. remove_each y (keys lost) ≡ ok left)
            (victims-append-survivors (entry_transitions codec) (entry_bytes codec)
              s.capacity_transitions s.capacity_bytes l)
            (remove_each-append lost left) in
        rw (==_refl (s.mutation_seq + 1), v, absent, put_new s.episodes e.episode_id e absent)
          removed
