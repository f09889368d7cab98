-- ===== src/Store/Reloaded.antt =====
-- The loops of `EpisodeStore.from_state` over the live episodes and the journal, on those of a store.
use rllib_async_runtime.Common.{
  ℕ, suc, ◌≡◌, refl, sym, ap, ◌∙◌, subst, String, str_eq, false, true, List, [], ◌∷◌, ◌++◌, map,
  append_assoc, append-nil, length, length-append, ◌==◌, ==_refl, arith, All, All-append,
  All-append_left, All-append_right, sum_of, ok,
}
use rllib_async_runtime.Dict.{Dict, contains, put, lookup, keys}
use rllib_async_runtime.Dict.Laws.{Distinct, Distinct-middle, put_new}
use rllib_async_runtime.Fifo.Laws.{survivors_snoc, victims-append-survivors}
use rllib_async_runtime.Episode.Payload.{Bytes}
use rllib_async_runtime.Episode.Envelope.{EpisodeEnvelope}
use rllib_async_runtime.Episode.Codec.{
  EpisodeCodec, count_of, transition_count-count_of, examine_lem,
}
use rllib_async_runtime.Replay.{ReplayTransaction}
use rllib_async_runtime.Retention.{Manifest, apply_retention_transaction}
use rllib_async_runtime.Retention.Laws.{
  transitions_of, bytes_of, keep, dropped, trim_snoc, keep-contains, same_ids_refl,
}
use rllib_async_runtime.Store.{EpisodeRecord}
use rllib_async_runtime.Store.Behaviour.{same_bytes_refl}
use rllib_async_runtime.Store.Invariant.{item, transaction_item, counts_of, IsEntry, Journaled}
use rllib_async_runtime.Store.Loaded.{lookup-middle}
use rllib_async_runtime.Store.Stamps.{stamp, Stamped}
use rllib_async_runtime.Store.Exported.{same_sizes-get}
use rllib_async_runtime.Store.State.{
  Live, add_live, load_live, same_sizes, same_fingerprint, all_named, check_live, replay_journal,
}

abbrev pub Named : String × (ℕ × ℕ) → Type 0
Named x = str_eq x.0 "" ≡ false

all_named-keys : (m : Manifest) → All Named m → all_named (keys m) ≡ true
unfolding all_named
all_named-keys [] a = refl
all_named-keys (x ∷ m) a = rw a.0 (all_named-keys m a.1)

module _ (codec : EpisodeCodec) where
  -- The loop's locals after the entries of a dictionary.
  abbrev pub live_of : Live → Dict EpisodeEnvelope → Live
  live_of l [] = l
  live_of l ((k, e) ∷ d) = live_of (add_live l e (count_of codec e)) d

  pub load_live_entries :
      (l : Live) (d : Dict EpisodeEnvelope)
      → Distinct (l.episodes ++ d)
      → All (IsEntry codec) d
      → (load_live codec (map (λ x. x.1) d) l ≡ ok (live_of l d))
        × ((live_of l d).episodes ≡ l.episodes ++ d)
  unfolding load_live
  load_live_entries l [] h a = (refl, sym (append-nil l.episodes))
  load_live_entries l ((k, e) ∷ d) h a =
      let named : (k, e) ≡ (e.episode_id, e) = ap (λ j. (j, e)) a.0.named in
      let h' : Distinct (l.episodes ++ (e.episode_id, e) ∷ d) =
        subst (λ x. Distinct (l.episodes ++ x ∷ d)) named h in
      let fresh : contains l.episodes e.episode_id ≡ false =
        Distinct-middle l.episodes d e.episode_id e h' in
      let split : (l.episodes ++ (e.episode_id, e) ∷ []) ++ d
          ≡ l.episodes ++ (e.episode_id, e) ∷ d =
        append_assoc l.episodes ((e.episode_id, e) ∷ []) d in
      let grown : put l.episodes e.episode_id e ≡ l.episodes ++ (e.episode_id, e) ∷ [] =
        put_new l.episodes e.episode_id e fresh in
      let rest =
        load_live_entries (add_live l e (count_of codec e)) d
          (subst (λ y. Distinct (y ++ d)) (sym grown) (rw split h')) a.1 in
      (
        rw (examine_lem codec a.0.constructed a.0.valid, fresh) rest.0,
        rest.1 ∙ ap (λ y. y ++ d) grown ∙ split ∙ ap (λ x. l.episodes ++ x ∷ d) (sym named),
      )

  module _ (fingerprint : EpisodeEnvelope → Bytes) where
    Stamped-same_fingerprint :
        (d : Dict EpisodeRecord) (e : EpisodeEnvelope)
        → Stamped codec fingerprint d e
        → same_fingerprint codec fingerprint d e ≡ true
    unfolding same_fingerprint
    Stamped-same_fingerprint d e h = rw (h, same_fingerprint) (same_bytes_refl (fingerprint e))

    Stamped-same_sizes :
        (d : Dict EpisodeRecord) (e : EpisodeEnvelope)
        → Stamped codec fingerprint d e
        → same_sizes d e.episode_id (count_of codec e) e.estimated_bytes ≡ true
    Stamped-same_sizes d e h = same_sizes-get d e.episode_id (stamp codec fingerprint e) h

    pub check_live_entries :
        (records : Dict EpisodeRecord) (earlier : Dict ℕ) (d : Dict EpisodeEnvelope)
        → Distinct (earlier ++ counts_of codec d)
        → All (IsEntry codec) d
        → All (λ (x : String × EpisodeEnvelope). Stamped codec fingerprint records x.1) d
        → check_live codec fingerprint records (earlier ++ counts_of codec d) d ≡ ok tt
    unfolding check_live
    check_live_entries records earlier [] h a s = refl
    check_live_entries records earlier ((k, e) ∷ d) h a s =
        let n = count_of codec e in
        let later = counts_of codec d in
        let split : (earlier ++ (k, n) ∷ []) ++ later ≡ earlier ++ (k, n) ∷ later =
          append_assoc earlier ((k, n) ∷ []) later in
        let found : lookup (earlier ++ (k, n) ∷ later) e.episode_id ≡ ok n =
          subst (λ j. lookup (earlier ++ (k, n) ∷ later) j ≡ ok n) a.0.named
            (lookup-middle earlier later k n h) in
        let rest = check_live_entries records (earlier ++ (k, n) ∷ []) d (rw split h) a.1 s.1 in
        rw (Stamped-same_fingerprint records e s.0, found, Stamped-same_sizes records e s.0)
          (rw split at rest)

    pub replay_journal_entries :
        (cap_t cap_b : ℕ) (d : Dict EpisodeRecord) (m : Manifest) (ts : List ReplayTransaction)
        → Journaled codec cap_t cap_b m ts
        → Distinct (m ++ map (transaction_item codec) ts)
        → All Named (m ++ map (transaction_item codec) ts)
        → All (λ (t : ReplayTransaction). Stamped codec fingerprint d t.added) ts
        → replay_journal codec fingerprint cap_t cap_b d
            (suc (length m))
            (keep cap_t cap_b m)
            (sum_of transitions_of (keep cap_t cap_b m))
            (sum_of bytes_of (keep cap_t cap_b m))
            ts
          ≡ ok (keep cap_t cap_b (m ++ map (transaction_item codec) ts))
    unfolding replay_journal apply_retention_transaction
    replay_journal_entries cap_t cap_b d m [] j h a s = rw (append-nil m)
    replay_journal_entries cap_t cap_b d m (t ∷ ts) (seq, made, valid, evicted, later) h a s =
        let x = item codec t.added in
        let k = keep cap_t cap_b m in
        let items = map (transaction_item codec) ts in
        let split : (m ++ x ∷ []) ++ items ≡ m ++ x ∷ items = append_assoc m (x ∷ []) items in
        let fresh : contains k x.0 ≡ false =
          keep-contains cap_t cap_b m x.0 (Distinct-middle m items x.0 x.1 h) in
        let kept_named : All Named k = All-append_right Named (dropped cap_t cap_b m) k (
          rw (victims-append-survivors transitions_of bytes_of cap_t cap_b m)
            (All-append_left Named m (x ∷ items) a)) in
        let new_named : Named x = (All-append_right Named m (x ∷ items) a).0 in
        let all : All Named (dropped cap_t cap_b (k ++ x ∷ [])) =
          All-append_left Named (dropped cap_t cap_b (k ++ x ∷ [])) (keep cap_t cap_b (k ++ x ∷ []))
            (rw (victims-append-survivors transitions_of bytes_of cap_t cap_b (k ++ x ∷ []))
              (All-append Named k (x ∷ []) kept_named (new_named, tt))) in
        let named : all_named t.evicted_episode_ids ≡ true = rw evicted (all_named-keys _ all) in
        let numbered : (t.mutation_seq == suc (length m)) ≡ true =
          rw seq (==_refl (suc (length m))) in
        let next : suc (length (m ++ x ∷ [])) ≡ suc (suc (length m)) =
          omega (arith, length-append {0} m (x ∷ [])) in
        let rest =
          replay_journal_entries cap_t cap_b d (m ++ x ∷ []) ts later (rw split h) (rw split a)
            s.1 in
        rw
          (
            numbered,
            valid,
            Stamped-same_fingerprint d t.added s.0,
            transition_count-count_of codec made valid,
            Stamped-same_sizes d t.added s.0,
            named,
            fresh,
            trim_snoc cap_t cap_b x k fresh,
            evicted,
            same_ids_refl (keys (dropped cap_t cap_b (k ++ x ∷ []))),
            survivors_snoc transitions_of bytes_of cap_t cap_b m x,
          )
          (rw (split, next) at rest)
