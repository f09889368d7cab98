-- ===== src/Store/Stamps.antt =====
-- What the records of a store say of its episodes: every live or journaled episode has the record of its
-- fingerprint and sizes. A commit keeps this, where the digest has its fixed size.
use rllib_async_runtime.Common.{
  ℕ, ◌<◌, ◌≡◌, refl, sym, ap, ◌∙◌, String, str_eq, eq_iff, false, some, [], ◌∷◌, List, length, All,
  All-append, All-append_right, Result, ok, eq_refl, Bool-cases, inl, inr,
}
use rllib_async_runtime.Dict.{Dict, get, contains, put}
use rllib_async_runtime.Dict.Laws.{get-put, put_new, contains-map, contains-get}
use rllib_async_runtime.Fifo.{is_over}
use rllib_async_runtime.Fifo.Laws.{victims-append-survivors}
use rllib_async_runtime.Episode.Payload.{Bytes}
use rllib_async_runtime.Episode.Envelope.{EpisodeEnvelope, IsEnvelope}
use rllib_async_runtime.Episode.Codec.{EpisodeCodec, count_of, count_of_pos}
use rllib_async_runtime.Replay.{ReplayTransaction, CommitAck}
use rllib_async_runtime.Store.{EpisodeStore, EpisodeRecord}
use rllib_async_runtime.Store.Commit.{publish, commit_episode}
use rllib_async_runtime.Store.Invariant.{record_item, history_of, Inv}
use rllib_async_runtime.Store.Evict.{entry_transitions, entry_bytes, kept, gone}
use rllib_async_runtime.Store.Prepare.{transaction, compacted, episodes_after}
use rllib_async_runtime.Store.Preserve.{published}
use rllib_async_runtime.Store.Outcome.{Outcome, rejected, repeated, new, outcome}
use rllib_async_runtime.Store.State.{digest_size}

-- A record under its ID, as a commit within the capacities writes it.
pub record IsStamp (cap_t cap_b : ℕ) (x : String × EpisodeRecord) : Type 0 where
  pub named : str_eq x.0 "" ≡ false
  pub digest : length x.1.fingerprint ≡ digest_size
  pub counted : 0 < x.1.transition_count
  pub sized : 0 < x.1.estimated_bytes
  pub fits : is_over cap_t cap_b x.1.transition_count x.1.estimated_bytes ≡ false

module _ (codec : EpisodeCodec) (fingerprint : EpisodeEnvelope → Bytes) where
  abbrev pub stamp : EpisodeEnvelope → EpisodeRecord
  stamp e = record {
    fingerprint = fingerprint e;
    transition_count = count_of codec e;
    estimated_bytes = e.estimated_bytes;
  }

  abbrev pub Stamped : Dict EpisodeRecord → EpisodeEnvelope → Type 0
  Stamped d e = get d e.episode_id ≡ some (stamp e)

  pub record IsStamped (s : EpisodeStore) : Type 0 where
    pub records : All (IsStamp s.capacity_transitions s.capacity_bytes) s.episode_records
    pub live : All (λ (x : String × EpisodeEnvelope). Stamped s.episode_records x.1) s.episodes
    pub journaled : All (λ (t : ReplayTransaction). Stamped s.episode_records t.added) s.journal

  -- A record for a new ID changes none of the others.
  Stamped-put :
      (d : Dict EpisodeRecord) (e f : EpisodeEnvelope) (r : EpisodeRecord)
      → contains d e.episode_id ≡ false
      → Stamped d f
      → Stamped (put d e.episode_id r) f
  Stamped-put d e f r fresh h = elim (Bool-cases (str_eq e.episode_id f.episode_id)) [
    | inl q ↦
        let same : e.episode_id ≡ f.episode_id = (eq_iff e.episode_id f.episode_id).0 q in
        let there = contains-get d f.episode_id (stamp f) h in
        absurd (cc (ap (contains d) same, fresh, there))
    | inr q ↦ get-put d e.episode_id f.episode_id r ∙ rw q h
  ]

  module _ (digest : (e : EpisodeEnvelope) → length (fingerprint e) ≡ digest_size)
      (s : EpisodeStore) (h : Inv codec s) (e : EpisodeEnvelope) (w : IsEnvelope e) where
    All-put :
        {A : Type 0} (episode : A → EpisodeEnvelope) (r : EpisodeRecord) (xs : List A)
        → contains s.episode_records e.episode_id ≡ false
        → All (λ x. Stamped s.episode_records (episode x)) xs
        → All (λ x. Stamped (put s.episode_records e.episode_id r) (episode x)) xs
    All-put episode r [] fresh a = tt
    All-put episode r (x ∷ xs) fresh a =
        (Stamped-put s.episode_records e (episode x) r fresh a.0, All-put episode r xs fresh a.1)

    module _ (v : codec.validate e ≡ ok tt)
        (f : is_over s.capacity_transitions s.capacity_bytes (count_of codec e) e.estimated_bytes
          ≡ false)
        (fresh : contains (history_of s) e.episode_id ≡ false) where
      unrecorded : contains s.episode_records e.episode_id ≡ false
      unrecorded = sym (contains-map record_item (λ x. refl) s.episode_records e.episode_id) ∙ fresh

      Stamped-new : Stamped (put s.episode_records e.episode_id (stamp e)) e
      Stamped-new =
          get-put s.episode_records e.episode_id e.episode_id (stamp e) ∙ rw (eq_refl e.episode_id)

      published-IsStamped : IsStamped s → IsStamped (published codec fingerprint s h e w v fresh)
      unfolding publish
      published-IsStamped a =
          let d = put s.episode_records e.episode_id (stamp e) in
          let l = episodes_after codec s h.retains h.counts h.journals e w v fresh h.journaling in
          let t = transaction codec s h.retains h.counts h.journals e w v fresh h.journaling in
          let c = compacted codec s h.retains h.counts h.journals e w v fresh h.journaling in
          record {
            records = rw (put_new s.episode_records e.episode_id (stamp e) unrecorded) (
                All-append (IsStamp s.capacity_transitions s.capacity_bytes) s.episode_records
                  ((e.episode_id, stamp e) ∷ []) a.records
                  (
                    record {
                      named = w.episode_named;
                      digest = digest e;
                      counted = count_of_pos codec w v;
                      sized = w.sized;
                      fits = f;
                    },
                    tt,
                  ));
            live =
                All-append_right (λ (x : String × EpisodeEnvelope). Stamped d x.1)
                  (gone codec s.capacity_transitions s.capacity_bytes l)
                  (kept codec s.capacity_transitions s.capacity_bytes l)
                  (rw
                    (victims-append-survivors (entry_transitions codec) (entry_bytes codec)
                      s.capacity_transitions s.capacity_bytes l)
                    (All-append (λ (x : String × EpisodeEnvelope). Stamped d x.1) s.episodes
                      ((e.episode_id, e) ∷ [])
                      (All-put (λ x. x.1) (stamp e) s.episodes unrecorded a.live)
                      (Stamped-new, tt)));
            journaled =
                All-append_right (λ (u : ReplayTransaction). Stamped d u.added) c.lost c.journal
                  (rw (← c.suffix) (
                    All-append (λ (u : ReplayTransaction). Stamped d u.added) s.journal (t ∷ [])
                      (All-put (λ (u : ReplayTransaction). u.added) (stamp e) s.journal unrecorded
                        a.journaled)
                      (Stamped-new, tt)));
          }

    Outcome-IsStamped :
        {o : Result CommitAck × EpisodeStore}
        → IsStamped s
        → Outcome codec fingerprint s h e w o
        → IsStamped o.1
    Outcome-IsStamped a (rejected error c r p) =
        rw p (record { records = a.records; live = a.live; journaled = a.journaled })
    Outcome-IsStamped a (repeated v f known g b p) =
        rw p (record { records = a.records; live = a.live; journaled = a.journaled })
    Outcome-IsStamped a (new v f fresh p) =
        let n = published-IsStamped v f fresh a in
        rw p (record { records = n.records; live = n.live; journaled = n.journaled })

    -- Where the fingerprint has the digest's size: from a store that satisfies the invariant and whose
    -- live and journaled episodes have the records of their fingerprints and sizes, a commit of any
    -- envelope, whether it returns or raises, leaves a store whose episodes have them.
    pub commit_episode-IsStamped : IsStamped s → IsStamped (commit_episode codec fingerprint s e).1
    commit_episode-IsStamped a = Outcome-IsStamped a (outcome codec fingerprint s h e w)
