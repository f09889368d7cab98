-- ===== src/Store/Producers.antt =====
-- The counts by producer, through commits and evictions.
use rllib_async_runtime.Common.{
  ℕ, ◌<◌, ◌≡◌, refl, ◌∙◌, String, str_eq, eq_iff, eq_refl, [], ◌∷◌, List, ◌++◌, arith, All, sum_of,
  sum_of-append, if◌then◌else◌, false, Result, ok,
}
use rllib_async_runtime.Dict.{Dict, get, contains, tally, increase, decrease}
use rllib_async_runtime.Dict.Laws.{Distinct, tally-increase}
use rllib_async_runtime.Dict.Counters.{tally-decrease, increase-Distinct, decrease-Distinct}
use rllib_async_runtime.Fifo.Laws.{victims-append-survivors}
use rllib_async_runtime.Episode.Payload.{Bytes}
use rllib_async_runtime.Episode.Envelope.{EpisodeEnvelope, IsEnvelope}
use rllib_async_runtime.Episode.Codec.{EpisodeCodec, count_of}
use rllib_async_runtime.Replay.{CommitAck}
use rllib_async_runtime.Store.{EpisodeStore, Config, empty_store}
use rllib_async_runtime.Store.Commit.{publish, commit_episode}
use rllib_async_runtime.Store.Invariant.{history_of, Inv}
use rllib_async_runtime.Store.Evict.{
  entry_transitions, entry_bytes, gone, less_episodes, less_transitions,
}
use rllib_async_runtime.Store.Prepare.{episodes_after}
use rllib_async_runtime.Store.Preserve.{published}
use rllib_async_runtime.Store.Outcome.{Outcome, rejected, repeated, new, outcome}
use rllib_async_runtime.Store.Behaviour.{commit_episode-Inv}
use rllib_async_runtime.Store.History.{empty_store-Inv, commit_all}

module _ (weight : EpisodeEnvelope → ℕ) where
  abbrev share : String → String × EpisodeEnvelope → ℕ
  share m x = if str_eq x.1.producer_member_id m then weight x.1 else 0

  -- The weight of the episodes of one producer.
  abbrev pub produced : String → Dict EpisodeEnvelope → ℕ
  produced m = sum_of (share m)

  -- The counter has each producer's weight.
  pub record IsTallied (es : Dict EpisodeEnvelope) (c : Dict ℕ) : Type 0 where
    pub distinct : Distinct c
    pub tallied : (m : String) → tally c m ≡ produced m es

  IsTallied-decrease :
      (k : String) (e : EpisodeEnvelope) (es : Dict EpisodeEnvelope) (c : Dict ℕ)
      → IsTallied ((k, e) ∷ es) c
      → IsTallied es (decrease c e.producer_member_id (weight e))
  IsTallied-decrease k e es c h =
      let p = e.producer_member_id in
      record {
        distinct = decrease-Distinct c p (weight e) h.distinct;
        tallied = λ m.
            tally-decrease c p m (weight e) h.distinct
            ∙ ground (arith, h.tallied p, h.tallied m, eq_refl p, eq_iff p m);
      }

  IsTallied-increase :
      (k : String) (e : EpisodeEnvelope) (es : Dict EpisodeEnvelope) (c : Dict ℕ)
      → IsTallied es c
      → IsTallied (es ++ (k, e) ∷ []) (increase c e.producer_member_id (weight e))
  IsTallied-increase k e es c h =
      let p = e.producer_member_id in
      record {
        distinct = increase-Distinct c p (weight e) h.distinct;
        tallied = λ m.
            tally-increase c p m (weight e)
            ∙ ground (
              arith,
              h.tallied p,
              h.tallied m,
              eq_iff p m,
              sum_of-append {0} (share m) es ((k, e) ∷ []),
            );
      }

abbrev pub one_each : EpisodeEnvelope → ℕ
one_each e = 1

module _ (codec : EpisodeCodec) where
  less_episodes-IsTallied :
      (lost es : Dict EpisodeEnvelope) (c : Dict ℕ)
      → IsTallied one_each (lost ++ es) c
      → IsTallied one_each es (less_episodes codec c lost)
  less_episodes-IsTallied [] es c h = h
  less_episodes-IsTallied ((k, e) ∷ lost) es c h =
      less_episodes-IsTallied lost es (decrease c e.producer_member_id 1)
        (IsTallied-decrease one_each k e (lost ++ es) c h)

  less_transitions-IsTallied :
      (lost es : Dict EpisodeEnvelope) (c : Dict ℕ)
      → IsTallied (count_of codec) (lost ++ es) c
      → IsTallied (count_of codec) es (less_transitions codec c lost)
  less_transitions-IsTallied [] es c h = h
  less_transitions-IsTallied ((k, e) ∷ lost) es c h =
      less_transitions-IsTallied lost es (decrease c e.producer_member_id (count_of codec e))
        (IsTallied-decrease (count_of codec) k e (lost ++ es) c h)

  pub record IsProduced (s : EpisodeStore) : Type 0 where
    pub episodes : IsTallied one_each s.episodes s.producer_episode_counts
    pub transitions : IsTallied (count_of codec) s.episodes s.producer_transition_counts

  empty_store-IsProduced : (c : Config) → IsProduced (empty_store c)
  unfolding tally get
  empty_store-IsProduced c = record {
    episodes = record { distinct = tt; tallied = λ n. refl };
    transitions = record { distinct = tt; tallied = λ n. refl };
  }

  module _ (fingerprint : EpisodeEnvelope → Bytes) where
    module _ (s : EpisodeStore) (h : Inv codec s) (e : EpisodeEnvelope) (w : IsEnvelope e) where
      published-IsProduced :
          (v : codec.validate e ≡ ok tt) (fresh : contains (history_of s) e.episode_id ≡ false)
          → IsProduced s
          → IsProduced (published codec fingerprint s h e w v fresh)
      unfolding publish
      published-IsProduced v fresh a =
          let l = episodes_after codec s h.retains h.counts h.journals e w v fresh h.journaling in
          let lost = gone codec s.capacity_transitions s.capacity_bytes l in
          let split =
            victims-append-survivors (entry_transitions codec) (entry_bytes codec)
              s.capacity_transitions s.capacity_bytes l in
          record {
            episodes = less_episodes-IsTallied lost _ _ (
                rw split (
                  IsTallied-increase one_each e.episode_id e s.episodes s.producer_episode_counts
                    a.episodes));
            transitions = less_transitions-IsTallied lost _ _ (
                rw split (
                  IsTallied-increase (count_of codec) e.episode_id e s.episodes
                    s.producer_transition_counts a.transitions));
          }

      Outcome-IsProduced :
          {o : Result CommitAck × EpisodeStore}
          → IsProduced s
          → Outcome codec fingerprint s h e w o
          → IsProduced o.1
      Outcome-IsProduced a (rejected error c r p) =
          rw p (record { episodes = a.episodes; transitions = a.transitions })
      Outcome-IsProduced a (repeated v f known g b p) =
          rw p (record { episodes = a.episodes; transitions = a.transitions })
      Outcome-IsProduced a (new v f fresh p) =
          let n = published-IsProduced v fresh a in
          rw p (record { episodes = n.episodes; transitions = n.transitions })

    commit_all-IsProduced :
        (s : EpisodeStore) (es : List EpisodeEnvelope)
        → Inv codec s
        → IsProduced s
        → All IsEnvelope es
        → IsProduced (commit_all codec fingerprint s es)
    unfolding commit_all
    commit_all-IsProduced s [] h a w = a
    commit_all-IsProduced s (e ∷ es) h a w =
        commit_all-IsProduced (commit_episode codec fingerprint s e).1 es
          (commit_episode-Inv codec fingerprint s e w.0 h)
          (Outcome-IsProduced s h e w.0 a (outcome codec fingerprint s h e w.0)) w.1

    -- From an empty store with a positive journal capacity, after any sequence of commits of
    -- envelopes: for every producer, the counters have the number of its retained episodes and of
    -- their transitions, and no producer stands in a counter twice.
    pub commit_all-produced :
        (c : Config) (es : List EpisodeEnvelope) (m : String)
        → 0 < c.journal_capacity
        → All IsEnvelope es
        → let s = commit_all codec fingerprint (empty_store c) es in
          (tally s.producer_episode_counts m ≡ produced one_each m s.episodes)
          × (tally s.producer_transition_counts m ≡ produced (count_of codec) m s.episodes)
          × Distinct s.producer_episode_counts
          × Distinct s.producer_transition_counts
    commit_all-produced c es m p w =
        let a =
          commit_all-IsProduced (empty_store c) es (empty_store-Inv codec c p)
            (empty_store-IsProduced c) w in
        (a.episodes.tallied m, a.transitions.tallied m, a.episodes.distinct, a.transitions.distinct)
