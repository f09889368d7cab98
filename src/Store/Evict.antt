-- ===== src/Store/Evict.antt =====
-- The eviction loop of `commit_episode` against the abstract policy.
use rllib_async_runtime.Common.{
  ℕ, ◌+◌, ◌-◌, String, ◌≡◌, refl, sym, ap, ◌∙◌, true, [], ◌∷◌, arith, sum_of, Bool-cases, inl, inr,
  ok, ◌>>=◌,
}
use rllib_async_runtime.Dict.{Dict, keys, decrease}
use rllib_async_runtime.Dict.Laws.{lookup_head, remove_head}
use rllib_async_runtime.Fifo.{is_over, exceeds, survivors, victims}
use rllib_async_runtime.Fifo.Laws.{survivors-map, victims-map}
use rllib_async_runtime.Episode.Envelope.{EpisodeEnvelope}
use rllib_async_runtime.Episode.Codec.{EpisodeCodec, count_of}
use rllib_async_runtime.Retention.Laws.{transitions_of, bytes_of, keep, dropped}
use rllib_async_runtime.Store.Commit.{Retained, evict_episodes}
use rllib_async_runtime.Store.Invariant.{entry_item, manifest_of, counts_of}

module _ (codec : EpisodeCodec) where
  abbrev pub entry_transitions : String × EpisodeEnvelope → ℕ
  entry_transitions x = count_of codec x.1

  abbrev pub entry_bytes : String × EpisodeEnvelope → ℕ
  entry_bytes x = x.1.estimated_bytes

  -- The producer counters after the episodes in the list were taken out.
  abbrev pub less_episodes : Dict ℕ → Dict EpisodeEnvelope → Dict ℕ
  less_episodes c [] = c
  less_episodes c ((k, e) ∷ es) = less_episodes (decrease c e.producer_member_id 1) es

  abbrev pub less_transitions : Dict ℕ → Dict EpisodeEnvelope → Dict ℕ
  less_transitions c [] = c
  less_transitions c ((k, e) ∷ es) =
      less_transitions (decrease c e.producer_member_id (count_of codec e)) es

  module _ (cap_t cap_b : ℕ) where
    abbrev pub kept : Dict EpisodeEnvelope → Dict EpisodeEnvelope
    kept = survivors entry_transitions entry_bytes cap_t cap_b

    abbrev pub gone : Dict EpisodeEnvelope → Dict EpisodeEnvelope
    gone = victims entry_transitions entry_bytes cap_t cap_b

    abbrev pub retained_of : Dict EpisodeEnvelope → Dict ℕ → Dict ℕ → Retained
    retained_of es by_episode by_transition = record {
      episodes = kept es;
      transition_counts = counts_of codec (kept es);
      total_transitions = sum_of entry_transitions (kept es);
      total_estimated_bytes = sum_of entry_bytes (kept es);
      producer_episode_counts = less_episodes by_episode (gone es);
      producer_transition_counts = less_transitions by_transition (gone es);
      evicted_episode_ids = keys (gone es);
    }

    -- One turn of the loop.
    evict_turn :
        (k : String) (e : EpisodeEnvelope) (es : Dict EpisodeEnvelope) (n : ℕ) (counts : Dict ℕ)
        → (total_t total_b : ℕ) (p q : Dict ℕ) → is_over cap_t cap_b total_t total_b ≡ true
        → evict_episodes cap_t cap_b ((k, e) ∷ es) ((k, n) ∷ counts) total_t total_b p q ≡ (do
          r ←
              evict_episodes cap_t cap_b es counts
                (total_t - n)
                (total_b - e.estimated_bytes)
                (decrease p e.producer_member_id 1)
                (decrease q e.producer_member_id n)
          ok (record r { evicted_episode_ids = k ∷ r.evicted_episode_ids }))
    unfolding evict_episodes
    evict_turn k e es n counts total_t total_b p q o =
        rw (o, lookup_head counts k n, remove_head counts k n)

    pub evict_episodes_lem :
        (es : Dict EpisodeEnvelope) (by_episode by_transition : Dict ℕ)
        → evict_episodes cap_t cap_b es
            (counts_of codec es)
            (sum_of entry_transitions es)
            (sum_of entry_bytes es)
            by_episode
            by_transition
          ≡ ok (retained_of es by_episode by_transition)
    unfolding evict_episodes survivors victims
    evict_episodes_lem [] p q = ground arith
    evict_episodes_lem ((k, e) ∷ es) p q =
        let n = count_of codec e in
        let cancel_t : n + sum_of entry_transitions es - n ≡ sum_of entry_transitions es =
          omega arith in
        let cancel_b : e.estimated_bytes + sum_of entry_bytes es - e.estimated_bytes
            ≡ sum_of entry_bytes es =
          omega arith in
        elim (Bool-cases (exceeds entry_transitions entry_bytes cap_t cap_b ((k, e) ∷ es))) [
          | inl o ↦
              evict_turn k e es n (counts_of codec es) _ _ p q o
              ∙ rw (
                cancel_t,
                cancel_b,
                o,
                evict_episodes_lem es (decrease p e.producer_member_id 1)
                    (decrease q e.producer_member_id n),
              )
          | inr o ↦ rw o
        ]

    pub manifest_of-kept :
        (es : Dict EpisodeEnvelope)
        → manifest_of codec (kept es) ≡ keep cap_t cap_b (manifest_of codec es)
    manifest_of-kept es = sym (
        survivors-map (entry_item codec) entry_transitions entry_bytes transitions_of bytes_of
          (λ x. refl) (λ x. refl) cap_t cap_b es)

    keys-manifest_of : (es : Dict EpisodeEnvelope) → keys (manifest_of codec es) ≡ keys es
    keys-manifest_of [] = refl
    keys-manifest_of ((k, e) ∷ es) = ap (◌∷◌ k) (keys-manifest_of es)

    pub keys-gone :
        (es : Dict EpisodeEnvelope)
        → keys (gone es) ≡ keys (dropped cap_t cap_b (manifest_of codec es))
    keys-gone es =
        rw
          (victims-map (entry_item codec) entry_transitions entry_bytes transitions_of bytes_of
            (λ x. refl) (λ x. refl) cap_t cap_b es)
          (sym (keys-manifest_of (gone es)))
