-- ===== src/View/Coordinates.antt =====
-- The coordinates that `ReferenceFastReplay.sample_coordinates` draws.
use rllib_async_runtime.Common.{
  ℕ, zero, suc, ◌+◌, ◌<◌, ◌≡◌, refl, sym, ap, ◌∙◌, subst, String, List, [], ◌∷◌, ◌++◌, map, length,
  All, Result, ok, ◌>>=◌, for_each, arith, ltb, ◌==◌, ok-injective, false,
}
use rllib_async_runtime.Dict.{Dict, keys}
use rllib_async_runtime.Episode.Envelope.{EpisodeEnvelope}
use rllib_async_runtime.Episode.Codec.{
  EpisodeCodec, count_of, transition_count-count_of, count_of_pos,
}
use rllib_async_runtime.Episode.Flat.{at_index}
use rllib_async_runtime.Sampling.{cumulative}
use rllib_async_runtime.Sampling.Laws.{total_of, AreDrawn, positions_lem}
use rllib_async_runtime.Store.Invariant.{IsEntry}
use rllib_async_runtime.View.{View}
use rllib_async_runtime.View.Sampling.{Lengths, measure, coordinates, sample_coordinates}

module _ (codec : EpisodeCodec) where
  abbrev pub counts : Dict EpisodeEnvelope → List ℕ
  counts = map (λ x. count_of codec x.1)

  abbrev measured : ℕ → Dict EpisodeEnvelope → Lengths
  measured base eps = record {
    episode_ids = keys eps;
    cumulative_lengths = cumulative base (counts eps);
    total_transitions = base + total_of (counts eps);
  }

  measure_lem :
      (base : ℕ) (eps : Dict EpisodeEnvelope)
      → All (IsEntry codec) eps
      → measure codec base eps ≡ ok (measured base eps)
  unfolding measure cumulative
  measure_lem base [] a = ground arith
  measure_lem base ((k, e) ∷ eps) a =
      rw
        (
          transition_count-count_of codec a.0.constructed a.0.valid,
          measure_lem (base + count_of codec e) eps a.1,
        )
        (ground arith)

  -- The episode is one of the view's, and the index is below its count of transitions.
  pub record IsCoordinate (eps : Dict EpisodeEnvelope) (c : String × ℕ) : Type 0 where
    pub before : Dict EpisodeEnvelope
    pub episode : EpisodeEnvelope
    pub after : Dict EpisodeEnvelope
    pub present : eps ≡ before ++ (c.0, episode) ∷ after
    pub inside : c.1 < count_of codec episode

  entry_at :
      (eps : Dict EpisodeEnvelope) (i n j : ℕ)
      → at_index (counts eps) i ≡ ok n
      → j < n
      → (k : String) × (at_index (keys eps) i ≡ ok k) × IsCoordinate eps (k, j)
  unfolding at_index
  entry_at [] i n j p l = cc
  entry_at ((k, e) ∷ eps) zero n j p l = (
    k,
    refl,
    record {
      before = [];
      episode = e;
      after = eps;
      present = refl;
      inside = subst (λ m. j < m) (sym (ok-injective p)) l;
    },
  )
  entry_at ((k, e) ∷ eps) (suc i) n j p l =
      let (k', q, c) = entry_at eps i n j p l in
      (
        k',
        q,
        record {
          before = (k, e) ∷ c.before;
          episode = c.episode;
          after = c.after;
          present = ap (λ xs. (k, e) ∷ xs) c.present;
          inside = c.inside;
        },
      )

  module _ (rng : ℕ → ℕ → ℕ) (eps : Dict EpisodeEnvelope) where
    abbrev name_at : ℕ × ℕ → Result (String × ℕ)
    name_at p = do k ← at_index (keys eps) p.0; ok (k, p.1)

    named-All :
        (drawn : ℕ) (ps : List (ℕ × ℕ))
        → AreDrawn rng (counts eps) drawn ps
        → (cs : List (String × ℕ)) × (for_each name_at ps ≡ ok cs)
          × (length cs ≡ length ps)
          × All (IsCoordinate eps) cs
    unfolding for_each
    named-All drawn [] h = ([], refl, refl, tt)
    named-All drawn (p ∷ ps) h =
        let (k, q, c) = entry_at eps p.0 h.0.count p.1 h.0.at h.0.inside in
        let (cs, r, l, all) = named-All (suc drawn) ps h.1 in
        ((k, p.1) ∷ cs, rw (q, r), ap suc l, (c, all))

  total_pos :
      (eps : Dict EpisodeEnvelope)
      → 0 < length eps
      → All (IsEntry codec) eps
      → 0 < total_of (counts eps)
  total_pos [] l a = absurd (omega (arith, l))
  total_pos ((k, e) ∷ eps) l a = omega (arith, count_of_pos codec a.0.constructed a.0.valid)

  -- From a view of valid episodes that is not empty, by a generator whose answers are in range, each
  -- positive batch size is served by that many coordinates, each of an episode of the view and below
  -- its count of transitions.
  pub sample_coordinates_lem :
      (rng : ℕ → ℕ → ℕ) (drawn : ℕ) (v : View) (batch_size : ℕ)
      → 0 < batch_size
      → 0 < length v.episodes
      → All (IsEntry codec) v.episodes
      → ((i n : ℕ) → 0 < n → rng i n < n)
      → (cs : List (String × ℕ)) × (sample_coordinates rng drawn codec v batch_size ≡ ok cs)
        × (length cs ≡ batch_size)
        × All (IsCoordinate v.episodes) cs
  unfolding sample_coordinates coordinates
  sample_coordinates_lem rng drawn v n pos some_episode a draws =
      let total = total_pos v.episodes some_episode a in
      let (ps, p, l, h) = positions_lem rng (counts v.episodes) n drawn total draws in
      let (cs, q, m, all) = named-All rng v.episodes drawn ps h in
      let batch : ltb n 1 ≡ false = ground arith in
      let full : (total_of (counts v.episodes) == 0) ≡ false = ground (arith, total) in
      let start : measure codec 0 v.episodes
          ≡ ok (record {
            episode_ids = keys v.episodes;
            cumulative_lengths = cumulative 0 (counts v.episodes);
            total_transitions = total_of (counts v.episodes);
          }) =
        measure_lem 0 v.episodes a ∙ ground arith in
      (cs, rw (batch, start) (rw full (rw p q)), m ∙ l, all)
