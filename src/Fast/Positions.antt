-- ===== src/Fast/Positions.antt =====
-- The positions that `_sample_positions` draws from a view that `_build_view` has built.
use rllib_async_runtime.Common.{
  ℕ, zero, suc, ◌+◌, ◌<◌, ◌≡◌, ◌≢◌, refl, sym, ◌∙◌, subst, List, [], ◌∷◌, ◌++◌, map, length, arith,
  append_assoc, append-nil, Bool-cases, inl, inr, false, ◌==◌, Result, ok, raise, value_error,
  replay_error, guard, >>=-eq-ok, ok-injective, Option,
}
use rllib_async_runtime.Episode.Value.{Value, int, negative, equal_to, other, positive}
use rllib_async_runtime.Sampling.{positions, cumulative}
use rllib_async_runtime.Sampling.Laws.{total_of, AreDrawn, positions_lem}
use rllib_async_runtime.Fast.{EpisodeRecord, MaterializedView, BuildRequest}
use rllib_async_runtime.Fast.Index.{
  ModuleCodec, Building, index_episode_modules, index_records, no_building, module_indices,
  build_view,
}
use rllib_async_runtime.Fast.Sample.{sample_positions}

abbrev pub counts : List EpisodeRecord → List ℕ
counts = map (λ r. r.transition_count)

-- The loop goes on with the cumulative lengths from the total so far.
record Indexed (rs : List EpisodeRecord) (b b' : Building) : Type 0 where
  lengths :
      b'.cumulative_lengths ≡ b.cumulative_lengths ++ cumulative b.total_transitions (counts rs)
  total : b'.total_transitions ≡ b.total_transitions + total_of (counts rs)

index_records-Indexed :
    (modules : Option ModuleCodec) (i : ℕ) (rs : List EpisodeRecord) (b : Building) {b' : Building}
    → index_records modules i rs b ≡ ok b'
    → Indexed rs b b'
unfolding index_records cumulative
index_records-Indexed modules i [] b h =
    subst (Indexed [] b) (ok-injective h)
      (record { lengths = sym (append-nil b.cumulative_lengths); total = omega arith })
index_records-Indexed modules i (r ∷ rs) b h =
    let (m, _, h1) = >>=-eq-ok (index_episode_modules modules r i b.modules) _ h in
    let indexed = index_records-Indexed modules (i + 1) rs _ h1 in
    record {
      lengths = indexed.lengths ∙ append_assoc b.cumulative_lengths _ _;
      total = omega (arith, indexed.total);
    }

-- What a view holds of the lengths of the episodes that it was built of.
pub record IsIndexed (ns : List ℕ) (v : MaterializedView) : Type 0 where
  pub lengths : v.sampling_index.cumulative_lengths ≡ cumulative 0 ns
  pub total : v.sampling_index.total_transitions ≡ total_of ns

pub build_view-IsIndexed :
    (modules : Option ModuleCodec) (request : BuildRequest) {v : MaterializedView}
    → build_view modules request ≡ ok v
    → IsIndexed (counts request.records) v
unfolding build_view
build_view-IsIndexed modules request h =
    let (b, p, h1) = >>=-eq-ok (index_records modules 0 request.records no_building) _ h in
    let (_, _, h2) =
      >>=-eq-ok (guard (b.total_transitions == request.total_transitions) replay_error) _ h1 in
    let (_, _, h3) = >>=-eq-ok (module_indices b.modules _) _ h2 in
    let indexed = index_records-Indexed modules 0 request.records no_building p in
    subst (IsIndexed (counts request.records)) (ok-injective h3)
      (record { lengths = indexed.lengths; total = omega (arith, indexed.total) })

-- What `_sample_positions` answers to a batch size: an error where it is no positive integer, or
-- where no transition is held; else that many positions, the places of the indices drawn.
pub data Answer (rng : ℕ → ℕ → ℕ) (ns : List ℕ) (drawn : ℕ)
    : Value → Result (List (ℕ × ℕ)) → Type 0 where
  malformed : {v : Value} → ((n : ℕ) → v ≢ int (suc n)) → Answer rng ns drawn v (raise value_error)
  empty : {n : ℕ} → total_of ns ≡ 0 → Answer rng ns drawn (int (suc n)) (raise replay_error)
  served :
      {n : ℕ} {ps : List (ℕ × ℕ)}
      → length ps ≡ suc n
      → AreDrawn rng ns drawn ps
      → Answer rng ns drawn (int (suc n)) (ok ps)

module _ (rng : ℕ → ℕ → ℕ) (ns : List ℕ) (v : MaterializedView) (indexed : IsIndexed ns v)
    (draws : (i n : ℕ) → 0 < n → rng i n < n) (drawn : ℕ) where
  sample_positions-empty :
      (n : ℕ) → total_of ns ≡ 0 → sample_positions rng drawn v (int (suc n)) ≡ raise replay_error
  unfolding sample_positions positive
  sample_positions-empty n z = rw (indexed.total, z) refl

  sample_positions-some :
      (n : ℕ)
      → 0 < total_of ns
      → sample_positions rng drawn v (int (suc n))
        ≡ positions rng (cumulative 0 ns) (total_of ns) (suc n) drawn
  unfolding sample_positions positive
  sample_positions-some n p =
      let nonzero : (total_of ns == 0) ≡ false = ground (arith, p) in
      rw (indexed.total, indexed.lengths, nonzero)

  Answer-positive :
      (n : ℕ) → Answer rng ns drawn (int (suc n)) (sample_positions rng drawn v (int (suc n)))
  Answer-positive n = elim (Bool-cases (total_of ns == 0)) [
    | inl z ↦
        let zero_total : total_of ns ≡ 0 = ground (arith, z) in
        rw (sample_positions-empty n zero_total) (empty zero_total)
    | inr p ↦
        let some_total : 0 < total_of ns = ground (arith, p) in
        let (ps, q, l, placed) = positions_lem rng ns (suc n) drawn some_total draws in
        rw (sample_positions-some n some_total ∙ q) (served l placed)
  ]

  Answer-sample_positions :
      (batch_size : Value)
      → Answer rng ns drawn batch_size (sample_positions rng drawn v batch_size)
  unfolding sample_positions positive
  Answer-sample_positions (int zero) = malformed (λ n e. cc)
  Answer-sample_positions (int (suc n)) = Answer-positive n
  Answer-sample_positions (negative n) = malformed (λ m e. cc)
  Answer-sample_positions (equal_to n) = malformed (λ m e. cc)
  Answer-sample_positions other = malformed (λ n e. cc)

-- Where the generator's answers are in range, and for any value given as the batch size: from a view
-- that was built of a request, the sampling refuses a value that is no positive integer, then a
-- request without a transition; else it answers that many positions, the places of the indices drawn
-- in the episodes of the request.
pub sample_positions_lem :
    (modules : Option ModuleCodec) (request : BuildRequest) (v : MaterializedView) (rng : ℕ → ℕ → ℕ)
    (drawn : ℕ) (batch_size : Value)
    → build_view modules request ≡ ok v
    → ((i n : ℕ) → 0 < n → rng i n < n)
    → Answer rng (counts request.records) drawn batch_size (sample_positions rng drawn v batch_size)
sample_positions_lem modules request v rng drawn batch_size h draws =
    Answer-sample_positions rng (counts request.records) v (build_view-IsIndexed modules request h)
      draws drawn batch_size
