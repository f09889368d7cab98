-- ===== src/Sampling/Laws.antt =====
-- Where a flat index falls: the arithmetic of the cumulative lengths.
use rllib_async_runtime.Common.{
  ℕ, zero, suc, ◌+◌, ◌-◌, ◌≤◌, ◌<◌, ◌≡◌, refl, ap, ◌∙◌, List, [], ◌∷◌, arith, leb, Bool-cases, inl,
  inr, take, length, sum_of, Result, ok,
}
use rllib_async_runtime.Episode.Flat.{at_index}
use rllib_async_runtime.Sampling.{bisect_right, episode_start, position, positions, cumulative}

abbrev pub total_of : List ℕ → ℕ
total_of = sum_of (λ n. n)

-- `(i, j)` is the place of the flat index `x`: episode `i` has more than `j` transitions, and those
-- before it make up the rest of `x`.
pub record IsPlace (ns : List ℕ) (x i j : ℕ) : Type 0 where
  pub count : ℕ
  pub at : at_index ns i ≡ ok count
  pub inside : j < count
  pub flat : x ≡ total_of (take i ns) + j

-- `episode_start` in cumulative lengths that continue a total.
abbrev start_from : ℕ → List ℕ → ℕ → Result ℕ
start_from base cs zero = ok base
start_from base cs (suc i) = at_index cs i

start_from-suc :
    (base c : ℕ) (cs : List ℕ) (i : ℕ) → start_from base (c ∷ cs) (suc i) ≡ start_from c cs i
unfolding at_index
start_from-suc base c cs zero = refl
start_from-suc base c cs (suc i) = refl

record Found (x base : ℕ) (ns : List ℕ) : Type 0 where
  index : ℕ
  start : ℕ
  count : ℕ
  found : bisect_right (cumulative base ns) x ≡ index
  starts : start_from base (cumulative base ns) index ≡ ok start
  at : at_index ns index ≡ ok count
  below : start ≤ x
  above : x < start + count
  before : start ≡ base + total_of (take index ns)

find : (x base : ℕ) (ns : List ℕ) → base ≤ x → x < base + total_of ns → Found x base ns
unfolding bisect_right cumulative at_index
find x base [] l u = absurd (omega arith)
find x base (n ∷ ns) l u = elim (Bool-cases (leb (base + n) x)) [
  | inl p ↦
      let r = find x (base + n) ns (ground arith) (omega arith) in
      record {
        index = suc r.index;
        start = r.start;
        count = r.count;
        found = rw (p, r.found);
        starts = start_from-suc base (base + n) (cumulative (base + n) ns) r.index ∙ r.starts;
        at = r.at;
        below = r.below;
        above = r.above;
        before = omega (arith, r.before);
      }
  | inr p ↦ record {
    index = 0;
    start = base;
    count = n;
    found = rw p;
    starts = refl;
    at = refl;
    below = l;
    above = ground arith;
    before = omega arith;
  }
]

start_from_zero : (cs : List ℕ) (i : ℕ) → episode_start cs i ≡ start_from 0 cs i
start_from_zero cs zero = refl
start_from_zero cs (suc i) = refl

-- A flat index below the total falls on a place, and `position` finds it.
pub position_lem :
    (ns : List ℕ) (x : ℕ)
    → x < total_of ns
    → (i : ℕ) × (j : ℕ) × (position (cumulative 0 ns) x ≡ ok (i, j)) × IsPlace ns x i j
unfolding position
position_lem ns x u =
    let r = find x 0 ns (omega arith) (omega arith) in
    (
      r.index,
      x - r.start,
      rw (r.found, start_from_zero (cumulative 0 ns) r.index, r.starts),
      record {
        count = r.count;
        at = r.at;
        inside = omega (arith, r.below, r.above);
        flat = omega (arith, r.below, r.before);
      },
    )

module _ (rng : ℕ → ℕ → ℕ) (ns : List ℕ) where
  -- The positions are the places of the flat indices that the generator draws, in order.
  abbrev pub AreDrawn : (drawn : ℕ) → List (ℕ × ℕ) → Type 0
  AreDrawn drawn [] = Unit
  AreDrawn drawn (p ∷ ps) = IsPlace ns (rng drawn (total_of ns)) p.0 p.1 × AreDrawn (suc drawn) ps

-- Where there is a transition and the generator's answers are in range, every batch size is served
-- by that many positions, the places of the indices drawn.
pub positions_lem :
    (rng : ℕ → ℕ → ℕ) (ns : List ℕ) (batch_size drawn : ℕ)
    → 0 < total_of ns
    → ((i n : ℕ) → 0 < n → rng i n < n)
    → (ps : List (ℕ × ℕ)) × (positions rng (cumulative 0 ns) (total_of ns) batch_size drawn ≡ ok ps)
      × (length ps ≡ batch_size)
      × AreDrawn rng ns drawn ps
unfolding positions
positions_lem rng ns zero drawn u draws = ([], refl, refl, tt)
positions_lem rng ns (suc b) drawn u draws =
    let (i, j, p, place) =
      position_lem ns (rng drawn (total_of ns)) (draws drawn (total_of ns) u) in
    let (ps, q, l, placed) = positions_lem rng ns b (suc drawn) u draws in
    ((i, j) ∷ ps, rw (p, q), ap suc l, (place, placed))
