-- ===== src/Sampling.antt =====
-- Uniform sampling of transitions, as both replay views do it: `bisect_right` of a flat index in the
-- cumulative lengths of the episodes. The random generator is an argument: `rng i n` is the answer
-- of its call number `i` of `randrange(n)`.
pub mod Laws
use rllib_async_runtime.Common.{
  ℕ, zero, suc, ◌+◌, ◌-◌, List, [], ◌∷◌, leb, if◌then◌else◌, Result, ok, ◌>>=◌,
}
use rllib_async_runtime.Episode.Flat.{at_index}

-- `bisect.bisect_right` of an ascending list: how many leading entries are at most `x`.
unfoldable pub bisect_right : List ℕ → ℕ → ℕ
bisect_right [] x = 0
bisect_right (c ∷ cs) x = let rest = bisect_right cs x in if leb c x then suc rest else 0

-- `cumulative_lengths[episode_index - 1] if episode_index else 0`
abbrev pub episode_start : List ℕ → ℕ → Result ℕ
episode_start cs zero = ok 0
episode_start cs (suc i) = at_index cs i

-- the episode and the transition in it, for one flat index
unfoldable pub position : List ℕ → ℕ → Result (ℕ × ℕ)
unfolding at_index
position cs flat_index = do
  start ← episode_start cs (bisect_right cs flat_index)
  ok (bisect_right cs flat_index, flat_index - start)

-- `for _ in range(batch_size)`: the generator was called `drawn` times before
unfoldable pub positions :
    (rng : ℕ → ℕ → ℕ) → List ℕ → (total : ℕ) → (batch_size drawn : ℕ) → Result (List (ℕ × ℕ))
unfolding position
positions rng cs total zero drawn = ok []
positions rng cs total (suc n) drawn = do
  p ← position cs (rng drawn total)
  ps ← positions rng cs total n (suc drawn)
  ok (p ∷ ps)

-- the loop that sums up the lengths, from the total so far
unfoldable pub cumulative : ℕ → List ℕ → List ℕ
cumulative total [] = []
cumulative total (n ∷ ns) = (total + n) ∷ cumulative (total + n) ns
