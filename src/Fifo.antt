-- ===== src/Fifo.antt =====
-- The abstract retention policy of the stores: of a sequence, keep the longest suffix whose two
-- totals (transitions and bytes) are within the capacities, and drop the rest, oldest first.
pub mod Laws
use rllib_async_runtime.Common.{ℕ, ◌||◌, Bool, List, [], ◌∷◌, ltb, if◌then◌else◌, sum_of}

-- `total_transitions > capacity_transitions or total_estimated_bytes > capacity_bytes`
abbrev pub is_over : ℕ → ℕ → ℕ → ℕ → Bool
is_over cap_t cap_b total_t total_b = ltb cap_t total_t || ltb cap_b total_b

module _ {ℓ} {A : Type ℓ} (transitions_of bytes_of : A → ℕ) (cap_t cap_b : ℕ) where
  abbrev pub exceeds : List A → Bool
  exceeds xs = is_over cap_t cap_b (sum_of transitions_of xs) (sum_of bytes_of xs)

  -- the longest suffix that fits
  unfoldable pub survivors : List A → List A
  survivors [] = []
  survivors (x ∷ xs) = let rest = survivors xs in if exceeds (x ∷ xs) then rest else x ∷ xs

  -- what stands before it
  unfoldable pub victims : List A → List A
  victims [] = []
  victims (x ∷ xs) = let rest = x ∷ victims xs in if exceeds (x ∷ xs) then rest else []
