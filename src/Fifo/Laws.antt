-- ===== src/Fifo/Laws.antt =====
-- Laws of the retention policy: its split of the sequence, its bounds, one element at a time.
use rllib_async_runtime.Common.{
  ℕ, ◌+◌, ◌≤◌, ◌≡◌, refl, ap₂, Bool, true, false, List, [], ◌∷◌, ◌++◌, map, length, arith, sum_of,
  sum_of-append, length-append, Bool-cases, inl, inr,
}
use rllib_async_runtime.Fifo.{exceeds, survivors, victims}

module _ {ℓ} {A : Type ℓ} (transitions_of bytes_of : A → ℕ) (cap_t cap_b : ℕ) where
  abbrev keep : List A → List A
  keep = survivors transitions_of bytes_of cap_t cap_b

  abbrev over : List A → Bool
  over = exceeds transitions_of bytes_of cap_t cap_b

  pub victims-append-survivors :
      (xs : List A) → victims transitions_of bytes_of cap_t cap_b xs ++ keep xs ≡ xs
  unfolding survivors victims
  victims-append-survivors [] = refl
  victims-append-survivors (x ∷ xs) = ground (arith, victims-append-survivors xs)

  pub survivors-fits :
      (xs : List A)
      → (sum_of transitions_of (keep xs) ≤ cap_t) × (sum_of bytes_of (keep xs) ≤ cap_b)
  unfolding survivors
  survivors-fits [] = omega arith
  survivors-fits (x ∷ xs) = ground (arith, survivors-fits xs)

  pub survivors_of_fits : (xs : List A) → over xs ≡ false → keep xs ≡ xs
  unfolding survivors
  survivors_of_fits [] h = refl
  survivors_of_fits (x ∷ xs) h = ground arith

  -- A suffix that fits is no longer than the one that is kept.
  pub survivors_longest : (xs ys : List A) → over ys ≡ false → length ys ≤ length (keep (xs ++ ys))
  unfolding survivors
  survivors_longest [] ys h = rw (survivors_of_fits ys h) (omega arith)
  survivors_longest (x ∷ xs) ys h = ground (arith, survivors_longest xs ys h, length-append xs ys)

  over-append : (xs ys : List A) (x : A) → over (xs ++ ys) ≡ true → over ((x ∷ xs) ++ ys) ≡ true
  over-append xs ys x h = ground arith

  over_snoc : (xs : List A) (y : A) → over xs ≡ true → over (xs ++ y ∷ []) ≡ true
  over_snoc xs y h =
      ground (arith, sum_of-append transitions_of xs (y ∷ []), sum_of-append bytes_of xs (y ∷ []))

  -- Trimming after each arrival keeps what trimming once at the end would keep.
  pub survivors_snoc : (xs : List A) (y : A) → keep (keep xs ++ y ∷ []) ≡ keep (xs ++ y ∷ [])
  unfolding survivors
  survivors_snoc [] y = refl
  survivors_snoc (x ∷ xs) y = elim (Bool-cases (over (x ∷ xs))) [
    | inl e ↦ rw (e, over_snoc (x ∷ xs) y e) (survivors_snoc xs y)
    | inr e ↦ rw e refl
  ]

  -- An element that fits alone survives its own arrival.
  pub survivors_new :
      (xs : List A) (y : A)
      → transitions_of y ≤ cap_t
      → bytes_of y ≤ cap_b
      → (zs : List A) × (keep (xs ++ y ∷ []) ≡ zs ++ y ∷ [])
  unfolding survivors
  survivors_new [] y ht hb = ([], ground arith)
  survivors_new (x ∷ xs) y ht hb = elim (Bool-cases (over (x ∷ (xs ++ y ∷ [])))) [
    | inl e ↦ let (zs, p) = survivors_new xs y ht hb in (zs, rw e p)
    | inr e ↦ (x ∷ xs, rw e refl)
  ]

module _ {ℓ κ} {A : Type ℓ} {B : Type κ} (f : A → B) (t_a b_a : A → ℕ) (t_b b_b : B → ℕ)
    (same_t : (a : A) → t_b (f a) ≡ t_a a) (same_b : (a : A) → b_b (f a) ≡ b_a a)
    (cap_t cap_b : ℕ) where
  sum_of-map_t : (xs : List A) → sum_of t_b (map f xs) ≡ sum_of t_a xs
  sum_of-map_t [] = refl
  sum_of-map_t (x ∷ xs) = ap₂ ◌+◌ (same_t x) (sum_of-map_t xs)

  sum_of-map_b : (xs : List A) → sum_of b_b (map f xs) ≡ sum_of b_a xs
  sum_of-map_b [] = refl
  sum_of-map_b (x ∷ xs) = ap₂ ◌+◌ (same_b x) (sum_of-map_b xs)

  over-map : (xs : List A) → exceeds t_b b_b cap_t cap_b (map f xs) ≡ exceeds t_a b_a cap_t cap_b xs
  over-map xs = rw (sum_of-map_t xs, sum_of-map_b xs) refl

  -- The policy reads nothing but the two sizes.
  pub survivors-map :
      (xs : List A)
      → survivors t_b b_b cap_t cap_b (map f xs) ≡ map f (survivors t_a b_a cap_t cap_b xs)
  unfolding survivors
  survivors-map [] = refl
  survivors-map (x ∷ xs) = ground (arith, survivors-map xs, over-map (x ∷ xs))

  pub victims-map :
      (xs : List A)
      → victims t_b b_b cap_t cap_b (map f xs) ≡ map f (victims t_a b_a cap_t cap_b xs)
  unfolding victims
  victims-map [] = refl
  victims-map (x ∷ xs) = ground (arith, victims-map xs, over-map (x ∷ xs))
