-- ===== src/Dict/Counters.antt =====
-- Counters without a repeated key: what `c[k] += n` and `c[k] -= n; if not c[k]: del c[k]` leave.
use rllib_async_runtime.Common.{
  ℕ, ◌+◌, ◌-◌, String, str_eq, eq_iff, ◌≡◌, refl, false, none, [], ◌∷◌, arith, ==_iff, ◌==◌,
  if◌then◌else◌, Bool-cases, inl, inr,
}
use rllib_async_runtime.Dict.{Dict, get, contains, put, remove, tally, increase, decrease}
use rllib_async_runtime.Dict.Laws.{Distinct, get-contains, get-put, contains-put}

module _ {ℓ} {V : Type ℓ} where
  pub get-remove :
      (d : Dict V) (k j : String)
      → Distinct d
      → get (remove d k) j ≡ (if str_eq k j then none else get d j)
  unfolding get remove
  get-remove [] k j h = ground arith
  get-remove ((i, w) ∷ d) k j h =
      ground (arith, get-remove d k j h.1, get-contains d i h.0, eq_iff i k, eq_iff i j, eq_iff k j)

  contains-remove :
      (d : Dict V) (k j : String) → contains d j ≡ false → contains (remove d k) j ≡ false
  unfolding contains remove
  contains-remove [] k j h = refl
  contains-remove ((i, w) ∷ d) k j h = ground (arith, contains-remove d k j)

  pub remove-Distinct : (d : Dict V) (k : String) → Distinct d → Distinct (remove d k)
  unfolding remove
  remove-Distinct [] k h = tt
  remove-Distinct ((i, w) ∷ d) k h = elim (Bool-cases (str_eq i k)) [
    | inl p ↦ rw p h.1
    | inr p ↦ rw p (contains-remove d k i h.0, remove-Distinct d k h.1)
  ]

  pub put-Distinct : (d : Dict V) (k : String) (v : V) → Distinct d → Distinct (put d k v)
  unfolding put contains
  put-Distinct [] k v h = (refl, tt)
  put-Distinct ((i, w) ∷ d) k v h = elim (Bool-cases (str_eq i k)) [
    | inl p ↦ rw p h
    | inr p ↦ rw p (
      ground (arith, contains-put d k i v, h.0, p, eq_iff i k, eq_iff k i),
      put-Distinct d k v h.1,
    )
  ]

pub tally-decrease :
    (c : Dict ℕ) (k j : String) (n : ℕ)
    → Distinct c
    → tally (decrease c k n) j ≡ (if str_eq k j then tally c k - n else tally c j)
unfolding tally decrease
tally-decrease c k j n h =
    ground (arith, get-remove c k j h, get-put c k j (tally c k - n), ==_iff (tally c k - n) 0)

pub increase-Distinct : (c : Dict ℕ) (k : String) (n : ℕ) → Distinct c → Distinct (increase c k n)
unfolding increase
increase-Distinct c k n h = put-Distinct c k (tally c k + n) h

pub decrease-Distinct : (c : Dict ℕ) (k : String) (n : ℕ) → Distinct c → Distinct (decrease c k n)
unfolding decrease
decrease-Distinct c k n h = elim (Bool-cases (tally c k - n == 0)) [
  | inl p ↦ rw p (remove-Distinct c k h)
  | inr p ↦ rw p (put-Distinct c k (tally c k - n) h)
]
