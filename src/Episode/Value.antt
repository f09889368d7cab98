-- ===== src/Episode/Value.antt =====
-- A value of the dynamic language, as far as the integer tests of the validators look at it.
use rllib_async_runtime.Common.{
  ℕ, ◌==◌, zero, suc, Bool, true, false, ltb, Result, ok, raise, Error, ◌<◌, ◌≡◌, refl, arith,
}

pub data Value : Type 0 where
  int : ℕ → Value  -- a non-negative `int` that is no `bool`
  negative : ℕ → Value  -- `negative n` is -(n + 1)
  equal_to : ℕ → Value  -- a `bool`, or no `int` at all, that `==` finds equal to the number
  other : Value  -- a `bool`, or no `int` at all, that is equal to no natural number

-- `isinstance(value, int) and not isinstance(value, bool) and value >= 0`
unfoldable pub is_non_negative_integer : Value → Bool
is_non_negative_integer (int n) = true
is_non_negative_integer _ = false

-- `isinstance(value, int) and not isinstance(value, bool) and value >= 1`
unfoldable pub is_positive_integer : Value → Bool
is_positive_integer (int n) = ltb 0 n
is_positive_integer _ = false

-- `==` with an integer
unfoldable pub is_integer : Value → ℕ → Bool
is_integer (int m) n = m == n
is_integer (equal_to m) n = m == n
is_integer _ n = false

-- The number that a validated value stands for.
abbrev pub to_nat : Value → ℕ
to_nat (int n) = n
to_nat _ = 0

-- A test of the form `if not is_positive_integer(value): raise error`, and the number it lets pass.
unfoldable pub positive : Error → Value → Result ℕ
unfolding is_positive_integer
positive e (int zero) = raise e
positive e (int (suc n)) = ok (suc n)
positive e _ = raise e

unfoldable pub non_negative : Error → Value → Result ℕ
non_negative e (int n) = ok n
non_negative e _ = raise e

pub positive_lem : (e : Error) (v : Value) {n : ℕ} → positive e v ≡ ok n → 0 < n
unfolding positive
positive_lem e (int zero) h = cc
positive_lem e (int (suc n)) h = ground arith
positive_lem e _ h = cc

pub non_negative_lem : (e : Error) (v : Value) {n : ℕ} → non_negative e v ≡ ok n → v ≡ int n
unfolding non_negative
non_negative_lem e (int n) h = cc
non_negative_lem e _ h = cc

pub positive_int : (e : Error) (n : ℕ) → 0 < n → positive e (int n) ≡ ok n
unfolding positive
positive_int e zero h = absurd (omega arith)
positive_int e (suc n) h = refl
