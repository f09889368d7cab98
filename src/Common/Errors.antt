-- ===== src/Common/Errors.antt =====
-- The exceptions that the modelled code raises, as values, and the monad of fallible code.
-- A message carries no information that the code reads, so a constructor stands for its class.
use mathlib.Core.Path.{◌≡◌, refl}
use mathlib.Core.Logic.{◌⊎◌, inl, inr}
use mathlib.Core.List.{List, [], ◌∷◌}
use mathlib.Core.Bool.{Bool, true, false}

pub data Error : Type 0 where
  value_error type_error key_error index_error timeout_error : Error
  episode_validation schema_mismatch : Error
  replay_error episode_too_large duplicate_conflict full_resync_required : Error
  cursor_mismatch snapshot_too_large invalid_store_state : Error
  index_rebuild replay_closed rollout_group population : Error

pub data Result {ℓ} (A : Type ℓ) : Type ℓ where
  ok : A → Result A
  raise : Error → Result A

module _ {ℓ κ} {X : Type ℓ} {Y : Type κ} where
  infixl 5 ◌>>=◌
  -- a statement that returns a value, and what follows it
  abbrev pub ◌>>=◌ : Result X → (X → Result Y) → Result Y
  raise error >>= next = raise error
  ok x >>= next = next x

  -- Inversion of a successful bind.
  pub >>=-eq-ok :
      (m : Result X) (next : X → Result Y) {y : Y}
      → (m >>= next) ≡ ok y
      → (x : X) × (m ≡ ok x) × (next x ≡ ok y)
  >>=-eq-ok (raise error) next h = cc
  >>=-eq-ok (ok x) next h = (x, refl, h)

  -- What follows from a successful bind, from what its parts return.
  pub >>=-elim {μ} :
      {P : Type μ} (m : Result X) {next : X → Result Y} {y : Y}
      → ((x : X) → m ≡ ok x → next x ≡ ok y → P)
      → (m >>= next) ≡ ok y
      → P
  >>=-elim (raise error) f h = cc
  >>=-elim (ok x) f h = f x refl h

-- a statement that is run for its exceptions alone
infixl 5 ◌>>◌
abbrev pub ◌>>◌ {ℓ} : {X : Type ℓ} → Result (Unit {0}) → Result X → Result X
check >> next = check >>= λ _. next

pub Result-cases {ℓ} :
    {X : Type ℓ} (r : Result X) → ((error : Error) × (r ≡ raise error)) ⊎ ((x : X) × (r ≡ ok x))
Result-cases (raise error) = inl (error, refl)
Result-cases (ok x) = inr (x, refl)

-- `if not b: raise e`
abbrev pub guard : Bool → Error → Result (Unit {0})
guard true e = ok tt
guard false e = raise e

-- `try: m except Exception as error: raise e from error`
abbrev pub rethrow {ℓ} : {A : Type ℓ} → Error → Result A → Result A
rethrow e (ok a) = ok a
rethrow e (raise _) = raise e

pub guard-eq-ok : (b : Bool) (e : Error) {u : Unit {0}} → guard b e ≡ ok u → b ≡ true
guard-eq-ok true e h = refl
guard-eq-ok false e h = cc

pub rethrow-eq-ok {ℓ} :
    {A : Type ℓ} (e : Error) (m : Result A) {a : A} → rethrow e m ≡ ok a → m ≡ ok a
rethrow-eq-ok e (ok a) h = h
rethrow-eq-ok e (raise _) h = cc

pub ok-injective {ℓ} : {A : Type ℓ} {a b : A} → ok a ≡ ok b → a ≡ b
ok-injective h = cc

module _ {ℓ κ μ} {X : Type ℓ} {Y : Type κ} {Z : Type μ} where
  pub >>=_assoc :
      (m : Result X) (next : X → Result Y) (last : Y → Result Z)
      → ((m >>= next) >>= last) ≡ (m >>= λ x. next x >>= last)
  >>=_assoc (raise error) next last = refl
  >>=_assoc (ok x) next last = refl

-- a list comprehension whose body can raise
unfoldable pub for_each {ℓ κ} :
    {A : Type ℓ} {B : Type κ} → (A → Result B) → List A → Result (List B)
for_each f [] = ok []
for_each f (x ∷ xs) = do y ← f x; ys ← for_each f xs; ok (y ∷ ys)
