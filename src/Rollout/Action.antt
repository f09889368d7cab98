-- ===== src/Rollout/Action.antt =====
-- Methods of the group that can raise: the state that they leave stays, also after an exception.
use rllib_async_runtime.Common.{Bool, true, false, Error, Result, ok, raise}
use rllib_async_runtime.Rollout.{AsyncRolloutGroup}

abbrev pub Action {ℓ} : Type ℓ → Type ℓ
Action A = AsyncRolloutGroup → Result A × AsyncRolloutGroup

module _ {ℓ κ} {A : Type ℓ} {B : Type κ} where
  abbrev pub after : Result A × AsyncRolloutGroup → (A → Action B) → Result B × AsyncRolloutGroup
  after (raise error, g) next = (raise error, g)
  after (ok a, g) next = next a g

  infixl 5 ◌>>=◌
  abbrev pub ◌>>=◌ : Action A → (A → Action B) → Action B
  ◌>>=◌ m next g = after (m g) next

infixl 5 ◌>>◌
abbrev pub ◌>>◌ {ℓ} : {B : Type ℓ} → Action (Unit {0}) → Action B → Action B
m >> k = m >>= λ _. k

abbrev pub pure {ℓ} : {A : Type ℓ} → A → Action A
pure a g = (ok a, g)

abbrev pub throw {ℓ} : {A : Type ℓ} → Error → Action A
throw error g = (raise error, g)

abbrev pub get : Action AsyncRolloutGroup
get g = (ok g, g)

abbrev pub modify : (AsyncRolloutGroup → AsyncRolloutGroup) → Action (Unit {0})
modify f g = (ok tt, f g)

-- `if not b: raise error`
abbrev pub require : Bool → Error → Action (Unit {0})
require true error g = (ok tt, g)
require false error g = (raise error, g)

-- a computation that reads no state
abbrev pub lift {ℓ} : {A : Type ℓ} → Result A → Action A
lift r g = (r, g)
