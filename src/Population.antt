-- ===== src/Population.antt =====
-- The population training of src/rllib_async/runtime/population.py: floating-point numbers, the settings
-- of a mutation, and the configuration. The modules below have the mutation, the selection and the steps.
pub mod Mutation
pub mod Selection
pub mod Best
pub mod Bounds
pub mod Inherited
pub mod Step
pub mod Report
pub mod Counting
pub mod Kept
pub mod Construct
use rllib_async_runtime.Common.{
  ℕ, ◌≡◌, ◌⊎◌, Bool, true, not, ◌&&◌, List, [], ◌∷◌, Result, ok, value_error, guard, ◌>>=◌, ◌>>◌,
}
use rllib_async_runtime.Dict.{Dict}

-- Floating-point numbers that are no NaN: their arithmetic is the processor's, of which only the order's
-- laws are assumed.
pub record Floats : Type 1 where
  pub F : Type 0
  pub one : F
  pub positive : F → Bool
  pub times : F → F → F
  pub divided : F → F → F
  pub le : F → F → Bool
  pub total : (a b : F) → (le a b ≡ true) ⊎ (le b a ≡ true)
  pub transitive : (a b c : F) → le a b ≡ true → le b c ≡ true → le a c ≡ true

pub data Mode : Type 0 where
  maximise minimise : Mode

module _ (fl : Floats) where
  -- `a < b`
  abbrev pub lt : fl.F → fl.F → Bool
  lt a b = not (fl.le b a)

  -- `a == b`
  abbrev pub eq : fl.F → fl.F → Bool
  eq a b = fl.le a b && fl.le b a

  pub record FloatMutation : Type 0 where
    pub low : fl.F
    pub high : fl.F
    pub factors : List fl.F

  unfoldable pub all_positive : List fl.F → Bool
  all_positive [] = true
  all_positive (f ∷ fs) = fl.positive f && all_positive fs

  unfoldable pub all_one : List fl.F → Bool
  all_one [] = true
  all_one (f ∷ fs) = eq f fl.one && all_one fs

  -- `FloatMutation.__post_init__`; an empty sequence of factors is all ones
  unfoldable pub float_mutation : (low high : fl.F) → List fl.F → Result FloatMutation
  unfolding all_positive all_one
  float_mutation low high factors = do
    guard (fl.positive low) value_error
    guard (lt low high) value_error
    guard (all_positive factors) value_error
    guard (not (all_one factors)) value_error
    ok (record { low = low; high = high; factors = factors })

  -- `SimplePBTConfig`, without the window of returns
  pub record SimplePbtConfig : Type 0 where
    pub perturbation_interval_reports : ℕ
    pub min_episodes_after_restart : ℕ
    pub mode : Mode
    pub mutations : Dict FloatMutation
