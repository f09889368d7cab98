-- ===== src/Population/Mutation.antt =====
-- `PopulationAsyncSAC._mutate_hparams` of src/rllib_async/runtime/population.py. Which candidate
-- `random.Random(config.seed + exploit_count)` chooses is an argument.
use rllib_async_runtime.Common.{
  ℕ, zero, suc, String, str_eq, Bool, true, false, not, ◌&&◌, List, [], ◌∷◌, length, if◌then◌else◌,
  Result, ok, raise, index_error, value_error, population, guard, ◌>>=◌, ◌>>◌,
}
use rllib_async_runtime.Dict.{Dict, put, lookup, contains, keys}
use rllib_async_runtime.Episode.Versions.{sort_by_key}
use rllib_async_runtime.Population.{Floats, FloatMutation, lt, eq, SimplePbtConfig}

-- `_MUTABLE_HPARAMS`
abbrev pub mutable_hparams : List String
mutable_hparams = "actor_lr" ∷ "critic_lr" ∷ "alpha_lr" ∷ []

-- The indices that `rng.choice` draws, first among the parameters, then among the values of the one.
pub record Choices : Type 0 where
  pub parameter_at : (exploit_count n : ℕ) → ℕ
  pub value_at : (exploit_count n m : ℕ) → ℕ

-- `xs[i]`
unfoldable pub element {ℓ} : {A : Type ℓ} → List A → ℕ → Result A
element [] i = raise index_error
element (x ∷ xs) zero = ok x
element (x ∷ xs) (suc i) = element xs i

-- `tuple.index`, of a text that is there
unfoldable pub index_of : List String → String → ℕ
index_of [] k = 0
index_of (j ∷ js) k = let rest = suc (index_of js k) in if str_eq j k then 0 else rest

module _ (fl : Floats) where
  -- `max(a, b)` and `min(a, b)`: the first of two equal ones
  abbrev pub max_float : fl.F → fl.F → fl.F
  max_float a b = if lt fl a b then b else a

  abbrev pub min_float : fl.F → fl.F → fl.F
  min_float a b = if lt fl b a then b else a

  abbrev pub clamp : FloatMutation fl → fl.F → fl.F
  clamp m x = min_float (max_float x m.low) m.high

  -- `new_value == old_value and factor != 1.0`
  abbrev pub is_stuck : (old_value factor new_value : fl.F) → Bool
  is_stuck old_value factor new_value = eq fl new_value old_value && not (eq fl factor fl.one)

  -- the value that one factor gives: reflected at a bound, and in the last resort the other bound
  unfoldable pub mutated_value : FloatMutation fl → (old_value factor : fl.F) → fl.F
  mutated_value m old_value factor =
      let first = clamp m (fl.times old_value factor) in
      let second =
        if is_stuck old_value factor first then clamp m (fl.divided old_value factor) else first in
      if is_stuck old_value factor second
      then (if lt fl factor fl.one then m.high else m.low)
      else second

  -- the values that differ from the old one, each with its ratio
  unfoldable pub changed_values :
      FloatMutation fl → (old_value : fl.F) → List fl.F → List (fl.F × fl.F)
  unfolding mutated_value
  changed_values m old_value [] = []
  changed_values m old_value (factor ∷ factors) =
      let rest = changed_values m old_value factors in
      let new_value = mutated_value m old_value factor in
      if eq fl new_value old_value then rest else (fl.divided new_value old_value, new_value) ∷ rest

  -- `if changed: candidates[name] = tuple(changed)`
  unfoldable pub with_candidates :
      String → List (fl.F × fl.F) → Dict (List (fl.F × fl.F)) → Dict (List (fl.F × fl.F))
  with_candidates name [] rest = rest
  with_candidates name (c ∷ cs) rest = (name, c ∷ cs) ∷ rest

  -- the loop over the sorted mutations
  unfoldable pub candidates :
      Dict fl.F → Dict (FloatMutation fl) → Result (Dict (List (fl.F × fl.F)))
  unfolding lookup changed_values with_candidates
  candidates hparams [] = ok []
  candidates hparams ((name, m) ∷ mutations) = do
    old_value ← lookup hparams name
    guard (fl.positive old_value) value_error
    rest ← candidates hparams mutations
    ok (with_candidates name (changed_values m old_value m.factors) rest)

  unfoldable pub has_all : Dict fl.F → List String → Bool
  unfolding contains
  has_all hparams [] = true
  has_all hparams (name ∷ names) = contains hparams name && has_all hparams names

  -- `{name: hparams[name] for name in names}`
  unfoldable pub select_hparams : Dict fl.F → List String → Result (Dict fl.F)
  unfolding lookup
  select_hparams hparams [] = ok []
  select_hparams hparams (name ∷ names) = do
    v ← lookup hparams name
    rest ← select_hparams hparams names
    ok ((name, v) ∷ rest)

  abbrev pub no_candidates : Dict (List (fl.F × fl.F)) → Bool
  no_candidates [] = true
  no_candidates (c ∷ cs) = false

  pub record Mutated : Type 0 where
    pub hparams : Dict fl.F
    pub parameter : String
    pub parameter_index : ℕ
    pub factor : fl.F
    pub old_value : fl.F
    pub new_value : fl.F

  unfoldable pub mutate_hparams :
      Choices → Dict fl.F → SimplePbtConfig fl → (exploit_count : ℕ) → Result Mutated
  unfolding has_all candidates sort_by_key element lookup select_hparams put index_of
  mutate_hparams rng hparams config exploit_count = do
    guard (has_all hparams mutable_hparams) value_error
    let mutations = sort_by_key config.mutations
    cs ← candidates hparams mutations
    guard (not (no_candidates cs)) population
    let at = rng.parameter_at exploit_count (length cs)
    (parameter, values) ← element cs at
    (factor, new_value) ← element values (rng.value_at exploit_count (length cs) (length values))
    old_value ← lookup hparams parameter
    mutated ← select_hparams hparams mutable_hparams
    ok (record {
      hparams = put mutated parameter new_value;
      parameter = parameter;
      parameter_index = index_of (keys mutations) parameter;
      factor = factor;
      old_value = old_value;
      new_value = new_value;
    })
