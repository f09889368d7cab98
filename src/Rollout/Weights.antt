-- ===== src/Rollout/Weights.antt =====
-- `WeightsDescriptor` of src/rllib_async/protocols/weights.py, and `accept_weight_publication` of
-- src/rllib_async/rollout/episode_runner.py. Of the state of a publication only its module IDs are
-- modelled (`none` where the state is no mapping), and the time of publication is left out.
use rllib_async_runtime.Common.{
  ℕ, String, str_eq, Bool, true, false, not, ◌&&◌, ◌||◌, Option, none, some, List, [], ◌∷◌, ltb,
  ◌==◌, if◌then◌else◌, Result, ok, raise, value_error, key_error, guard, rethrow, ◌>>=◌, ◌>>◌,
}
use rllib_async_runtime.Dict.{Dict, tally, keys}
use rllib_async_runtime.Episode.Value.{Value, non_negative}
use rllib_async_runtime.Episode.Versions.{frozen_versions}
use rllib_async_runtime.Episode.Envelope.{non_empty}

pub record WeightsDescriptor : Type 0 where
  pub member_id : String
  pub module_versions : Dict ℕ
  pub learner_updates : ℕ
  pub state_ids : Option (List String)

-- `WeightsDescriptor.__post_init__`
unfoldable pub weights_descriptor :
    (member_id : String)
    → (module_versions : Dict Value) → (learner_updates : Value)
    → (state_ids : Option (List String)) → Result WeightsDescriptor
weights_descriptor member_id module_versions learner_updates state_ids = do
  guard (not (str_eq member_id "")) value_error
  versions ← rethrow value_error (frozen_versions module_versions)
  guard (non_empty versions) value_error
  updates ← non_negative value_error learner_updates
  ok (record {
    member_id = member_id;
    module_versions = versions;
    learner_updates = updates;
    state_ids = state_ids;
  })

-- `k in ids`
unfoldable pub listed : String → List String → Bool
listed k [] = false
listed k (j ∷ js) = str_eq j k || listed k js

unfoldable pub all_listed : List String → List String → Bool
unfolding listed
all_listed [] js = true
all_listed (k ∷ ks) js = listed k js && all_listed ks js

-- `set(ks) == set(js)`
unfoldable pub same_set : List String → List String → Bool
unfolding all_listed
same_set ks js = all_listed ks js && all_listed js ks

-- `isinstance(state, Mapping) and set(state) == module_ids`
abbrev pub state_matches : Option (List String) → List String → Bool
unfolding same_set
state_matches none ids = false
state_matches (some js) ids = same_set js ids

-- `bool({m for m in module_ids if a[m] < b[m]})`; both have every key
unfoldable pub any_below : List String → Dict ℕ → Dict ℕ → Bool
any_below [] a b = false
any_below (m ∷ ms) a b = ltb (tally a m) (tally b m) || any_below ms a b

-- the comparison with the publication before, which has to have every module
unfoldable pub compare_publication :
    (current candidate : WeightsDescriptor) → (module_ids : List String) → Result Bool
unfolding any_below all_listed
compare_publication current candidate module_ids = do
  guard (all_listed module_ids (keys current.module_versions)) key_error
  let older = any_below module_ids candidate.module_versions current.module_versions
  let newer = any_below module_ids current.module_versions candidate.module_versions
  if older && newer
      then raise value_error
      else if older
      then ok false
      else if not newer
      then (if candidate.learner_updates == current.learner_updates
          then ok false
          else raise value_error)
      else if ltb candidate.learner_updates current.learner_updates
      then raise value_error
      else ok true

-- `WeightVersionError` is a `ValueError`.
unfoldable pub accept_weight_publication :
    (current : Option WeightsDescriptor)
    → (candidate : WeightsDescriptor) → (member_id : String) → (module_ids : List String)
    → Result Bool
unfolding same_set state_matches compare_publication
accept_weight_publication current candidate member_id module_ids = do
  guard (str_eq candidate.member_id member_id) value_error
  guard (same_set (keys candidate.module_versions) module_ids) value_error
  guard (state_matches candidate.state_ids module_ids) value_error
  elim current [ none ↦ ok true | some w ↦ compare_publication w candidate module_ids ]
