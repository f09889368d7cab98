-- ===== src/Population/Selection.antt =====
-- `PopulationAsyncSAC._select_donor_and_target` of src/rllib_async/runtime/population.py. The scores are
-- finite; the keys of `min` are pairs of a score, negated or not, and a slot's ID.
use rllib_async_runtime.Common.{
  String, Bool, not, ◌&&◌, [], ◌∷◌, if◌then◌else◌, Result, ok, raise, value_error, guard, ◌>>◌,
}
use rllib_async_runtime.Dict.{Dict}
use rllib_async_runtime.Episode.Versions.{text_le, keys_named}
use rllib_async_runtime.Population.{Floats, Mode, maximise, minimise}

module _ {F : Type 0} (le : F → F → Bool) where
  -- `(a.score, a.slot_id) < (b.score, b.slot_id)`
  abbrev pub precedes : String × F → String × F → Bool
  precedes a b = if le a.1 b.1 && le b.1 a.1 then not (text_le b.0 a.0) else le a.1 b.1

  -- `min`, from its first element on: the first of those that no other precedes
  unfoldable pub first_min : String × F → Dict F → String × F
  first_min x [] = x
  first_min x (y ∷ d) =
      let newer = first_min y d in
      let older = first_min x d in if precedes y x then newer else older

module _ (fl : Floats) where
  -- the order of the negated scores
  abbrev pub ge : fl.F → fl.F → Bool
  ge a b = fl.le b a

  unfoldable pub donor_and_target :
      Mode → String × fl.F → Dict fl.F → (String × fl.F) × (String × fl.F)
  unfolding first_min
  donor_and_target maximise x d = (first_min ge x d, first_min fl.le x d)
  donor_and_target minimise x d = (first_min fl.le x d, first_min ge x d)

  unfoldable pub select_donor_and_target : Mode → Dict fl.F → Result (String × String)
  unfolding keys_named donor_and_target
  select_donor_and_target mode [] = raise value_error
  select_donor_and_target mode (x ∷ []) = raise value_error
  select_donor_and_target mode (x ∷ y ∷ d) = do
    guard (keys_named (x ∷ y ∷ d)) value_error
    let (donor, target) = donor_and_target mode x (y ∷ d)
    ok (donor.0, target.0)
