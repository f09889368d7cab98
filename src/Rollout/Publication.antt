-- ===== src/Rollout/Publication.antt =====
-- Which publications of weights a group or a runner accepts.
use rllib_async_runtime.Common.{
  ℕ, ◌≤◌, ◌<◌, ◌≡◌, inl, inr, String, true, false, some, List, [], ◌∷◌, All, ltb, arith, Bool-cases,
  ok, value_error, key_error, guard, >>=-eq-ok, guard-eq-ok, str_eq, eq_iff,
}
use rllib_async_runtime.Dict.{Dict, tally, keys}
use rllib_async_runtime.Rollout.Weights.{
  WeightsDescriptor, all_listed, same_set, state_matches, any_below, compare_publication,
  accept_weight_publication,
}

-- No module has a version below that of the other mapping.
abbrev pub IsAtLeast : List String → Dict ℕ → Dict ℕ → Type 0
IsAtLeast ms a b = All (λ m. tally b m ≤ tally a m) ms

any_below-false : (ms : List String) (a b : Dict ℕ) → any_below ms a b ≡ false → IsAtLeast ms a b
unfolding any_below
any_below-false [] a b h = tt
any_below-false (m ∷ ms) a b h = (ground (arith, h), any_below-false ms a b (ground (arith, h)))

any_below-true :
    (ms : List String) (a b : Dict ℕ)
    → any_below ms a b ≡ true
    → (m : String) × (tally a m < tally b m)
unfolding any_below
any_below-true [] a b h = cc
any_below-true (m ∷ ms) a b h = elim (Bool-cases (ltb (tally a m) (tally b m))) [
  | inl l ↦ (m, ground (arith, l))
  | inr g ↦ any_below-true ms a b (ground (arith, h, g))
]

compare_publication-true :
    (w c : WeightsDescriptor) (ms : List String)
    → compare_publication w c ms ≡ ok true
    → IsAtLeast ms c.module_versions w.module_versions
      × ((m : String) × (tally w.module_versions m < tally c.module_versions m))
      × (w.learner_updates ≤ c.learner_updates)
unfolding compare_publication
compare_publication-true w c ms h =
    let (_, _, h1) = >>=-eq-ok (guard (all_listed ms (keys w.module_versions)) key_error) _ h in
    (
      any_below-false ms c.module_versions w.module_versions (ground (arith, h1)),
      any_below-true ms w.module_versions c.module_versions (ground (arith, h1)),
      ground (arith, h1),
    )

-- A publication that replaces another is of the member that the call names, has no module at an
-- older version, has one at a newer version, and is of no earlier update of the learner.
pub accept_weight_publication-true :
    (w c : WeightsDescriptor) (member_id : String) (ms : List String)
    → accept_weight_publication (some w) c member_id ms ≡ ok true
    → (c.member_id ≡ member_id)
      × IsAtLeast ms c.module_versions w.module_versions
      × ((m : String) × (tally w.module_versions m < tally c.module_versions m))
      × (w.learner_updates ≤ c.learner_updates)
unfolding accept_weight_publication
accept_weight_publication-true w c member_id ms h =
    let (_, a, h1) = >>=-eq-ok (guard (str_eq c.member_id member_id) value_error) _ h in
    let (_, b, h2) = >>=-eq-ok (guard (same_set (keys c.module_versions) ms) value_error) _ h1 in
    let (_, d, h3) = >>=-eq-ok (guard (state_matches c.state_ids ms) value_error) _ h2 in
    let (x, y, z) = compare_publication-true w c ms h3 in
    ((eq_iff c.member_id member_id).0 (guard-eq-ok _ _ a), x, y, z)
