-- ===== src/Population/Bounds.antt =====
-- A mutated hyperparameter is within the bounds of its mutation, and differs from the donor's.
use rllib_async_runtime.Common.{
  ℕ, zero, suc, ◌++◌, append_assoc, eq_refl, All-zip, ◌≡◌, inl, inr, sym, ◌∙◌, subst, String,
  str_eq, none, true, false, not, some, List, [], ◌∷◌, length, All, if_ind, if◌then◌else◌, arith,
  ok, value_error, population, guard, >>=-eq-ok, guard-eq-ok, ok-injective,
}
use rllib_async_runtime.Dict.{Dict, get, lookup}
use rllib_async_runtime.Dict.Laws.{Distinct, Distinct-middle, get-append_right, get_head, get-put}
use rllib_async_runtime.Episode.Versions.{text_le, insert_by_key, sort_by_key}
use rllib_async_runtime.Population.{
  Floats, FloatMutation, lt, eq, all_positive, all_one, float_mutation, SimplePbtConfig,
}
use rllib_async_runtime.Population.Inherited.{get-select_hparams}
use rllib_async_runtime.Rollout.Weights.{listed}
use rllib_async_runtime.Population.Mutation.{
  mutable_hparams, Choices, element, max_float, clamp, is_stuck, mutated_value, changed_values,
  with_candidates, candidates, has_all, select_hparams, no_candidates, Mutated, mutate_hparams,
}

-- What holds of all of a list holds of what is taken from it.
element-All {ℓ κ} :
    {A : Type ℓ} (P : A → Type κ) (xs : List A) (i : ℕ) {x : A}
    → All P xs
    → element xs i ≡ ok x
    → P x
unfolding element
element-All P [] i a h = cc
element-All P (x ∷ xs) zero a h = subst P (ok-injective h) a.0
element-All P (x ∷ xs) (suc i) a h = element-All P xs i a.1 h

insert_by_key-All {ℓ κ} :
    {V : Type ℓ} (P : String × V → Type κ) (k : String) (v : V) (d : Dict V)
    → P (k, v)
    → All P d
    → All P (insert_by_key k v d)
unfolding insert_by_key
insert_by_key-All P k v [] p a = (p, tt)
insert_by_key-All P k v ((j, w) ∷ d) p a =
    if_ind (All P) (text_le k j) (λ _. (p, a)) (λ _. (a.0, insert_by_key-All P k v d p a.1))

sort_by_key-All {ℓ κ} :
    {V : Type ℓ} (P : String × V → Type κ) (d : Dict V) → All P d → All P (sort_by_key d)
unfolding sort_by_key
sort_by_key-All P [] a = tt
sort_by_key-All P ((k, v) ∷ d) a =
    insert_by_key-All P k v (sort_by_key d) a.0 (sort_by_key-All P d a.1)

-- Every entry of a dictionary with distinct keys is what its key reads.
get-All {ℓ} :
    {V : Type ℓ} (earlier d : Dict V)
    → Distinct (earlier ++ d)
    → All (λ (x : String × V). get (earlier ++ d) x.0 ≡ some x.1) d
get-All earlier [] h = tt
get-All {V = V} earlier ((k, v) ∷ d) h =
    let split : (earlier ++ (k, v) ∷ []) ++ d ≡ earlier ++ (k, v) ∷ d =
      append_assoc earlier ((k, v) ∷ []) d in
    (
      get-append_right earlier ((k, v) ∷ d) k (Distinct-middle earlier d k v h) ∙ get_head d k v,
      subst (λ y. All (λ (x : String × V). get y x.0 ≡ some x.1) d) split
          (get-All (earlier ++ (k, v) ∷ []) d (rw split h)),
    )

module _ (fl : Floats) where
  -- The bounds of a mutation are in order.
  abbrev pub IsOrdered : FloatMutation fl → Type 0
  IsOrdered m = fl.le m.low m.high ≡ true

  -- The constructor accepts only bounds in order.
  pub float_mutation-IsOrdered :
      (low high : fl.F) (factors : List fl.F) {m : FloatMutation fl}
      → float_mutation fl low high factors ≡ ok m
      → IsOrdered m
  unfolding float_mutation
  float_mutation-IsOrdered low high factors h =
      let (_, _, h1) = >>=-eq-ok (guard (fl.positive low) value_error) _ h in
      let (_, g, h2) = >>=-eq-ok (guard (lt fl low high) value_error) _ h1 in
      let (_, _, h3) = >>=-eq-ok (guard (all_positive fl factors) value_error) _ h2 in
      let (_, _, h4) = >>=-eq-ok (guard (not (all_one fl factors)) value_error) _ h3 in
      let ordered : fl.le low high ≡ true = elim (fl.total low high) [
        | inl p ↦ p
        | inr p ↦ ground (arith, guard-eq-ok _ _ g, p)
      ] in
      subst IsOrdered (ok-injective h4) ordered

  abbrev pub IsWithin : FloatMutation fl → fl.F → Type 0
  IsWithin m x = (fl.le m.low x ≡ true) × (fl.le x m.high ≡ true)

  -- A change of the old value within the bounds.
  abbrev IsChange : FloatMutation fl → fl.F → fl.F × fl.F → Type 0
  IsChange m old_value c = IsWithin m c.1 × (eq fl c.1 old_value ≡ false)

  module _ (m : FloatMutation fl) (o : IsOrdered m) where
    le_refl : (x : fl.F) → fl.le x x ≡ true
    le_refl x = ground (arith, fl.total x x)

    le_of_lt : (a b : fl.F) → lt fl a b ≡ false → fl.le b a ≡ true
    le_of_lt a b h = ground (arith, h)

    le_of_lt-true : (a b : fl.F) → lt fl a b ≡ true → fl.le a b ≡ true
    le_of_lt-true a b h = elim (fl.total a b) [ inl p ↦ p | inr p ↦ ground (arith, h, p) ]

    max_float-above : (x : fl.F) → fl.le m.low (max_float fl x m.low) ≡ true
    max_float-above x =
        if_ind {A = fl.F} (λ y. fl.le m.low y ≡ true) (lt fl x m.low) (λ _. le_refl m.low)
          (λ p. le_of_lt x m.low p)

    clamp-IsWithin : (x : fl.F) → IsWithin m (clamp fl m x)
    clamp-IsWithin x =
        let y = max_float fl x m.low in
        if_ind {A = fl.F} (IsWithin m) (lt fl m.high y) (λ _. (o, le_refl m.high))
          (λ p. (max_float-above x, le_of_lt m.high y p))

    mutated_value-IsWithin :
        (old_value factor : fl.F) → IsWithin m (mutated_value fl m old_value factor)
    unfolding mutated_value
    mutated_value-IsWithin old_value factor =
        let first = clamp fl m (fl.times old_value factor) in
        let second =
          if is_stuck fl old_value factor first
          then clamp fl m (fl.divided old_value factor)
          else first in
        if_ind {A = fl.F} (IsWithin m) (is_stuck fl old_value factor second)
          (λ _.
            if_ind {A = fl.F} (IsWithin m) (lt fl factor fl.one) (λ _. (o, le_refl m.high))
              (λ _. (le_refl m.low, o)))
          (λ _.
            if_ind {A = fl.F} (IsWithin m) (is_stuck fl old_value factor first)
              (λ _. clamp-IsWithin (fl.divided old_value factor))
              (λ _. clamp-IsWithin (fl.times old_value factor)))

    changed_values-IsChange :
        (old_value : fl.F) (factors : List fl.F)
        → All (IsChange m old_value) (changed_values fl m old_value factors)
    unfolding changed_values
    changed_values-IsChange old_value [] = tt
    changed_values-IsChange old_value (factor ∷ factors) =
        let rest = changed_values-IsChange old_value factors in
        if_ind (All (IsChange m old_value)) (eq fl (mutated_value fl m old_value factor) old_value)
          (λ _. rest) (λ p. ((mutated_value-IsWithin old_value factor, p), rest))

  -- What the loop over the mutations makes of one of them.
  abbrev IsCandidate :
      (String × FloatMutation fl → Type 0) → Dict fl.F → String × List (fl.F × fl.F) → Type 0
  IsCandidate P hparams x =
      (m : FloatMutation fl) × P (x.0, m)
      × (old_value : fl.F) × (lookup hparams x.0 ≡ ok old_value)
      × All (IsChange m old_value) x.1

  with_candidates-All :
      (P : String × List (fl.F × fl.F) → Type 0) (name : String) (cs : List (fl.F × fl.F))
      (rest : Dict (List (fl.F × fl.F)))
      → P (name, cs)
      → All P rest
      → All P (with_candidates fl name cs rest)
  unfolding with_candidates
  with_candidates-All P name [] rest p a = a
  with_candidates-All P name (c ∷ cs) rest p a = (p, a)

  candidates-IsCandidate :
      (P : String × FloatMutation fl → Type 0) (hparams : Dict fl.F)
      (mutations : Dict (FloatMutation fl)) {cs : Dict (List (fl.F × fl.F))}
      → All (λ (x : String × FloatMutation fl). P x × IsOrdered x.1) mutations
      → candidates fl hparams mutations ≡ ok cs
      → All (IsCandidate P hparams) cs
  unfolding candidates
  candidates-IsCandidate P hparams [] a h = subst (All (IsCandidate P hparams)) (ok-injective h) tt
  candidates-IsCandidate P hparams ((name, m) ∷ mutations) a h =
      let (old_value, p, h1) = >>=-eq-ok (lookup hparams name) _ h in
      let (_, _, h2) = >>=-eq-ok (guard (fl.positive old_value) value_error) _ h1 in
      let (rest, q, h3) = >>=-eq-ok (candidates fl hparams mutations) _ h2 in
      subst (All (IsCandidate P hparams)) (ok-injective h3) (
        with_candidates-All (IsCandidate P hparams) name (changed_values fl m old_value m.factors)
          rest (m, a.0.0, old_value, p, changed_values-IsChange m a.0.1 old_value m.factors)
          (candidates-IsCandidate P hparams mutations a.1 q))

  -- A hyperparameter with a mutation, changed within its bounds, and the other rates as they were.
  pub record IsMutation (hparams : Dict fl.F) (mutations : Dict (FloatMutation fl)) (r : Mutated fl)
      : Type 0 where
    pub mutation : FloatMutation fl
    pub configured : get mutations r.parameter ≡ some mutation
    pub within : IsWithin mutation r.new_value
    pub changed : eq fl r.new_value r.old_value ≡ false
    pub inherited : lookup hparams r.parameter ≡ ok r.old_value
    pub assigned : get r.hparams r.parameter ≡ some r.new_value
    pub others :
        (name : String)
        → str_eq r.parameter name ≡ false
        → get r.hparams name ≡ (if listed name mutable_hparams then get hparams name else none)

  -- Where the bounds of the mutations are in order, as their constructor makes them, and for any
  -- choices of the generator: a mutation that succeeds changes one configured hyperparameter of the
  -- donor to another value within the bounds of its mutation; of the other names, the result has the
  -- three learning rates as the donor has them, and nothing else.
  pub mutate_hparams-IsMutation :
      (rng : Choices) (hparams : Dict fl.F) (config : SimplePbtConfig fl) (exploit_count : ℕ)
      (r : Mutated fl)
      → Distinct config.mutations
      → All (λ (x : String × FloatMutation fl). IsOrdered x.1) config.mutations
      → mutate_hparams fl rng hparams config exploit_count ≡ ok r
      → IsMutation hparams config.mutations r
  unfolding mutate_hparams
  mutate_hparams-IsMutation rng hparams config exploit_count r d o h =
      let P : String × FloatMutation fl → Type 0 = λ x. get config.mutations x.0 ≡ some x.1 in
      let sorted : All (λ (x : String × FloatMutation fl). P x × IsOrdered x.1)
          (sort_by_key config.mutations) =
        sort_by_key-All (λ (x : String × FloatMutation fl). P x × IsOrdered x.1) config.mutations
          (All-zip P (λ (x : String × FloatMutation fl). IsOrdered x.1) config.mutations
            (get-All [] config.mutations d) o) in
      let (_, _, h1) = >>=-eq-ok (guard (has_all fl hparams mutable_hparams) value_error) _ h in
      let (cs, p, h2) = >>=-eq-ok (candidates fl hparams (sort_by_key config.mutations)) _ h1 in
      let (_, _, h3) = >>=-eq-ok (guard (not (no_candidates fl cs)) population) _ h2 in
      let (c, q, h4) = >>=-eq-ok (element cs (rng.parameter_at exploit_count (length cs))) _ h3 in
      let (v, e, h5) =
        >>=-eq-ok (element c.1 (rng.value_at exploit_count (length cs) (length c.1))) _ h4 in
      let (old_value, l, h6) = >>=-eq-ok (lookup hparams c.0) _ h5 in
      let (mutated, z, h7) = >>=-eq-ok (select_hparams fl hparams mutable_hparams) _ h6 in
      let (m, got, old, read, changes) =
        element-All (IsCandidate P hparams) cs _ (candidates-IsCandidate P hparams _ sorted p) q in
      let change = element-All (IsChange m old) c.1 _ changes e in
      let same : old ≡ old_value = ok-injective (sym read ∙ l) in
      subst (IsMutation hparams config.mutations) (ok-injective h7) (record {
        mutation = m;
        configured = got;
        within = change.0;
        changed = subst (λ y. eq fl v.1 y ≡ false) same change.1;
        inherited = l;
        assigned = get-put mutated c.0 c.0 v.1 ∙ rw (eq_refl c.0);
        others = λ name n.
            get-put mutated c.0 name v.1
            ∙ rw n (get-select_hparams fl hparams mutable_hparams name z);
      })
