-- ===== src/Population/Best.antt =====
-- The donor that is selected has the best score, and the target the worst.
use rllib_async_runtime.Common.{
  ◌≡◌, ◌⊎◌, inl, inr, subst, String, eq_iff, Bool, true, false, some, [], ◌∷◌, All, if_ind, arith,
  ok, value_error, guard, >>=-eq-ok, ok-injective,
}
use rllib_async_runtime.Dict.{Dict, get, contains}
use rllib_async_runtime.Dict.Laws.{Distinct, contains-get, get_head}
use rllib_async_runtime.Episode.Versions.{keys_named}
use rllib_async_runtime.Population.{Floats, Mode, maximise, minimise}
use rllib_async_runtime.Population.Selection.{
  precedes, first_min, ge, donor_and_target, select_donor_and_target,
}

module _ {F : Type 0} (le : F → F → Bool) (total : (a b : F) → (le a b ≡ true) ⊎ (le b a ≡ true))
    (transitive : (a b c : F) → le a b ≡ true → le b c ≡ true → le a c ≡ true) where
  precedes-le : (a b : String × F) → precedes le a b ≡ true → le a.1 b.1 ≡ true
  precedes-le a b h = ground (arith, h)

  precedes-ge : (a b : String × F) → precedes le a b ≡ false → le b.1 a.1 ≡ true
  precedes-ge a b h = elim (total a.1 b.1) [ inl p ↦ ground (arith, h, p) | inr p ↦ p ]

  -- No score comes before that of the one found.
  pub first_min-least :
      (x : String × F) (d : Dict F)
      → All (λ (y : String × F). le (first_min le x d).1 y.1 ≡ true) (x ∷ d)
  unfolding first_min
  first_min-least x [] = (ground (arith, total x.1 x.1), tt)
  first_min-least x (y ∷ d) =
      let newer = first_min-least y d in
      let older = first_min-least x d in
      if_ind {A = String × F} (λ z. All (λ (w : String × F). le z.1 w.1 ≡ true) (x ∷ y ∷ d))
        (precedes le y x) (λ p. (transitive _ y.1 x.1 newer.0 (precedes-le y x p), newer))
        (λ p. (older.0, (transitive _ x.1 y.1 older.0 (precedes-ge y x p), older.1)))

module _ {F : Type 0} (le : F → F → Bool) where
  get_later :
      (x : String × F) (d : Dict F) (k : String) (v : F)
      → contains d x.0 ≡ false
      → get d k ≡ some v
      → get (x ∷ d) k ≡ some v
  unfolding get contains
  get_later x d k v h g = ground (arith, contains-get d k v g, eq_iff x.0 k)

  get-skip :
      (x y : String × F) (d : Dict F) (k : String) (v : F)
      → contains d y.0 ≡ false
      → get (x ∷ d) k ≡ some v
      → get (x ∷ y ∷ d) k ≡ some v
  unfolding get contains
  get-skip x y d k v h g = ground (arith, contains-get d k v, eq_iff x.0 k, eq_iff y.0 k)

  pub first_min-get :
      (x : String × F) (d : Dict F)
      → Distinct (x ∷ d)
      → get (x ∷ d) (first_min le x d).0 ≡ some (first_min le x d).1
  unfolding first_min contains
  first_min-get x [] h = get_head [] x.0 x.1
  first_min-get x (y ∷ d) h =
      let r = first_min le y d in
      let q = first_min le x d in
      let skipped : contains d x.0 ≡ false = ground (arith, h.0) in
      if_ind {A = String × F} (λ z. get (x ∷ y ∷ d) z.0 ≡ some z.1) (precedes le y x)
        (λ _. get_later x (y ∷ d) r.0 r.1 h.0 (first_min-get y d h.1))
        (λ _. get-skip x y d q.0 q.1 h.1.0 (first_min-get x d (skipped, h.1.1)))

module _ (fl : Floats) where
  -- The first score is at least as good as the second.
  abbrev pub IsNoWorse : Mode → fl.F → fl.F → Type 0
  IsNoWorse maximise a b = fl.le b a ≡ true
  IsNoWorse minimise a b = fl.le a b ≡ true

  -- The scores of the donor and of the target, and what holds of them among the scores.
  pub record IsSelection (mode : Mode) (scores : Dict fl.F) (donor target : String) : Type 0 where
    pub best : fl.F
    pub worst : fl.F
    pub donor_score : get scores donor ≡ some best
    pub target_score : get scores target ≡ some worst
    pub none_better : All (λ (x : String × fl.F). IsNoWorse mode best x.1) scores
    pub none_worse : All (λ (x : String × fl.F). IsNoWorse mode x.1 worst) scores

  donor_and_target-IsSelection :
      (mode : Mode) (x : String × fl.F) (d : Dict fl.F)
      → Distinct (x ∷ d)
      → IsSelection mode
          (x ∷ d)
          (donor_and_target fl mode x d).0.0
          (donor_and_target fl mode x d).1.0
  unfolding donor_and_target
  donor_and_target-IsSelection maximise x d h = record {
    best = (first_min (ge fl) x d).1;
    worst = (first_min fl.le x d).1;
    donor_score = first_min-get (ge fl) x d h;
    target_score = first_min-get fl.le x d h;
    none_better =
        first_min-least (ge fl) (λ a b. fl.total b a) (λ a b c p q. fl.transitive c b a q p) x d;
    none_worse = first_min-least fl.le fl.total fl.transitive x d;
  }
  donor_and_target-IsSelection minimise x d h = record {
    best = (first_min fl.le x d).1;
    worst = (first_min (ge fl) x d).1;
    donor_score = first_min-get fl.le x d h;
    target_score = first_min-get (ge fl) x d h;
    none_better = first_min-least fl.le fl.total fl.transitive x d;
    none_worse =
        first_min-least (ge fl) (λ a b. fl.total b a) (λ a b c p q. fl.transitive c b a q p) x d;
  }

  -- Where the scores of distinct slots are compared by a total order: the donor and the target that are
  -- selected are among the slots, no score is better than the donor's, and none is worse than the target's.
  pub select_donor_and_target-IsSelection :
      (mode : Mode) (scores : Dict fl.F) (donor target : String)
      → Distinct scores
      → select_donor_and_target fl mode scores ≡ ok (donor, target)
      → IsSelection mode scores donor target
  unfolding select_donor_and_target
  select_donor_and_target-IsSelection mode [] donor target h p = cc
  select_donor_and_target-IsSelection mode (x ∷ []) donor target h p = cc
  select_donor_and_target-IsSelection mode (x ∷ y ∷ d) donor target h p =
      let (_, _, q) = >>=-eq-ok (guard (keys_named (x ∷ y ∷ d)) value_error) _ p in
      let same = ok-injective q in
      subst (λ (z : String × String). IsSelection mode (x ∷ y ∷ d) z.0 z.1) same
        (donor_and_target-IsSelection mode x (y ∷ d) h)
