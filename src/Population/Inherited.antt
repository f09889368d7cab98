-- ===== src/Population/Inherited.antt =====
-- What `_mutate_hparams` takes over from the donor: `{name: hparams[name] for name in names}`.
use rllib_async_runtime.Common.{
  ◌≡◌, sym, ap, ◌∙◌, String, eq_iff, none, some, List, [], ◌∷◌, arith, if◌then◌else◌, ok, >>=-eq-ok,
  ok-injective, inl, inr, Option-cases,
}
use rllib_async_runtime.Dict.{Dict, get, lookup}
use rllib_async_runtime.Population.{Floats}
use rllib_async_runtime.Population.Mutation.{select_hparams}
use rllib_async_runtime.Rollout.Weights.{listed}

lookup-eq-ok {ℓ} :
    {V : Type ℓ} (d : Dict V) (k : String) (v : V) → lookup d k ≡ ok v → get d k ≡ some v
unfolding lookup
lookup-eq-ok d k v h = elim (Option-cases (get d k)) [ inl n ↦ cc | inr (w, e) ↦ cc ]

-- The selection has the listed entries of the dictionary and no others.
pub get-select_hparams :
    (fl : Floats) (hparams : Dict fl.F) (names : List String) {r : Dict fl.F} (name : String)
    → select_hparams fl hparams names ≡ ok r
    → get r name ≡ (if listed name names then get hparams name else none)
unfolding select_hparams listed get
get-select_hparams fl hparams [] name h = ap (λ d. get d name) (sym (ok-injective h))
get-select_hparams fl hparams (n ∷ names) name h =
    let (v, p, h1) = >>=-eq-ok (lookup hparams n) _ h in
    let (rest, q, h2) = >>=-eq-ok (select_hparams fl hparams names) _ h1 in
    ap (λ d. get d name) (sym (ok-injective h2))
    ∙ ground (
      arith,
      get-select_hparams fl hparams names name q,
      lookup-eq-ok hparams n v p,
      eq_iff n name,
      eq_iff name n,
    )
