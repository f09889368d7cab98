-- ===== src/Dict/Laws.antt =====
-- The laws of ordered dictionaries: lookups after a write, and the order of the keys.
use rllib_async_runtime.Common.{
  ℕ, ◌+◌, String, str_eq, eq_iff, eq_refl, ◌≡◌, ◌≢◌, refl, sym, ◌∙◌, true, false, none, some, [],
  ◌∷◌, ◌++◌, map, arith, ok, if◌then◌else◌, Bool-cases, inl, inr,
}
use rllib_async_runtime.Dict.{Dict, get, contains, put, remove, lookup, tally, increase}

pub str_eq_ne : (j k : String) → j ≢ k → str_eq j k ≡ false
str_eq_ne j k h = elim (Bool-cases (str_eq j k)) [
  | inl e ↦ absurd (h ((eq_iff j k).0 e))
  | inr e ↦ e
]

module _ {ℓ} {V : Type ℓ} where
  -- No key stands twice.
  abbrev pub Distinct : Dict V → Type 0
  Distinct [] = Unit
  Distinct ((k, v) ∷ d) = (contains d k ≡ false) × Distinct d

  pub get-contains : (d : Dict V) (k : String) → contains d k ≡ false → get d k ≡ none
  unfolding get contains
  get-contains [] k h = refl
  get-contains ((j, v) ∷ d) k h = ground (arith, get-contains d k)

  pub contains-get : (d : Dict V) (k : String) (v : V) → get d k ≡ some v → contains d k ≡ true
  unfolding get contains
  contains-get [] k v h = cc
  contains-get ((j, w) ∷ d) k v h = ground (arith, contains-get d k v)

  pub contains_of_get-none : (d : Dict V) (k : String) → get d k ≡ none → contains d k ≡ false
  unfolding get contains
  contains_of_get-none [] k h = refl
  contains_of_get-none ((j, w) ∷ d) k h = ground (arith, contains_of_get-none d k)

  pub get-put :
      (d : Dict V) (k j : String) (v : V)
      → get (put d k v) j ≡ (if str_eq k j then some v else get d j)
  unfolding get put
  get-put [] k j v = refl
  get-put ((i, w) ∷ d) k j v = ground (arith, get-put d k j v, eq_iff i k, eq_iff i j, eq_iff k j)

  pub contains-put :
      (d : Dict V) (k j : String) (v : V)
      → contains (put d k v) j ≡ (if str_eq k j then true else contains d j)
  unfolding contains put
  contains-put [] k j v = refl
  contains-put ((i, w) ∷ d) k j v =
      ground (arith, contains-put d k j v, eq_iff i k, eq_iff i j, eq_iff k j)

  -- A new key goes to the end.
  pub put_new :
      (d : Dict V) (k : String) (v : V) → contains d k ≡ false → put d k v ≡ d ++ (k, v) ∷ []
  unfolding contains put
  put_new [] k v h = refl
  put_new ((j, w) ∷ d) k v h = ground (arith, put_new d k v)

  pub remove_head : (d : Dict V) (k : String) (v : V) → remove ((k, v) ∷ d) k ≡ d
  unfolding remove
  remove_head d k v = rw (eq_refl k)

  pub get_head : (d : Dict V) (k : String) (v : V) → get ((k, v) ∷ d) k ≡ some v
  unfolding get
  get_head d k v = rw (eq_refl k)

  pub contains_head : (d : Dict V) (k : String) (v : V) → contains ((k, v) ∷ d) k ≡ true
  unfolding contains
  contains_head d k v = rw (eq_refl k)

  pub lookup_head : (d : Dict V) (k : String) (v : V) → lookup ((k, v) ∷ d) k ≡ ok v
  unfolding lookup get
  lookup_head d k v = ground (arith, eq_refl k)

  pub contains-append :
      (d e : Dict V) (k : String)
      → contains (d ++ e) k ≡ (if contains d k then true else contains e k)
  unfolding contains
  contains-append [] e k = refl
  contains-append ((j, v) ∷ d) e k = ground (arith, contains-append d e k)

  pub get-append_left :
      (d e : Dict V) (k : String) (v : V) → get d k ≡ some v → get (d ++ e) k ≡ some v
  unfolding get
  get-append_left [] e k v h = cc
  get-append_left ((j, w) ∷ d) e k v h = ground (arith, get-append_left d e k v)

  pub get-append_right :
      (d e : Dict V) (k : String) → contains d k ≡ false → get (d ++ e) k ≡ get e k
  unfolding get contains
  get-append_right [] e k h = refl
  get-append_right ((j, w) ∷ d) e k h = ground (arith, get-append_right d e k)

  pub Distinct-append_right : (d e : Dict V) → Distinct (d ++ e) → Distinct e
  Distinct-append_right [] e h = h
  Distinct-append_right (x ∷ d) e h = Distinct-append_right d e h.1

  pub Distinct-snoc :
      (d : Dict V) (k : String) (v : V)
      → Distinct d
      → contains d k ≡ false
      → Distinct (d ++ (k, v) ∷ [])
  unfolding contains
  Distinct-snoc [] k v h n = (refl, tt)
  Distinct-snoc ((j, w) ∷ d) k v h n =
      let jk : str_eq j k ≡ false = ground arith in
      let kj : str_eq k j ≡ false = ground (arith, eq_iff j k, eq_iff k j) in
      (rw (contains-append d ((k, v) ∷ []) j, h.0, kj), Distinct-snoc d k v h.1 (ground arith))

  -- What an earlier entry's key names, no later entry has.
  pub contains-append_right :
      (d e : Dict V) (k : String) → contains (d ++ e) k ≡ false → contains e k ≡ false
  unfolding contains
  contains-append_right [] e k h = h
  contains-append_right ((j, v) ∷ d) e k h = contains-append_right d e k (ground arith)

-- A counter reads what was added and taken, and no other key changes.
pub tally-increase :
    (c : Dict ℕ) (k j : String) (n : ℕ)
    → tally (increase c k n) j ≡ (if str_eq k j then tally c k + n else tally c j)
unfolding tally increase
tally-increase c k j n = ground (arith, get-put c k j (tally c k + n))

module _ {ℓ} {V : Type ℓ} where
  -- In a dictionary with distinct keys, a key does not stand before its own entry.
  pub Distinct-middle :
      (d e : Dict V) (k : String) (v : V) → Distinct (d ++ (k, v) ∷ e) → contains d k ≡ false
  unfolding contains
  Distinct-middle [] e k v h = refl
  Distinct-middle ((j, w) ∷ d) e k v h =
      let later : contains ((k, v) ∷ e) j ≡ false = contains-append_right d ((k, v) ∷ e) j h.0 in
      ground (arith, later, Distinct-middle d e k v h.1, eq_iff j k, eq_iff k j)

  pub Distinct-append_left : (d e : Dict V) → Distinct (d ++ e) → Distinct d
  Distinct-append_left [] e h = tt
  Distinct-append_left ((k, v) ∷ d) e h =
      (ground (arith, h.0, contains-append d e k), Distinct-append_left d e h.1)

-- A map that keeps the keys keeps membership.
pub contains-map {ℓ κ} :
    {V : Type ℓ} {W : Type κ} (f : String × V → String × W)
    → ((x : String × V) → (f x).0 ≡ x.0)
    → (d : Dict V) (k : String) → contains (map f d) k ≡ contains d k
unfolding contains
contains-map f h [] k = refl
contains-map f h (x ∷ d) k = rw (h x, contains-map f h d k)

pub Distinct-map {ℓ κ} :
    {V : Type ℓ} {W : Type κ} (f : String × V → String × W)
    → ((x : String × V) → (f x).0 ≡ x.0)
    → (d : Dict V) → Distinct (map f d)
    → Distinct d
Distinct-map f h [] p = tt
Distinct-map f h (x ∷ d) p = (sym (contains-map f h d x.0) ∙ rw (← h x) p.0, Distinct-map f h d p.1)
