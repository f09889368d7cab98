-- ===== src/Dict.antt =====
-- Python's `dict` and `OrderedDict` with text keys: an association list in insertion order.
-- A write to a key that is there keeps its place; a new key goes to the end; `popitem(last=False)`
-- takes the head.
pub mod Laws
pub mod Counters
use rllib_async_runtime.Common.{
  ℕ, ◌+◌, ◌-◌, String, str_eq, Bool, true, false, Option, none, some, List, [], ◌∷◌, map,
  if◌then◌else◌, Result, ok, raise, key_error, ◌==◌,
}

abbrev pub Dict {ℓ} : Type ℓ → Type ℓ
Dict V = List (String × V)

module _ {ℓ} {V : Type ℓ} where
  -- `d.get(k)`
  unfoldable pub get : Dict V → String → Option V
  get [] k = none
  get ((j, v) ∷ d) k = if str_eq j k then some v else get d k

  -- `k in d`
  unfoldable pub contains : Dict V → String → Bool
  contains [] k = false
  contains ((j, v) ∷ d) k = if str_eq j k then true else contains d k

  -- `d[k] = v`
  unfoldable pub put : Dict V → String → V → Dict V
  put [] k v = (k, v) ∷ []
  put ((j, w) ∷ d) k v = if str_eq j k then (j, v) ∷ d else (j, w) ∷ put d k v

  -- `del d[k]`, where the key is known to be there
  unfoldable pub remove : Dict V → String → Dict V
  remove [] k = []
  remove ((j, w) ∷ d) k = if str_eq j k then d else (j, w) ∷ remove d k

  -- `d[k]`
  unfoldable pub lookup : Dict V → String → Result V
  unfolding get
  lookup d k = elim (get d k) [ none ↦ raise key_error | some v ↦ ok v ]

  abbrev pub keys : Dict V → List String
  keys = map (λ e. e.0)

  abbrev pub values : Dict V → List V
  values = map (λ e. e.1)

-- `collections.Counter`: a missing key counts zero.
unfoldable pub tally : Dict ℕ → String → ℕ
tally c k = elim (get c k) [ none ↦ 0 | some n ↦ n ]

-- `c[k] += n`
unfoldable pub increase : Dict ℕ → String → ℕ → Dict ℕ
increase c k n = put c k (tally c k + n)

-- `c[k] -= n; if not c[k]: del c[k]`
unfoldable pub decrease : Dict ℕ → String → ℕ → Dict ℕ
decrease c k n = let rest = tally c k - n in if rest == 0 then remove c k else put c k rest
