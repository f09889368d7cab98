-- ===== src/Episode/Versions.antt =====
-- `FrozenVersions`: an immutable mapping of module IDs to versions, sorted by key.
use Prim.Native.Nat.{Ordering}
use Prim.Native.String.{compare}
use rllib_async_runtime.Common.{
  ℕ, String, str_eq, Bool, true, false, not, ◌&&◌, [], ◌∷◌, if◌then◌else◌, Result, ok,
  episode_validation, guard, ◌>>=◌, ◌>>◌,
}
use rllib_async_runtime.Dict.{Dict, contains, lookup}
use rllib_async_runtime.Episode.Value.{Value, non_negative}

-- `a <= b` on texts.
abbrev pub text_le : String → String → Bool
text_le a b = elim (compare a b) [ Ordering.gt ↦ false | _ ↦ true ]

module _ {ℓ} {V : Type ℓ} where
  unfoldable pub insert_by_key : String → V → Dict V → Dict V
  insert_by_key k v [] = (k, v) ∷ []
  insert_by_key k v ((j, w) ∷ d) =
      if text_le k j then (k, v) ∷ (j, w) ∷ d else (j, w) ∷ insert_by_key k v d

  -- `sorted(items)`, for items with distinct keys.
  unfoldable pub sort_by_key : Dict V → Dict V
  unfolding insert_by_key
  sort_by_key [] = []
  sort_by_key ((k, v) ∷ d) = insert_by_key k v (sort_by_key d)

  -- `len(keys) == len(set(keys))`
  unfoldable pub keys_unique : Dict V → Bool
  unfolding contains
  keys_unique [] = true
  keys_unique ((k, v) ∷ d) = not (contains d k) && keys_unique d

  -- every key is a non-empty text
  unfoldable pub keys_named : Dict V → Bool
  keys_named [] = true
  keys_named ((k, v) ∷ d) = not (str_eq k "") && keys_named d

unfoldable pub versions_checked : Dict Value → Result (Dict ℕ)
unfolding non_negative
versions_checked [] = ok []
versions_checked ((k, v) ∷ d) = do
  n ← non_negative episode_validation v
  rest ← versions_checked d
  ok ((k, n) ∷ rest)

-- `FrozenVersions.__init__`
unfoldable pub frozen_versions : Dict Value → Result (Dict ℕ)
unfolding keys_unique keys_named versions_checked sort_by_key
frozen_versions items = do
  guard (keys_unique items) episode_validation
  guard (keys_named items) episode_validation
  checked ← versions_checked items
  ok (sort_by_key checked)

-- `FrozenVersions.__getitem__`
unfoldable pub version_of : Dict ℕ → String → Result ℕ
unfolding lookup
version_of items key = lookup items key
