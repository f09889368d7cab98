-- ===== src/Store/Exported.antt =====
-- The loops of `EpisodeStore.from_state` on what `EpisodeStore.export_state` writes.
use rllib_async_runtime.Common.{
  ℕ, ◌<◌, ◌≡◌, refl, ◌∙◌, subst, String, str_eq, eq_refl, false, true, some, [], ◌∷◌, ◌++◌, map,
  append_assoc, append-nil, leb, ==_refl, ◌&&◌, arith, All, ok, invalid_store_state,
}
use rllib_async_runtime.Dict.{Dict, get, contains}
use rllib_async_runtime.Dict.Laws.{
  Distinct, Distinct-middle, put_new, contains-get, get-append_right, get_head,
}
use rllib_async_runtime.Episode.Value.{positive_int}
use rllib_async_runtime.Retention.{Manifest}
use rllib_async_runtime.Store.{EpisodeRecord}
use rllib_async_runtime.Store.Invariant.{record_item}
use rllib_async_runtime.Store.Stamps.{IsStamp}
use rllib_async_runtime.Store.State.{
  record_entry, base_entry, load_records, load_base, same_sizes, same_manifest,
}

pub same_manifest_refl : (m : Manifest) → same_manifest m m ≡ true
unfolding same_manifest
same_manifest_refl [] = refl
same_manifest_refl ((k, (t, b)) ∷ m) = rw (eq_refl k, ==_refl t, ==_refl b) (same_manifest_refl m)

module _ (cap_t cap_b : ℕ) where
  pub load_records_entries :
      (earlier d : Dict EpisodeRecord)
      → Distinct (earlier ++ d)
      → All (IsStamp cap_t cap_b) d
      → load_records cap_t cap_b (map record_entry d) earlier ≡ ok (earlier ++ d)
  unfolding load_records
  load_records_entries earlier [] h a = rw (append-nil earlier)
  load_records_entries earlier ((k, r) ∷ d) h a =
      let fresh : contains earlier k ≡ false = Distinct-middle earlier d k r h in
      let fits : (leb r.transition_count cap_t && leb r.estimated_bytes cap_b) ≡ true =
        ground (arith, a.0.fits) in
      let split : (earlier ++ (k, r) ∷ []) ++ d ≡ earlier ++ (k, r) ∷ d =
        append_assoc earlier ((k, r) ∷ []) d in
      rw
        (
          a.0.named,
          a.0.digest,
          positive_int invalid_store_state r.transition_count a.0.counted,
          positive_int invalid_store_state r.estimated_bytes a.0.sized,
          fresh,
          fits,
          put_new earlier k r fresh,
          ← split,
        )
        (load_records_entries (earlier ++ (k, r) ∷ []) d (rw split h) a.1)

-- An entry of sizes that the records bear out.
pub record IsRecorded (d : Dict EpisodeRecord) (x : String × (ℕ × ℕ)) : Type 0 where
  pub named : str_eq x.0 "" ≡ false
  pub counted : 0 < x.1.0
  pub sized : 0 < x.1.1
  pub there : contains d x.0 ≡ true
  pub same : same_sizes d x.0 x.1.0 x.1.1 ≡ true

pub same_sizes-get :
    (d : Dict EpisodeRecord) (k : String) (r : EpisodeRecord)
    → get d k ≡ some r
    → same_sizes d k r.transition_count r.estimated_bytes ≡ true
unfolding same_sizes
same_sizes-get d k r h = rw (h, same_sizes, ==_refl r.transition_count, ==_refl r.estimated_bytes)

pub IsRecorded-All :
    (cap_t cap_b : ℕ) (earlier d : Dict EpisodeRecord)
    → Distinct (earlier ++ d)
    → All (IsStamp cap_t cap_b) d
    → All (IsRecorded (earlier ++ d)) (map record_item d)
IsRecorded-All cap_t cap_b earlier [] h a = tt
IsRecorded-All cap_t cap_b earlier ((k, r) ∷ d) h a =
    let found : get (earlier ++ (k, r) ∷ d) k ≡ some r =
      get-append_right earlier ((k, r) ∷ d) k (Distinct-middle earlier d k r h) ∙ get_head d k r in
    let split : (earlier ++ (k, r) ∷ []) ++ d ≡ earlier ++ (k, r) ∷ d =
      append_assoc earlier ((k, r) ∷ []) d in
    let rest = IsRecorded-All cap_t cap_b (earlier ++ (k, r) ∷ []) d (rw split h) a.1 in
    (
      record {
        named = a.0.named;
        counted = a.0.counted;
        sized = a.0.sized;
        there = contains-get (earlier ++ (k, r) ∷ d) k r found;
        same = same_sizes-get (earlier ++ (k, r) ∷ d) k r found;
      },
      subst (λ y. All (IsRecorded y) (map record_item d)) split rest,
    )

pub load_base_entries :
    (d : Dict EpisodeRecord) (earlier m : Manifest)
    → Distinct (earlier ++ m)
    → All (IsRecorded d) m
    → load_base d (map base_entry m) earlier ≡ ok (earlier ++ m)
unfolding load_base
load_base_entries d earlier [] h a = rw (append-nil earlier)
load_base_entries d earlier ((k, (t, b)) ∷ m) h a =
    let fresh : contains earlier k ≡ false = Distinct-middle earlier m k (t, b) h in
    let split : (earlier ++ (k, (t, b)) ∷ []) ++ m ≡ earlier ++ (k, (t, b)) ∷ m =
      append_assoc earlier ((k, (t, b)) ∷ []) m in
    rw
      (
        a.0.named,
        positive_int invalid_store_state t a.0.counted,
        positive_int invalid_store_state b a.0.sized,
        fresh,
        a.0.there,
        a.0.same,
        put_new earlier k (t, b) fresh,
        ← split,
      )
      (load_base_entries d (earlier ++ (k, (t, b)) ∷ []) m (rw split h) a.1)
