-- ===== src/Store/Loaded.antt =====
-- What the loops of `EpisodeStore.from_state` over the live episodes, the records and the base of the
-- journal guarantee when they succeed.
use rllib_async_runtime.Common.{
  ℕ, ◌≡◌, refl, sym, ◌∙◌, subst, String, str_eq, eq_iff, not, false, true, List, [], ◌∷◌, ◌++◌, map,
  map-append, append_assoc, length, leb, ◌==◌, ◌&&◌, arith, All, All-append, sum_of, sum_of-append,
  take, drop, take-append-drop, ok, invalid_store_state, guard, rethrow, ◌>>◌, >>=-eq-ok,
  guard-eq-ok, rethrow-eq-ok, ok-injective,
}
use rllib_async_runtime.Dict.{Dict, contains, lookup}
use rllib_async_runtime.Dict.Laws.{
  Distinct, Distinct-snoc, Distinct-middle, Distinct-append_left, put_new, contains-map,
  get-append_right, get_head,
}
use rllib_async_runtime.Episode.Value.{positive}
use rllib_async_runtime.Episode.Envelope.{EpisodeEnvelope, IsEnvelope}
use rllib_async_runtime.Episode.Codec.{EpisodeCodec, count_of}
use rllib_async_runtime.Retention.{Manifest, retention_manifest, retention_manifest_from_history}
use rllib_async_runtime.Retention.Laws.{
  transitions_of, bytes_of, keep, retention_manifest_from_history_lem,
}
use rllib_async_runtime.Store.{EpisodeRecord, Config}
use rllib_async_runtime.Store.Invariant.{
  record_item, item, entry_item, entry_count, manifest_of, counts_of, IsEntry,
}
use rllib_async_runtime.Store.State.{
  RecordEntry, BaseEntry, Live, no_episodes, add_live, load_live, load_records, load_base,
  same_manifest, digest_size,
}
use rllib_async_runtime.Store.Restore.{restore_base}

pub same_manifest_sound : (l m : Manifest) → same_manifest l m ≡ true → l ≡ m
unfolding same_manifest
same_manifest_sound [] [] h = refl
same_manifest_sound [] (y ∷ m) h = cc
same_manifest_sound (x ∷ l) [] h = cc
same_manifest_sound ((k, (t, b)) ∷ l) ((j, (u, c)) ∷ m) h =
    ground (arith, eq_iff k j, same_manifest_sound l m)

pub lookup-middle :
    (earlier later : Dict ℕ) (k : String) (n : ℕ)
    → Distinct (earlier ++ (k, n) ∷ later)
    → lookup (earlier ++ (k, n) ∷ later) k ≡ ok n
unfolding lookup
lookup-middle earlier later k n h = rw (
  get-append_right earlier ((k, n) ∷ later) k (Distinct-middle earlier later k n h),
  get_head later k n,
  lookup,
)

module _ (codec : EpisodeCodec) where
  validated_count :
      (e : EpisodeEnvelope) {n : ℕ}
      → (codec.validate e >> codec.transition_count e) ≡ ok n
      → (codec.validate e ≡ ok tt) × (count_of codec e ≡ n)
  unfolding count_of
  validated_count e h = let (u, p, q) = >>=-eq-ok (codec.validate e) _ h in (p, rw q)

  -- The local manifest of episodes whose counts are in the dictionary.
  counted_manifest :
      (earlier : Dict ℕ) (d : Dict EpisodeEnvelope)
      → Distinct (earlier ++ counts_of codec d)
      → retention_manifest d (earlier ++ counts_of codec d) ≡ ok (manifest_of codec d)
  unfolding retention_manifest
  counted_manifest earlier [] h = refl
  counted_manifest earlier ((k, e) ∷ d) h =
      let n = count_of codec e in
      let later = counts_of codec d in
      let split : (earlier ++ (k, n) ∷ []) ++ later ≡ earlier ++ (k, n) ∷ later =
        append_assoc earlier ((k, n) ∷ []) later in
      let found : lookup (earlier ++ (k, n) ∷ later) k ≡ ok n = lookup-middle earlier later k n h in
      let rest = counted_manifest (earlier ++ (k, n) ∷ []) d (rw split h) in
      rw (found, (rw split at rest))

  -- What the loop over the live episodes keeps.
  pub record IsLoaded (l : Live) : Type 0 where
    pub entries : All (IsEntry codec) l.episodes
    pub counts : l.transition_counts ≡ counts_of codec l.episodes
    pub distinct : Distinct (counts_of codec l.episodes)
    pub transitions : l.total_transitions ≡ sum_of transitions_of (manifest_of codec l.episodes)
    pub bytes : l.total_estimated_bytes ≡ sum_of bytes_of (manifest_of codec l.episodes)

  pub IsLoaded-manifest :
      (l : Live)
      → IsLoaded l
      → retention_manifest l.episodes l.transition_counts ≡ ok (manifest_of codec l.episodes)
  IsLoaded-manifest l h = rw h.counts (counted_manifest [] l.episodes h.distinct)

  pub no_episodes-IsLoaded : IsLoaded no_episodes
  no_episodes-IsLoaded = record {
    entries = tt;
    counts = refl;
    distinct = tt;
    transitions = refl;
    bytes = refl;
  }

  module _ (l : Live) (h : IsLoaded l) (e : EpisodeEnvelope) (w : IsEnvelope e)
      (v : codec.validate e ≡ ok tt) (fresh : contains l.episodes e.episode_id ≡ false) where
    abbrev entry : String × EpisodeEnvelope
    entry = (e.episode_id, e)

    uncounted : contains (counts_of codec l.episodes) e.episode_id ≡ false
    uncounted = contains-map (entry_count codec) (λ x. refl) l.episodes e.episode_id ∙ fresh

    manifest_snoc :
        manifest_of codec (l.episodes ++ entry ∷ [])
        ≡ manifest_of codec l.episodes ++ item codec e ∷ []
    manifest_snoc = map-append (entry_item codec) l.episodes (entry ∷ [])

    counts_snoc :
        counts_of codec (l.episodes ++ entry ∷ [])
        ≡ counts_of codec l.episodes ++ (e.episode_id, count_of codec e) ∷ []
    counts_snoc = map-append (entry_count codec) l.episodes (entry ∷ [])

    add_live-IsLoaded : IsLoaded (add_live l e (count_of codec e))
    add_live-IsLoaded =
        let m = manifest_of codec l.episodes in
        rw (put_new l.episodes e.episode_id e fresh) (record {
          entries =
              All-append (IsEntry codec) l.episodes (entry ∷ []) h.entries
                (record { named = refl; constructed = w; valid = v }, tt);
          counts =
              rw (h.counts, counts_snoc)
                (put_new (counts_of codec l.episodes) e.episode_id (count_of codec e) uncounted);
          distinct = rw counts_snoc (
              Distinct-snoc (counts_of codec l.episodes) e.episode_id (count_of codec e) h.distinct
                uncounted);
          transitions = rw manifest_snoc (
              omega (arith, h.transitions, sum_of-append {0} transitions_of m (item codec e ∷ [])));
          bytes =
              rw manifest_snoc
                (omega (arith, h.bytes, sum_of-append {0} bytes_of m (item codec e ∷ [])));
        })

  pub load_live-IsLoaded :
      (es : List EpisodeEnvelope) (l : Live) {l' : Live}
      → All IsEnvelope es
      → IsLoaded l
      → load_live codec es l ≡ ok l'
      → IsLoaded l'
  unfolding load_live
  load_live-IsLoaded [] l w h p = subst IsLoaded (ok-injective p) h
  load_live-IsLoaded (e ∷ es) l w h p =
      let (n, q, p1) =
        >>=-eq-ok (rethrow invalid_store_state (codec.validate e >> codec.transition_count e)) _
          p in
      let (u, f, p2) =
        >>=-eq-ok (guard (not (contains l.episodes e.episode_id)) invalid_store_state) _ p1 in
      let fresh : contains l.episodes e.episode_id ≡ false = ground (arith, guard-eq-ok _ _ f) in
      let (v, c) = validated_count e (rethrow-eq-ok _ _ q) in
      load_live-IsLoaded es (add_live l e n) w.1
        (subst (λ k. IsLoaded (add_live l e k)) c (add_live-IsLoaded l h e w.0 v fresh)) p2

-- No ID stands twice among the records.
pub load_records-Distinct :
    (cap_t cap_b : ℕ) (rs : List RecordEntry) (d : Dict EpisodeRecord) {d' : Dict EpisodeRecord}
    → Distinct (map record_item d)
    → load_records cap_t cap_b rs d ≡ ok d'
    → Distinct (map record_item d')
unfolding load_records
load_records-Distinct cap_t cap_b [] d h p =
    subst (λ x. Distinct (map record_item x)) (ok-injective p) h
load_records-Distinct cap_t cap_b (r ∷ rs) d h p =
    let (_, _, p1) = >>=-eq-ok (guard (not (str_eq r.episode_id "")) invalid_store_state) _ p in
    let (_, _, p2) =
      >>=-eq-ok (guard (length r.fingerprint == digest_size) invalid_store_state) _ p1 in
    let (t, _, p3) = >>=-eq-ok (positive invalid_store_state r.transition_count) _ p2 in
    let (b, _, p4) = >>=-eq-ok (positive invalid_store_state r.estimated_bytes) _ p3 in
    let (_, f, p5) = >>=-eq-ok (guard (not (contains d r.episode_id)) invalid_store_state) _ p4 in
    let (_, _, p6) = >>=-eq-ok (guard (leb t cap_t && leb b cap_b) invalid_store_state) _ p5 in
    let x : EpisodeRecord = record {
      fingerprint = r.fingerprint;
      transition_count = t;
      estimated_bytes = b;
    } in
    let fresh : contains d r.episode_id ≡ false = ground (arith, guard-eq-ok _ _ f) in
    load_records-Distinct cap_t cap_b rs _
      (rw (put_new d r.episode_id x fresh, map-append record_item d ((r.episode_id, x) ∷ []))
        (Distinct-snoc (map record_item d) r.episode_id (t, b) h
          (contains-map record_item (λ y. refl) d r.episode_id ∙ fresh)))
      p6

-- The base is what the policy keeps of the history before the journal.
pub restore_base_lem :
    (c : Config) (d : Dict EpisodeRecord) (n : ℕ) (xs : List BaseEntry) {base : Manifest}
    → Distinct (map record_item d)
    → restore_base c d n xs ≡ ok base
    → base ≡ keep c.capacity_transitions c.capacity_bytes (take n (map record_item d))
unfolding restore_base
restore_base_lem c d n xs h p =
    let history = map record_item d in
    let (base, _, p1) = >>=-eq-ok (load_base d xs []) _ p in
    let (expected, q, p2) =
      >>=-eq-ok
        (retention_manifest_from_history c.capacity_transitions c.capacity_bytes (take n history)) _
        p1 in
    let (_, s, p3) = >>=-eq-ok (guard (same_manifest base expected) invalid_store_state) _ p2 in
    let older : Distinct (take n history) =
      Distinct-append_left (take n history) (drop n history) (rw (take-append-drop n history) h) in
    sym (ok-injective p3)
    ∙ same_manifest_sound base expected (guard-eq-ok _ _ s)
    ∙ ok-injective (
        sym q
        ∙ retention_manifest_from_history_lem c.capacity_transitions c.capacity_bytes
            (take n history) older)
