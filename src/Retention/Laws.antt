-- ===== src/Retention/Laws.antt =====
-- The retention loops against the abstract policy of Fifo.
use rllib_async_runtime.Common.{
  ℕ, ◌+◌, ◌-◌, String, eq_refl, ◌≡◌, refl, true, false, List, [], ◌∷◌, ◌++◌, append_assoc, arith,
  append-nil, eq_iff, sum_of, sum_of-append, Bool-cases, inl, inr, ok,
}
use rllib_async_runtime.Dict.{contains, put, keys}
use rllib_async_runtime.Dict.Laws.{put_new, Distinct, Distinct-middle, contains-append_right}
use rllib_async_runtime.Fifo.{exceeds, survivors, victims}
use rllib_async_runtime.Fifo.Laws.{victims-append-survivors, survivors_snoc}
use rllib_async_runtime.Retention.{
  Manifest, Trimmed, trim, replay_history, retention_manifest_from_history, same_ids, evict_fifo,
}

abbrev pub transitions_of : String × (ℕ × ℕ) → ℕ
transitions_of x = x.1.0

abbrev pub bytes_of : String × (ℕ × ℕ) → ℕ
bytes_of x = x.1.1

module _ (cap_t cap_b : ℕ) where
  abbrev pub keep : Manifest → Manifest
  keep = survivors transitions_of bytes_of cap_t cap_b

  abbrev pub dropped : Manifest → Manifest
  dropped = victims transitions_of bytes_of cap_t cap_b

  -- The state after the loop, by the policy.
  abbrev pub trimmed : Manifest → Trimmed
  trimmed m = record {
    manifest = keep m;
    evicted_episode_ids = keys (dropped m);
    total_transitions = sum_of transitions_of (keep m);
    total_estimated_bytes = sum_of bytes_of (keep m);
  }

  pub trim_lem :
      (m : Manifest)
      → trim cap_t cap_b m (sum_of transitions_of m) (sum_of bytes_of m) ≡ ok (trimmed m)
  unfolding trim survivors victims
  trim_lem [] = ground arith
  trim_lem ((k, (t, b)) ∷ m) =
      let cancel_t : t + sum_of transitions_of m - t ≡ sum_of transitions_of m = omega arith in
      let cancel_b : b + sum_of bytes_of m - b ≡ sum_of bytes_of m = omega arith in
      elim (Bool-cases (exceeds transitions_of bytes_of cap_t cap_b ((k, (t, b)) ∷ m))) [
        | inl e ↦ rw (e, cancel_t, cancel_b, trim_lem m)
        | inr e ↦ rw e
      ]

  module _ (item : String × (ℕ × ℕ)) (m : Manifest) where
    pub trim_snoc :
        contains m item.0 ≡ false
        → trim cap_t cap_b
            (put m item.0 item.1)
            (sum_of transitions_of m + item.1.0)
            (sum_of bytes_of m + item.1.1)
          ≡ ok (trimmed (m ++ item ∷ []))
    trim_snoc h =
        let st : sum_of transitions_of m + item.1.0 ≡ sum_of transitions_of (m ++ item ∷ []) =
          omega (arith, sum_of-append {0} transitions_of m (item ∷ [])) in
        let sb : sum_of bytes_of m + item.1.1 ≡ sum_of bytes_of (m ++ item ∷ []) =
          omega (arith, sum_of-append {0} bytes_of m (item ∷ [])) in
        rw (put_new m item.0 item.1 h, st, sb) (trim_lem (m ++ item ∷ []))

  pub keep-contains :
      (m : Manifest) (k : String) → contains m k ≡ false → contains (keep m) k ≡ false
  keep-contains m k h =
      contains-append_right (dropped m) (keep m) k
        (rw (victims-append-survivors transitions_of bytes_of cap_t cap_b m) h)

  -- Replaying a history one commit at a time keeps what the policy keeps of the whole.
  replay_history_lem :
      (earlier history : Manifest)
      → Distinct (earlier ++ history)
      → replay_history cap_t cap_b history
          (keep earlier)
          (sum_of transitions_of (keep earlier))
          (sum_of bytes_of (keep earlier))
        ≡ ok (keep (earlier ++ history))
  unfolding replay_history
  replay_history_lem earlier [] h = rw (append-nil earlier)
  replay_history_lem earlier ((k, (t, b)) ∷ history) h =
      let fresh : contains (keep earlier) k ≡ false =
        keep-contains earlier k (Distinct-middle earlier history k (t, b) h) in
      let split : (earlier ++ (k, (t, b)) ∷ []) ++ history ≡ earlier ++ (k, (t, b)) ∷ history =
        append_assoc earlier ((k, (t, b)) ∷ []) history in
      rw
        (
          trim_snoc (k, (t, b)) (keep earlier) fresh,
          survivors_snoc transitions_of bytes_of cap_t cap_b earlier (k, (t, b)),
          ← split,
        )
        (replay_history_lem (earlier ++ (k, (t, b)) ∷ []) history (rw split h))

  -- For a history without a repeated ID, replaying its additions and evicting from the front as long
  -- as a capacity is exceeded succeeds, and keeps the longest suffix of the history that fits.
  pub retention_manifest_from_history_lem :
      (history : Manifest)
      → Distinct history
      → retention_manifest_from_history cap_t cap_b history ≡ ok (keep history)
  unfolding retention_manifest_from_history survivors
  retention_manifest_from_history_lem history h = replay_history_lem [] history h

-- Deleting the oldest entries in order leaves the rest.
pub evict_fifo-append : (d m : Manifest) → evict_fifo (d ++ m) (keys d) ≡ ok m
unfolding evict_fifo
evict_fifo-append [] [] = refl
evict_fifo-append [] (x ∷ m) = refl
evict_fifo-append ((k, v) ∷ d) m = rw (eq_refl k) (evict_fifo-append d m)

pub same_ids_refl : (ids : List String) → same_ids ids ids ≡ true
unfolding same_ids
same_ids_refl [] = refl
same_ids_refl (a ∷ ids) = rw (eq_refl a) (same_ids_refl ids)

pub same_ids_sound : (as' bs : List String) → same_ids as' bs ≡ true → as' ≡ bs
unfolding same_ids
same_ids_sound [] [] h = refl
same_ids_sound [] (b ∷ bs) h = cc
same_ids_sound (a ∷ as') [] h = cc
same_ids_sound (a ∷ as') (b ∷ bs) h = ground (arith, eq_iff a b, same_ids_sound as' bs)
