-- ===== src/Population/Counting.antt =====
-- The counters of a population agree after any reports.
use rllib_async_runtime.Common.{
  ℕ, ◌+◌, ◌≤◌, ◌≡◌, refl, sym, ap, ◌∙◌, subst, String, str_eq, eq_iff, Bool-cases, inl, inr, none,
  [], ◌∷◌, map, sum_of, arith, Result, ok, raise, >>=-eq-ok, ok-injective,
}
use rllib_async_runtime.Dict.{Dict, get, put, lookup}
use rllib_async_runtime.Population.{Floats}
use rllib_async_runtime.Population.Step.{
  Restart, restarted, broken, validate_id_segment, member_id_text, make_runtime_member_id,
  PopulationAsyncSac, Answer, installed, next_target, settle, replace_target,
}

abbrev pub total_of : Dict ℕ → ℕ
total_of = sum_of (λ x. x.1)

-- One more under a key that is there adds one to the sum.
total_of-put :
    (d : Dict ℕ) (k : String) (n : ℕ)
    → lookup d k ≡ ok n
    → total_of (put d k (n + 1)) ≡ total_of d + 1
unfolding lookup get put
total_of-put [] k n h = cc
total_of-put ((j, m) ∷ d) k n h = elim (Bool-cases (str_eq j k)) [
  | inl e ↦
      let same : m ≡ n = ok-injective (rw (lookup, get, e) at h) in
      rw (e, put) (omega (arith, same))
  | inr e ↦
      let rest = total_of-put d k n (rw (lookup, get, e) at h) in rw (e, put) (omega (arith, rest))
]

module _ (fl : Floats) (padded : ℕ → String) where
  abbrev named_slot : (run_id : String) → String × ℕ → String × String
  named_slot run_id x = (x.0, member_id_text padded run_id x.0 x.1)

  put_named :
      (run_id : String) (d : Dict ℕ) (k : String) (n : ℕ)
      → put (map (named_slot run_id) d) k (member_id_text padded run_id k n)
        ≡ map (named_slot run_id) (put d k n)
  unfolding put
  put_named run_id [] k n = refl
  put_named run_id ((j, m) ∷ d) k n = elim (Bool-cases (str_eq j k)) [
    | inl e ↦
        rw (e, put)
          (ap (λ i. (j, member_id_text padded run_id i n) ∷ map (named_slot run_id) d)
            (sym ((eq_iff j k).0 e)))
    | inr e ↦ rw (e, put) (ap (◌∷◌ (j, member_id_text padded run_id j m)) (put_named run_id d k n))
  ]

  -- The exploits are those of the targets, each of which advanced its slot by one generation and gave
  -- it the ID of that generation; no slot is being restarted, and the reports since the last
  -- perturbation are among all reports.
  pub record IsCounted (p : PopulationAsyncSac fl) : Type 0 where
    pub exploits : p.exploit_count ≡ total_of p.exploit_count_as_target
    pub advanced : p.exploit_count_as_target ≡ p.generations
    pub named : p.runtime_member_ids ≡ map (named_slot p.run_id) p.generations
    pub settled : p.restarting_slot ≡ none
    pub reported : p.reports_since_perturbation ≤ p.report_index

  -- The population once a target was replaced, before the exploit is counted.
  pub record IsReplaced (p q : PopulationAsyncSac fl) : Type 0 where
    pub exploits : q.exploit_count + 1 ≡ total_of q.exploit_count_as_target
    pub advanced : q.exploit_count_as_target ≡ q.generations
    pub named : q.runtime_member_ids ≡ map (named_slot q.run_id) q.generations
    pub settled : q.restarting_slot ≡ none

  -- What holds after `_replace_target`.
  abbrev pub Settled : PopulationAsyncSac fl → Answer fl String → Type 0
  Settled p (raise error, q) = IsCounted q
  Settled p (ok k, q) = IsReplaced p q

  module _ (p : PopulationAsyncSac fl) (h : IsCounted p) where
    installed-IsReplaced :
        (target_slot : String) (hparams : Dict fl.F) (generation as_target : ℕ)
        → lookup p.generations target_slot ≡ ok generation
        → lookup p.exploit_count_as_target target_slot ≡ ok as_target
        → IsReplaced p (
            installed fl p target_slot
              (generation + 1)
              as_target
              (member_id_text padded p.run_id target_slot (generation + 1))
              hparams)
    installed-IsReplaced target_slot hparams generation as_target g t =
        let same : as_target ≡ generation =
          ok-injective (sym t ∙ ap (λ d. lookup d target_slot) h.advanced ∙ g) in
        record {
          exploits =
              ap (λ n. n + 1) h.exploits
              ∙ sym (total_of-put p.exploit_count_as_target target_slot as_target t);
          advanced = rw (h.advanced, same) refl;
          named = rw h.named (put_named p.run_id p.generations target_slot (generation + 1));
          settled = refl;
        }

    member_id_lem :
        (slot_id : String) (n : ℕ) {k : String}
        → make_runtime_member_id padded p.run_id slot_id n ≡ ok k
        → member_id_text padded p.run_id slot_id n ≡ k
    unfolding make_runtime_member_id
    member_id_lem slot_id n e =
        let (_, _, e1) = >>=-eq-ok (validate_id_segment p.run_id) _ e in
        let (_, _, e2) = >>=-eq-ok (validate_id_segment slot_id) _ e1 in ok-injective e2

    settle-Settled :
        (restart : Restart) (target_slot : String) (hparams : Dict fl.F)
        (r : Result (ℕ × ℕ × String))
        → next_target fl padded p target_slot ≡ r
        → Settled p (settle fl restart p target_slot hparams r)
    unfolding settle next_target
    settle-Settled _ target_slot hparams (raise error) e = h
    settle-Settled restarted target_slot hparams (ok (generation, as_target, k)) e =
        let (_, _, e1) = >>=-eq-ok (lookup p.members target_slot) _ e in
        let (g, pg, e2) = >>=-eq-ok (lookup p.generations target_slot) _ e1 in
        let (k', pk, e3) =
          >>=-eq-ok (make_runtime_member_id padded p.run_id target_slot (g + 1)) _ e2 in
        let (t, pt, e4) = >>=-eq-ok (lookup p.exploit_count_as_target target_slot) _ e3 in
        subst
          (λ (x : ℕ × ℕ × String). IsReplaced p (installed fl p target_slot x.0 x.1 x.2 hparams))
          (ok-injective e4)
          (subst (λ i. IsReplaced p (installed fl p target_slot (g + 1) t i hparams))
            (member_id_lem target_slot (g + 1) pk)
            (installed-IsReplaced target_slot hparams g t pg pt))
    settle-Settled (broken left) target_slot hparams (ok (generation, as_target, k)) e = record {
      exploits = h.exploits;
      advanced = h.advanced;
      named = h.named;
      settled = refl;
      reported = h.reported;
    }

    pub replace_target-Settled :
        (restart : Restart) (target_slot : String) (hparams : Dict fl.F)
        → Settled p (replace_target fl padded restart p target_slot hparams)
    unfolding replace_target
    replace_target-Settled restart target_slot hparams =
        settle-Settled restart target_slot hparams (next_target fl padded p target_slot) refl
