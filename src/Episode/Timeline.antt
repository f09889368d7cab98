-- ===== src/Episode/Timeline.antt =====
-- The sparse timeline that a payload of several modules holds, as its constructor checks it, and how a
-- flat index finds its way into it.
use rllib_async_runtime.Common.{
  ℕ, ◌+◌, ◌<◌, ◌≤◌, ◌≡◌, sym, ap, ◌∙◌, subst, String, str_eq, eq_iff, eq_refl, true, Option, none,
  some, List, [], ◌∷◌, ◌++◌, map, length, arith, All, All-append, sum_of, sum_of-append, ◌==◌,
  if◌then◌else◌, Bool-cases, inl, inr, ok, episode_validation, guard, >>=-eq-ok, guard-eq-ok,
  ok-injective, ==_iff,
}
use rllib_async_runtime.Dict.{Dict, get, put, tally}
use rllib_async_runtime.Dict.Laws.{get-put}
use rllib_async_runtime.Episode.Payload.{
  EncodedModuleTransition, Groups, Timeline, is_later, keeps_module, note_transition,
}

-- A transition with the module that it is grouped under.
abbrev pub Entry : Type 0
Entry = String × EncodedModuleTransition

abbrev pub entries_of : String → List EncodedModuleTransition → List Entry
entries_of module_id = map (λ t. (module_id, t))

-- The transitions of all groups, in order.
abbrev pub flatten : Groups → List Entry
flatten [] = []
flatten ((module_id, ts) ∷ groups) = entries_of module_id ts ++ flatten groups

abbrev one_of : String → Entry → ℕ
one_of agent_id x = if str_eq x.1.agent_id agent_id then 1 else 0

abbrev pub data_size : Entry → ℕ
data_size x = length x.1.encoded_data

-- How many transitions are those of an agent.
abbrev pub count_agent : String → List Entry → ℕ
count_agent agent_id = sum_of (one_of agent_id)

-- An earlier transition of the same agent is of the same module, at an earlier step.
abbrev pub IsBefore : Entry → Entry → Type 0
IsBefore x y = str_eq y.1.agent_id x.1.agent_id ≡ true → (y.0 ≡ x.0) × (y.1.env_t < x.1.env_t)

-- Each transition is numbered by how many of its agent came before it, and comes after those.
abbrev pub IsTimeline : (done : List Entry) → List Entry → Type 0
IsTimeline done [] = Unit
IsTimeline done (x ∷ xs) =
    (x.1.agent_t ≡ count_agent x.1.agent_id done)
    × All (IsBefore x) done
    × IsTimeline (done ++ x ∷ []) xs

-- What the variables of the loops say of the transitions so far.
abbrev pub IsSeen : Timeline → Entry → Type 0
IsSeen l y =
    (get l.agent_modules y.1.agent_id ≡ some y.0)
    × (n : ℕ) × (get l.previous_agent_env_t y.1.agent_id ≡ some n)
    × (y.1.env_t ≤ n)

pub record IsNoted (done : List Entry) (l : Timeline) : Type 0 where
  pub numbered : (a : String) → tally l.next_agent_t a ≡ count_agent a done
  pub seen : All (IsSeen l) done
  pub sized : l.estimated_bytes ≡ sum_of data_size done

keeps_module-true :
    (o : Option String) (m : String) (n : String) → keeps_module o m ≡ true → o ≡ some n → n ≡ m
keeps_module-true none m n h p = cc
keeps_module-true (some k) m n h p = ground (arith, h, p, eq_iff k m)

is_later-true : (o : Option ℕ) (t n : ℕ) → is_later o t ≡ true → o ≡ some n → n < t
is_later-true none t n h p = cc
is_later-true (some k) t n h p = ground (arith, h, p)

IsBefore-All :
    (l : Timeline) (x : Entry) (done : List Entry)
    → keeps_module (get l.agent_modules x.1.agent_id) x.0 ≡ true
    → is_later (get l.previous_agent_env_t x.1.agent_id) x.1.env_t ≡ true
    → All (IsSeen l) done
    → All (IsBefore x) done
IsBefore-All l x [] p q a = tt
IsBefore-All l x (y ∷ done) p q a =
    let (m, n, b, le) = a.0 in
    (
      λ e.
          let same : y.1.agent_id ≡ x.1.agent_id = (eq_iff y.1.agent_id x.1.agent_id).0 e in
          let at_m : get l.agent_modules x.1.agent_id ≡ some y.0 = rw (← same) m in
          let at_n : get l.previous_agent_env_t x.1.agent_id ≡ some n = rw (← same) b in
          let later = is_later-true (get l.previous_agent_env_t x.1.agent_id) x.1.env_t n q at_n in
          (
            keeps_module-true (get l.agent_modules x.1.agent_id) x.0 y.0 p at_m,
            omega (arith, later, le),
          ),
      IsBefore-All l x done p q a.1,
    )

-- The variables after one turn of the loop.
abbrev noted : String → EncodedModuleTransition → Timeline → Timeline
noted module_id t l = record {
  transition_count = l.transition_count;
  estimated_bytes = l.estimated_bytes + length t.encoded_data;
  observed_env_ts = t.env_t ∷ l.observed_env_ts;
  next_agent_t = put l.next_agent_t t.agent_id (tally l.next_agent_t t.agent_id + 1);
  agent_modules = put l.agent_modules t.agent_id module_id;
  previous_agent_env_t = put l.previous_agent_env_t t.agent_id t.env_t;
}

noted-IsSeen :
    (module_id : String) (t : EncodedModuleTransition) (l : Timeline) (y : Entry)
    → IsBefore (module_id, t) y
    → IsSeen l y
    → IsSeen (noted module_id t l) y
noted-IsSeen module_id t l y b s =
    let (m, n, p, le) = s in
    elim (Bool-cases (str_eq t.agent_id y.1.agent_id)) [
      | inl q ↦
          let back : str_eq y.1.agent_id t.agent_id ≡ true =
            ground (arith, q, eq_iff t.agent_id y.1.agent_id, eq_iff y.1.agent_id t.agent_id) in
          let (same, earlier) = b back in
          (
            get-put l.agent_modules t.agent_id y.1.agent_id module_id ∙ rw q (ap some (sym same)),
            t.env_t,
            get-put l.previous_agent_env_t t.agent_id y.1.agent_id t.env_t ∙ rw q,
            omega (arith, earlier),
          )
      | inr q ↦ (
        get-put l.agent_modules t.agent_id y.1.agent_id module_id ∙ rw q m,
        n,
        get-put l.previous_agent_env_t t.agent_id y.1.agent_id t.env_t ∙ rw q p,
        le,
      )
    ]

noted-All :
    (module_id : String) (t : EncodedModuleTransition) (l : Timeline) (done : List Entry)
    → All (IsBefore (module_id, t)) done
    → All (IsSeen l) done
    → All (IsSeen (noted module_id t l)) done
noted-All module_id t l [] b s = tt
noted-All module_id t l (y ∷ done) b s =
    (noted-IsSeen module_id t l y b.0 s.0, noted-All module_id t l done b.1 s.1)

tally-noted :
    (c : Dict ℕ) (k a : String)
    → tally (put c k (tally c k + 1)) a ≡ (if str_eq k a then tally c k + 1 else tally c a)
unfolding tally
tally-noted c k a = ground (arith, get-put c k a (tally c k + 1))

pub note_transition-IsNoted :
    (module_id : String) (t : EncodedModuleTransition) (l : Timeline) (done : List Entry)
    {l' : Timeline}
    → IsNoted done l
    → note_transition module_id t l ≡ ok l'
    → (t.agent_t ≡ count_agent t.agent_id done)
      × All (IsBefore (module_id, t)) done
      × (l'.transition_count ≡ l.transition_count)
      × IsNoted (done ++ (module_id, t) ∷ []) l'
unfolding note_transition
note_transition-IsNoted module_id t l done {l'} n h =
    let (_, p, h1) =
      >>=-eq-ok (guard (t.agent_t == tally l.next_agent_t t.agent_id) episode_validation) _ h in
    let (_, q, h2) =
      >>=-eq-ok
        (guard (is_later (get l.previous_agent_env_t t.agent_id) t.env_t) episode_validation) _
        h1 in
    let (_, r, h3) =
      >>=-eq-ok (guard (keeps_module (get l.agent_modules t.agent_id) module_id) episode_validation)
        _ h2 in
    let before =
      IsBefore-All l (module_id, t) done (guard-eq-ok _ _ r) (guard-eq-ok _ _ q) n.seen in
    let next : noted module_id t l ≡ l' = ok-injective h3 in
    let x : Entry = (module_id, t) in
    (
      ground (
        arith,
        guard-eq-ok _ _ p,
        ==_iff t.agent_t (tally l.next_agent_t t.agent_id),
        n.numbered t.agent_id,
      ),
      before,
      ap (λ k. k.transition_count) (sym next),
      subst (IsNoted (done ++ x ∷ [])) next (record {
        numbered = λ a.
            tally-noted l.next_agent_t t.agent_id a
            ∙ ground (
              arith,
              n.numbered a,
              n.numbered t.agent_id,
              eq_iff t.agent_id a,
              sum_of-append {0} (one_of a) done (x ∷ []),
            );
        seen =
            All-append (IsSeen (noted module_id t l)) done (x ∷ [])
              (noted-All module_id t l done before n.seen)
              (
                (
                  get-put l.agent_modules t.agent_id t.agent_id module_id ∙ rw (eq_refl t.agent_id),
                  t.env_t,
                  get-put l.previous_agent_env_t t.agent_id t.agent_id t.env_t
                      ∙ rw (eq_refl t.agent_id),
                  omega arith,
                ),
                tt,
              );
        sized = omega (arith, n.sized, sum_of-append {0} data_size done (x ∷ []));
      }),
    )
