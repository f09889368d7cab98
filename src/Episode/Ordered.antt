-- ===== src/Episode/Ordered.antt =====
-- What the constructor of a payload of several modules has checked, and its transitions by flat index.
use rllib_async_runtime.Common.{
  ◌+◌, ◌<◌, ◌≡◌, refl, sym, ap, ◌∙◌, subst, String, str_eq, true, false, not, List, [], ◌∷◌, ◌++◌,
  length, arith, All, sum_of, append_assoc, append-nil, ok, episode_validation, guard, >>=-eq-ok,
  guard-eq-ok, ok-injective, length-append, length-map,
}
use rllib_async_runtime.Dict.{keys, tally, get}
use rllib_async_runtime.Episode.Versions.{keys_unique, sort_by_key}
use rllib_async_runtime.Episode.Payload.{
  EncodedModuleTransition, Groups, MultiModuleEpisodePayload, Timeline, no_timeline,
  note_transition, note_transitions, note_groups, covers_below, max_of, same_texts,
  multi_module_payload,
}
use rllib_async_runtime.Episode.Timeline.{
  Entry, entries_of, flatten, data_size, IsTimeline, IsNoted, note_transition-IsNoted,
}

IsTimeline-append :
    (done xs ys : List Entry)
    → IsTimeline done xs
    → IsTimeline (done ++ xs) ys
    → IsTimeline done (xs ++ ys)
IsTimeline-append done [] ys h k = subst (λ d. IsTimeline d ys) (append-nil done) k
IsTimeline-append done (x ∷ xs) ys h k = (
  h.0,
  h.1,
  IsTimeline-append (done ++ x ∷ []) xs ys h.2
      (subst (λ d. IsTimeline d ys) (sym (append_assoc done (x ∷ []) xs)) k),
)

note_transitions-IsNoted :
    (module_id : String) (ts : List EncodedModuleTransition) (l : Timeline) (done : List Entry)
    {l' : Timeline}
    → IsNoted done l
    → note_transitions module_id ts l ≡ ok l'
    → IsTimeline done (entries_of module_id ts)
      × (l'.transition_count ≡ l.transition_count)
      × IsNoted (done ++ entries_of module_id ts) l'
unfolding note_transitions
note_transitions-IsNoted module_id [] l done {l'} n h =
    let same = ok-injective h in
    (
      tt,
      ap (λ k. k.transition_count) (sym same),
      subst (λ d. IsNoted d l') (sym (append-nil done)) (subst (IsNoted done) same n),
    )
note_transitions-IsNoted module_id (t ∷ ts) l done {l'} n h =
    let (l1, p, h1) = >>=-eq-ok (note_transition module_id t l) _ h in
    let (a, b, c, n1) = note_transition-IsNoted module_id t l done n p in
    let (q, c', n2) =
      note_transitions-IsNoted module_id ts l1 (done ++ (module_id, t) ∷ []) n1 h1 in
    (
      (a, b, q),
      c' ∙ c,
      subst (λ d. IsNoted d l') (append_assoc done ((module_id, t) ∷ []) (entries_of module_id ts))
          n2,
    )

-- The group has a name and a transition.
abbrev pub IsGroup : String × List EncodedModuleTransition → Type 0
IsGroup g = (str_eq g.0 "" ≡ false) × (0 < length g.1)

note_groups-IsNoted :
    (groups : Groups) (l : Timeline) (done : List Entry) {l' : Timeline}
    → IsNoted done l
    → note_groups groups l ≡ ok l'
    → IsTimeline done (flatten groups)
      × (l'.transition_count ≡ l.transition_count + length (flatten groups))
      × IsNoted (done ++ flatten groups) l'
      × All IsGroup groups
unfolding note_groups
note_groups-IsNoted [] l done {l'} n h =
    let same = ok-injective h in
    (
      tt,
      omega (arith, ap (λ (k : Timeline). k.transition_count) same),
      subst (λ d. IsNoted d l') (sym (append-nil done)) (subst (IsNoted done) same n),
      tt,
    )
note_groups-IsNoted ((module_id, []) ∷ groups) l done n h = cc
note_groups-IsNoted ((module_id, t ∷ ts) ∷ groups) l done {l'} n h =
    let us = t ∷ ts in
    let (_, g, h1) = >>=-eq-ok (guard (not (str_eq module_id "")) episode_validation) _ h in
    let counted = record l { transition_count = l.transition_count + length us } in
    let (l1, p, h2) = >>=-eq-ok (note_transitions module_id us counted) _ h1 in
    let (a, c, n1) =
      note_transitions-IsNoted module_id us counted done
        (record { numbered = n.numbered; seen = n.seen; sized = n.sized }) p in
    let (b, c', n2, w) = note_groups-IsNoted groups l1 (done ++ entries_of module_id us) n1 h2 in
    (
      IsTimeline-append done (entries_of module_id us) (flatten groups) a b,
      omega (
        arith,
        c,
        c',
        length-append {0} (entries_of module_id us) (flatten groups),
        length-map {B = Entry} (λ (u : EncodedModuleTransition). (module_id, u)) us,
      ),
      subst (λ d. IsNoted d l') (append_assoc done (entries_of module_id us) (flatten groups)) n2,
      ((ground (arith, guard-eq-ok _ _ g), omega arith), w),
    )

-- A payload that passed the checks.
pub record IsPayload (p : MultiModuleEpisodePayload) : Type 0 where
  pub timeline : IsTimeline [] (flatten p.encoded_module_transitions)
  pub counted : p.transition_count ≡ length (flatten p.encoded_module_transitions)
  pub sized : p.estimated_bytes ≡ sum_of data_size (flatten p.encoded_module_transitions)
  pub grouped : All IsGroup p.encoded_module_transitions
  pub distinct : keys_unique p.encoded_module_transitions ≡ true

-- The constructor accepts groups of encoded transitions only if each has a name and a transition, no
-- name stands twice, and, in the order of the groups, each transition is numbered by how many of its
-- agent came before it, is later than those, and in their module; and then it counts the transitions
-- and their bytes.
pub multi_module_payload-IsPayload :
    (groups : Groups) {p : MultiModuleEpisodePayload}
    → multi_module_payload groups ≡ ok p
    → IsPayload p × (p.encoded_module_transitions ≡ groups)
unfolding multi_module_payload tally get
multi_module_payload-IsPayload [] h = cc
multi_module_payload-IsPayload (g ∷ gs) h =
    let groups : Groups = g ∷ gs in
    let (l, a, h1) = >>=-eq-ok (note_groups groups no_timeline) _ h in
    let (_, u, h2) = >>=-eq-ok (guard (keys_unique groups) episode_validation) _ h1 in
    let (_, _, h3) =
      >>=-eq-ok (guard (same_texts (keys groups) (keys (sort_by_key groups))) episode_validation) _
        h2 in
    let (_, _, h4) =
      >>=-eq-ok
        (guard (covers_below (max_of l.observed_env_ts + 1) l.observed_env_ts) episode_validation) _
        h3 in
    let (t, c, n, w) =
      note_groups-IsNoted groups no_timeline []
        (record { numbered = λ a. refl; seen = tt; sized = refl }) a in
    subst (λ (p : MultiModuleEpisodePayload). IsPayload p × (p.encoded_module_transitions ≡ groups))
      (ok-injective h4)
      (
        record {
          timeline = t;
          counted = omega (arith, c);
          sized = n.sized;
          grouped = w;
          distinct = guard-eq-ok _ _ u;
        },
        refl,
      )
