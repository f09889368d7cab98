-- ===== src/Episode/Located.antt =====
-- Where a flat index falls in the groups of a payload of several modules.
use rllib_async_runtime.Common.{
  ℕ, zero, suc, ◌-◌, ◌≡◌, refl, ap, ◌∙◌, String, true, false, Option, List, [], ◌∷◌, ◌++◌, length,
  arith, ltb, Bool-cases, inl, inr, Result, ok, ◌>>=◌,
}
use rllib_async_runtime.Episode.Payload.{
  Bytes, EncodedModuleTransition, Groups, MultiModuleEpisodePayload, multi_module,
}
use rllib_async_runtime.Episode.Envelope.{EpisodeEnvelope}
use rllib_async_runtime.Episode.Flat.{at_index}
use rllib_async_runtime.Episode.MultiModule.{multi_of, validate, locate, decode, get_transition}
use rllib_async_runtime.Episode.Timeline.{Entry, entries_of, flatten}

at_index-within :
    (module_id : String) (ts : List EncodedModuleTransition) (xs : List Entry) (i : ℕ)
    → ltb i (length ts) ≡ true
    → (do t ← at_index ts i; ok (module_id, t)) ≡ at_index (entries_of module_id ts ++ xs) i
unfolding at_index
at_index-within module_id [] xs i h = ground (arith, h)
at_index-within module_id (t ∷ ts) xs zero h = refl
at_index-within module_id (t ∷ ts) xs (suc i) h =
    at_index-within module_id ts xs i (ground (arith, h))

at_index-beyond :
    (module_id : String) (ts : List EncodedModuleTransition) (xs : List Entry) (i : ℕ)
    → ltb i (length ts) ≡ false
    → at_index xs (i - length ts) ≡ at_index (entries_of module_id ts ++ xs) i
unfolding at_index
at_index-beyond module_id [] xs i h =
    let none_before : i - 0 ≡ i = omega arith in ap (at_index xs) none_before
at_index-beyond module_id (t ∷ ts) xs zero h = ground (arith, h)
at_index-beyond module_id (t ∷ ts) xs (suc i) h =
    let one_less : suc i - suc (length ts) ≡ i - length ts = omega arith in
    ap (at_index xs) one_less ∙ at_index-beyond module_id ts xs i (ground (arith, h))

locate-flatten : (groups : Groups) (i : ℕ) → locate groups i ≡ at_index (flatten groups) i
unfolding locate at_index
locate-flatten [] i = refl
locate-flatten ((module_id, ts) ∷ groups) i = elim (Bool-cases (ltb i (length ts))) [
  | inl p ↦ rw p (at_index-within module_id ts (flatten groups) i p)
  | inr p ↦
      rw p
        (locate-flatten groups (i - length ts) ∙ at_index-beyond module_id ts (flatten groups) i p)
]

-- From a valid envelope around groups of encoded transitions, the transition at a flat index is decoded
-- from the one at this index in all groups, one after the other, under the name of its group; an index
-- outside raises as the list does.
pub get_transition-flatten {ℓ} :
    {A : Type ℓ} (keys_of : A → Option (List (Option String))) (loads : Bytes → Result A)
    (e : EpisodeEnvelope) (p : MultiModuleEpisodePayload) (index : ℕ)
    → validate e ≡ ok tt
    → e.payload ≡ multi_module p
    → get_transition keys_of loads e index
      ≡ (do x ← at_index (flatten p.encoded_module_transitions) index; decode keys_of loads x.0 x.1)
unfolding get_transition multi_of
get_transition-flatten keys_of loads e p index v q =
    rw (v, q, locate-flatten p.encoded_module_transitions index)
