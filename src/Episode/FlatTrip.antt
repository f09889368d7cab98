-- ===== src/Episode/FlatTrip.antt =====
-- The flat codec's way there and back: `encode`, an envelope around the payload, `get_transition`.
use rllib_async_runtime.Common.{
  ℕ, zero, suc, ◌≡◌, refl, sym, ap, ◌∙◌, List, [], ◌∷◌, map, length, length-map, ==_refl, Result,
  ok, ok-injective, ◌>>=◌,
}
use rllib_async_runtime.Episode.Payload.{Bytes, FlatEpisodePayload, flat_payload, flat}
use rllib_async_runtime.Episode.Envelope.{EpisodeEnvelope}
use rllib_async_runtime.Episode.Flat.{
  flat_of, payload_bytes, estimate_bytes, validate, at_index, encode, get_transition,
}

encode-encoded {ℓ} :
    {A : Type ℓ} (dumps : A → Bytes) (xs : List A) {p : FlatEpisodePayload}
    → encode dumps xs ≡ ok p
    → p.encoded_transitions ≡ map dumps xs
unfolding encode flat_payload
encode-encoded dumps [] h = cc
encode-encoded dumps (x ∷ xs) h = ap (λ p. p.encoded_transitions) (sym (ok-injective h))

module _ {ℓ} {A : Type ℓ} (dumps : A → Bytes) (loads : Bytes → Result A)
    (inverse : (x : A) → loads (dumps x) ≡ ok x) where
  at_index-map : (xs : List A) (i : ℕ) → (at_index (map dumps xs) i >>= loads) ≡ at_index xs i
  unfolding at_index
  at_index-map [] i = refl
  at_index-map (x ∷ xs) zero = inverse x
  at_index-map (x ∷ xs) (suc i) = at_index-map xs i

  -- Where `loads` undoes `dumps`: an envelope of schema 1 around the encoded transitions, whose step
  -- counts are their number and whose size is the payload's, gives each transition back at its
  -- index, and raises the index error outside.
  pub get_transition-encode :
      (xs : List A) {p : FlatEpisodePayload} (e : EpisodeEnvelope) (i : ℕ)
      → encode dumps xs ≡ ok p
      → e.payload ≡ flat p
      → e.schema_version ≡ 1
      → e.env_steps ≡ length xs
      → e.agent_steps ≡ length xs
      → e.estimated_bytes ≡ payload_bytes p
      → get_transition loads e i ≡ at_index xs i
  unfolding get_transition validate flat_of estimate_bytes
  get_transition-encode xs {p} e i h payload schema env agent size =
      let count : length p.encoded_transitions ≡ length xs =
        ap length (encode-encoded dumps xs h) ∙ length-map dumps xs in
      rw
        (
          schema,
          payload,
          count,
          env,
          agent,
          size,
          ==_refl (length xs),
          ==_refl (payload_bytes p),
          encode-encoded dumps xs h,
        )
        (at_index-map xs i)
