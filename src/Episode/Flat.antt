-- ===== src/Episode/Flat.antt =====
-- `FlatEpisodeCodec`: one pickled byte string for each transition of a single agent.
use rllib_async_runtime.Common.{
  ℕ, zero, suc, ◌<◌, ◌≡◌, ◌&&◌, List, [], ◌∷◌, length, sum_of, map, arith, ◌==◌, Result, ok, raise,
  episode_validation, schema_mismatch, index_error, guard, ◌>>=◌, ◌>>◌,
}
use rllib_async_runtime.Episode.Payload.{
  Bytes, FlatEpisodePayload, flat_payload, Payload, flat, multi_module, foreign,
}
use rllib_async_runtime.Episode.Envelope.{EpisodeEnvelope, IsEnvelope}
use rllib_async_runtime.Episode.Codec.{EpisodeCodec}

-- `isinstance(episode.payload, FlatEpisodePayload)`
unfoldable pub flat_of : Payload → Result FlatEpisodePayload
flat_of (flat p) = ok p
flat_of (multi_module p) = raise episode_validation
flat_of foreign = raise episode_validation

-- `FlatEpisodePayload.estimated_bytes`
unfoldable pub payload_bytes : FlatEpisodePayload → ℕ
payload_bytes p = sum_of length p.encoded_transitions

-- `estimate_bytes`
unfoldable pub estimate_bytes : EpisodeEnvelope → Result ℕ
unfolding flat_of payload_bytes
estimate_bytes e = do p ← flat_of e.payload; ok (payload_bytes p)

unfoldable pub validate : EpisodeEnvelope → Result (Unit {0})
unfolding flat_of estimate_bytes
validate e = do
  guard (e.schema_version == 1) schema_mismatch
  p ← flat_of e.payload
  let count = length p.encoded_transitions
  guard (e.env_steps == count && e.agent_steps == count) episode_validation
  estimated_bytes ← estimate_bytes e
  guard (e.estimated_bytes == estimated_bytes) episode_validation

unfoldable pub transition_count : EpisodeEnvelope → Result ℕ
unfolding validate
transition_count e = do validate e; p ← flat_of e.payload; ok (length p.encoded_transitions)

-- `values[index]` with the bounds check of `get_transition`
unfoldable pub at_index {ℓ} : {A : Type ℓ} → List A → ℕ → Result A
at_index [] i = raise index_error
at_index (x ∷ xs) zero = ok x
at_index (x ∷ xs) (suc i) = at_index xs i

-- `pickle.dumps` and `pickle.loads` are not the program's: they are parameters.
module _ {ℓ} {A : Type ℓ} (dumps : A → Bytes) where
  unfoldable pub encode : List A → Result FlatEpisodePayload
  unfolding flat_payload
  encode transitions = flat_payload (map dumps transitions)

module _ {ℓ} {A : Type ℓ} (loads : Bytes → Result A) where
  unfoldable pub get_transition : EpisodeEnvelope → ℕ → Result A
  unfolding validate at_index
  get_transition e index = do
    validate e
    p ← flat_of e.payload
    encoded ← at_index p.encoded_transitions index
    loads encoded

-- A valid episode's count is its number of environment steps, so it is positive.
pub transition_count_of_valid :
    (e : EpisodeEnvelope)
    → IsEnvelope e
    → validate e ≡ ok tt
    → (n : ℕ) × (transition_count e ≡ ok n) × (0 < n)
unfolding transition_count
transition_count_of_valid e w h = (e.env_steps, ground arith, w.env_positive)

unfoldable pub flat_codec : EpisodeCodec
unfolding transition_count
flat_codec = record {
  codec_id = "flat-pickle-v1";
  schema_version = 1;
  validate = validate;
  transition_count = transition_count;
  count_of_valid = transition_count_of_valid;
}
