-- ===== src/Tests/EnvelopeRuns.antt =====
-- The constructor of an envelope at concrete arguments.
use rllib_async_runtime.Common.{
  ◌≡◌, refl, true, false, List, [], ◌∷◌, map, Result, ok, raise, value_error,
}
use rllib_async_runtime.Episode.Value.{int, positive, non_negative}
use rllib_async_runtime.Episode.Versions.{
  sort_by_key, keys_unique, keys_named, versions_checked, frozen_versions,
}
use rllib_async_runtime.Episode.Payload.{Bytes, flat_payload}
use rllib_async_runtime.Episode.Flat.{encode, get_transition, at_index, payload_bytes}
use rllib_async_runtime.Episode.FlatTrip.{get_transition-encode}
use rllib_async_runtime.Episode.Envelope.{EnvelopeArgs, envelope, IsEnvelope}
use rllib_async_runtime.Episode.Checks.{envelope-IsEnvelope}
use rllib_async_runtime.Tests.Samples.{first, episode}

abbrev args : EnvelopeArgs
args = record {
  episode_id = "a";
  schema_version = int 1;
  producer_member_id = "member-0";
  runner_id = "runner-0";
  runner_generation = int 0;
  local_episode_seq = int 0;
  behavior_versions = ("default_policy", int 4) ∷ [];
  env_steps = int 2;
  agent_steps = int 2;
  terminated = true;
  truncated = false;
  estimated_bytes = int 3;
  payload = first.payload;
}

args_accepted : envelope args ≡ ok first
unfolding envelope positive non_negative frozen_versions versions_checked sort_by_key keys_unique
    keys_named
args_accepted = refl

envelope-IsEnvelope_example : IsEnvelope first
envelope-IsEnvelope_example = envelope-IsEnvelope args args_accepted

-- a serialiser that writes one byte of header
abbrev dumps : Bytes → Bytes
dumps x = 7 ∷ x

abbrev loads : Bytes → Result Bytes
loads [] = raise value_error
loads (b ∷ x) = ok x

abbrev transitions : List Bytes
transitions = (1 ∷ []) ∷ (2 ∷ []) ∷ []

get_transition-encode_example :
    get_transition loads (episode "f" (map dumps transitions) 2 4) 1 ≡ at_index transitions 1
unfolding encode flat_payload payload_bytes
get_transition-encode_example =
    get_transition-encode dumps loads (λ x. refl) transitions
      (episode "f" (map dumps transitions) 2 4) 1 refl refl refl refl refl refl
