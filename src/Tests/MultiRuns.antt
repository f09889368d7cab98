-- ===== src/Tests/MultiRuns.antt =====
-- A payload of two modules at concrete inputs.
use rllib_async_runtime.Common.{
  ◌≡◌, refl, String, Option, some, List, [], ◌∷◌, Result, ok, raise, value_error, ◌>>=◌,
}
use rllib_async_runtime.Dict.{get, tally, contains}
use rllib_async_runtime.Episode.Versions.{sort_by_key, keys_unique}
use rllib_async_runtime.Episode.Payload.{
  Bytes, Groups, MultiModuleEpisodePayload, multi_module, note_transition, note_transitions,
  note_groups, covers_below, same_texts, multi_module_payload,
}
use rllib_async_runtime.Episode.Envelope.{EpisodeEnvelope}
use rllib_async_runtime.Episode.Flat.{at_index}
use rllib_async_runtime.Episode.MultiModule.{multi_of, keys_in, validate, decode, get_transition}
use rllib_async_runtime.Episode.Timeline.{flatten}
use rllib_async_runtime.Episode.Ordered.{IsPayload, multi_module_payload-IsPayload}
use rllib_async_runtime.Episode.Located.{get_transition-flatten}
use rllib_async_runtime.Tests.Samples.{first}

abbrev groups : Groups
groups =
    (
      "a",
      record { env_t = 0; agent_t = 0; agent_id = "x"; encoded_data = 1 ∷ [] }
          ∷ record { env_t = 1; agent_t = 1; agent_id = "x"; encoded_data = 2 ∷ [] }
          ∷ [],
    )
    ∷ ("b", record { env_t = 0; agent_t = 0; agent_id = "y"; encoded_data = 3 ∷ [] } ∷ [])
    ∷ []

abbrev payload : MultiModuleEpisodePayload
payload = record {
  encoded_module_transitions = groups;
  transition_count = 3;
  env_steps = 2;
  estimated_bytes = 3;
}

payload_built : multi_module_payload groups ≡ ok payload
unfolding multi_module_payload note_groups note_transitions note_transition keys_unique sort_by_key
    same_texts covers_below tally get
payload_built = refl

multi_module_payload-IsPayload_example :
    IsPayload payload × (payload.encoded_module_transitions ≡ groups)
multi_module_payload-IsPayload_example = multi_module_payload-IsPayload groups payload_built

abbrev episode : EpisodeEnvelope
episode = record first {
  payload = multi_module payload;
  agent_steps = 3;
  env_steps = 2;
  estimated_bytes = 3;
  behavior_versions = ("a", 1) ∷ ("b", 1) ∷ [];
}

-- one key for every content
abbrev keys_of : Bytes → Option (List (Option String))
keys_of x = some (some "obs" ∷ [])

abbrev loads : Bytes → Result Bytes
loads [] = raise value_error
loads (b ∷ x) = ok (b ∷ x)

get_transition-flatten_example :
    get_transition keys_of loads episode 2
    ≡ (do x ← at_index (flatten groups) 2; decode keys_of loads x.0 x.1)
unfolding validate multi_of keys_in contains
get_transition-flatten_example = get_transition-flatten keys_of loads episode payload 2 refl refl
