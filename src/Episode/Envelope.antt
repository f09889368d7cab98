-- ===== src/Episode/Envelope.antt =====
-- `EpisodeEnvelope`: the atomic unit of commit, eviction and synchronisation, and the checks of its
-- `__post_init__`.
use rllib_async_runtime.Common.{
  ℕ, ◌<◌, String, str_eq, ◌≡◌, Bool, true, false, not, ◌||◌, [], ◌∷◌, Result, ok,
  episode_validation, guard, rethrow, ◌>>=◌, ◌>>◌,
}
use rllib_async_runtime.Dict.{Dict}
use rllib_async_runtime.Episode.Value.{Value, positive, non_negative}
use rllib_async_runtime.Episode.Versions.{frozen_versions}
use rllib_async_runtime.Episode.Payload.{Payload}

pub record EpisodeEnvelope : Type 0 where
  pub episode_id : String
  pub schema_version : ℕ
  pub producer_member_id : String
  pub runner_id : String
  pub runner_generation : ℕ
  pub local_episode_seq : ℕ
  pub behavior_versions : Dict ℕ
  pub env_steps : ℕ
  pub agent_steps : ℕ
  pub terminated : Bool
  pub truncated : Bool
  pub estimated_bytes : ℕ
  pub payload : Payload

-- The arguments of the constructor.
pub record EnvelopeArgs : Type 0 where
  pub episode_id : String
  pub schema_version : Value
  pub producer_member_id : String
  pub runner_id : String
  pub runner_generation : Value
  pub local_episode_seq : Value
  pub behavior_versions : Dict Value
  pub env_steps : Value
  pub agent_steps : Value
  pub terminated : Bool
  pub truncated : Bool
  pub estimated_bytes : Value
  pub payload : Payload

abbrev pub non_empty : Dict ℕ → Bool
non_empty [] = false
non_empty (x ∷ d) = true

-- `EpisodeEnvelope.__post_init__`
unfoldable pub envelope : EnvelopeArgs → Result EpisodeEnvelope
unfolding positive non_negative frozen_versions
envelope a = do
  guard (not (str_eq a.episode_id "")) episode_validation
  guard (not (str_eq a.producer_member_id "")) episode_validation
  guard (not (str_eq a.runner_id "")) episode_validation
  schema_version ← positive episode_validation a.schema_version
  runner_generation ← non_negative episode_validation a.runner_generation
  local_episode_seq ← non_negative episode_validation a.local_episode_seq
  env_steps ← positive episode_validation a.env_steps
  agent_steps ← positive episode_validation a.agent_steps
  guard (a.terminated || a.truncated) episode_validation
  estimated_bytes ← positive episode_validation a.estimated_bytes
  versions ← rethrow episode_validation (frozen_versions a.behavior_versions)
  guard (non_empty versions) episode_validation
  ok (record {
    episode_id = a.episode_id;
    schema_version = schema_version;
    producer_member_id = a.producer_member_id;
    runner_id = a.runner_id;
    runner_generation = runner_generation;
    local_episode_seq = local_episode_seq;
    behavior_versions = versions;
    env_steps = env_steps;
    agent_steps = agent_steps;
    terminated = a.terminated;
    truncated = a.truncated;
    estimated_bytes = estimated_bytes;
    payload = a.payload;
  })

-- What the constructor guarantees of every envelope.
pub record IsEnvelope (e : EpisodeEnvelope) : Type 0 where
  pub episode_named : str_eq e.episode_id "" ≡ false
  pub producer_named : str_eq e.producer_member_id "" ≡ false
  pub runner_named : str_eq e.runner_id "" ≡ false
  pub schema_positive : 0 < e.schema_version
  pub env_positive : 0 < e.env_steps
  pub agent_positive : 0 < e.agent_steps
  pub ended : (e.terminated || e.truncated) ≡ true
  pub sized : 0 < e.estimated_bytes
  pub versioned : non_empty e.behavior_versions ≡ true
