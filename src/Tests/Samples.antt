-- ===== src/Tests/Samples.antt =====
-- Sample episodes of one agent, and a small store.
use rllib_async_runtime.Common.{ℕ, refl, true, false, List, [], ◌∷◌, String, arith}
use rllib_async_runtime.Episode.Payload.{Bytes, flat}
use rllib_async_runtime.Episode.Envelope.{EpisodeEnvelope, IsEnvelope}
use rllib_async_runtime.Store.{Config}

abbrev pub episode : String → List Bytes → ℕ → ℕ → EpisodeEnvelope
episode episode_id transitions steps size = record {
  episode_id = episode_id;
  schema_version = 1;
  producer_member_id = "member-0";
  runner_id = "runner-0";
  runner_generation = 0;
  local_episode_seq = 0;
  behavior_versions = ("default_policy", 4) ∷ [];
  env_steps = steps;
  agent_steps = steps;
  terminated = true;
  truncated = false;
  estimated_bytes = size;
  payload = flat (record { encoded_transitions = transitions });
}

abbrev pub first : EpisodeEnvelope
first = episode "a" ((1 ∷ 2 ∷ []) ∷ (3 ∷ []) ∷ []) 2 3

abbrev pub second : EpisodeEnvelope
second = episode "b" ((4 ∷ 5 ∷ []) ∷ []) 1 2

abbrev pub third : EpisodeEnvelope
third = episode "c" ((6 ∷ []) ∷ (7 ∷ []) ∷ []) 2 2

-- too many transitions for the store below
abbrev pub oversized : EpisodeEnvelope
oversized = episode "d" ((1 ∷ []) ∷ (1 ∷ []) ∷ (1 ∷ []) ∷ (1 ∷ []) ∷ []) 4 4

-- the ID of `first` with other content
abbrev pub impostor : EpisodeEnvelope
impostor = episode "a" ((9 ∷ []) ∷ []) 1 1

pub first-IsEnvelope : IsEnvelope first
first-IsEnvelope = record {
  episode_named = refl;
  producer_named = refl;
  runner_named = refl;
  schema_positive = omega arith;
  env_positive = omega arith;
  agent_positive = omega arith;
  ended = refl;
  sized = omega arith;
  versioned = refl;
}

pub second-IsEnvelope : IsEnvelope second
second-IsEnvelope = record {
  episode_named = refl;
  producer_named = refl;
  runner_named = refl;
  schema_positive = omega arith;
  env_positive = omega arith;
  agent_positive = omega arith;
  ended = refl;
  sized = omega arith;
  versioned = refl;
}

pub third-IsEnvelope : IsEnvelope third
third-IsEnvelope = record {
  episode_named = refl;
  producer_named = refl;
  runner_named = refl;
  schema_positive = omega arith;
  env_positive = omega arith;
  agent_positive = omega arith;
  ended = refl;
  sized = omega arith;
  versioned = refl;
}

pub oversized-IsEnvelope : IsEnvelope oversized
oversized-IsEnvelope = record {
  episode_named = refl;
  producer_named = refl;
  runner_named = refl;
  schema_positive = omega arith;
  env_positive = omega arith;
  agent_positive = omega arith;
  ended = refl;
  sized = omega arith;
  versioned = refl;
}

pub impostor-IsEnvelope : IsEnvelope impostor
impostor-IsEnvelope = record {
  episode_named = refl;
  producer_named = refl;
  runner_named = refl;
  schema_positive = omega arith;
  env_positive = omega arith;
  agent_positive = omega arith;
  ended = refl;
  sized = omega arith;
  versioned = refl;
}

-- At most three transitions and ten bytes are retained, and two transactions journaled.
abbrev pub config : Config
config = record {
  capacity_transitions = 3;
  capacity_bytes = 10;
  journal_capacity = 2;
  store_generation = "g";
}

-- A stand-in for SHA-256 over the pickled envelope, which is a parameter of the store.
abbrev pub mark : EpisodeEnvelope → Bytes
mark e = e.env_steps ∷ e.estimated_bytes ∷ []
