-- ===== src/Tests/ConfigRuns.antt =====
-- A configuration at concrete inputs.
use rllib_async_runtime.Common.{ℕ, zero, suc, ◌≡◌, refl, String, some, [], ◌∷◌, ok, arith}
use rllib_async_runtime.Episode.Value.{int, negative, positive, non_negative}
use rllib_async_runtime.Store.{empty_store}
use rllib_async_runtime.Rollout.Weights.{
  WeightsDescriptor, listed, all_listed, same_set, accept_weight_publication,
}
use rllib_async_runtime.Rollout.Lifecycle.{new_group}
use rllib_async_runtime.Rollout.Construct.{async_rollout_group}
use rllib_async_runtime.Population.Step.{has_separator, validate_id_segment}
use rllib_async_runtime.Config.{RuntimeArgs, AsyncSacRuntimeConfig, async_sac_runtime_config}
use rllib_async_runtime.Config.Components.{
  open_store, group_args, store_config, limits_of, async_sac_runtime_config_suits,
}

abbrev arguments : RuntimeArgs
arguments = record {
  member_id = "member-0";
  runner_count = int 4;
  max_episode_steps = int 200;
  replay_capacity_transitions = int 1000;
  replay_capacity_bytes = int 4096;
  replay_journal_capacity = int 16;
  replay_sync_max_bytes = int 1024;
  pending_commit_high_watermark = int 16;
  pending_commit_low_watermark = int 8;
  batch_size = int 256;
  batch_queue_capacity = int 4;
  learner_updates_per_tick = int 1;
  publication_interval_updates = int 1;
  evaluation_interval_env_steps = int 0;
  evaluation_num_episodes = int 0;
  seed = negative 0;
}

abbrev accepted_config : AsyncSacRuntimeConfig
accepted_config = record {
  member_id = "member-0";
  runner_count = 4;
  max_episode_steps = 200;
  replay_capacity_transitions = 1000;
  replay_capacity_bytes = 4096;
  replay_journal_capacity = 16;
  replay_sync_max_bytes = 1024;
  pending_commit_high_watermark = 16;
  pending_commit_low_watermark = 8;
  batch_size = 256;
  batch_queue_capacity = 4;
  learner_updates_per_tick = 1;
  publication_interval_updates = 1;
  evaluation_interval_env_steps = 0;
  evaluation_num_episodes = 0;
  seed = negative 0;
}

abbrev first_weights : WeightsDescriptor
first_weights = record {
  member_id = "member-0";
  module_versions = ("default_policy", 0) ∷ [];
  learner_updates = 0;
  state_ids = some ("default_policy" ∷ []);
}

ones : ℕ → String
ones zero = ""
ones (suc n) = String.◌∷◌ "1" (ones n)

async_sac_runtime_config_suits_example :
    (open_store accepted_config "g" ≡ ok (empty_store (store_config accepted_config "g")))
    × (async_rollout_group ones ones (group_args accepted_config first_weights 100)
        ≡ ok (new_group ones (limits_of accepted_config) first_weights))
unfolding has_separator validate_id_segment async_sac_runtime_config listed all_listed same_set
    accept_weight_publication positive non_negative
async_sac_runtime_config_suits_example =
    async_sac_runtime_config_suits arguments accepted_config "g" ones ones first_weights 100 refl
      refl (omega arith)
