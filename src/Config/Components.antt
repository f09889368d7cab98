-- ===== src/Config/Components.antt =====
-- The store and the rollout group that src/rllib_async/runtime/controller.py builds from a configuration.
use rllib_async_runtime.Common.{
  ℕ, ◌<◌, ◌≡◌, refl, String, str_eq, true, false, ◌==◌, ltb, leb, none, arith, Result, ok,
  value_error, guard, >>=-elim, guard-eq-ok, ok-injective, subst,
}
use rllib_async_runtime.Episode.Value.{int, positive, non_negative, positive_lem, positive_int}
use rllib_async_runtime.Store.{EpisodeStore, Config, empty_store, init, generation}
use rllib_async_runtime.Rollout.{Limits}
use rllib_async_runtime.Rollout.Weights.{WeightsDescriptor, accept_weight_publication}
use rllib_async_runtime.Rollout.EpisodeId.{has_slash, path_segment, make_episode_id}
use rllib_async_runtime.Rollout.Lifecycle.{default_modules, new_group}
use rllib_async_runtime.Rollout.Construct.{GroupArgs, async_rollout_group}
use rllib_async_runtime.Population.Step.{has_separator, validate_id_segment}
use rllib_async_runtime.Config.{
  RuntimeArgs, AsyncSacRuntimeConfig, is_int, same_bool, async_sac_runtime_config,
}

-- the keyword arguments of `EpisodeStore`
abbrev pub open_store : AsyncSacRuntimeConfig → (fresh : String) → Result EpisodeStore
open_store c fresh =
    init (int c.replay_capacity_transitions) (int c.replay_capacity_bytes)
      (int c.replay_journal_capacity) none fresh

-- the keyword arguments of `AsyncRolloutGroup`; the window of metrics has its default
abbrev pub group_args : AsyncSacRuntimeConfig → WeightsDescriptor → (rewards : ℕ) → GroupArgs
group_args c w rewards = record {
  member_id = c.member_id;
  initial_weights = w;
  runner_count = int c.runner_count;
  max_episode_steps = int c.max_episode_steps;
  pending_commit_high_watermark = int c.pending_commit_high_watermark;
  pending_commit_low_watermark = int c.pending_commit_low_watermark;
  metrics_window = int 2048;
  reward_window_episodes = int rewards;
}

-- What the checks of a configuration establish.
record IsRuntimeConfig (c : AsyncSacRuntimeConfig) : Type 0 where
  segment : path_segment c.member_id ≡ ok tt
  runners : 0 < c.runner_count
  few : leb c.runner_count 16 ≡ true
  steps : 0 < c.max_episode_steps
  transitions : 0 < c.replay_capacity_transitions
  bytes : 0 < c.replay_capacity_bytes
  journal : 0 < c.replay_journal_capacity
  high : 0 < c.pending_commit_high_watermark
  watermarks : ltb c.pending_commit_low_watermark c.pending_commit_high_watermark ≡ true

has_separator-has_slash : (s : String) → has_separator s ≡ false → has_slash s ≡ false
unfolding has_separator has_slash
has_separator-has_slash String.[] h = refl
has_separator-has_slash (String.◌∷◌ c s) h = ground (arith, has_separator-has_slash s)

segment_of_validated :
    (s : String) {u : Unit {0}} → validate_id_segment s ≡ ok u → path_segment s ≡ ok tt
unfolding validate_id_segment path_segment
segment_of_validated s h =
    let b = guard-eq-ok _ _ h in
    let no_slash : has_slash s ≡ false = has_separator-has_slash s (ground (arith, b)) in
    let named : str_eq s "" ≡ false = ground (arith, b) in rw (named, no_slash) refl

async_sac_runtime_config-IsRuntimeConfig :
    (a : RuntimeArgs) {c : AsyncSacRuntimeConfig}
    → async_sac_runtime_config a ≡ ok c
    → IsRuntimeConfig c
unfolding async_sac_runtime_config
async_sac_runtime_config-IsRuntimeConfig a = >>=-elim (validate_id_segment a.member_id) (λ _ p0.
    >>=-elim (positive value_error a.runner_count) (λ runners p1.
      >>=-elim (guard (leb runners 16) value_error) (λ _ p2.
        >>=-elim (positive value_error a.max_episode_steps) (λ steps p3.
          >>=-elim (positive value_error a.replay_capacity_transitions) (λ t p4.
            >>=-elim (positive value_error a.replay_capacity_bytes) (λ b p5.
              >>=-elim (positive value_error a.replay_journal_capacity) (λ j p6.
                >>=-elim (positive value_error a.replay_sync_max_bytes) (λ sync _.
                  >>=-elim (positive value_error a.pending_commit_high_watermark) (λ high p8.
                    >>=-elim (positive value_error a.batch_size) (λ batch _.
                      >>=-elim (positive value_error a.learner_updates_per_tick) (λ updates _.
                        >>=-elim (positive value_error a.publication_interval_updates)
                          (λ publication _.
                            >>=-elim (non_negative value_error a.batch_queue_capacity) (λ queue _.
                              >>=-elim (non_negative value_error a.pending_commit_low_watermark)
                                (λ low _. >>=-elim (guard (ltb low high) value_error) (λ _ p14.
                                  >>=-elim
                                    (non_negative value_error a.evaluation_interval_env_steps)
                                    (λ i _.
                                      >>=-elim (non_negative value_error a.evaluation_num_episodes)
                                        (λ n _. >>=-elim (guard (leb n 16) value_error) (λ _ _.
                                          >>=-elim (guard (same_bool (i == 0) (n == 0)) value_error)
                                            (λ _ _.
                                              >>=-elim (guard (is_int a.seed) value_error) (λ _ _ h.
                                                subst IsRuntimeConfig (ok-injective h) (record {
                                                  segment = segment_of_validated a.member_id p0;
                                                  runners =
                                                      positive_lem value_error a.runner_count p1;
                                                  few = guard-eq-ok (leb runners 16) value_error p2;
                                                  steps =
                                                      positive_lem value_error a.max_episode_steps
                                                        p3;
                                                  transitions =
                                                      positive_lem value_error
                                                        a.replay_capacity_transitions p4;
                                                  bytes =
                                                      positive_lem value_error
                                                        a.replay_capacity_bytes p5;
                                                  journal =
                                                      positive_lem value_error
                                                        a.replay_journal_capacity p6;
                                                  high =
                                                      positive_lem value_error
                                                        a.pending_commit_high_watermark p8;
                                                  watermarks =
                                                      guard-eq-ok (ltb low high) value_error p14;
                                                })))))))))))))))))))))

abbrev pub store_config : AsyncSacRuntimeConfig → String → Config
store_config c fresh = record {
  capacity_transitions = c.replay_capacity_transitions;
  capacity_bytes = c.replay_capacity_bytes;
  journal_capacity = c.replay_journal_capacity;
  store_generation = fresh;
}

abbrev pub limits_of : AsyncSacRuntimeConfig → Limits
limits_of c = record {
  member_id = c.member_id;
  runner_count = c.runner_count;
  high_watermark = c.pending_commit_high_watermark;
  low_watermark = c.pending_commit_low_watermark;
  metrics_window = 2048;
}

opens :
    (c : AsyncSacRuntimeConfig) (fresh : String)
    → IsRuntimeConfig c
    → open_store c fresh ≡ ok (empty_store (store_config c fresh))
unfolding init generation
opens c fresh h =
    rw
      (
        positive_int value_error c.replay_capacity_transitions h.transitions,
        positive_int value_error c.replay_capacity_bytes h.bytes,
        positive_int value_error c.replay_journal_capacity h.journal,
      )
      refl

-- A configuration that is accepted suits the constructors: the store opens empty with its capacities,
-- and, where the first weights are accepted for its member and the window of returns is positive,
-- the rollout group is built with its runners and watermarks.
pub async_sac_runtime_config_suits :
    (a : RuntimeArgs) (c : AsyncSacRuntimeConfig) (fresh : String) (str name : ℕ → String)
    (w : WeightsDescriptor) (rewards : ℕ)
    → async_sac_runtime_config a ≡ ok c
    → accept_weight_publication none w c.member_id default_modules ≡ ok true
    → 0 < rewards
    → (open_store c fresh ≡ ok (empty_store (store_config c fresh)))
      × (async_rollout_group str name (group_args c w rewards)
          ≡ ok (new_group name (limits_of c) w))
unfolding async_rollout_group make_episode_id non_negative
async_sac_runtime_config_suits a c fresh str name w rewards p accepted r =
    let h = async_sac_runtime_config-IsRuntimeConfig a p in
    (
      opens c fresh h,
      rw
          (
            h.segment,
            positive_int value_error c.runner_count h.runners,
            h.few,
            positive_int value_error c.pending_commit_high_watermark h.high,
            h.watermarks,
            positive_int value_error c.max_episode_steps h.steps,
            positive_int value_error 2048 (omega arith),
            positive_int value_error rewards r,
            accepted,
          )
          refl,
    )
