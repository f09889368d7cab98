-- ===== src/Fast/Sample.antt =====
-- Sampling from the active view of `FastReplay`. The generator is called from its `drawn`-th answer on.
use rllib_async_runtime.Common.{
  ℕ, String, str_eq, not, Option, none, some, List, ◌==◌, if◌then◌else◌, Result, ok, raise,
  value_error, type_error, replay_error, replay_closed, guard, ◌>>=◌, ◌>>◌, for_each,
}
use rllib_async_runtime.Dict.{lookup}
use rllib_async_runtime.Episode.Value.{Value, positive}
use rllib_async_runtime.Episode.Envelope.{EpisodeEnvelope}
use rllib_async_runtime.Episode.Flat.{at_index}
use rllib_async_runtime.Sampling.{positions}
use rllib_async_runtime.Fast.{MaterializedView, FastReplay}
use rllib_async_runtime.Fast.Index.{ModuleCodec}

-- `_capture_active_view`
unfoldable pub capture_active_view : FastReplay → Result MaterializedView
capture_active_view s =
    if s.closed
    then raise replay_closed
    else elim s.active_view [ none ↦ raise replay_error | some v ↦ ok v ]

-- `_module_codec`
unfoldable pub module_codec : Option ModuleCodec → Result ModuleCodec
module_codec none = raise type_error
module_codec (some codec) = ok codec

module _ (rng : ℕ → ℕ → ℕ) (drawn : ℕ) where
  -- `_sample_positions`
  unfoldable pub sample_positions : MaterializedView → Value → Result (List (ℕ × ℕ))
  sample_positions view batch_size = do
    n ← positive value_error batch_size
    guard (not (view.sampling_index.total_transitions == 0)) replay_error
    positions rng view.sampling_index.cumulative_lengths view.sampling_index.total_transitions n
        drawn

  -- `_sample_module_positions`
  unfoldable pub sample_module_positions :
      MaterializedView → (module_id : String) → Value → Result (List (ℕ × ℕ))
  unfolding at_index
  sample_module_positions view module_id batch_size = do
    guard (not (str_eq module_id "")) value_error
    n ← positive value_error batch_size
    index ← lookup view.module_sampling_indices module_id
    ps ← positions rng index.cumulative_lengths index.total_transitions n drawn
    for_each (λ p. do i ← at_index index.episode_indices p.0; ok (i, p.1)) ps

  unfoldable pub sample_coordinates : FastReplay → Value → Result (List (String × ℕ))
  unfolding at_index
  sample_coordinates s batch_size = do
    view ← capture_active_view s
    ps ← sample_positions view batch_size
    for_each (λ p. do k ← at_index view.sampling_index.episode_ids p.0; ok (k, p.1)) ps

  unfoldable pub sample {ℓ} :
      {A : Type ℓ}
      → (get_transition : EpisodeEnvelope → ℕ → Result A) → FastReplay
      → Value
      → Result (List A)
  unfolding at_index
  sample get_transition s batch_size = do
    view ← capture_active_view s
    ps ← sample_positions view batch_size
    for_each (λ p. do e ← at_index view.episodes p.0; get_transition e p.1) ps

  unfoldable pub sample_module_coordinates :
      Option ModuleCodec → FastReplay → String → Value → Result (List (String × ℕ))
  unfolding at_index
  sample_module_coordinates codec s module_id batch_size = do
    _ ← module_codec codec
    view ← capture_active_view s
    ps ← sample_module_positions view module_id batch_size
    for_each (λ p. do e ← at_index view.episodes p.0; ok (e.episode_id, p.1)) ps

  unfoldable pub sample_module {ℓ} :
      {A : Type ℓ}
      → (get_module_transition : EpisodeEnvelope → String → ℕ → Result A) → Option ModuleCodec
      → FastReplay
      → String
      → Value
      → Result (List A)
  unfolding at_index
  sample_module get_module_transition codec s module_id batch_size = do
    _ ← module_codec codec
    view ← capture_active_view s
    ps ← sample_module_positions view module_id batch_size
    for_each (λ p. do e ← at_index view.episodes p.0; get_module_transition e module_id p.1) ps
