-- ===== src/View/Sampling.antt =====
-- The sampling methods of `ReferenceFastReplay`. The generator is called from its `drawn`-th answer on.
-- A batch size below one is refused, so a natural number stands for it.
use rllib_async_runtime.Common.{
  ℕ, ◌+◌, String, str_eq, Bool, false, not, Option, none, some, List, [], ◌∷◌, ltb, ◌==◌, ◌||◌,
  if◌then◌else◌, Result, ok, raise, value_error, type_error, key_error, replay_error, guard, ◌>>=◌,
  ◌>>◌, for_each,
}
use rllib_async_runtime.Dict.{Dict, lookup}
use rllib_async_runtime.Episode.Value.{Value, positive}
use rllib_async_runtime.Episode.Envelope.{EpisodeEnvelope}
use rllib_async_runtime.Episode.Codec.{EpisodeCodec}
use rllib_async_runtime.Episode.Flat.{at_index}
use rllib_async_runtime.Sampling.{positions}
use rllib_async_runtime.Fast.Index.{ModuleCodec}
use rllib_async_runtime.View.{View}

-- `module_id in codec.module_ids(episode)`
unfoldable pub among : String → List String → Bool
among k [] = false
among k (j ∷ js) = str_eq j k || among k js

-- The local variables of the first loop: IDs, cumulative lengths and the total.
pub record Lengths : Type 0 where
  pub episode_ids : List String
  pub cumulative_lengths : List ℕ
  pub total_transitions : ℕ

abbrev longer : String → ℕ → Lengths → Lengths
longer k total l = record l {
  episode_ids = k ∷ l.episode_ids;
  cumulative_lengths = total ∷ l.cumulative_lengths;
}

-- the loop of `sample_coordinates`, from the total so far
unfoldable pub measure : EpisodeCodec → ℕ → Dict EpisodeEnvelope → Result Lengths
measure codec total [] =
    ok (record { episode_ids = []; cumulative_lengths = []; total_transitions = total })
measure codec total ((k, e) ∷ episodes) = do
  n ← codec.transition_count e
  l ← measure codec (total + n) episodes
  ok (longer k (total + n) l)

-- the loop of `sample_module_coordinates`
unfoldable pub measure_module :
    ModuleCodec → (module_id : String) → ℕ → Dict EpisodeEnvelope → Result Lengths
unfolding among
measure_module codec module_id total [] =
    ok (record { episode_ids = []; cumulative_lengths = []; total_transitions = total })
measure_module codec module_id total ((k, e) ∷ episodes) =
    let counted : Result Lengths = (do
      n ← codec.module_transition_count e module_id
      l ← measure_module codec module_id (total + n) episodes
      ok (longer k (total + n) l)) in
    let skipped : Result Lengths = measure_module codec module_id total episodes in
    codec.module_ids e >>= λ ids. if among module_id ids then counted else skipped

module _ (rng : ℕ → ℕ → ℕ) (drawn : ℕ) where
  -- the second loop
  unfoldable pub coordinates : Lengths → (batch_size : ℕ) → Result (List (String × ℕ))
  unfolding at_index
  coordinates l batch_size = do
    ps ← positions rng l.cumulative_lengths l.total_transitions batch_size drawn
    for_each (λ p. do k ← at_index l.episode_ids p.0; ok (k, p.1)) ps

  unfoldable pub sample_coordinates :
      EpisodeCodec → View → (batch_size : ℕ) → Result (List (String × ℕ))
  sample_coordinates codec v batch_size = do
    guard (not (ltb batch_size 1)) value_error
    l ← measure codec 0 v.episodes
    guard (not (l.total_transitions == 0)) replay_error
    coordinates l batch_size

  unfoldable pub sample {ℓ} :
      {A : Type ℓ}
      → (get_transition : EpisodeEnvelope → ℕ → Result A) → EpisodeCodec
      → View
      → ℕ
      → Result (List A)
  sample get_transition codec v batch_size = do
    cs ← sample_coordinates codec v batch_size
    for_each (λ c. do e ← lookup v.episodes c.0; get_transition e c.1) cs

  unfoldable pub sample_module_coordinates :
      Option ModuleCodec → View → (module_id : String) → Value → Result (List (String × ℕ))
  sample_module_coordinates none v module_id batch_size = raise type_error
  sample_module_coordinates (some codec) v module_id batch_size = do
    guard (not (str_eq module_id "")) value_error
    n ← positive value_error batch_size
    l ← measure_module codec module_id 0 v.episodes
    guard (not (l.total_transitions == 0)) key_error
    coordinates l n

  unfoldable pub sample_module {ℓ} :
      {A : Type ℓ}
      → (get_module_transition : EpisodeEnvelope → String → ℕ → Result A) → Option ModuleCodec
      → View
      → String
      → Value
      → Result (List A)
  sample_module get_module_transition codec v module_id batch_size = do
    cs ← sample_module_coordinates codec v module_id batch_size
    for_each (λ c. do e ← lookup v.episodes c.0; get_module_transition e module_id c.1) cs
