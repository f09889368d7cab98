-- ===== src/Fast/Index.antt =====
-- `FastReplay._build_view`: the sampling index of a request, and one for each module where the codec has
-- modules.
use rllib_async_runtime.Common.{
  ℕ, ◌+◌, String, not, Option, none, some, List, [], ◌∷◌, ◌++◌, ltb, ◌==◌, Result, ok, replay_error,
  guard, ◌>>=◌, ◌>>◌,
}
use rllib_async_runtime.Dict.{Dict, get, put, lookup, tally}
use rllib_async_runtime.Episode.Envelope.{EpisodeEnvelope}
use rllib_async_runtime.Episode.Versions.{sort_by_key}
use rllib_async_runtime.Fast.{EpisodeRecord, ModuleSamplingIndex, MaterializedView, BuildRequest}

-- What `ModuleEpisodeCodec` adds to a codec.
pub record ModuleCodec : Type 0 where
  pub module_ids : EpisodeEnvelope → Result (List String)
  pub module_transition_count : EpisodeEnvelope → String → Result ℕ

-- The three dictionaries of lists and totals by module.
pub record ModuleIndices : Type 0 where
  pub episode_indices : Dict (List ℕ)
  pub cumulative_lengths : Dict (List ℕ)
  pub totals : Dict ℕ

abbrev pub no_indices : ModuleIndices
no_indices = record { episode_indices = []; cumulative_lengths = []; totals = [] }

-- The local variables of the loop.
pub record Building : Type 0 where
  pub episode_ids : List String
  pub episodes : List EpisodeEnvelope
  pub cumulative_lengths : List ℕ
  pub total_transitions : ℕ
  pub modules : ModuleIndices

-- `d.setdefault(k, []).append(n)`
unfoldable pub append_to : Dict (List ℕ) → String → ℕ → Dict (List ℕ)
append_to d k n = elim (get d k) [ none ↦ put d k (n ∷ []) | some ns ↦ put d k (ns ++ n ∷ []) ]

-- the inner loop: the modules of one episode, and the sum of their counts so far
unfoldable pub index_modules :
    ModuleCodec
    → EpisodeEnvelope
    → (episode_index : ℕ) → List String
    → ℕ
    → ModuleIndices
    → Result (ℕ × ModuleIndices)
index_modules codec e episode_index [] total m = ok (total, m)
index_modules codec e episode_index (module_id ∷ ids) total m = do
  n ← codec.module_transition_count e module_id
  guard (not (ltb n 1)) replay_error
  index_modules codec e episode_index ids (total + n) (record {
    episode_indices = append_to m.episode_indices module_id episode_index;
    cumulative_lengths = append_to m.cumulative_lengths module_id (tally m.totals module_id + n);
    totals = put m.totals module_id (tally m.totals module_id + n);
  })

unfoldable pub index_episode_modules :
    Option ModuleCodec → EpisodeRecord → (episode_index : ℕ) → ModuleIndices → Result ModuleIndices
index_episode_modules none r episode_index m = ok m
index_episode_modules (some codec) r episode_index m = do
  ids ← codec.module_ids r.episode
  (total, m') ← index_modules codec r.episode episode_index ids 0 m
  guard (total == r.transition_count) replay_error
  ok m'

-- the loop over the records
unfoldable pub index_records :
    Option ModuleCodec → (episode_index : ℕ) → List EpisodeRecord → Building → Result Building
index_records codec episode_index [] b = ok b
index_records codec episode_index (r ∷ rs) b = do
  m ← index_episode_modules codec r episode_index b.modules
  index_records codec (episode_index + 1) rs (record {
    episode_ids = b.episode_ids ++ r.episode.episode_id ∷ [];
    episodes = b.episodes ++ r.episode ∷ [];
    cumulative_lengths = b.cumulative_lengths ++ (b.total_transitions + r.transition_count) ∷ [];
    total_transitions = b.total_transitions + r.transition_count;
    modules = m;
  })

-- the index of each module, in the order of the names
unfoldable pub module_indices : ModuleIndices → Dict ℕ → Result (Dict ModuleSamplingIndex)
module_indices m [] = ok []
module_indices m ((module_id, total) ∷ totals) = do
  indices ← lookup m.episode_indices module_id
  lengths ← lookup m.cumulative_lengths module_id
  rest ← module_indices m totals
  ok (
      (
        module_id,
        record {
          episode_indices = indices;
          cumulative_lengths = lengths;
          total_transitions = total;
        },
      )
      ∷ rest)

abbrev pub no_building : Building
no_building = record {
  episode_ids = [];
  episodes = [];
  cumulative_lengths = [];
  total_transitions = 0;
  modules = no_indices;
}

unfoldable pub build_view : Option ModuleCodec → BuildRequest → Result MaterializedView
build_view codec request = do
  b ← index_records codec 0 request.records no_building
  guard (b.total_transitions == request.total_transitions) replay_error
  modules ← module_indices b.modules (sort_by_key b.modules.totals)
  ok (record {
    cursor = request.cursor;
    episodes = b.episodes;
    sampling_index = record {
      episode_ids = b.episode_ids;
      cumulative_lengths = b.cumulative_lengths;
      total_transitions = b.total_transitions;
    };
    module_sampling_indices = modules;
    total_estimated_bytes = request.total_estimated_bytes;
  })
