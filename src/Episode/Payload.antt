-- ===== src/Episode/Payload.antt =====
-- The payloads: one byte string for each transition, or byte strings grouped by module with the
-- sparse timeline that `MultiModuleEpisodePayload.__post_init__` checks.
use rllib_async_runtime.Common.{
  ℕ, zero, suc, ◌+◌, max, String, str_eq, Bool, true, false, not, ◌&&◌, Option, none, some, List,
  [], ◌∷◌, length, ltb, ◌==◌, if◌then◌else◌, Result, ok, raise, episode_validation, guard, ◌>>=◌,
  ◌>>◌,
}
use rllib_async_runtime.Dict.{Dict, get, put, tally, keys}
use rllib_async_runtime.Episode.Value.{Value, non_negative}
use rllib_async_runtime.Episode.Versions.{keys_unique, sort_by_key}

abbrev pub Bytes : Type 0
Bytes = List ℕ

pub record FlatEpisodePayload : Type 0 where
  pub encoded_transitions : List Bytes

-- `FlatEpisodePayload.__post_init__`
unfoldable pub flat_payload : List Bytes → Result FlatEpisodePayload
flat_payload [] = raise episode_validation
flat_payload (t ∷ ts) = ok (record { encoded_transitions = t ∷ ts })

pub record EncodedModuleTransition : Type 0 where
  pub env_t : ℕ
  pub agent_t : ℕ
  pub agent_id : String
  pub encoded_data : Bytes

-- `EncodedModuleTransition.__post_init__`; the data are bytes by their type
unfoldable pub encoded_module_transition :
    (env_t agent_t : Value)
    → (agent_id : String) → (encoded_data : Bytes) → Result EncodedModuleTransition
encoded_module_transition env_t agent_t agent_id encoded_data = do
  env_t' ← non_negative episode_validation env_t
  agent_t' ← non_negative episode_validation agent_t
  guard (not (str_eq agent_id "")) episode_validation
  ok (record {
    env_t = env_t';
    agent_t = agent_t';
    agent_id = agent_id;
    encoded_data = encoded_data;
  })

abbrev pub Groups : Type 0
Groups = Dict (List EncodedModuleTransition)

pub record MultiModuleEpisodePayload : Type 0 where
  pub encoded_module_transitions : Groups
  pub transition_count : ℕ
  pub env_steps : ℕ
  pub estimated_bytes : ℕ

pub data Payload : Type 0 where
  flat : FlatEpisodePayload → Payload
  multi_module : MultiModuleEpisodePayload → Payload
  foreign : Payload  -- an object of any other class

-- The local variables of the loops in `__post_init__`.
pub record Timeline : Type 0 where
  pub transition_count : ℕ
  pub estimated_bytes : ℕ
  pub observed_env_ts : List ℕ
  pub next_agent_t : Dict ℕ
  pub agent_modules : Dict String
  pub previous_agent_env_t : Dict ℕ

abbrev pub no_timeline : Timeline
no_timeline = record {
  transition_count = 0;
  estimated_bytes = 0;
  observed_env_ts = [];
  next_agent_t = [];
  agent_modules = [];
  previous_agent_env_t = [];
}

-- `transition.env_t <= previous.get(agent_id, -1)`, negated
abbrev pub is_later : Option ℕ → ℕ → Bool
is_later none env_t = true
is_later (some previous) env_t = ltb previous env_t

-- `agent_modules.setdefault(agent_id, module_id) != module_id`, negated
abbrev pub keeps_module : Option String → String → Bool
keeps_module none module_id = true
keeps_module (some previous) module_id = str_eq previous module_id

-- the body of the loop over the transitions of one group
unfoldable pub note_transition : String → EncodedModuleTransition → Timeline → Result Timeline
note_transition module_id t l = do
  guard (t.agent_t == tally l.next_agent_t t.agent_id) episode_validation
  guard (is_later (get l.previous_agent_env_t t.agent_id) t.env_t) episode_validation
  guard (keeps_module (get l.agent_modules t.agent_id) module_id) episode_validation
  ok (record {
    transition_count = l.transition_count;
    estimated_bytes = l.estimated_bytes + length t.encoded_data;
    observed_env_ts = t.env_t ∷ l.observed_env_ts;
    next_agent_t = put l.next_agent_t t.agent_id (tally l.next_agent_t t.agent_id + 1);
    agent_modules = put l.agent_modules t.agent_id module_id;
    previous_agent_env_t = put l.previous_agent_env_t t.agent_id t.env_t;
  })

unfoldable pub note_transitions : String → List EncodedModuleTransition → Timeline → Result Timeline
note_transitions module_id [] l = ok l
note_transitions module_id (t ∷ ts) l = do
  l' ← note_transition module_id t l
  note_transitions module_id ts l'

-- the loop over the groups
unfoldable pub note_groups : Groups → Timeline → Result Timeline
note_groups [] l = ok l
note_groups ((module_id, []) ∷ groups) l = raise episode_validation
note_groups ((module_id, t ∷ ts) ∷ groups) l = do
  guard (not (str_eq module_id "")) episode_validation
  l' ←
      note_transitions module_id (t ∷ ts)
        (record l { transition_count = l.transition_count + length (t ∷ ts) })
  note_groups groups l'

abbrev pub member : ℕ → List ℕ → Bool
member n [] = false
member n (x ∷ xs) = if x == n then true else member n xs

-- every number below `n` stands in the list
unfoldable pub covers_below : ℕ → List ℕ → Bool
covers_below zero xs = true
covers_below (suc n) xs = member n xs && covers_below n xs

abbrev pub max_of : List ℕ → ℕ
max_of [] = 0
max_of (x ∷ xs) = max x (max_of xs)

-- `module_ids == sorted(module_ids)`
unfoldable pub same_texts : List String → List String → Bool
same_texts [] [] = true
same_texts (a ∷ as') (b ∷ bs) = str_eq a b && same_texts as' bs
same_texts _ _ = false

-- `MultiModuleEpisodePayload.__post_init__`. The set of observed timesteps equals
-- `set(range(max + 1))` exactly if it holds every number below `max + 1`.
unfoldable pub multi_module_payload : Groups → Result MultiModuleEpisodePayload
unfolding note_groups note_transitions note_transition keys_unique sort_by_key same_texts
    covers_below tally get put
multi_module_payload [] = raise episode_validation
multi_module_payload (g ∷ gs) = do
  l ← note_groups (g ∷ gs) no_timeline
  guard (keys_unique (g ∷ gs)) episode_validation
  guard (same_texts (keys (g ∷ gs)) (keys (sort_by_key (g ∷ gs)))) episode_validation
  let env_steps = max_of l.observed_env_ts + 1
  guard (covers_below env_steps l.observed_env_ts) episode_validation
  ok (record {
    encoded_module_transitions = g ∷ gs;
    transition_count = l.transition_count;
    env_steps = env_steps;
    estimated_bytes = l.estimated_bytes;
  })
