-- ===== src/Episode/MultiModule.antt =====
-- `MultiModuleEpisodeCodec`: sparse transitions of several agents, grouped by module.
use rllib_async_runtime.Common.{
  ℕ, ◌<◌, ◌-◌, ◌≡◌, String, str_eq, Bool, true, false, not, ◌&&◌, Option, none, some, List, [], ◌∷◌,
  ◌++◌, length, arith, ltb, ◌==◌, if◌then◌else◌, Result, ok, raise, episode_validation,
  schema_mismatch, index_error, key_error, guard, ◌>>=◌, ◌>>◌,
}
use rllib_async_runtime.Dict.{Dict, get, contains, put, keys}
use rllib_async_runtime.Episode.Value.{Value, int, non_negative}
use rllib_async_runtime.Episode.Versions.{sort_by_key}
use rllib_async_runtime.Episode.Payload.{
  Bytes, Groups, EncodedModuleTransition, encoded_module_transition, MultiModuleEpisodePayload,
  multi_module_payload, Payload, flat, multi_module, foreign,
}
use rllib_async_runtime.Episode.Envelope.{EpisodeEnvelope, IsEnvelope}
use rllib_async_runtime.Episode.Flat.{at_index}
use rllib_async_runtime.Episode.Codec.{EpisodeCodec}

-- `_payload`
unfoldable pub multi_of : Payload → Result MultiModuleEpisodePayload
multi_of (multi_module p) = ok p
multi_of (flat p) = raise episode_validation
multi_of foreign = raise episode_validation

-- the keys of the first dictionary are keys of the second
unfoldable pub keys_in {ℓ κ} : {V : Type ℓ} {W : Type κ} → Dict V → Dict W → Bool
unfolding contains
keys_in [] e = true
keys_in ((k, v) ∷ d) e = contains e k && keys_in d e

unfoldable pub validate : EpisodeEnvelope → Result (Unit {0})
unfolding multi_of keys_in
validate e = do
  guard (e.schema_version == 1) schema_mismatch
  p ← multi_of e.payload
  guard (e.agent_steps == p.transition_count) episode_validation
  guard
      (keys_in e.behavior_versions p.encoded_module_transitions
        && keys_in p.encoded_module_transitions e.behavior_versions)
      episode_validation
  guard (e.env_steps == p.env_steps) episode_validation
  guard (e.estimated_bytes == p.estimated_bytes) episode_validation

unfoldable pub transition_count : EpisodeEnvelope → Result ℕ
unfolding validate
transition_count e = do validate e; p ← multi_of e.payload; ok p.transition_count

unfoldable pub module_ids : EpisodeEnvelope → Result (List String)
unfolding validate
module_ids e = do validate e; p ← multi_of e.payload; ok (keys p.encoded_module_transitions)

-- `_module_transitions`
unfoldable pub module_transitions : EpisodeEnvelope → String → Result (List EncodedModuleTransition)
unfolding multi_of get
module_transitions e module_id = do
  guard (not (str_eq module_id "")) key_error
  p ← multi_of e.payload
  elim (get p.encoded_module_transitions module_id) [ none ↦ raise key_error | some ts ↦ ok ts ]

unfoldable pub module_transition_count : EpisodeEnvelope → String → Result ℕ
unfolding validate module_transitions
module_transition_count e module_id = do
  validate e
  ts ← module_transitions e module_id
  ok (length ts)

-- the loop of `get_transition` over the groups
unfoldable pub locate : Groups → ℕ → Result (String × EncodedModuleTransition)
unfolding at_index
locate [] offset = raise index_error
locate ((module_id, ts) ∷ groups) offset =
    let rest = locate groups (offset - length ts) in
    if ltb offset (length ts) then (do t ← at_index ts offset; ok (module_id, t)) else rest

-- A transition with its data. What the data are is a parameter, as `pickle` is, with `keys_of` for what
-- the checks look at: `none` for an object that is no mapping, else its keys, each `none` where it is
-- no text.
pub record MultiModuleTransition {ℓ} (A : Type ℓ) : Type ℓ where
  pub env_t : ℕ
  pub agent_t : ℕ
  pub agent_id : String
  pub module_id : String
  pub content : A

-- `not any(not isinstance(key, str) or not key for key in self.data)`
unfoldable pub texts_named : List (Option String) → Bool
texts_named [] = true
texts_named (none ∷ ks) = false
texts_named (some k ∷ ks) = not (str_eq k "") && texts_named ks

-- `isinstance(self.data, Mapping)`, and that it is not empty
abbrev pub is_mapping : Option (List (Option String)) → Bool
is_mapping none = false
is_mapping (some ks) = true

unfoldable pub mapping_named : Option (List (Option String)) → Bool
unfolding texts_named
mapping_named none = false
mapping_named (some []) = false
mapping_named (some (k ∷ ks)) = texts_named (k ∷ ks)

module _ {ℓ} {A : Type ℓ} (keys_of : A → Option (List (Option String))) where
  -- `MultiModuleTransition.__post_init__`
  unfoldable pub multi_module_transition :
      (env_t agent_t : Value)
      → (agent_id module_id : String) → (content : A) → Result (MultiModuleTransition A)
  unfolding non_negative mapping_named
  multi_module_transition env_t agent_t agent_id module_id content = do
    env_t' ← non_negative episode_validation env_t
    agent_t' ← non_negative episode_validation agent_t
    guard (not (str_eq agent_id "")) episode_validation
    guard (not (str_eq module_id "")) episode_validation
    guard (mapping_named (keys_of content)) episode_validation
    ok (record {
      env_t = env_t';
      agent_t = agent_t';
      agent_id = agent_id;
      module_id = module_id;
      content = content;
    })

module _ {ℓ} {A : Type ℓ} (keys_of : A → Option (List (Option String)))
    (loads : Bytes → Result A) where
  unfoldable pub decode : String → EncodedModuleTransition → Result (MultiModuleTransition A)
  unfolding multi_module_transition
  decode module_id t = do
    content ← loads t.encoded_data
    guard (is_mapping (keys_of content)) episode_validation
    multi_module_transition keys_of (int t.env_t) (int t.agent_t) t.agent_id module_id content

  unfoldable pub get_transition : EpisodeEnvelope → ℕ → Result (MultiModuleTransition A)
  unfolding validate locate decode
  get_transition e index = do
    validate e
    p ← multi_of e.payload
    (module_id, t) ← locate p.encoded_module_transitions index
    decode module_id t

  unfoldable pub get_module_transition :
      EpisodeEnvelope → String → ℕ → Result (MultiModuleTransition A)
  unfolding validate module_transitions at_index decode
  get_module_transition e module_id index = do
    validate e
    ts ← module_transitions e module_id
    t ← at_index ts index
    decode module_id t

-- `dumps` is `pickle.dumps` of the data, with what it raises as the `except` clause makes it.
module _ {ℓ} {A : Type ℓ} (dumps : A → Result Bytes) where
  abbrev group_of : Option (List EncodedModuleTransition) → List EncodedModuleTransition
  group_of none = []
  group_of (some ts) = ts

  -- `grouped[module_id].append(…)` on a `defaultdict(list)`
  unfoldable pub group : Groups → List (MultiModuleTransition A) → Result Groups
  unfolding get put encoded_module_transition
  group groups [] = ok groups
  group groups (t ∷ ts) = do
    encoded_data ← dumps t.content
    x ← encoded_module_transition (int t.env_t) (int t.agent_t) t.agent_id encoded_data
    group (put groups t.module_id (group_of (get groups t.module_id) ++ x ∷ [])) ts

  unfoldable pub encode : List (MultiModuleTransition A) → Result MultiModuleEpisodePayload
  unfolding group sort_by_key multi_module_payload
  encode ts = do grouped ← group [] ts; multi_module_payload (sort_by_key grouped)

-- A valid episode's count is its number of agent steps, so it is positive.
pub transition_count_of_valid :
    (e : EpisodeEnvelope)
    → IsEnvelope e
    → validate e ≡ ok tt
    → (n : ℕ) × (transition_count e ≡ ok n) × (0 < n)
unfolding transition_count
transition_count_of_valid e w h = (e.agent_steps, ground arith, w.agent_positive)

unfoldable pub multi_module_codec : EpisodeCodec
unfolding transition_count
multi_module_codec = record {
  codec_id = "multi-module-pickle-v1";
  schema_version = 1;
  validate = validate;
  transition_count = transition_count;
  count_of_valid = transition_count_of_valid;
}
