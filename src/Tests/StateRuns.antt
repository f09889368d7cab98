-- ===== src/Tests/StateRuns.antt =====
-- Checkpoint states of the store at concrete inputs.
use rllib_async_runtime.Common.{ℕ, zero, suc, ◌≡◌, refl, [], ◌∷◌, length, arith, ok}
use rllib_async_runtime.Episode.Value.{is_integer, positive, non_negative}
use rllib_async_runtime.Episode.Payload.{Bytes}
use rllib_async_runtime.Episode.Envelope.{EpisodeEnvelope}
use rllib_async_runtime.Episode.Codec.{count_of}
use rllib_async_runtime.Episode.Flat.{flat_codec}
use rllib_async_runtime.Retention.{
  replay_history, retention_manifest_from_history, same_ids, apply_retention_transaction,
}
use rllib_async_runtime.Store.{EpisodeStore, empty_store, init, generation}
use rllib_async_runtime.Store.Commit.{commit_episode}
use rllib_async_runtime.Store.Invariant.{Inv}
use rllib_async_runtime.Store.State.{
  export_state, digest_size, load_records, same_sizes, load_base, same_manifest, all_named,
  load_live, same_fingerprint, check_live, replay_journal,
}
use rllib_async_runtime.Store.Restore.{
  open_state, restore_base, restore_metrics, restore_journal, from_state,
}
use rllib_async_runtime.Store.Behaviour.{commit_episode-Inv}
use rllib_async_runtime.Store.History.{empty_store-Inv}
use rllib_async_runtime.Store.Stamps.{IsStamped, commit_episode-IsStamped}
use rllib_async_runtime.Store.Reread.{IsConfig}
use rllib_async_runtime.Store.RoundTrip.{from_state-export_state}
use rllib_async_runtime.Store.FromState.{from_state-Inv}
use rllib_async_runtime.Tests.Samples.{
  first, second, third, first-IsEnvelope, second-IsEnvelope, third-IsEnvelope, config,
}
use rllib_async_runtime.Tests.StoreRuns.{program}

-- What a test has to open to restore a state.
restores : Unit {0}
unfolding program is_integer positive non_negative replay_history retention_manifest_from_history
    same_ids apply_retention_transaction init generation load_records same_sizes load_base
    same_manifest all_named load_live same_fingerprint check_live replay_journal open_state
    restore_base restore_metrics restore_journal from_state
restores = tt

-- a digest of 32 bytes that tells the samples apart
abbrev seal : EpisodeEnvelope → Bytes
seal e = e.estimated_bytes ∷ zeros 31
  where
    zeros : ℕ → Bytes
    zeros zero = []
    zeros (suc n) = 0 ∷ zeros n

abbrev sealed_one : EpisodeStore
sealed_one = (commit_episode flat_codec seal (empty_store config) first).1

abbrev sealed_two : EpisodeStore
sealed_two = (commit_episode flat_codec seal sealed_one second).1

-- The third episode evicts the first.
abbrev sealed : EpisodeStore
sealed = (commit_episode flat_codec seal sealed_two third).1

start-IsStamped : IsStamped flat_codec seal (empty_store config)
start-IsStamped = record { records = tt; live = tt; journaled = tt }

start_sealed-Inv : Inv flat_codec (empty_store config)
start_sealed-Inv = empty_store-Inv flat_codec config (omega arith)

sealed_one-Inv : Inv flat_codec sealed_one
sealed_one-Inv =
    commit_episode-Inv flat_codec seal (empty_store config) first first-IsEnvelope start_sealed-Inv

sealed_two-Inv : Inv flat_codec sealed_two
sealed_two-Inv =
    commit_episode-Inv flat_codec seal sealed_one second second-IsEnvelope sealed_one-Inv

sealed-Inv : Inv flat_codec sealed
sealed-Inv = commit_episode-Inv flat_codec seal sealed_two third third-IsEnvelope sealed_two-Inv

digests : (e : EpisodeEnvelope) → length (seal e) ≡ digest_size
digests e = refl

sealed_one-IsStamped : IsStamped flat_codec seal sealed_one
sealed_one-IsStamped =
    commit_episode-IsStamped flat_codec seal digests (empty_store config) start_sealed-Inv first
      first-IsEnvelope start-IsStamped

sealed_two-IsStamped : IsStamped flat_codec seal sealed_two
sealed_two-IsStamped =
    commit_episode-IsStamped flat_codec seal digests sealed_one sealed_one-Inv second
      second-IsEnvelope sealed_one-IsStamped

commit_episode-IsStamped_example : IsStamped flat_codec seal sealed
commit_episode-IsStamped_example =
    commit_episode-IsStamped flat_codec seal digests sealed_two sealed_two-Inv third
      third-IsEnvelope sealed_two-IsStamped

from_state-Inv_example : Inv flat_codec sealed
unfolding restores
from_state-Inv_example =
    from_state-Inv flat_codec seal "" (export_state flat_codec sealed)
      (second-IsEnvelope, (third-IsEnvelope, tt)) (second-IsEnvelope, (third-IsEnvelope, tt)) refl

config-IsConfig : IsConfig config
config-IsConfig = record { transitions = omega arith; bytes = omega arith; named = refl }

from_state-export_state_example :
    from_state flat_codec seal "" (export_state flat_codec sealed_two) ≡ ok sealed_two
unfolding restores count_of
from_state-export_state_example =
    from_state-export_state flat_codec seal sealed_two config-IsConfig sealed_two-Inv
      sealed_two-IsStamped ""
