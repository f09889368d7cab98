-- ===== src/Store/Restore.antt =====
-- `EpisodeStore.from_state` of src/rllib_async/replay/reference.py, in the order of its checks. That the
-- number of evictions is the difference of two numbers is written as a sum, since ℕ has no negative ones.
use rllib_async_runtime.Common.{
  ℕ, suc, ◌+◌, ◌-◌, min, String, str_eq, not, ◌&&◌, List, [], map, length, take, drop, sum_of, leb,
  ◌==◌, Result, ok, invalid_store_state, guard, rethrow, ◌>>=◌, ◌>>◌,
}
use rllib_async_runtime.Dict.{Dict, keys}
use rllib_async_runtime.Fifo.{is_over}
use rllib_async_runtime.Episode.Value.{is_integer, non_negative}
use rllib_async_runtime.Episode.Payload.{Bytes}
use rllib_async_runtime.Episode.Envelope.{EpisodeEnvelope}
use rllib_async_runtime.Episode.Codec.{EpisodeCodec}
use rllib_async_runtime.Replay.{ReplayTransaction}
use rllib_async_runtime.Retention.{
  Manifest, retention_manifest, retention_manifest_from_history, same_ids,
}
use rllib_async_runtime.Retention.Laws.{transitions_of, bytes_of}
use rllib_async_runtime.Store.{EpisodeStore, EpisodeRecord, Config, init}
use rllib_async_runtime.Store.Invariant.{record_item}
use rllib_async_runtime.Store.State.{
  EpisodeStoreState, BaseEntry, Live, no_episodes, load_live, load_records, load_base, check_live,
  same_manifest, replay_journal,
}

-- the versions of the state, and an empty store of its configuration
unfoldable pub open_state :
    EpisodeCodec → (fresh : String) → EpisodeStoreState → Result EpisodeStore
unfolding is_integer
open_state codec fresh st = do
  guard (is_integer st.format_version 2) invalid_store_state
  guard
      (str_eq st.codec_id codec.codec_id && is_integer st.codec_schema_version codec.schema_version)
      invalid_store_state
  rethrow invalid_store_state
      (init st.capacity_transitions st.capacity_bytes st.journal_capacity st.store_generation fresh)

-- the base of the journal: its entries, and that they are what the history before the journal leaves
unfoldable pub restore_base :
    Config → Dict EpisodeRecord → (base_seq : ℕ) → List BaseEntry → Result Manifest
unfolding load_base same_manifest
restore_base c d base_seq entries = do
  base ← load_base d entries []
  expected ←
      retention_manifest_from_history c.capacity_transitions c.capacity_bytes
        (take base_seq (map record_item d))
  guard (same_manifest base expected) invalid_store_state
  ok base

-- the counters
pub record Metrics : Type 0 where
  pub commit_attempts : ℕ
  pub committed_episodes : ℕ
  pub duplicate_commits : ℕ
  pub rejected_commits : ℕ
  pub conflicting_commits : ℕ
  pub evicted_episodes : ℕ

unfoldable pub restore_metrics :
    EpisodeStoreState → (mutation_seq live_episodes recorded : ℕ) → Result Metrics
unfolding non_negative
restore_metrics st mutation_seq live_episodes recorded = do
  attempts ← non_negative invalid_store_state st.commit_attempts
  committed ← non_negative invalid_store_state st.committed_episodes
  duplicates ← non_negative invalid_store_state st.duplicate_commits
  rejected ← non_negative invalid_store_state st.rejected_commits
  conflicting ← non_negative invalid_store_state st.conflicting_commits
  evicted ← non_negative invalid_store_state st.evicted_episodes
  guard (committed == mutation_seq) invalid_store_state
  guard (attempts == committed + duplicates + rejected) invalid_store_state
  guard (leb conflicting rejected) invalid_store_state
  guard (evicted + live_episodes == committed) invalid_store_state
  guard (recorded == committed) invalid_store_state
  ok (record {
    commit_attempts = attempts;
    committed_episodes = committed;
    duplicate_commits = duplicates;
    rejected_commits = rejected;
    conflicting_commits = conflicting;
    evicted_episodes = evicted;
  })

module _ (codec : EpisodeCodec) (fingerprint : EpisodeEnvelope → Bytes) where
  -- the journal, against the records, its base and the live episodes
  unfoldable pub restore_journal :
      Config
      → Dict EpisodeRecord
      → Live
      → (base_seq : ℕ) → (base : Manifest) → List ReplayTransaction
      → Result (Unit {0})
  unfolding replay_journal same_ids same_manifest
  restore_journal c d l base_seq base journal = do
    reconstructed ←
        replay_journal codec fingerprint c.capacity_transitions c.capacity_bytes d (suc base_seq)
          base (sum_of transitions_of base) (sum_of bytes_of base) journal
    guard
        (same_ids (map (λ (t : ReplayTransaction). t.added.episode_id) journal)
          (drop base_seq (keys d)))
        invalid_store_state
    expected ← retention_manifest l.episodes l.transition_counts
    guard (same_manifest reconstructed expected) invalid_store_state

  -- the assignments at the end
  abbrev pub restored :
      Config
      → (mutation_seq : ℕ) → Live
      → Dict EpisodeRecord
      → (base : Manifest) → List ReplayTransaction
      → Metrics
      → EpisodeStore
  restored c mutation_seq l d base journal m = record {
    config = c;
    mutation_seq = mutation_seq;
    episodes = l.episodes;
    transition_counts = l.transition_counts;
    episode_records = d;
    total_transitions = l.total_transitions;
    total_estimated_bytes = l.total_estimated_bytes;
    producer_episode_counts = l.producer_episode_counts;
    producer_transition_counts = l.producer_transition_counts;
    journal_base_manifest = base;
    journal = journal;
    commit_attempts = m.commit_attempts;
    committed_episodes = m.committed_episodes;
    duplicate_commits = m.duplicate_commits;
    rejected_commits = m.rejected_commits;
    conflicting_commits = m.conflicting_commits;
    evicted_episodes = m.evicted_episodes;
  }

  -- `EpisodeStore.from_state`; `fresh` is the generation for a state that has none
  unfoldable pub from_state : (fresh : String) → EpisodeStoreState → Result EpisodeStore
  unfolding open_state load_live load_records check_live restore_base restore_journal
      restore_metrics
  from_state fresh st = do
    store ← open_state codec fresh st
    let c = store.config
    seq ← non_negative invalid_store_state st.mutation_seq
    l ← load_live codec st.episodes no_episodes
    guard
        (not (
          is_over c.capacity_transitions c.capacity_bytes l.total_transitions
            l.total_estimated_bytes))
        invalid_store_state
    d ← load_records c.capacity_transitions c.capacity_bytes st.episode_records []
    check_live codec fingerprint d l.transition_counts l.episodes
    guard (length st.journal == min seq c.journal_capacity) invalid_store_state
    base ← restore_base c d (seq - length st.journal) st.journal_base_manifest
    restore_journal c d l (seq - length st.journal) base st.journal
    m ← restore_metrics st seq (length l.episodes) (length d)
    ok (restored c seq l d base st.journal m)
