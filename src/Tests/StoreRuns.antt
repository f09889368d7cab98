-- ===== src/Tests/StoreRuns.antt =====
-- The store at concrete inputs.
use rllib_async_runtime.Common.{
  ◌≤◌, ◌+◌, ◌≡◌, refl, true, false, some, List, length, sum_of, [], ◌∷◌, ◌++◌, arith, ok, raise,
  episode_too_large, duplicate_conflict,
}
use rllib_async_runtime.Dict.{Dict, get, contains, put, remove, lookup, tally, increase, decrease}
use rllib_async_runtime.Fifo.{survivors}
use rllib_async_runtime.Episode.Value.{Value, positive}
use rllib_async_runtime.Episode.Envelope.{EpisodeEnvelope}
use rllib_async_runtime.Episode.Flat.{flat_codec}
use rllib_async_runtime.Retention.{
  Manifest, trim, retention_manifest, retention_manifest_from_history, evict_fifo,
  advance_retention_manifest,
}
use rllib_async_runtime.Retention.Laws.{
  transitions_of, bytes_of, keep, retention_manifest_from_history_lem,
}
use rllib_async_runtime.Store.{EpisodeStore, empty_store, init, generation, cursor}
use rllib_async_runtime.Store.Commit.{
  evict_episodes, same_bytes, compact, journal_base, prepare, publish, commit_new, commit_known,
  commit_counted, commit_episode,
}
use rllib_async_runtime.Store.Invariant.{manifest_of, Inv}
use rllib_async_runtime.Store.Preserve.{with_counters}
use rllib_async_runtime.Store.Behaviour.{commit_episode-Inv, commit_episode_raises}
use rllib_async_runtime.Store.Retry.{
  repeated_commit, commit_episode_retry, commit_episode_committed,
}
use rllib_async_runtime.Store.History.{
  accept, accept_all, commit_all, commit_all_retains, commit_all_within, empty_store-Inv, init-Inv,
}
use rllib_async_runtime.Store.Producers.{one_each, produced, commit_all-produced}
use rllib_async_runtime.Dict.Laws.{Distinct}
use rllib_async_runtime.Episode.Codec.{count_of}
use rllib_async_runtime.Tests.Samples.{
  first, second, third, oversized, impostor, first-IsEnvelope, second-IsEnvelope, third-IsEnvelope,
  oversized-IsEnvelope, impostor-IsEnvelope, config, mark,
}

-- What a test has to open to run a commit.
unfoldable pub program : Unit {0}
unfolding get contains put remove lookup tally increase decrease flat_codec trim retention_manifest
    evict_fifo advance_retention_manifest evict_episodes same_bytes compact journal_base prepare
    publish commit_new commit_known commit_counted commit_episode
program = tt

abbrev pub start : EpisodeStore
start = empty_store config

pub start-Inv : Inv flat_codec start
start-Inv = empty_store-Inv flat_codec config (omega arith)

abbrev pub one : EpisodeStore
one = (commit_episode flat_codec mark start first).1

abbrev pub two : EpisodeStore
two = (commit_episode flat_codec mark one second).1

pub one-Inv : Inv flat_codec one
one-Inv = commit_episode-Inv flat_codec mark start first first-IsEnvelope start-Inv

pub two-Inv : Inv flat_codec two
two-Inv = commit_episode-Inv flat_codec mark one second second-IsEnvelope one-Inv

-- The third episode evicts the first, whose commit leaves the journal.
third_evicts :
    (commit_episode flat_codec mark two third).0
    ≡ ok (record {
      cursor = record { store_generation = "g"; mutation_seq = 3 };
      committed = true;
      duplicate = false;
      evicted_episode_ids = "a" ∷ [];
    })
unfolding program
third_evicts = refl

oversized_raises : (commit_episode flat_codec mark two oversized).0 ≡ raise episode_too_large
unfolding program
oversized_raises = refl

impostor_raises : (commit_episode flat_codec mark two impostor).0 ≡ raise duplicate_conflict
unfolding program
impostor_raises = refl

commit_episode-Inv_example : Inv flat_codec (commit_episode flat_codec mark two third).1
commit_episode-Inv_example = commit_episode-Inv flat_codec mark two third third-IsEnvelope two-Inv

commit_all_retains_example :
    manifest_of flat_codec
      (commit_all flat_codec mark start (first ∷ impostor ∷ second ∷ third ∷ [])).episodes
    ≡ keep 3 10 (accept_all flat_codec 3 10 [] (first ∷ impostor ∷ second ∷ third ∷ []))
commit_all_retains_example =
    commit_all_retains flat_codec mark config (first ∷ impostor ∷ second ∷ third ∷ []) (omega arith)
      (first-IsEnvelope, (impostor-IsEnvelope, (second-IsEnvelope, (third-IsEnvelope, tt))))

-- The policy, by evaluation.
accept_all_sample :
    keep 3 10 (accept_all flat_codec 3 10 [] (first ∷ impostor ∷ second ∷ third ∷ []))
    ≡ ("b", (1, 2)) ∷ ("c", (2, 2)) ∷ []
unfolding program survivors accept_all accept
accept_all_sample = refl

abbrev calls : List EpisodeEnvelope
calls = first ∷ impostor ∷ second ∷ third ∷ []

commit_all_within_example :
    let s = commit_all flat_codec mark start calls in
    (s.total_transitions ≡ sum_of transitions_of (manifest_of flat_codec s.episodes))
    × (s.total_estimated_bytes ≡ sum_of bytes_of (manifest_of flat_codec s.episodes))
    × (s.total_transitions ≤ 3)
    × (s.total_estimated_bytes ≤ 10)
    × (length s.journal ≤ config.journal_capacity)
commit_all_within_example =
    commit_all_within flat_codec mark config calls (omega arith)
      (first-IsEnvelope, (impostor-IsEnvelope, (second-IsEnvelope, (third-IsEnvelope, tt))))

-- the producer of every sample
commit_all-produced_example :
    let s = commit_all flat_codec mark start calls in
    (tally s.producer_episode_counts "member-0" ≡ produced one_each "member-0" s.episodes)
    × (tally s.producer_transition_counts "member-0"
        ≡ produced (count_of flat_codec) "member-0" s.episodes)
    × Distinct s.producer_episode_counts
    × Distinct s.producer_transition_counts
commit_all-produced_example =
    commit_all-produced flat_codec mark config calls "member-0" (omega arith)
      (first-IsEnvelope, (impostor-IsEnvelope, (second-IsEnvelope, (third-IsEnvelope, tt))))

commit_episode_raises_example :
    (commit_episode flat_codec mark two oversized).1
    ≡ with_counters two
        (two.commit_attempts + 1)
        two.duplicate_commits
        (two.rejected_commits + 1)
        (commit_episode flat_codec mark two oversized).1.conflicting_commits
commit_episode_raises_example =
    commit_episode_raises flat_codec mark two oversized oversized-IsEnvelope two-Inv
      episode_too_large oversized_raises

commit_episode_retry_example :
    commit_episode flat_codec mark (commit_episode flat_codec mark two third).1 third
    ≡ repeated_commit flat_codec mark third third-IsEnvelope
        (commit_episode flat_codec mark two third).1
commit_episode_retry_example =
    commit_episode_retry flat_codec mark third third-IsEnvelope two two-Inv _ third_evicts

commit_episode_committed_example :
    (earlier : Dict EpisodeEnvelope) × ((commit_episode flat_codec mark two third).1.episodes
      ≡ earlier ++ ("c", third) ∷ [])
    × (record { store_generation = "g"; mutation_seq = 3 }
        ≡ cursor (commit_episode flat_codec mark two third).1)
    × ((commit_episode flat_codec mark two third).1.mutation_seq ≡ two.mutation_seq + 1)
commit_episode_committed_example =
    commit_episode_committed flat_codec mark third third-IsEnvelope two two-Inv _ third_evicts refl

abbrev sample_history : Manifest
sample_history = ("a", (2, 3)) ∷ ("b", (1, 2)) ∷ ("c", (2, 2)) ∷ []

retention_manifest_from_history_example :
    retention_manifest_from_history 3 10 sample_history ≡ ok (keep 3 10 sample_history)
unfolding contains
retention_manifest_from_history_example =
    retention_manifest_from_history_lem 3 10 sample_history (refl, (refl, (refl, tt)))

init-Inv_example : Inv flat_codec (empty_store config)
unfolding init positive generation
init-Inv_example =
    init-Inv flat_codec (Value.int 3) (Value.int 10) (Value.int 2) (some "g") "fresh" refl
