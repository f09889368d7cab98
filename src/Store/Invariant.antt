-- ===== src/Store/Invariant.antt =====
-- The invariant of the store: what is retained is what the policy keeps of the whole commit history,
-- the totals are its sums, and the journal replays the history from its base.
use rllib_async_runtime.Common.{
  ℕ, suc, ◌+◌, ◌≤◌, ◌<◌, min, String, ◌≡◌, List, [], ◌∷◌, ◌++◌, map, length, sum_of, All, ok,
}
use rllib_async_runtime.Dict.{Dict, keys}
use rllib_async_runtime.Dict.Laws.{Distinct}
use rllib_async_runtime.Episode.Envelope.{EpisodeEnvelope, IsEnvelope}
use rllib_async_runtime.Episode.Codec.{EpisodeCodec, count_of}
use rllib_async_runtime.Replay.{ReplayTransaction}
use rllib_async_runtime.Retention.{Manifest}
use rllib_async_runtime.Retention.Laws.{transitions_of, bytes_of, keep, dropped}
use rllib_async_runtime.Store.{EpisodeStore, EpisodeRecord}

-- The retention metadata of the deduplication records, in commit order.
abbrev pub record_item : String × EpisodeRecord → String × (ℕ × ℕ)
record_item (k, r) = (k, (r.transition_count, r.estimated_bytes))

abbrev pub history_of : EpisodeStore → Manifest
history_of s = map record_item s.episode_records

-- The counters.
pub record IsCounted (s : EpisodeStore) : Type 0 where
  pub committed : s.committed_episodes ≡ s.mutation_seq
  pub recorded : length (history_of s) ≡ s.mutation_seq
  pub attempts : s.commit_attempts ≡ s.committed_episodes + s.duplicate_commits + s.rejected_commits
  pub conflicts : s.conflicting_commits ≤ s.rejected_commits
  pub evicted : s.evicted_episodes + length s.episodes ≡ s.committed_episodes

module _ (codec : EpisodeCodec) where
  abbrev pub item : EpisodeEnvelope → String × (ℕ × ℕ)
  item e = (e.episode_id, (count_of codec e, e.estimated_bytes))

  abbrev pub entry_item : String × EpisodeEnvelope → String × (ℕ × ℕ)
  entry_item (k, e) = (k, (count_of codec e, e.estimated_bytes))

  abbrev pub manifest_of : Dict EpisodeEnvelope → Manifest
  manifest_of = map entry_item

  abbrev pub entry_count : String × EpisodeEnvelope → String × ℕ
  entry_count (k, e) = (k, count_of codec e)

  abbrev pub counts_of : Dict EpisodeEnvelope → Dict ℕ
  counts_of = map entry_count

  pub record IsEntry (x : String × EpisodeEnvelope) : Type 0 where
    pub named : x.0 ≡ x.1.episode_id
    pub constructed : IsEnvelope x.1
    pub valid : codec.validate x.1 ≡ ok tt

  abbrev pub transaction_item : ReplayTransaction → String × (ℕ × ℕ)
  transaction_item t = item t.added

  -- The transactions continue the history `m`: numbered from its length, each with the evictions
  -- that its commit caused.
  abbrev pub Journaled : (cap_t cap_b : ℕ) → Manifest → List ReplayTransaction → Type 0
  Journaled cap_t cap_b m [] = Unit
  Journaled cap_t cap_b m (t ∷ ts) =
      (t.mutation_seq ≡ suc (length m))
      × IsEnvelope t.added
      × (codec.validate t.added ≡ ok tt)
      × (t.evicted_episode_ids
          ≡ keys (dropped cap_t cap_b (keep cap_t cap_b m ++ item t.added ∷ [])))
      × Journaled cap_t cap_b (m ++ item t.added ∷ []) ts

  -- The retained episodes, their counts and totals.
  pub record IsRetained (s : EpisodeStore) : Type 0 where
    pub entries : All IsEntry s.episodes
    pub counts : s.transition_counts ≡ counts_of s.episodes
    pub distinct : Distinct (history_of s)
    pub retained :
        manifest_of s.episodes ≡ keep s.capacity_transitions s.capacity_bytes (history_of s)
    pub transitions : s.total_transitions ≡ sum_of transitions_of (manifest_of s.episodes)
    pub bytes : s.total_estimated_bytes ≡ sum_of bytes_of (manifest_of s.episodes)

  -- The journal is the end of the history, and its base what was retained before it.
  pub record IsJournaled (s : EpisodeStore) : Type 0 where
    pub older : Manifest
    pub split : history_of s ≡ older ++ map transaction_item s.journal
    pub base : s.journal_base_manifest ≡ keep s.capacity_transitions s.capacity_bytes older
    pub bounded : length s.journal ≡ min s.mutation_seq s.journal_capacity
    pub journaled : Journaled s.capacity_transitions s.capacity_bytes older s.journal

  pub record Inv (s : EpisodeStore) : Type 0 where
    pub journaling : 0 < s.journal_capacity
    pub retains : IsRetained s
    pub counts : IsCounted s
    pub journals : IsJournaled s
