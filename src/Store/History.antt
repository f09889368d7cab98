-- ===== src/Store/History.antt =====
-- The abstract store: a list of the commits that were accepted, first come first served, and
-- sequences of commits.
use rllib_async_runtime.Common.{
  ℕ, ◌≤◌, ◌<◌, length, sum_of, ◌≡◌, refl, sym, ap, ◌∙◌, true, some, List, [], ◌∷◌, ◌++◌, arith, All,
  if◌then◌else◌, String, Option, Result, ok, raise, Error, ◌>>◌, >>=-eq-ok, ok-injective,
  value_error, subst,
}
use rllib_async_runtime.Dict.{get, contains}
use rllib_async_runtime.Dict.Laws.{contains-get, contains-map}
use rllib_async_runtime.Fifo.{is_over, survivors}
use rllib_async_runtime.Episode.Value.{Value, positive, positive_lem}
use rllib_async_runtime.Episode.Payload.{Bytes}
use rllib_async_runtime.Episode.Envelope.{EpisodeEnvelope, IsEnvelope}
use rllib_async_runtime.Episode.Codec.{EpisodeCodec, examine_lem}
use rllib_async_runtime.Replay.{CommitAck}
use rllib_async_runtime.Retention.{Manifest}
use rllib_async_runtime.Retention.Laws.{transitions_of, bytes_of, keep}
use rllib_async_runtime.Store.{EpisodeStore, EpisodeRecord, Config, empty_store, init, generation}
use rllib_async_runtime.Store.Commit.{commit_episode, publish}
use rllib_async_runtime.Store.Invariant.{manifest_of, history_of, record_item, Inv}
use rllib_async_runtime.Store.Preserve.{history-published}
use rllib_async_runtime.Store.Outcome.{
  Rejected, invalid, oversized, conflict, Outcome, rejected, repeated, new, outcome,
}
use rllib_async_runtime.Store.Behaviour.{retained_within, commit_episode-Inv}

module _ (codec : EpisodeCodec) where
  -- A commit is accepted if the episode is valid, fits an empty store, and has a new ID.
  unfoldable pub accept : (cap_t cap_b : ℕ) → Manifest → EpisodeEnvelope → Manifest
  accept cap_t cap_b m e = elim (codec.validate e >> codec.transition_count e) [
    | raise error ↦ m
    | ok n ↦
        if is_over cap_t cap_b n e.estimated_bytes
        then m
        else if contains m e.episode_id
        then m
        else m ++ (e.episode_id, (n, e.estimated_bytes)) ∷ []
  ]

  unfoldable pub accept_all : (cap_t cap_b : ℕ) → Manifest → List EpisodeEnvelope → Manifest
  accept_all cap_t cap_b m [] = m
  accept_all cap_t cap_b m (e ∷ es) = accept_all cap_t cap_b (accept cap_t cap_b m e) es

  -- An empty store satisfies the invariant.
  pub empty_store-Inv : (c : Config) → 0 < c.journal_capacity → Inv codec (empty_store c)
  unfolding survivors
  empty_store-Inv c p = record {
    journaling = p;
    retains = record {
      entries = tt;
      counts = refl;
      distinct = tt;
      retained = refl;
      transitions = refl;
      bytes = refl;
    };
    counts = record {
      committed = refl;
      recorded = refl;
      attempts = omega arith;
      conflicts = omega arith;
      evicted = omega arith;
    };
    journals = record {
      older = [];
      split = refl;
      base = refl;
      bounded = omega arith;
      journaled = tt;
    };
  }

  -- The constructor accepts its arguments only if the store that it builds satisfies the invariant.
  pub init-Inv :
      (capacity_transitions capacity_bytes journal_capacity : Value) (g : Option String)
      → (fresh : String) {s : EpisodeStore}
      → init capacity_transitions capacity_bytes journal_capacity g fresh ≡ ok s
      → Inv codec s
  unfolding init
  init-Inv t b j g fresh p =
      let (t', pt, p1) = >>=-eq-ok (positive value_error t) _ p in
      let (b', pb, p2) = >>=-eq-ok (positive value_error b) _ p1 in
      let (j', pj, p3) = >>=-eq-ok (positive value_error j) _ p2 in
      let (g', pg, p4) = >>=-eq-ok (generation g fresh) _ p3 in
      subst (Inv codec) (ok-injective p4) (empty_store-Inv _ (positive_lem value_error j pj))

  module _ (fingerprint : EpisodeEnvelope → Bytes) where
    -- The store after a sequence of calls, whatever they answer.
    unfoldable pub commit_all : EpisodeStore → List EpisodeEnvelope → EpisodeStore
    commit_all s [] = s
    commit_all s (e ∷ es) = commit_all (commit_episode codec fingerprint s e).1 es

    module _ (s : EpisodeStore) (h : Inv codec s) (e : EpisodeEnvelope) (w : IsEnvelope e) where
      known_id :
          (known : EpisodeRecord)
          → get s.episode_records e.episode_id ≡ some known
          → contains (history_of s) e.episode_id ≡ true
      known_id known g =
          contains-map record_item (λ x. refl) s.episode_records e.episode_id
          ∙ contains-get s.episode_records e.episode_id known g

      history-rejected :
          {error : Error} {c : ℕ}
          → Rejected codec fingerprint s h e w error c
          → accept s.capacity_transitions s.capacity_bytes (history_of s) e ≡ history_of s
      unfolding accept
      history-rejected (invalid p q) = rw (p, accept)
      history-rejected (oversized v o p q) = rw (examine_lem codec w v, accept, o)
      history-rejected (conflict v o known g b p q) =
          rw (examine_lem codec w v, accept, o, known_id known g)

      history-Outcome :
          {o : Result CommitAck × EpisodeStore}
          → Outcome codec fingerprint s h e w o
          → history_of o.1 ≡ accept s.capacity_transitions s.capacity_bytes (history_of s) e
      unfolding accept
      history-Outcome (rejected error c r p) = rw p (sym (history-rejected r))
      history-Outcome (repeated v f known g b p) =
          rw (p, examine_lem codec w v, accept, f, known_id known g)
      history-Outcome (new v f fresh p) =
          rw (p, examine_lem codec w v, accept, f, fresh)
            (history-published codec fingerprint s h e w v fresh)

      config-Outcome :
          {o : Result CommitAck × EpisodeStore}
          → Outcome codec fingerprint s h e w o
          → o.1.config ≡ s.config
      unfolding publish
      config-Outcome (rejected error c r p) = rw p
      config-Outcome (repeated v f known g b p) = rw p
      config-Outcome (new v f fresh p) = rw p

      pub history-commit_episode :
          history_of (commit_episode codec fingerprint s e).1
          ≡ accept s.capacity_transitions s.capacity_bytes (history_of s) e
      history-commit_episode = history-Outcome (outcome codec fingerprint s h e w)

      pub config-commit_episode : (commit_episode codec fingerprint s e).1.config ≡ s.config
      config-commit_episode = config-Outcome (outcome codec fingerprint s h e w)

    -- The history is what is accepted of the calls, in order; so the invariant holds after any calls.
    pub commit_all_lem :
        (s : EpisodeStore) (es : List EpisodeEnvelope)
        → Inv codec s
        → All IsEnvelope es
        → Inv codec (commit_all s es)
          × ((commit_all s es).config ≡ s.config)
          × (history_of (commit_all s es)
              ≡ accept_all s.capacity_transitions s.capacity_bytes (history_of s) es)
    unfolding commit_all accept_all
    commit_all_lem s [] h w = (h, refl, refl)
    commit_all_lem s (e ∷ es) h w =
        let s' = (commit_episode codec fingerprint s e).1 in
        let same = config-commit_episode s h e w.0 in
        let (h', c, l) =
          commit_all_lem s' es (commit_episode-Inv codec fingerprint s e w.0 h) w.1 in
        (
          h',
          c ∙ same,
          l
              ∙ ap
                  (λ (k : Config).
                    accept_all k.capacity_transitions k.capacity_bytes (history_of s') es)
                  same
              ∙ ap (λ m. accept_all s.capacity_transitions s.capacity_bytes m es)
                  (history-commit_episode s h e w.0),
        )

    -- From an empty store with a positive journal capacity, after any sequence of commits of
    -- envelopes, the retained episodes are, with their sizes and in order, the longest fitting suffix
    -- of the commits that were accepted: valid, small enough for the capacities, of a new ID.
    pub commit_all_retains :
        (c : Config) (es : List EpisodeEnvelope)
        → 0 < c.journal_capacity
        → All IsEnvelope es
        → manifest_of codec (commit_all (empty_store c) es).episodes
          ≡ keep c.capacity_transitions c.capacity_bytes
              (accept_all c.capacity_transitions c.capacity_bytes [] es)
    commit_all_retains c es p w =
        let (h, same, l) = commit_all_lem (empty_store c) es (empty_store-Inv c p) w in
        h.retains.retained
        ∙ ap
            (λ (k : Config).
              keep k.capacity_transitions k.capacity_bytes
                (history_of (commit_all (empty_store c) es)))
            same
        ∙ ap (keep c.capacity_transitions c.capacity_bytes) l

    -- From an empty store with a positive journal capacity, after any sequence of commits of
    -- envelopes, the two totals are the sums of the sizes of the retained episodes and within the
    -- capacities, and the journal is no longer than its capacity.
    pub commit_all_within :
        (c : Config) (es : List EpisodeEnvelope)
        → 0 < c.journal_capacity
        → All IsEnvelope es
        → let s = commit_all (empty_store c) es in
          (s.total_transitions ≡ sum_of transitions_of (manifest_of codec s.episodes))
          × (s.total_estimated_bytes ≡ sum_of bytes_of (manifest_of codec s.episodes))
          × (s.total_transitions ≤ c.capacity_transitions)
          × (s.total_estimated_bytes ≤ c.capacity_bytes)
          × (length s.journal ≤ c.journal_capacity)
    commit_all_within c es p w =
        let (h, same, _) = commit_all_lem (empty_store c) es (empty_store-Inv c p) w in
        let (t, b) = retained_within codec (commit_all (empty_store c) es) h in
        (
          h.retains.transitions,
          h.retains.bytes,
          omega (arith, t, ap (λ (k : Config). k.capacity_transitions) same),
          omega (arith, b, ap (λ (k : Config). k.capacity_bytes) same),
          omega (arith, h.journals.bounded, ap (λ (k : Config). k.journal_capacity) same),
        )
