-- ===== src/Store/Behaviour.antt =====
-- The invariant and the counters after a commit, whether it returns or raises.
use rllib_async_runtime.Common.{
  ℕ, ◌+◌, ◌≤◌, ◌≡◌, refl, sym, ap, ◌∙◌, true, [], ◌∷◌, arith, ==_refl, Result, raise, Error, sum_of,
}
use rllib_async_runtime.Fifo.Laws.{survivors-fits}
use rllib_async_runtime.Episode.Payload.{Bytes}
use rllib_async_runtime.Episode.Envelope.{EpisodeEnvelope, IsEnvelope}
use rllib_async_runtime.Episode.Codec.{EpisodeCodec}
use rllib_async_runtime.Replay.{CommitAck}
use rllib_async_runtime.Retention.Laws.{transitions_of, bytes_of}
use rllib_async_runtime.Store.{EpisodeStore}
use rllib_async_runtime.Store.Commit.{same_bytes, commit_episode}
use rllib_async_runtime.Store.Invariant.{history_of, Inv}
use rllib_async_runtime.Store.Preserve.{published-Inv, with_counters, Inv-with_counters}
use rllib_async_runtime.Store.Outcome.{
  Rejected, invalid, oversized, conflict, Outcome, rejected, repeated, new, outcome,
}

pub same_bytes_refl : (b : Bytes) → same_bytes b b ≡ true
unfolding same_bytes
same_bytes_refl [] = refl
same_bytes_refl (x ∷ b) = rw (==_refl x) (same_bytes_refl b)

module _ (codec : EpisodeCodec) where
  -- A store that satisfies the invariant is within both capacities.
  pub retained_within :
      (s : EpisodeStore)
      → Inv codec s
      → (s.total_transitions ≤ s.capacity_transitions)
        × (s.total_estimated_bytes ≤ s.capacity_bytes)
  retained_within s h =
      let fits =
        survivors-fits transitions_of bytes_of s.capacity_transitions s.capacity_bytes
          (history_of s) in
      let t = h.retains.transitions ∙ ap (sum_of transitions_of) h.retains.retained in
      let b = h.retains.bytes ∙ ap (sum_of bytes_of) h.retains.retained in omega (arith, fits, t, b)

  module _ (fingerprint : EpisodeEnvelope → Bytes) (s : EpisodeStore) (e : EpisodeEnvelope)
      (w : IsEnvelope e) (h : Inv codec s) where
    abbrev answer : Result CommitAck
    answer = (commit_episode codec fingerprint s e).0

    abbrev after : EpisodeStore
    after = (commit_episode codec fingerprint s e).1

    rejected-Inv :
        {error : Error} {c : ℕ}
        → Rejected codec fingerprint s h e w error c
        → Inv codec
            (with_counters s (s.commit_attempts + 1) s.duplicate_commits (s.rejected_commits + 1) c)
    rejected-Inv (invalid p q) =
        Inv-with_counters codec _ _ _ _ h (omega (arith, h.counts.attempts))
          (omega (arith, q, h.counts.conflicts))
    rejected-Inv (oversized v o p q) =
        Inv-with_counters codec _ _ _ _ h (omega (arith, h.counts.attempts))
          (omega (arith, q, h.counts.conflicts))
    rejected-Inv (conflict v o known g b p q) =
        Inv-with_counters codec _ _ _ _ h (omega (arith, h.counts.attempts))
          (omega (arith, q, h.counts.conflicts))

    outcome-Inv :
        {o : Result CommitAck × EpisodeStore} → Outcome codec fingerprint s h e w o → Inv codec o.1
    outcome-Inv (rejected error c r p) = rw p (rejected-Inv r)
    outcome-Inv (repeated v f known g b p) =
        rw p
          (Inv-with_counters codec _ _ _ _ h (omega (arith, h.counts.attempts)) h.counts.conflicts)
    outcome-Inv (new v f fresh p) = rw p (published-Inv codec fingerprint s h e w v fresh)

    -- From a store that satisfies the invariant, a commit of any envelope, whether it returns or
    -- raises, leaves a store that satisfies it.
    pub commit_episode-Inv : Inv codec after
    commit_episode-Inv = outcome-Inv (outcome codec fingerprint s h e w)

    Outcome-raised :
        {o : Result CommitAck × EpisodeStore} {error : Error}
        → Outcome codec fingerprint s h e w o
        → o.0 ≡ raise error
        → o.1
          ≡ with_counters s
              (s.commit_attempts + 1)
              s.duplicate_commits
              (s.rejected_commits + 1)
              o.1.conflicting_commits
    Outcome-raised (rejected error c r p) q = rw p
    Outcome-raised (repeated v f known g b p) q = absurd (cc (sym q ∙ ap (λ x. x.0) p))
    Outcome-raised (new v f fresh p) q = absurd (cc (sym q ∙ ap (λ x. x.0) p))

    -- A commit that raises leaves every field of the store as it was, but for three counters: one
    -- more attempt, one more rejection, and possibly the conflicts.
    pub commit_episode_raises :
        (error : Error)
        → answer ≡ raise error
        → after
          ≡ with_counters s
              (s.commit_attempts + 1)
              s.duplicate_commits
              (s.rejected_commits + 1)
              after.conflicting_commits
    commit_episode_raises error q = Outcome-raised (outcome codec fingerprint s h e w) q
