-- ===== src/View/Resync.antt =====
-- One round of synchronisation in either case: the journal still covers the view's cursor, or the
-- view has to load a snapshot.
use rllib_async_runtime.Common.{
  ℕ, ◌+◌, ◌≤◌, List, ◌∷◌, length, arith, eq_refl, ==_iff, ◌<◌, ◌≡◌, ◌⊎◌, inl, inr, true, false,
  some, none, [], refl, ◌>>=◌, Bool-cases, ltb, ok, raise, full_resync_required,
}
use rllib_async_runtime.Episode.Codec.{EpisodeCodec}
use rllib_async_runtime.Replay.{ReplayTransaction, ReplayDelta}
use rllib_async_runtime.Store.{EpisodeStore, cursor}
use rllib_async_runtime.Store.Delta.{outside_journal, requires_full_resync, get_snapshot, get_delta}
use rllib_async_runtime.Store.Invariant.{Inv}
use rllib_async_runtime.View.{View, apply_delta, load_snapshot}
use rllib_async_runtime.View.Numbering.{Numbered}
use rllib_async_runtime.View.Sync.{IsBehind, distance}
use rllib_async_runtime.View.Round.{
  view_cursor, journal-Numbered, journal_reaches, covered, sync_round,
}
use rllib_async_runtime.View.Snapshot.{level_view, load_snapshot_lem}

-- A cursor outside the journal stands before it.
before_journal :
    (js : List ReplayTransaction) (older at now : ℕ)
    → Numbered older js
    → older + length js ≡ now
    → at ≤ now
    → outside_journal js at now ≡ true
    → at < older
unfolding outside_journal
before_journal [] older at now n r l o = ground (arith, ==_iff at now)
before_journal (j ∷ js) older at now n r l o = ground (arith, n.0)

module _ (codec : EpisodeCodec) (s : EpisodeStore) (h : Inv codec s) (v : View)
    (b : IsBehind codec s v) (max_bytes : ℕ) where
  -- The delta asks for a full resync, the view refuses it, and the store's snapshot, loaded in its
  -- place, makes the view level with the store.
  abbrev pub IsResynced : Type 0
  IsResynced =
      (d : ReplayDelta) × (get_delta s (view_cursor codec s h v b) max_bytes ≡ ok d)
      × (apply_delta codec v d ≡ raise full_resync_required)
      × ((get_snapshot s none >>= load_snapshot codec) ≡ ok (level_view codec s h))

  -- The view applies the delta and is still behind the store; it was level or stands further on now;
  -- and the delta says that there is more, or the view has the store's episodes and cursor.
  abbrev pub IsAdvanced : Type 0
  IsAdvanced =
      (d : ReplayDelta) × (v' : View) × (b' : IsBehind codec s v') × (get_delta s
          (view_cursor codec s h v b) max_bytes
        ≡ ok d)
      × (apply_delta codec v d ≡ ok v')
      × ((b.seq ≡ s.mutation_seq) ⊎ (b.seq < b'.seq))
      × ((d.has_more ≡ true) ⊎ ((v'.episodes ≡ s.episodes) × (v'.cursor ≡ some (cursor s))))

  module _ (budget : ltb max_bytes 1 ≡ false) where
    abbrev refused : ReplayDelta
    refused = record {
      base_cursor = view_cursor codec s h v b;
      next_cursor = cursor s;
      transactions = [];
      full_resync_required = true;
      has_more = false;
    }

    resynced : requires_full_resync s (view_cursor codec s h v b) ≡ true → IsResynced
    unfolding get_delta get_snapshot apply_delta
    resynced p = (refused, rw (budget, p), refl, load_snapshot_lem codec s h)

    lags :
        requires_full_resync s (view_cursor codec s h v b) ≡ true → b.seq < length h.journals.older
    unfolding requires_full_resync
    lags p =
        before_journal s.journal (length h.journals.older) b.seq s.mutation_seq
          (journal-Numbered codec s h v b) (journal_reaches codec s h v b)
          (omega (arith, distance codec s v b))
          (ground (arith, p, eq_refl s.store_generation, distance codec s v b))

    -- For a view that is behind a store whose invariant holds, and a byte limit of at least one. Where
    -- the view lags by more commits than the journal can hold, the store answers a delta that asks for
    -- a full resync, the view refuses it, and loading the store's snapshot instead succeeds with the
    -- store's episodes and cursor. Else the view applies the delta that the store answers and is
    -- still behind the store; it was level or stands further on now; and the delta says that there
    -- is more, or the view has the store's episodes and cursor.
    pub sync_or_resync :
        ((b.seq + s.journal_capacity < s.mutation_seq) × IsResynced)
        ⊎ ((s.mutation_seq ≤ b.seq + s.journal_capacity) × IsAdvanced)
    sync_or_resync = elim (Bool-cases (requires_full_resync s (view_cursor codec s h v b))) [
      | inl p ↦
          inl (omega (arith, lags p, journal_reaches codec s h v b, h.journals.bounded), resynced p)
      | inr p ↦ inr (
        omega (arith, covered codec s h v b p, journal_reaches codec s h v b, h.journals.bounded),
        sync_round codec s h v b p max_bytes budget,
      )
    ]
