-- ===== src/Tests/SampleRuns.antt =====
-- Sampling from a view of two episodes.
use rllib_async_runtime.Common.{ℕ, ◌-◌, ◌<◌, ◌≡◌, String, List, length, All, ok, arith}
use rllib_async_runtime.Episode.Flat.{flat_codec}
use rllib_async_runtime.View.Sampling.{sample_coordinates}
use rllib_async_runtime.View.Coordinates.{IsCoordinate, sample_coordinates_lem}
use rllib_async_runtime.View.Snapshot.{level_view}
use rllib_async_runtime.Tests.StoreRuns.{program, two, two-Inv}

-- a generator that always draws the last index
abbrev last_index : ℕ → ℕ → ℕ
last_index i n = n - 1

last_index_fits : (i n : ℕ) → 0 < n → last_index i n < n
last_index_fits i n p = omega arith

sample_coordinates_example :
    (cs : List (String × ℕ)) × (sample_coordinates last_index 0 flat_codec
        (level_view flat_codec two two-Inv)
        2
      ≡ ok cs)
    × (length cs ≡ 2)
    × All (IsCoordinate flat_codec two.episodes) cs
unfolding program
sample_coordinates_example =
    sample_coordinates_lem flat_codec last_index 0 (level_view flat_codec two two-Inv) 2
      (omega arith) (omega arith) two-Inv.retains.entries last_index_fits
