-- ===== src/Rollout/Schedule.antt =====
-- The scheduler of `AsyncRolloutGroup`: backpressure and `_schedule_available`.
use rllib_async_runtime.Common.{
  ℕ, ◌+◌, String, str_eq, Bool, true, false, not, ◌&&◌, List, [], ◌∷◌, ◌++◌, length, ltb, leb, max,
  ◌==◌, if◌then◌else◌,
}
use rllib_async_runtime.Dict.{Dict, get, put}
use rllib_async_runtime.Common.{Option, none, some}
use rllib_async_runtime.Rollout.{RolloutGroupState, running, AsyncRolloutGroup}

-- `_outstanding`
abbrev pub outstanding : AsyncRolloutGroup → ℕ
outstanding g = length g.pending_samples + length g.pending_commits

abbrev pub is_running : RolloutGroupState → Bool
is_running running = true
is_running _ = false

abbrev pub is_empty {ℓ} : {A : Type ℓ} → List A → Bool
is_empty [] = true
is_empty (x ∷ xs) = false

-- `_enter_backpressure`
abbrev pub enter_backpressure : AsyncRolloutGroup → AsyncRolloutGroup
enter_backpressure g =
    if g.backpressured
    then g
    else record g { backpressured = true; backpressure_events = g.backpressure_events + 1 }

-- `_leave_backpressure`
abbrev pub leave_backpressure : AsyncRolloutGroup → AsyncRolloutGroup
leave_backpressure g = record g { backpressured = false }

-- `_relieve_backpressure_if_due`
unfoldable pub relieve_backpressure_if_due : AsyncRolloutGroup → AsyncRolloutGroup
relieve_backpressure_if_due g =
    if g.backpressured && leb (outstanding g) g.low_watermark then leave_backpressure g else g

-- `==` of two version mappings, which are sorted
unfoldable pub same_versions : Dict ℕ → Dict ℕ → Bool
same_versions [] [] = true
same_versions [] (x ∷ w) = false
same_versions (x ∷ v) [] = false
same_versions ((j, m) ∷ v) ((k, n) ∷ w) = str_eq j k && m == n && same_versions v w

unfoldable pub holds_versions : Option (Dict ℕ) → Dict ℕ → Bool
unfolding same_versions
holds_versions none w = false
holds_versions (some v) w = same_versions v w

-- the body of the loop: one call of `collect_episode`, with weights if the runner has older ones; the
-- submission of the call is taken to succeed
unfoldable pub call_runner : String → AsyncRolloutGroup → AsyncRolloutGroup
call_runner runner_id g = record g {
  calls = g.calls + 1;
  pending_samples = g.pending_samples ++ (g.calls, runner_id) ∷ [];
  runner_weight_versions =
      if holds_versions (get g.runner_weight_versions runner_id) g.latest_weights.module_versions
      then g.runner_weight_versions
      else put g.runner_weight_versions runner_id g.latest_weights.module_versions;
  sample_calls_started = g.sample_calls_started + 1;
  outstanding_high_watermark = max g.outstanding_high_watermark (outstanding g + 1);
}

-- the loop; `idle` is what remains of `_idle_runners`
unfoldable pub call_idle : List String → AsyncRolloutGroup → AsyncRolloutGroup
call_idle [] g = record g { idle_runners = [] }
call_idle (runner_id ∷ idle) g =
    let rest = call_idle idle (call_runner runner_id g) in
    if ltb (outstanding g) g.high_watermark
    then rest
    else record g { idle_runners = runner_id ∷ idle }

-- the test after the loop
unfoldable pub press_if_full : AsyncRolloutGroup → AsyncRolloutGroup
press_if_full g =
    if not (is_empty g.idle_runners) && leb g.high_watermark (outstanding g)
    then enter_backpressure g
    else g

-- `_schedule_available`
unfoldable pub schedule_available : AsyncRolloutGroup → AsyncRolloutGroup
schedule_available g =
    if is_running g.state && not g.backpressured
    then press_if_full (call_idle g.idle_runners g)
    else g
