-- ===== src/Population/Report.antt =====
-- `PopulationAsyncSAC._maybe_run_pbt_step` and `get_report` of src/rllib_async/runtime/population.py.
use rllib_async_runtime.Common.{
  ℕ, ◌+◌, String, Bool, Option, none, some, length, ltb, if◌then◌else◌, Result, ok, raise,
  population, guard, ◌>>=◌, ◌>>◌,
}
use rllib_async_runtime.Dict.{Dict, lookup}
use rllib_async_runtime.Population.{Floats, eq, SimplePbtConfig}
use rllib_async_runtime.Population.Mutation.{Choices, Mutated, mutate_hparams}
use rllib_async_runtime.Population.Selection.{select_donor_and_target}
use rllib_async_runtime.Population.Step.{
  failed, Restart, disabled, interval_not_reached, not_enough_eligible_members, equal_scores,
  exploit, MemberReport, PbtEvent, PopulationAsyncSac, eligible_member_scores, is_running, Answer,
  record_skipped, replace_target,
}

-- What the actors answer during a report.
pub record Answers (fl : Floats) : Type 0 where
  pub reports : Result (Dict (MemberReport fl))
  pub stats_valid : Bool
  pub exported : Result (Unit {0})
  pub restart : Restart

module _ (fl : Floats) (padded : ℕ → String) (rng : Choices) (a : Answers fl) where
  -- the assignments after `_replace_target`
  unfoldable pub finish_exploit :
      (donor_slot target_slot : String) → Answer fl String → Answer fl (PbtEvent fl)
  finish_exploit donor_slot target_slot (raise error, p) = (raise error, p)
  finish_exploit donor_slot target_slot (ok k, p) =
      let event : PbtEvent fl = record {
        exploit_count = p.exploit_count + 1;
        reason = exploit;
        donor_slot = donor_slot;
        target_slot = target_slot;
        new_runtime_member_id = k;
      } in
      (
        ok event,
        record p {
          exploit_count = p.exploit_count + 1;
          reports_since_perturbation = 0;
          last_pbt_event = event;
        },
      )

  unfoldable pub exploit_with :
      PopulationAsyncSac fl
      → (donor_slot target_slot : String) → Result (Mutated fl)
      → Answer fl (PbtEvent fl)
  unfolding finish_exploit replace_target
  exploit_with p donor_slot target_slot (raise error) = (raise error, p)
  exploit_with p donor_slot target_slot (ok m) =
      finish_exploit donor_slot target_slot
        (replace_target fl padded a.restart p target_slot m.hparams)

  -- the donor's state and its mutated hyperparameters
  unfoldable pub donate :
      PopulationAsyncSac fl → SimplePbtConfig fl → (donor_slot : String) → Result (Mutated fl)
  unfolding lookup mutate_hparams
  donate p config donor_slot = do
    a.exported
    hparams ← lookup p.current_hparams donor_slot
    mutate_hparams fl rng hparams config p.exploit_count

  -- the pair that is selected, with its scores
  unfoldable pub choose : SimplePbtConfig fl → Dict fl.F → Result (String × String × fl.F × fl.F)
  unfolding select_donor_and_target lookup
  choose config scores = do
    (donor_slot, target_slot) ← select_donor_and_target fl config.mode scores
    donor_score ← lookup scores donor_slot
    target_score ← lookup scores target_slot
    ok (donor_slot, target_slot, donor_score, target_score)

  unfoldable pub exploit_chosen :
      PopulationAsyncSac fl
      → SimplePbtConfig fl
      → Result (String × String × fl.F × fl.F)
      → Answer fl (PbtEvent fl)
  unfolding exploit_with donate
  exploit_chosen p config (raise error) = (raise error, p)
  exploit_chosen p config (ok (donor_slot, target_slot, donor_score, target_score)) =
      let event = exploit_with p donor_slot target_slot (donate p config donor_slot) in
      if eq fl donor_score target_score then record_skipped fl p equal_scores else event

  unfoldable pub exploit_scored :
      PopulationAsyncSac fl → SimplePbtConfig fl → Result (Dict fl.F) → Answer fl (PbtEvent fl)
  unfolding exploit_chosen choose
  exploit_scored p config (raise error) = (raise error, p)
  exploit_scored p config (ok scores) =
      if ltb (length scores) 2
      then record_skipped fl p not_enough_eligible_members
      else exploit_chosen p config (choose config scores)

  -- `_maybe_run_pbt_step`
  unfoldable pub maybe_run_pbt_step :
      PopulationAsyncSac fl
      → Option (SimplePbtConfig fl)
      → Dict (MemberReport fl)
      → Answer fl (PbtEvent fl)
  unfolding exploit_scored eligible_member_scores
  maybe_run_pbt_step p none reports = record_skipped fl p disabled
  maybe_run_pbt_step p (some config) reports =
      if ltb p.reports_since_perturbation config.perturbation_interval_reports
      then record_skipped fl p interval_not_reached
      else exploit_scored p config (eligible_member_scores fl p reports)

  -- the counters of a report
  unfoldable pub count_report :
      Option (SimplePbtConfig fl) → PopulationAsyncSac fl → PopulationAsyncSac fl
  count_report none p = record p {
    report_index = p.report_index + 1;
    reports_since_perturbation = p.report_index + 1;
  }
  count_report (some c) p = record p {
    report_index = p.report_index + 1;
    reports_since_perturbation = p.reports_since_perturbation + 1;
  }

  -- `except Exception: self._state = RuntimeState.FAILED; raise`
  unfoldable pub or_failed : Answer fl (PbtEvent fl) → Answer fl (PbtEvent fl)
  or_failed (ok event, p) = (ok event, p)
  or_failed (raise error, p) = (raise error, record p { state = failed })

  unfoldable pub report_with :
      PopulationAsyncSac fl → Result (Dict (MemberReport fl)) → Answer fl (PbtEvent fl)
  unfolding count_report maybe_run_pbt_step
  report_with p (raise error) = (raise error, p)
  report_with p (ok reports) = maybe_run_pbt_step (count_report p.pbt_config p) p.pbt_config reports

  -- `get_report`, by its event
  unfoldable pub get_report : PopulationAsyncSac fl → Answer fl (PbtEvent fl)
  unfolding or_failed report_with
  get_report p =
      if is_running fl p.state
      then or_failed
          (report_with p (do reports ← a.reports; guard a.stats_valid population; ok reports))
      else (raise population, p)
