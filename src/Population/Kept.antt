-- ===== src/Population/Kept.antt =====
-- Each part of a report keeps the counters of a population in agreement.
use rllib_async_runtime.Common.{
  ℕ, String, Option, none, some, arith, if_ind, Result, ok, raise, ltb, length,
}
use rllib_async_runtime.Dict.{Dict}
use rllib_async_runtime.Population.{Floats, eq, SimplePbtConfig}
use rllib_async_runtime.Population.Mutation.{Choices, Mutated}
use rllib_async_runtime.Population.Step.{
  MemberReport, PbtEvent, PopulationAsyncSac, eligible_member_scores, is_running, Answer,
  replace_target,
}
use rllib_async_runtime.Population.Report.{
  Answers, finish_exploit, exploit_with, exploit_chosen, exploit_scored, maybe_run_pbt_step,
  count_report, or_failed, report_with, get_report,
}
use rllib_async_runtime.Population.Counting.{IsCounted, Settled, replace_target-Settled}

module _ (fl : Floats) (padded : ℕ → String) where
  module _ (rng : Choices) (a : Answers fl) where
    finish_exploit-IsCounted :
        (p : PopulationAsyncSac fl) (donor_slot target_slot : String) (x : Answer fl String)
        → Settled fl padded p x
        → IsCounted fl padded (finish_exploit fl padded rng a donor_slot target_slot x).1
    unfolding finish_exploit
    finish_exploit-IsCounted p donor_slot target_slot (raise error, q) h = h
    finish_exploit-IsCounted p donor_slot target_slot (ok k, q) h = record {
      exploits = h.exploits;
      advanced = h.advanced;
      named = h.named;
      settled = h.settled;
      reported = omega arith;
    }

    skipped-IsCounted :
        (p : PopulationAsyncSac fl) (event : PbtEvent fl)
        → IsCounted fl padded p
        → IsCounted fl padded (record p { last_pbt_event = event })
    skipped-IsCounted p event h = record {
      exploits = h.exploits;
      advanced = h.advanced;
      named = h.named;
      settled = h.settled;
      reported = h.reported;
    }

    exploit_with-IsCounted :
        (p : PopulationAsyncSac fl) (donor_slot target_slot : String) (m : Result (Mutated fl))
        → IsCounted fl padded p
        → IsCounted fl padded (exploit_with fl padded rng a p donor_slot target_slot m).1
    unfolding exploit_with
    exploit_with-IsCounted p donor_slot target_slot (raise error) h = h
    exploit_with-IsCounted p donor_slot target_slot (ok m) h =
        finish_exploit-IsCounted p donor_slot target_slot
          (replace_target fl padded a.restart p target_slot m.hparams)
          (replace_target-Settled fl padded p h a.restart target_slot m.hparams)

    exploit_chosen-IsCounted :
        (p : PopulationAsyncSac fl) (config : SimplePbtConfig fl)
        (c : Result (String × String × fl.F × fl.F))
        → IsCounted fl padded p
        → IsCounted fl padded (exploit_chosen fl padded rng a p config c).1
    unfolding exploit_chosen
    exploit_chosen-IsCounted p config (raise error) h = h
    exploit_chosen-IsCounted p config (ok (donor_slot, target_slot, x, y)) h =
        if_ind {A = Answer fl (PbtEvent fl)} (λ z. IsCounted fl padded z.1) (eq fl x y)
          (λ _. skipped-IsCounted p _ h) (λ _. exploit_with-IsCounted p donor_slot target_slot _ h)

    exploit_scored-IsCounted :
        (p : PopulationAsyncSac fl) (config : SimplePbtConfig fl) (scores : Result (Dict fl.F))
        → IsCounted fl padded p
        → IsCounted fl padded (exploit_scored fl padded rng a p config scores).1
    unfolding exploit_scored
    exploit_scored-IsCounted p config (raise error) h = h
    exploit_scored-IsCounted p config (ok scores) h =
        if_ind {A = Answer fl (PbtEvent fl)} (λ z. IsCounted fl padded z.1) (ltb (length scores) 2)
          (λ _. skipped-IsCounted p _ h) (λ _. exploit_chosen-IsCounted p config _ h)

    maybe_run_pbt_step-IsCounted :
        (p : PopulationAsyncSac fl) (config : Option (SimplePbtConfig fl))
        (reports : Dict (MemberReport fl))
        → IsCounted fl padded p
        → IsCounted fl padded (maybe_run_pbt_step fl padded rng a p config reports).1
    unfolding maybe_run_pbt_step
    maybe_run_pbt_step-IsCounted p none reports h = skipped-IsCounted p _ h
    maybe_run_pbt_step-IsCounted p (some config) reports h =
        if_ind {A = Answer fl (PbtEvent fl)} (λ z. IsCounted fl padded z.1)
          (ltb p.reports_since_perturbation config.perturbation_interval_reports)
          (λ _. skipped-IsCounted p _ h)
          (λ _. exploit_scored-IsCounted p config (eligible_member_scores fl p reports) h)

    count_report-IsCounted :
        (c : Option (SimplePbtConfig fl)) (p : PopulationAsyncSac fl)
        → IsCounted fl padded p
        → IsCounted fl padded (count_report fl padded rng a c p)
    unfolding count_report
    count_report-IsCounted none p h = record {
      exploits = h.exploits;
      advanced = h.advanced;
      named = h.named;
      settled = h.settled;
      reported = omega arith;
    }
    count_report-IsCounted (some c) p h = record {
      exploits = h.exploits;
      advanced = h.advanced;
      named = h.named;
      settled = h.settled;
      reported = omega (arith, h.reported);
    }

    report_with-IsCounted :
        (p : PopulationAsyncSac fl) (r : Result (Dict (MemberReport fl)))
        → IsCounted fl padded p
        → IsCounted fl padded (report_with fl padded rng a p r).1
    unfolding report_with
    report_with-IsCounted p (raise error) h = h
    report_with-IsCounted p (ok reports) h =
        maybe_run_pbt_step-IsCounted _ p.pbt_config reports
          (count_report-IsCounted p.pbt_config p h)

    or_failed-IsCounted :
        (x : Answer fl (PbtEvent fl))
        → IsCounted fl padded x.1
        → IsCounted fl padded (or_failed fl padded rng a x).1
    unfolding or_failed
    or_failed-IsCounted (ok event, p) h = h
    or_failed-IsCounted (raise error, p) h = record {
      exploits = h.exploits;
      advanced = h.advanced;
      named = h.named;
      settled = h.settled;
      reported = h.reported;
    }

    pub get_report-IsCounted :
        (p : PopulationAsyncSac fl)
        → IsCounted fl padded p
        → IsCounted fl padded (get_report fl padded rng a p).1
    unfolding get_report
    get_report-IsCounted p h =
        if_ind {A = Answer fl (PbtEvent fl)} (λ z. IsCounted fl padded z.1) (is_running fl p.state)
          (λ _. or_failed-IsCounted _ (report_with-IsCounted p _ h)) (λ _. h)
