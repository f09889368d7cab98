-- ===== src/Tests/PopulationRuns.antt =====
-- A population of two members at concrete inputs, whose numbers are natural ones.
use rllib_async_runtime.Common.{
  ℕ, zero, suc, ◌*◌, ◌≡◌, ◌⊎◌, refl, String, true, some, List, [], ◌∷◌, arith, ltb, leb, ok,
}
use rllib_async_runtime.Dict.{Dict, get, contains, put, lookup}
use rllib_async_runtime.Episode.Value.{int}
use rllib_async_runtime.Episode.Versions.{insert_by_key, sort_by_key, keys_named, keys_unique}
use rllib_async_runtime.Population.{Floats, FloatMutation, maximise, SimplePbtConfig}
use rllib_async_runtime.Population.Mutation.{
  Choices, element, index_of, mutated_value, changed_values, with_candidates, candidates, has_all,
  select_hparams, Mutated, mutate_hparams,
}
use rllib_async_runtime.Population.Selection.{first_min, donor_and_target, select_donor_and_target}
use rllib_async_runtime.Population.Best.{IsSelection, select_donor_and_target-IsSelection}
use rllib_async_runtime.Population.Bounds.{IsMutation, mutate_hparams-IsMutation}
use rllib_async_runtime.Population.Step.{
  has_separator, validate_id_segment, member_id_text, make_runtime_member_id, restarted,
  is_unavailable, scored, eligible_scores, eligible_member_scores, next_target, settle,
  replace_target, PopulationAsyncSac,
}
use rllib_async_runtime.Population.Report.{
  Answers, finish_exploit, exploit_with, donate, choose, exploit_chosen, exploit_scored,
  maybe_run_pbt_step, count_report, or_failed, report_with, get_report,
}
use rllib_async_runtime.Population.Counting.{IsCounted}
use rllib_async_runtime.Population.Construct.{
  all_hparams_positive, hparams_checked, first_member_ids, new_population, population_async_sac,
  started, get_reports, get_reports-IsCounted,
}

-- What a test has to open to run a report.
population_runs : Unit {0}
unfolding get contains put lookup insert_by_key sort_by_key keys_named keys_unique element index_of
    mutated_value changed_values with_candidates candidates has_all select_hparams mutate_hparams
    first_min donor_and_target select_donor_and_target has_separator validate_id_segment
    member_id_text make_runtime_member_id is_unavailable scored eligible_scores
    eligible_member_scores next_target settle replace_target finish_exploit exploit_with donate
    choose exploit_chosen exploit_scored maybe_run_pbt_step count_report or_failed report_with
    get_report all_hparams_positive hparams_checked first_member_ids population_async_sac
    get_reports
population_runs = tt

leb_total : (a b : ℕ) → (leb a b ≡ true) ⊎ (leb b a ≡ true)
leb_total a b = ground arith

leb_trans : (a b c : ℕ) → leb a b ≡ true → leb b c ≡ true → leb a c ≡ true
leb_trans a b c p q = ground (arith, p, q)

-- Numbers whose division is left at its dividend.
abbrev naturals : Floats
naturals = record {
  F = ℕ;
  one = 1;
  positive = ltb 0;
  times = λ a b. a * b;
  divided = λ a b. a;
  le = leb;
  total = leb_total;
  transitive = leb_trans;
}

abbrev rates : Dict ℕ
rates = ("actor_lr", 4) ∷ ("critic_lr", 5) ∷ ("alpha_lr", 6) ∷ []

abbrev mutation : FloatMutation naturals
mutation = record { low = 2; high = 10; factors = 3 ∷ [] }

abbrev training : SimplePbtConfig naturals
training = record {
  perturbation_interval_reports = 1;
  min_episodes_after_restart = 2;
  mode = maximise;
  mutations = ("actor_lr", mutation) ∷ [];
}

abbrev first_choice : Choices
first_choice = record { parameter_at = λ k n. 0; value_at = λ k n m. 0 }

select_donor_and_target-IsSelection_example :
    IsSelection naturals maximise (("s0", 5) ∷ ("s1", 2) ∷ ("s2", 5) ∷ []) "s0" "s1"
unfolding population_runs
select_donor_and_target-IsSelection_example =
    select_donor_and_target-IsSelection naturals maximise (("s0", 5) ∷ ("s1", 2) ∷ ("s2", 5) ∷ [])
      "s0" "s1" (refl, (refl, (refl, tt))) refl

-- Three times the rate is above the bound.
abbrev faster : Mutated naturals
faster = record {
  hparams = ("actor_lr", 10) ∷ ("critic_lr", 5) ∷ ("alpha_lr", 6) ∷ [];
  parameter = "actor_lr";
  parameter_index = 0;
  factor = 10;
  old_value = 4;
  new_value = 10;
}

mutate_hparams-IsMutation_example : IsMutation naturals rates training.mutations faster
unfolding population_runs
mutate_hparams-IsMutation_example =
    mutate_hparams-IsMutation naturals first_choice rates training 0 faster (refl, tt) (refl, tt)
      refl

unary_text : ℕ → String
unary_text zero = ""
unary_text (suc n) = String.◌∷◌ "1" (unary_text n)

abbrev templates : Dict (Dict ℕ)
templates = ("s0", rates) ∷ ("s1", rates) ∷ []

abbrev pair_of_members : PopulationAsyncSac naturals
pair_of_members =
    new_population naturals unary_text "run" (some training) templates
      (("s0", "run-s0-g") ∷ ("s1", "run-s1-g") ∷ [])

abbrev answers : List (Answers naturals)
answers =
    record {
      reports = ok (
          ("s0", record { score = some 5; episodes_since_metric_reset = int 2 })
          ∷ ("s1", record { score = some 2; episodes_since_metric_reset = int 3 })
          ∷ []);
      stats_valid = true;
      exported = ok tt;
      restart = restarted;
    }
    ∷ []

exploited :
    (get_reports naturals unary_text first_choice answers
      (started naturals unary_text pair_of_members)).exploit_count
    ≡ 1
unfolding population_runs unary_text
exploited = refl

get_reports-IsCounted_example : IsCounted naturals unary_text (
    get_reports naturals unary_text first_choice answers
      (started naturals unary_text pair_of_members))
unfolding population_runs unary_text
get_reports-IsCounted_example =
    get_reports-IsCounted naturals unary_text first_choice "run" (some training) templates
      pair_of_members answers refl
