-- ===== src/Population/Construct.antt =====
-- The constructor of `PopulationAsyncSAC` of src/rllib_async/runtime/population.py, with the checks of
-- the members' IDs and hyperparameters; those of settings, spaces and seeds are left out; and the runs of `get_report`.
use rllib_async_runtime.Common.{
  ℕ, ◌≡◌, refl, sym, ap, ◌∙◌, subst, String, Bool, true, ◌&&◌, Option, none, some, List, [], ◌∷◌,
  map, length, arith, ltb, Result, ok, value_error, guard, ◌>>=◌, ◌>>◌, >>=-eq-ok, ok-injective,
}
use rllib_async_runtime.Dict.{Dict}
use rllib_async_runtime.Episode.Versions.{keys_unique}
use rllib_async_runtime.Population.{Floats, SimplePbtConfig}
use rllib_async_runtime.Population.Mutation.{Choices}
use rllib_async_runtime.Population.Step.{
  created, running, not_started, validate_id_segment, member_id_text, make_runtime_member_id,
  PopulationAsyncSac,
}
use rllib_async_runtime.Population.Report.{Answers, get_report}
use rllib_async_runtime.Population.Counting.{total_of, IsCounted}
use rllib_async_runtime.Population.Kept.{get_report-IsCounted}

module _ (fl : Floats) (padded : ℕ → String) where
  -- the hyperparameters of a template are positive where the training is enabled
  unfoldable pub all_hparams_positive : Dict fl.F → Bool
  all_hparams_positive [] = true
  all_hparams_positive ((k, v) ∷ d) = fl.positive v && all_hparams_positive d

  unfoldable pub hparams_checked :
      Option (SimplePbtConfig fl) → Dict (Dict fl.F) → Result (Unit {0})
  unfolding all_hparams_positive
  hparams_checked none templates = ok tt
  hparams_checked (some c) [] = ok tt
  hparams_checked (some c) ((slot_id, hparams) ∷ templates) = do
    guard (all_hparams_positive hparams) value_error
    hparams_checked (some c) templates

  abbrev has_mutations : Option (SimplePbtConfig fl) → Bool
  has_mutations none = true
  has_mutations (some c) = ltb 0 (length c.mutations)

  -- `make_runtime_member_id` for each slot, in generation 0
  unfoldable pub first_member_ids : (run_id : String) → List String → Result (Dict String)
  unfolding make_runtime_member_id
  first_member_ids run_id [] = ok []
  first_member_ids run_id (slot_id ∷ slots) = do
    k ← make_runtime_member_id padded run_id slot_id 0
    rest ← first_member_ids run_id slots
    ok ((slot_id, k) ∷ rest)

  abbrev pub zeros : Dict (Dict fl.F) → Dict ℕ
  zeros = map (λ x. (x.0, 0))

  abbrev pub new_population :
      (run_id : String)
      → Option (SimplePbtConfig fl)
      → Dict (Dict fl.F)
      → Dict String
      → PopulationAsyncSac fl
  new_population run_id config templates ids = record {
    run_id = run_id;
    slot_ids = map (λ x. x.0) templates;
    pbt_config = config;
    state = created;
    members = [];
    runtime_member_ids = ids;
    generations = zeros templates;
    exploit_count_as_target = zeros templates;
    current_hparams = templates;
    report_index = 0;
    reports_since_perturbation = 0;
    exploit_count = 0;
    last_pbt_event = record {
      exploit_count = 0;
      reason = not_started;
      donor_slot = "";
      target_slot = "";
      new_runtime_member_id = "";
    };
    restarting_slot = none;
  }

  -- `PopulationAsyncSAC.__init__`; the templates are the slots with their hyperparameters
  unfoldable pub population_async_sac :
      (run_id : String)
      → Option (SimplePbtConfig fl)
      → Dict (Dict fl.F)
      → Result (PopulationAsyncSac fl)
  unfolding validate_id_segment first_member_ids hparams_checked
  population_async_sac run_id config templates = do
    guard (ltb 1 (length templates)) value_error
    guard (keys_unique templates) value_error
    validate_id_segment run_id
    guard (has_mutations config) value_error
    ids ← first_member_ids run_id (map (λ x. x.0) templates)
    hparams_checked config templates
    ok (new_population run_id config templates ids)

  -- the end of `start`: every slot has a running member
  abbrev pub started : PopulationAsyncSac fl → PopulationAsyncSac fl
  started p = record p { state = running; members = map (λ k. (k, running)) p.slot_ids }

  -- the population after a sequence of reports
  unfoldable pub get_reports :
      Choices → List (Answers fl) → PopulationAsyncSac fl → PopulationAsyncSac fl
  unfolding get_report
  get_reports rng [] p = p
  get_reports rng (a ∷ answers) p = get_reports rng answers (get_report fl padded rng a p).1

  zeros-total : (d : Dict (Dict fl.F)) → total_of (zeros d) ≡ 0
  zeros-total [] = refl
  zeros-total (x ∷ d) = omega (arith, zeros-total d)

  first_member_ids_lem :
      (run_id : String) (d : Dict (Dict fl.F)) {ids : Dict String}
      → first_member_ids run_id (map (λ x. x.0) d) ≡ ok ids
      → ids ≡ map (λ x. (x.0, member_id_text padded run_id x.0 x.1)) (zeros d)
  unfolding first_member_ids make_runtime_member_id
  first_member_ids_lem run_id [] h = sym (ok-injective h)
  first_member_ids_lem run_id ((slot_id, hparams) ∷ d) h =
      let (k, p, h1) = >>=-eq-ok (make_runtime_member_id padded run_id slot_id 0) _ h in
      let (rest, q, h2) = >>=-eq-ok (first_member_ids run_id (map (λ x. x.0) d)) _ h1 in
      let (_, _, p1) = >>=-eq-ok (validate_id_segment run_id) _ p in
      let (_, _, p2) = >>=-eq-ok (validate_id_segment slot_id) _ p1 in
      sym (ok-injective h2)
      ∙ ap (λ i. (slot_id, i) ∷ rest) (sym (ok-injective p2))
      ∙ ap (◌∷◌ (slot_id, member_id_text padded run_id slot_id 0)) (first_member_ids_lem run_id d q)

  started-IsCounted :
      (run_id : String) (config : Option (SimplePbtConfig fl)) (templates : Dict (Dict fl.F))
      {p : PopulationAsyncSac fl}
      → population_async_sac run_id config templates ≡ ok p
      → IsCounted fl padded (started p)
  unfolding population_async_sac
  started-IsCounted run_id config templates h =
      let (_, _, h1) = >>=-eq-ok (guard (ltb 1 (length templates)) value_error) _ h in
      let (_, _, hu) = >>=-eq-ok (guard (keys_unique templates) value_error) _ h1 in
      let (_, _, h2) = >>=-eq-ok (validate_id_segment run_id) _ hu in
      let (_, _, h3) = >>=-eq-ok (guard (has_mutations config) value_error) _ h2 in
      let (ids, q, h4) = >>=-eq-ok (first_member_ids run_id (map (λ x. x.0) templates)) _ h3 in
      let (_, _, h5) = >>=-eq-ok (hparams_checked config templates) _ h4 in
      subst (λ p. IsCounted fl padded (started p)) (ok-injective h5)
        (record {
          exploits = sym (zeros-total templates);
          advanced = refl;
          named = first_member_ids_lem run_id templates q;
          settled = refl;
          reported = omega arith;
        })

  get_reports-keeps :
      (rng : Choices) (answers : List (Answers fl)) (p : PopulationAsyncSac fl)
      → IsCounted fl padded p
      → IsCounted fl padded (get_reports rng answers p)
  unfolding get_reports
  get_reports-keeps rng [] p h = h
  get_reports-keeps rng (a ∷ answers) p h =
      get_reports-keeps rng answers _ (get_report-IsCounted fl padded rng a p h)

  -- In a population that the constructor made and that was started, after any sequence of reports,
  -- with any answers of the actors, also where a report raised: the exploits are those of the targets,
  -- each of which advanced its slot by one generation and gave it the ID of that generation; no slot
  -- is being restarted, and the reports since the last perturbation are among all reports.
  pub get_reports-IsCounted :
      (rng : Choices) (run_id : String) (config : Option (SimplePbtConfig fl))
      (templates : Dict (Dict fl.F)) (p : PopulationAsyncSac fl) (answers : List (Answers fl))
      → population_async_sac run_id config templates ≡ ok p
      → IsCounted fl padded (get_reports rng answers (started p))
  get_reports-IsCounted rng run_id config templates p answers h =
      get_reports-keeps rng answers (started p) (started-IsCounted run_id config templates h)
