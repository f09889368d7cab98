-- ===== src/Population/Step.antt =====
-- `make_runtime_member_id`, and the steps of `PopulationAsyncSAC` of src/rllib_async/runtime/population.py:
-- which members are eligible, the replacement of a target, and a report with its step. What the actors
-- answer is an argument: the members' reports, whether the donor's state was exported, and whether the
-- replacement started. Of a member its runtime state and its ID are kept, of its seeds the generation
-- that they add; the durations, and the numbers of an event but its count, are left out.
use rllib_async_runtime.Common.{
  ℕ, ◌+◌, String, str_eq, Bool, true, false, not, ◌&&◌, ◌||◌, Option, none, some, List, [], ◌∷◌,
  leb, ◌==◌, if◌then◌else◌, Result, ok, raise, value_error, population, guard, ◌>>=◌, ◌>>◌,
}
use Prim.Native.Char.{code}
use Prim.Native.String.{◌++◌}
use rllib_async_runtime.Dict.{Dict, get, put, lookup}
use rllib_async_runtime.Episode.Value.{Value, int}
use rllib_async_runtime.Population.{Floats, SimplePbtConfig}

pub data RuntimeState : Type 0 where
  created running paused draining stopped failed : RuntimeState

-- `"/" in s or "\\" in s`
unfoldable pub has_separator : String → Bool
has_separator String.[] = false
has_separator (String.◌∷◌ c s) = code c == b'/' || code c == b'\\' || has_separator s

-- `_validate_id_segment`
unfoldable pub validate_id_segment : String → Result (Unit {0})
unfolding has_separator
validate_id_segment s =
    guard (not (str_eq s "") && not (str_eq s ".") && not (str_eq s "..") && not (has_separator s))
      value_error

-- `f"{run_id}-{slot_id}-g{generation:04d}"`; the padded text of a number is Python's
unfoldable pub member_id_text : (padded : ℕ → String) → (run_id slot_id : String) → ℕ → String
member_id_text padded run_id slot_id generation =
    run_id ++ ("-" ++ (slot_id ++ ("-g" ++ padded generation)))

unfoldable pub make_runtime_member_id :
    (padded : ℕ → String) → (run_id slot_id : String) → ℕ → Result String
unfolding validate_id_segment member_id_text
make_runtime_member_id padded run_id slot_id generation = do
  validate_id_segment run_id
  validate_id_segment slot_id
  ok (member_id_text padded run_id slot_id generation)

-- Whether the old target was stopped and its replacement started, or in which state the old one is left.
pub data Restart : Type 0 where
  restarted : Restart
  broken : (left : RuntimeState) → Restart

pub data Reason : Type 0 where
  not_started disabled interval_not_reached not_enough_eligible_members equal_scores exploit :
      Reason

module _ (fl : Floats) where
  -- the score of a report, if its metric is a finite number, and its count of episodes
  pub record MemberReport : Type 0 where
    pub score : Option fl.F
    pub episodes_since_metric_reset : Value

  pub record PbtEvent : Type 0 where
    pub exploit_count : ℕ
    pub reason : Reason
    pub donor_slot : String
    pub target_slot : String
    pub new_runtime_member_id : String

  pub record PopulationAsyncSac : Type 0 where
    pub run_id : String
    pub slot_ids : List String
    pub pbt_config : Option (SimplePbtConfig fl)
    pub state : RuntimeState
    pub members : Dict RuntimeState
    pub runtime_member_ids : Dict String
    pub generations : Dict ℕ
    pub exploit_count_as_target : Dict ℕ
    pub current_hparams : Dict (Dict fl.F)
    pub report_index : ℕ
    pub reports_since_perturbation : ℕ
    pub exploit_count : ℕ
    pub last_pbt_event : PbtEvent
    pub restarting_slot : Option String

  abbrev pub is_running : RuntimeState → Bool
  is_running running = true
  is_running _ = false

  -- `member is not None and member.state is not RUNNING or slot_id == restarting_slot`
  unfoldable pub is_unavailable : PopulationAsyncSac → String → Bool
  unfolding get
  is_unavailable p slot_id =
      elim (get p.members slot_id) [ none ↦ false | some m ↦ not (is_running m) ]
      || elim p.restarting_slot [ none ↦ false | some k ↦ str_eq slot_id k ]

  abbrev pub has_episodes : ℕ → Value → Bool
  has_episodes minimum (int n) = leb minimum n
  has_episodes minimum _ = false

  -- one turn of the loop over the slots
  unfoldable pub scored : (minimum : ℕ) → String → MemberReport → Dict fl.F → Dict fl.F
  scored minimum slot_id report rest = elim report.score [
    | none ↦ rest
    | some s ↦
        if has_episodes minimum report.episodes_since_metric_reset
        then (slot_id, s) ∷ rest
        else rest
  ]

  unfoldable pub eligible_scores :
      PopulationAsyncSac → (minimum : ℕ) → Dict MemberReport → List String → Result (Dict fl.F)
  unfolding is_unavailable scored lookup
  eligible_scores p minimum reports [] = ok []
  eligible_scores p minimum reports (slot_id ∷ slots) =
      let rest = eligible_scores p minimum reports slots in
      if is_unavailable p slot_id
      then rest
      else (do report ← lookup reports slot_id; r ← rest; ok (scored minimum slot_id report r))

  abbrev pub minimum_episodes : Option (SimplePbtConfig fl) → ℕ
  minimum_episodes none = 1
  minimum_episodes (some c) = c.min_episodes_after_restart

  -- `_eligible_member_scores`
  unfoldable pub eligible_member_scores :
      PopulationAsyncSac → Dict MemberReport → Result (Dict fl.F)
  unfolding eligible_scores
  eligible_member_scores p reports =
      eligible_scores p (minimum_episodes p.pbt_config) reports p.slot_ids

  -- an answer or exception, with the population that is left
  abbrev pub Answer : Type 0 → Type 0
  Answer A = Result A × PopulationAsyncSac

  abbrev pub skipped_event : PopulationAsyncSac → Reason → PbtEvent
  skipped_event p reason = record {
    exploit_count = p.exploit_count;
    reason = reason;
    donor_slot = "";
    target_slot = "";
    new_runtime_member_id = "";
  }

  -- `_record_skipped_pbt_event`
  abbrev pub record_skipped : PopulationAsyncSac → Reason → Answer PbtEvent
  record_skipped p reason =
      (ok (skipped_event p reason), record p { last_pbt_event = skipped_event p reason })

  -- the assignments after the replacement started
  abbrev pub installed :
      PopulationAsyncSac
      → String
      → (generation as_target : ℕ) → (runtime_member_id : String) → Dict fl.F
      → PopulationAsyncSac
  installed p target_slot generation as_target runtime_member_id hparams = record p {
    members = put p.members target_slot running;
    runtime_member_ids = put p.runtime_member_ids target_slot runtime_member_id;
    generations = put p.generations target_slot generation;
    exploit_count_as_target = put p.exploit_count_as_target target_slot (as_target + 1);
    current_hparams = put p.current_hparams target_slot hparams;
    restarting_slot = none;
  }

  -- the old target is broken off, and nothing assigned
  abbrev pub broken_off : PopulationAsyncSac → String → RuntimeState → PopulationAsyncSac
  broken_off p target_slot left = record p {
    members = put p.members target_slot left;
    restarting_slot = none;
  }

  -- the new generation, the count of the target, and the new ID
  unfoldable pub next_target :
      (padded : ℕ → String) → PopulationAsyncSac → (target_slot : String) → Result (ℕ × ℕ × String)
  unfolding lookup make_runtime_member_id
  next_target padded p target_slot = do
    m ← lookup p.members target_slot
    generation ← lookup p.generations target_slot
    k ← make_runtime_member_id padded p.run_id target_slot (generation + 1)
    as_target ← lookup p.exploit_count_as_target target_slot
    ok (generation + 1, as_target, k)

  -- `_replace_target` with those
  unfoldable pub settle :
      Restart → PopulationAsyncSac → String → Dict fl.F → Result (ℕ × ℕ × String) → Answer String
  settle _ p target_slot hparams (raise error) = (raise error, p)
  settle restarted p target_slot hparams (ok (generation, as_target, k)) =
      (ok k, installed p target_slot generation as_target k hparams)
  settle (broken left) p target_slot hparams (ok (generation, as_target, k)) =
      (raise population, broken_off p target_slot left)

  unfoldable pub replace_target :
      (padded : ℕ → String)
      → Restart
      → PopulationAsyncSac
      → (target_slot : String) → Dict fl.F
      → Answer String
  unfolding next_target settle
  replace_target padded restart p target_slot hparams =
      settle restart p target_slot hparams (next_target padded p target_slot)
