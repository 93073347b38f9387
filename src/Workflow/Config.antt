-- ===== src/Workflow/Config.antt =====
-- The types of voiceagent/workflows/config.py and their field checks. Pydantic has already given
-- each value its type; `check_field` and the checks below are the constraints that the source
-- states on top. An error stands for the `ValueError` (or pydantic's own) that is raised; where
-- pydantic would collect several, the first stands for all.
pub mod Structure
use call_agent.Prelude.{
  ℕ, ◌≤◌, ◌≡◌, arith, String, Bool, true, false, not, ◌&&◌, ◌||◌, Option, none, some, List, [], ◌∷◌,
  ℤ, pos, length, all, codes, len, leb, leb_ℤ, is_none, if◌then◌else◌,
}
use call_agent.Prelude.Eq.{◌==◌, string_eq, nat_eq}
use call_agent.Prelude.Sets.{elem}
use call_agent.Prelude.Results.{Result, ok, err, ◌>>=◌, ◌>>◌, raise_if, >>=-eq-ok}

pub data Invalid : Type 0 where
  bad_step_id bad_predicate bad_threshold missing_threshold unused_threshold : Invalid
  too_many_arguments bad_tool_id nested_workflow unknown_outcome text_too_long : Invalid
  unsupported_follow_up_type bad_step_count : Invalid
  duplicate_step_id unknown_entry no_end_step unknown_transition unreachable_step cycle : Invalid
  fuel_exhausted : Invalid

abbrev pub workflow_tool_id : String
workflow_tool_id = "workflow.advance"

abbrev pub max_workflow_steps : ℕ
max_workflow_steps = 20

abbrev pub timed_predicate : String
timed_predicate = "call_duration_at_least_seconds"

abbrev pub predicates : List String
predicates =
    "contact_associated" ∷ "contact_not_associated" ∷ "outcome_exists" ∷ "outcome_not_exists"
    ∷ "transfer_occurred" ∷ "hold_occurred" ∷ "follow_up_exists" ∷ "appointment_exists"
    ∷ timed_predicate ∷ []

abbrev pub workflow_follow_up_types : List String
workflow_follow_up_types = "contact" ∷ "manual_follow_up" ∷ []

abbrev pub outcome_values : List String
outcome_values =
    "resolved" ∷ "appointment_scheduled" ∷ "follow_up_required" ∷ "no_answer" ∷ "wrong_number"
    ∷ "not_interested" ∷ []

-- One value of `dict[str, str | int | float | bool | None]`; a float is kept as its literal.
pub data Primitive : Type 0 where
  text : String → Primitive
  integer : ℤ → Primitive
  decimal : String → Primitive
  boolean : Bool → Primitive
  null : Primitive

pub record WorkflowConditionBranch : Type 0 where
  pub predicate : String
  pub threshold_seconds : Option ℤ
  pub if_true : String
  pub if_false : String

pub record WorkflowToolStep : Type 0 where
  pub step_id : String
  pub tool_id : String
  pub arguments : List (String × Primitive)
  pub next : String

pub record WorkflowConditionStep : Type 0 where
  pub step_id : String
  pub branch : WorkflowConditionBranch

pub record WorkflowOutcomeStep : Type 0 where
  pub step_id : String
  pub outcome : String
  pub notes : Option String
  pub next : String

pub record WorkflowFollowUpStep : Type 0 where
  pub step_id : String
  pub follow_up_type : String
  pub description : Option String
  pub next : String

pub record WorkflowEndStep : Type 0 where
  pub step_id : String

pub data WorkflowStep : Type 0 where
  tool : WorkflowToolStep → WorkflowStep
  condition : WorkflowConditionStep → WorkflowStep
  outcome : WorkflowOutcomeStep → WorkflowStep
  follow_up : WorkflowFollowUpStep → WorkflowStep
  finish : WorkflowEndStep → WorkflowStep

pub record WorkflowDefinition : Type 0 where
  pub entry_step_id : String
  pub steps : List WorkflowStep

-- `[A-Za-z0-9_.-]`
is_step_id_char : ℕ → Bool
is_step_id_char c =
    (leb b'A' c && leb c b'Z')
    || (leb b'a' c && leb c b'z')
    || (leb b'0' c && leb c b'9')
    || c == b'_'
    || c == b'.'
    || c == b'-'

-- `_STEP_ID_PATTERN`
matches_step_id : String → Bool
unfolding is_step_id_char
matches_step_id s = leb 1 (len s) && leb (len s) 100 && all is_step_id_char (codes s)

check_field : Bool → Invalid → Result Invalid (Unit {0})
check_field good x = raise_if (not good) x

abbrev at_most : ℕ → Option String → Bool
at_most n none = true
at_most n (some s) = leb (len s) n

abbrev in_day : Option ℤ → Bool
in_day none = true
in_day (some t) = leb_ℤ (pos 0) t && leb_ℤ t (pos 86400)

-- `WorkflowConditionBranch`'s fields, then `_validate_threshold`.
validate_branch : WorkflowConditionBranch → Result Invalid (Unit {0})
unfolding check_field matches_step_id
validate_branch b = do
  check_field (elem b.predicate predicates) bad_predicate
  check_field (in_day b.threshold_seconds) bad_threshold
  check_field (matches_step_id b.if_true && matches_step_id b.if_false) bad_step_id
  let needs_threshold = b.predicate == timed_predicate
  raise_if (needs_threshold && is_none b.threshold_seconds) missing_threshold
  raise_if (not needs_threshold && not (is_none b.threshold_seconds)) unused_threshold

-- The field checks of the five step classes.
pub validate_step : WorkflowStep → Result Invalid (Unit {0})
unfolding check_field matches_step_id validate_branch
validate_step (tool s) = do
  check_field (matches_step_id s.step_id && matches_step_id s.next) bad_step_id
  check_field (leb 1 (len s.tool_id) && leb (len s.tool_id) 200) bad_tool_id
  raise_if (s.tool_id == workflow_tool_id) nested_workflow
  check_field (leb (length s.arguments) 10) too_many_arguments
validate_step (condition s) = do
  check_field (matches_step_id s.step_id) bad_step_id
  validate_branch s.branch
validate_step (outcome s) = do
  check_field (matches_step_id s.step_id && matches_step_id s.next) bad_step_id
  check_field (elem s.outcome outcome_values) unknown_outcome
  check_field (at_most 2000 s.notes) text_too_long
validate_step (follow_up s) = do
  check_field (matches_step_id s.step_id && matches_step_id s.next) bad_step_id
  check_field (elem s.follow_up_type workflow_follow_up_types) unsupported_follow_up_type
  check_field (at_most 2000 s.description) text_too_long
validate_step (finish s) = check_field (matches_step_id s.step_id) bad_step_id

pub validate_steps : List WorkflowStep → Result Invalid (Unit {0})
validate_steps [] = ok tt
validate_steps (s ∷ rest) = do validate_step s; validate_steps rest

-- `WorkflowDefinition`'s own fields.
unfoldable pub validate_fields : WorkflowDefinition → Result Invalid (Unit {0})
unfolding validate_steps validate_step check_field matches_step_id
validate_fields d = do
  check_field (matches_step_id d.entry_step_id) bad_step_id
  check_field (leb 1 (length d.steps) && leb (length d.steps) max_workflow_steps) bad_step_count
  validate_steps d.steps

pub validate_fields-counted :
    (d : WorkflowDefinition) → validate_fields d ≡ ok tt → length d.steps ≤ max_workflow_steps
unfolding validate_fields check_field
validate_fields-counted d p =
    let (u, named, p₁) =
      >>=-eq-ok (check_field (matches_step_id d.entry_step_id) bad_step_id) _ p in
    let (w, counted, p₂) =
      >>=-eq-ok
        (check_field (leb 1 (length d.steps) && leb (length d.steps) max_workflow_steps)
          bad_step_count)
        _ p₁ in
    ground arith

abbrev pub step_id : WorkflowStep → String
step_id (tool s) = s.step_id
step_id (condition s) = s.step_id
step_id (outcome s) = s.step_id
step_id (follow_up s) = s.step_id
step_id (finish s) = s.step_id

abbrev pub is_end : WorkflowStep → Bool
is_end (finish s) = true
is_end _ = false

-- `_outgoing`
abbrev pub outgoing : WorkflowStep → List String
outgoing (condition s) = s.branch.if_true ∷ s.branch.if_false ∷ []
outgoing (finish s) = []
outgoing (tool s) = s.next ∷ []
outgoing (outcome s) = s.next ∷ []
outgoing (follow_up s) = s.next ∷ []
