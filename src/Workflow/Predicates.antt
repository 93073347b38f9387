-- ===== src/Workflow/Predicates.antt =====
-- voiceagent/workflows/predicates.py. `elapsed` is the elapsed time in microseconds; the source
-- compares `total_seconds()`, a float, with the threshold.
use call_agent.Prelude.{
  ◌*◌, String, Bool, false, not, Option, some, ℤ, pos, pos_part, leb_ℤ, if◌then◌else◌,
}
use call_agent.Prelude.Eq.{◌==◌, string_eq}
use call_agent.Prelude.Sets.{elem}
use call_agent.Prelude.Results.{Result, ok, err}
use call_agent.Store.Errors.{Error, value_error}
use call_agent.Workflow.Config.{predicates}

pub record CallState : Type 0 where
  pub contact_associated : Bool
  pub outcome_exists : Bool
  pub follow_up_exists : Bool
  pub appointment_exists : Bool
  pub had_transfer : Bool
  pub had_hold : Bool
  pub elapsed : Option ℤ

-- `elapsed_seconds >= threshold_seconds`; a threshold is never negative (`WorkflowConditionBranch`).
abbrev lasted : Option ℤ → Option ℤ → Bool
lasted (some threshold_seconds) (some elapsed) =
    leb_ℤ (pos (pos_part threshold_seconds * 1000000)) elapsed
lasted _ _ = false

unfoldable pub evaluate_predicate : String → CallState → Option ℤ → Result Error Bool
evaluate_predicate predicate state threshold_seconds =
    if not (elem predicate predicates)
    then err value_error
    else if predicate == "contact_associated"
    then ok state.contact_associated
    else if predicate == "contact_not_associated"
    then ok (not state.contact_associated)
    else if predicate == "outcome_exists"
    then ok state.outcome_exists
    else if predicate == "outcome_not_exists"
    then ok (not state.outcome_exists)
    else if predicate == "transfer_occurred"
    then ok state.had_transfer
    else if predicate == "hold_occurred"
    then ok state.had_hold
    else if predicate == "follow_up_exists"
    then ok state.follow_up_exists
    else if predicate == "appointment_exists"
    then ok state.appointment_exists
    else ok (lasted threshold_seconds state.elapsed)
