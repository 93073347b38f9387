-- ===== src/Workflow/Steps.antt =====
-- The transactions of voiceagent/workflows/service.py that the steps of a workflow run.
use call_agent.Prelude.{
  ℕ, String, Bool, ◌&&◌, Option, none, some, any, filter, length, is_some, ltb, ℤ, sub_ℕ,
}
use call_agent.Prelude.Eq.{◌==◌, string_eq, nat_eq, option_eq}
use call_agent.Prelude.Results.{Result, ok, err}
use call_agent.Store.{Store}
use call_agent.Store.Rows.{
  TenantContext, CallSession, CallOutcome, FollowUpAction, ConversationTurn,
}
use call_agent.Store.Errors.{Error}
use call_agent.Store.Tx.{Tx, ◌>>=◌, pure, raise, gets}
use call_agent.Store.Proc.{Proc, then_with, finish_with}
use call_agent.Calls.Service.{get_row}
use call_agent.Followups.Service.{NewFollowUp, create_follow_up}
use call_agent.Followups.Outcomes.{set_call_outcome}
use call_agent.Workflow.Config.{WorkflowConditionBranch}
use call_agent.Workflow.Predicates.{CallState, evaluate_predicate}

abbrev elapsed_since : ℕ → Option ℕ → Option ℤ
elapsed_since now none = none
elapsed_since now (some started_at) = some (sub_ℕ now started_at)

-- The `CallState` that `evaluate_condition` reads from the tables.
unfoldable pub call_state : TenantContext → CallSession → Store → CallState
call_state context call s =
    let follow_ups =
      filter
        (λ (f : FollowUpAction). f.tenant_id == context.tenant_id && f.call_session_id == call.id)
        s.follow_ups in
    let tool_call_turns =
      filter
        (λ (t : ConversationTurn).
          t.tenant_id == context.tenant_id && t.call_session_id == call.id && t.role == "tool_call")
        s.turns in
    record {
      contact_associated = is_some call.contact_id;
      outcome_exists =
          any
            (λ (o : CallOutcome). o.tenant_id == context.tenant_id && o.call_session_id == call.id)
            s.call_outcomes;
      follow_up_exists = ltb 0 (length follow_ups);
      appointment_exists = any (λ (f : FollowUpAction). f.type == "appointment") follow_ups;
      had_transfer =
          any (λ (t : ConversationTurn). t.tool_name == some "call.transfer") tool_call_turns;
      had_hold = any (λ (t : ConversationTurn). t.tool_name == some "call.hold") tool_call_turns;
      elapsed = elapsed_since s.now call.started_at;
    }

abbrev or_raise : {A : Type 0} → Result Error A → Tx A
or_raise (ok a) = pure a
or_raise (err x) = raise x

unfoldable pub evaluate_condition : TenantContext → ℕ → WorkflowConditionBranch → Tx Bool
unfolding get_row call_state evaluate_predicate
evaluate_condition context call_session_id branch = do
  call ← get_row context call_session_id
  state ← gets (call_state context call)
  or_raise (evaluate_predicate branch.predicate state branch.threshold_seconds)

unfoldable pub apply_outcome_step : TenantContext → ℕ → String → Option String → Tx (Unit {0})
unfolding set_call_outcome
apply_outcome_step context call_session_id outcome notes = do
  row ← set_call_outcome context call_session_id outcome notes none
  pure tt

abbrev described : String → Option String → NewFollowUp
described type description = record {
  type = type;
  description = description;
  due_at = none;
  contact_id = none;
  calendar_event_id = none;
  calendar_id = none;
  start_at = none;
  end_at = none;
}

unfoldable pub apply_follow_up_step :
    (ℕ → String) → TenantContext → ℕ → String → Option String → Proc (Unit {0})
unfolding create_follow_up
apply_follow_up_step uuid_text context call_session_id type description s =
    then_with (create_follow_up uuid_text context call_session_id (described type description) s)
      λ row. finish_with tt
