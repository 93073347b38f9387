-- ===== src/Workflow/Service.antt =====
-- voiceagent/workflows/service.py: the transactions on `call_workflow_executions`, and those that a
-- workflow's steps run. The foreign keys and the format check of `config_hash` hold for every row
-- that `begin_execution` is given an agent version for, so they refuse nothing here.
pub mod Once
use call_agent.Prelude.{
  ℕ, String, Bool, true, false, not, ◌&&◌, ◌||◌, Option, none, some, List, [], ◌∷◌, ◌++◌, any,
  filter, map, length, find_first, is_some, ltb, ℤ, sub_ℕ, if◌then◌else◌,
}
use call_agent.Prelude.Eq.{◌==◌, ◌!=◌, string_eq, nat_eq, option_eq}
use call_agent.Prelude.Sets.{elem}
use call_agent.Prelude.Results.{Result, ok, err}
use call_agent.Store.{Store}
use call_agent.Store.Rows.{
  TenantContext, CallSession, FollowUpAction, CallWorkflowExecution, ConversationTurn,
}
use call_agent.Store.Errors.{
  Error, value_error, workflow_not_configured, workflow_definition_invalid,
  workflow_execution_in_progress, workflow_execution_conflict, workflow_execution_not_found,
}
use call_agent.Store.Table.{find_row, update_row}
use call_agent.Store.Tx.{Tx, ◌>>=◌, ◌>>◌, pure, raise, raise_if, gets, modify, new_uuid}
use call_agent.Store.Proc.{Proc, run, then_with, finish_with}
use call_agent.Calls.Service.{get_row}
use call_agent.Followups.Service.{NewFollowUp, create_follow_up}
use call_agent.Followups.Outcomes.{set_call_outcome}
use call_agent.Workflow.Config.{Invalid, WorkflowConditionBranch, WorkflowDefinition}
use call_agent.Workflow.Config.Structure.{validate}
use call_agent.Workflow.Predicates.{CallState, evaluate_predicate}

-- `AgentVersion`, of whose `config` only `config["workflow"]` is read: absent, not of a definition's
-- shape (`some none`), or a definition that is still to be validated.
pub record AgentVersion : Type 0 where
  pub id : ℕ
  pub config_hash : String
  pub workflow : Option (Option WorkflowDefinition)

abbrev pub failure_reasons : List String
failure_reasons =
    "tool_step_failed" ∷ "max_steps_exceeded" ∷ "execution_conflict" ∷ "invalid_workflow_definition"
    ∷ "unexpected_error" ∷ []

abbrev if_valid :
    ℕ → WorkflowDefinition → Result Invalid (Unit {0}) → Result Error WorkflowDefinition
if_valid id d (ok _) = ok d
if_valid id d (err _) = err (workflow_definition_invalid id)

unfoldable pub load_workflow_definition : AgentVersion → Result Error WorkflowDefinition
unfolding validate
load_workflow_definition v = elim v.workflow [
  | none ↦ err (workflow_not_configured v.id)
  | some none ↦ err (workflow_definition_invalid v.id)
  | some (some d) ↦ if_valid v.id d (validate d)
]

-- `_find_execution_row`
unfoldable pub find_execution_row : TenantContext → ℕ → Store → Option CallWorkflowExecution
find_execution_row context call_session_id s =
    find_first (λ e. e.tenant_id == context.tenant_id && e.call_session_id == call_session_id)
      s.executions

abbrev running_row : TenantContext → Option CallWorkflowExecution → Option CallWorkflowExecution
running_row context none = none
running_row context (some row) =
    if row.tenant_id != context.tenant_id || row.status != "running" then none else some row

unfoldable pub get_running_row : TenantContext → ℕ → Store → Option CallWorkflowExecution
unfolding find_row
get_running_row context id s =
    running_row context (find_row (λ (e : CallWorkflowExecution). e.id) id s.executions)

abbrev or_conflict : ℕ → Option CallWorkflowExecution → Tx CallWorkflowExecution
or_conflict id none = raise (workflow_execution_conflict id)
or_conflict id (some row) = pure row

-- `_require_running_row`
unfoldable pub require_running_row : TenantContext → ℕ → Tx CallWorkflowExecution
unfolding get_running_row
require_running_row context id s = or_conflict id (get_running_row context id s) s

-- `session.flush()` of a changed row
unfoldable pub write_execution : CallWorkflowExecution → Tx CallWorkflowExecution
unfolding update_row
write_execution row s = ok (
  row,
  record s { executions = update_row (λ (e : CallWorkflowExecution). e.id) row s.executions },
)

abbrev pub audit : String → CallWorkflowExecution → Tx (Unit {0})
audit action row = modify (λ s. record s {
  audit =
      record {
        action = action;
        tenant_id = row.tenant_id;
        resource_id = row.id;
        count = row.steps_executed;
      }
      ∷ s.audit;
})

unfoldable pub new_execution :
    TenantContext → ℕ → ℕ → AgentVersion → WorkflowDefinition → ℕ → CallWorkflowExecution
new_execution context id call_session_id agent_version definition now = record {
  id = id;
  tenant_id = context.tenant_id;
  call_session_id = call_session_id;
  agent_version_id = agent_version.id;
  workflow_config_hash = agent_version.config_hash;
  status = "running";
  current_step_id = definition.entry_step_id;
  steps_executed = 0;
  started_at = now;
  ended_at = none;
  failure_reason = none;
}

-- The flush of a new row: the `IntegrityError` of `uq_call_workflow_executions_call_session` becomes
-- `WorkflowExecutionInProgressError`.
unfoldable pub insert_execution : CallWorkflowExecution → Tx CallWorkflowExecution
insert_execution row = do
  taken ← gets (λ s.
      any (λ (e : CallWorkflowExecution). e.call_session_id == row.call_session_id) s.executions)
  raise_if taken (workflow_execution_in_progress row.call_session_id)
  λ s. ok (row, record s { executions = s.executions ++ row ∷ [] })

abbrev pub begin_found :
    TenantContext
    → ℕ
    → AgentVersion
    → WorkflowDefinition
    → Option CallWorkflowExecution
    → Tx CallWorkflowExecution
begin_found context call_session_id agent_version definition (some existing) = do
  raise_if (existing.status == "running") (workflow_execution_in_progress call_session_id)
  pure existing
begin_found context call_session_id agent_version definition none = do
  id ← new_uuid
  now ← gets (λ s. s.now)
  row ← insert_execution (new_execution context id call_session_id agent_version definition now)
  audit "workflow.execution_started" row
  pure row

unfoldable pub begin_execution :
    TenantContext → ℕ → AgentVersion → WorkflowDefinition → Tx CallWorkflowExecution
unfolding get_row find_execution_row insert_execution new_execution
begin_execution context call_session_id agent_version definition = do
  call ← get_row context call_session_id
  existing ← gets (find_execution_row context call_session_id)
  begin_found context call_session_id agent_version definition existing

unfoldable pub record_step_advance : TenantContext → ℕ → String → ℕ → Tx CallWorkflowExecution
unfolding require_running_row write_execution
record_step_advance context id current_step_id steps_executed = do
  row ← require_running_row context id
  write_execution
      (record row { current_step_id = current_step_id; steps_executed = steps_executed })

unfoldable pub complete_execution : TenantContext → ℕ → String → ℕ → Tx CallWorkflowExecution
unfolding require_running_row write_execution
complete_execution context id final_step_id steps_executed = do
  now ← gets (λ s. s.now)
  row ← require_running_row context id
  row' ← write_execution (record row {
    status = "completed";
    current_step_id = final_step_id;
    steps_executed = steps_executed;
    ended_at = some now;
  })
  audit "workflow.execution_completed" row'
  pure row'

unfoldable pub fail_execution : TenantContext → ℕ → String → ℕ → Tx CallWorkflowExecution
unfolding require_running_row write_execution
fail_execution context id reason steps_executed = do
  raise_if (not (elem reason failure_reasons)) value_error
  now ← gets (λ s. s.now)
  row ← require_running_row context id
  row' ← write_execution (record row {
    status = "failed";
    failure_reason = some reason;
    steps_executed = steps_executed;
    ended_at = some now;
  })
  audit "workflow.execution_failed" row'
  pure row'

abbrev cancel_found : Option CallWorkflowExecution → Tx (Option CallWorkflowExecution)
cancel_found none = pure none
cancel_found (some row) = do
  now ← gets (λ s. s.now)
  row' ← write_execution (record row { status = "cancelled"; ended_at = some now })
  audit "workflow.execution_cancelled" row'
  pure (some row')

unfoldable pub cancel_execution : TenantContext → ℕ → Tx (Option CallWorkflowExecution)
unfolding get_running_row write_execution
cancel_execution context id = do row ← gets (get_running_row context id); cancel_found row

abbrev or_not_found : ℕ → Option CallWorkflowExecution → Tx CallWorkflowExecution
or_not_found call_session_id none = raise (workflow_execution_not_found call_session_id)
or_not_found call_session_id (some row) = pure row

unfoldable pub get_execution : TenantContext → ℕ → Tx CallWorkflowExecution
unfolding find_execution_row
get_execution context call_session_id = do
  row ← gets (find_execution_row context call_session_id)
  or_not_found call_session_id row
