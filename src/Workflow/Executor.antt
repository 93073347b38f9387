-- ===== src/Workflow/Executor.antt =====
-- voiceagent/workflows/executor.py. `wait` is what other tasks do while this one waits for a
-- database call, before it and after it; it may raise `asyncio.CancelledError`. `gateway` is
-- `tool_gateway.execute` on a tool step, and returns the result's `error_code`. `uuid_text` is `str`
-- of a UUID.
mod Rounds
pub mod Ceiling
pub mod Answers
use call_agent.Prelude.{
  ℕ, zero, suc, ◌≡◌, String, Bool, true, false, not, Option, none, some, List, if◌then◌else◌,
}
use call_agent.Prelude.Eq.{◌==◌, ◌!=◌, string_eq}
use call_agent.Prelude.Results.{Result, ok, err}
use call_agent.Store.{Store}
use call_agent.Store.Rows.{TenantContext, CallWorkflowExecution}
use call_agent.Store.Errors.{
  Error, cancelled_error, workflow_not_configured, workflow_definition_invalid,
  workflow_execution_in_progress, workflow_execution_conflict,
}
use call_agent.Store.Proc.{Proc, run, attempt, fail, then_with, finish_with}
use call_agent.Workflow.Config.{
  WorkflowStep, tool, condition, outcome, follow_up, finish, WorkflowToolStep, WorkflowDefinition,
  max_workflow_steps,
}
use call_agent.Workflow.Config.Structure.{find_step}
use call_agent.Workflow.Service.{
  AgentVersion, load_workflow_definition, begin_execution, record_step_advance, complete_execution,
  fail_execution, cancel_execution,
}
use call_agent.Workflow.Steps.{evaluate_condition, apply_outcome_step, apply_follow_up_step}

abbrev pub max_execution_transitions : ℕ
max_execution_transitions = max_workflow_steps

pub record WorkflowRunResult : Type 0 where
  pub status : String
  pub steps_executed : ℕ
  pub final_step_id : Option String
  pub failure_reason : Option String
  pub error_code : Option String

-- The surroundings of a run.
pub record Host : Type 0 where
  pub wait : Proc (Unit {0})
  pub gateway : WorkflowToolStep → Proc (Option String)
  pub uuid_text : ℕ → String

pub record Run : Type 0 where
  pub context : TenantContext
  pub call_session_id : ℕ
  pub execution_id : ℕ

abbrev pub after_wait : {A : Type 0} → Result Error A → Result Error (Unit {0}) → Result Error A
after_wait r (ok _) = r
after_wait r (err x) = err x

-- `await db.run(...)`
abbrev pub db_run : {A : Type 0} → Host → Proc A → Proc A
db_run host m s = then_with (host.wait s) λ waited s'.
    attempt (m s') λ r s2. attempt (host.wait s2) λ waited' s3. (after_wait r waited', s3)

abbrev pub failed : String → ℕ → String → WorkflowRunResult
failed step_id steps_executed reason = record {
  status = "failed";
  steps_executed = steps_executed;
  final_step_id = some step_id;
  failure_reason = some reason;
  error_code = none;
}

abbrev pub completed : String → ℕ → WorkflowRunResult
completed step_id steps_executed = record {
  status = "completed";
  steps_executed = steps_executed;
  final_step_id = some step_id;
  failure_reason = none;
  error_code = none;
}

-- `fail_execution`, and the result that is returned after it.
unfoldable pub end_failed : Host → Run → String → ℕ → String → Proc WorkflowRunResult
unfolding fail_execution
end_failed host r step_id steps_executed reason s =
    then_with (db_run host (run (fail_execution r.context r.execution_id reason steps_executed)) s)
      λ row. finish_with (failed step_id steps_executed reason)

abbrev pub Rest : Type 0
Rest = String → ℕ → Proc WorkflowRunResult

-- What follows `record_step_advance`: a conflict ends the run, other exceptions leave it.
abbrev pub after_advance :
    String → ℕ → Rest → Result Error CallWorkflowExecution → Proc WorkflowRunResult
after_advance next_step_id steps_executed rest (ok row) = rest next_step_id steps_executed
after_advance next_step_id steps_executed rest (err (workflow_execution_conflict id)) =
    finish_with (failed next_step_id steps_executed "execution_conflict")
after_advance next_step_id steps_executed rest (err x) = fail x

-- The end of the loop's body; `rest` is the next round.
unfoldable pub advance : Host → Run → String → ℕ → Rest → Proc WorkflowRunResult
unfolding record_step_advance
advance host r next_step_id steps_executed rest s =
    attempt
      (db_run host (run (record_step_advance r.context r.execution_id next_step_id steps_executed))
        s)
      (after_advance next_step_id steps_executed rest)

abbrev pub after_tool :
    Host → Run → WorkflowToolStep → ℕ → Rest → Option String → Proc WorkflowRunResult
after_tool host r t n rest (some code) = end_failed host r t.step_id (suc n) "tool_step_failed"
after_tool host r t n rest none = advance host r t.next (suc n) rest

-- The body of the loop, on the step that `definition.step(current_step_id)` returned.
unfoldable pub visit_step :
    Host → Run → String → ℕ → Rest → Option WorkflowStep → Proc WorkflowRunResult
unfolding end_failed advance complete_execution evaluate_condition apply_outcome_step
    apply_follow_up_step
visit_step host r current n rest none s =
    end_failed host r current (suc n) "invalid_workflow_definition" s
visit_step host r current n rest (some (finish e)) s =
    then_with (db_run host (run (complete_execution r.context r.execution_id e.step_id (suc n))) s)
      λ row. finish_with (completed e.step_id (suc n))
visit_step host r current n rest (some (condition c)) s =
    then_with (db_run host (run (evaluate_condition r.context r.call_session_id c.branch)) s)
      λ is_true.
        advance host r (if is_true then c.branch.if_true else c.branch.if_false) (suc n) rest
visit_step host r current n rest (some (tool t)) s =
    then_with (host.gateway t s) λ code. after_tool host r t n rest code
visit_step host r current n rest (some (outcome o)) s =
    then_with
      (db_run host (run (apply_outcome_step r.context r.call_session_id o.outcome o.notes)) s)
      λ applied. advance host r o.next (suc n) rest
visit_step host r current n rest (some (follow_up f)) s =
    then_with
      (db_run host
        (apply_follow_up_step host.uuid_text r.context r.call_session_id f.follow_up_type
          f.description)
        s)
      λ applied. advance host r f.next (suc n) rest

-- The loop, `rounds` rounds of it, and what follows when they are used up.
unfoldable pub loop : Host → Run → List WorkflowStep → ℕ → Rest
unfolding visit_step find_step end_failed
loop host r steps zero current n s = end_failed host r current n "max_steps_exceeded" s
loop host r steps (suc rounds) current n s =
    visit_step host r current n (loop host r steps rounds) (find_step steps current) s

-- The handler of `asyncio.CancelledError`: it records the cancellation, whatever becomes of that,
-- and raises again.
abbrev pub on_cancel : {A : Type 0} → Host → Run → Result Error A → Proc A
on_cancel host r (err cancelled_error) s =
    attempt (db_run host (run (cancel_execution r.context r.execution_id)) s)
      λ recorded. fail cancelled_error
on_cancel host r result s = (result, s)

-- The `try` statement around the loop.
unfoldable pub execute_steps : Host → Run → List WorkflowStep → Rest
unfolding loop cancel_execution
execute_steps host r steps current n s =
    attempt (loop host r steps (suc max_execution_transitions) current n s) (on_cancel host r)

abbrev pub refused : String → Option String → String → WorkflowRunResult
refused status failure_reason error_code = record {
  status = status;
  steps_executed = 0;
  final_step_id = none;
  failure_reason = failure_reason;
  error_code = some error_code;
}

abbrev reported : CallWorkflowExecution → WorkflowRunResult
reported row = record {
  status = row.status;
  steps_executed = row.steps_executed;
  final_step_id = some row.current_step_id;
  failure_reason = row.failure_reason;
  error_code = none;
}

abbrev pub run_begun :
    Host
    → TenantContext
    → ℕ
    → WorkflowDefinition
    → Result Error CallWorkflowExecution
    → Proc WorkflowRunResult
run_begun host context call_session_id d (err (workflow_execution_in_progress id)) =
    finish_with (refused "running" none "workflow_already_running")
run_begun host context call_session_id d (err x) = fail x
run_begun host context call_session_id d (ok row) =
    if row.status != "running"
    then finish_with (reported row)
    else execute_steps host
        (record { context = context; call_session_id = call_session_id; execution_id = row.id })
        d.steps row.current_step_id row.steps_executed

abbrev pub run_loaded :
    Host
    → TenantContext
    → ℕ
    → AgentVersion
    → Result Error WorkflowDefinition
    → Proc WorkflowRunResult
run_loaded host context call_session_id v (err (workflow_not_configured id)) s =
    finish_with (refused "not_configured" none "workflow_not_configured") s
run_loaded host context call_session_id v (err (workflow_definition_invalid id)) s =
    finish_with
      (refused "failed" (some "invalid_workflow_definition") "invalid_workflow_definition") s
run_loaded host context call_session_id v (err x) s = fail x s
run_loaded host context call_session_id v (ok d) s =
    attempt (db_run host (run (begin_execution context call_session_id v d)) s)
      (run_begun host context call_session_id d)

unfoldable pub run_workflow : Host → TenantContext → ℕ → AgentVersion → Proc WorkflowRunResult
unfolding load_workflow_definition begin_execution execute_steps
run_workflow host context call_session_id v s =
    attempt (db_run host (λ s'. (load_workflow_definition v, s')) s)
      (run_loaded host context call_session_id v)
