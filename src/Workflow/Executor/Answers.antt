-- ===== src/Workflow/Executor/Answers.antt =====
-- What `run_workflow` of voiceagent/workflows/executor.py returns.
use call_agent.Prelude.{
  ℕ, ◌≡◌, ◌∙◌, refl, sym, subst, arith, none, some, length, find_first, inl, inr, ◌&&◌,
}
use call_agent.Prelude.Eq.{◌==◌, string_eq, nat_eq}
use call_agent.Prelude.Results.{Result, ok, err}
use call_agent.Store.{Store}
use call_agent.Store.Rows.{TenantContext, CallWorkflowExecution}
use call_agent.Store.Errors.{Error, cancelled_error, workflow_execution_in_progress}
use call_agent.Store.Proc.{Proc, run, settle, attempt, Returns, then_with}
use call_agent.Workflow.Config.{WorkflowDefinition}
use call_agent.Workflow.Config.Structure.{validate}
use call_agent.Workflow.Service.{
  AgentVersion, load_workflow_definition, find_execution_row, begin_execution,
}
use call_agent.Workflow.Service.Once.{IsBegun, begin_execution-cases}
use call_agent.Workflow.Executor.{
  WorkflowRunResult, Host, db_run, after_wait, run_begun, run_loaded, run_workflow,
}
use call_agent.Workflow.Executor.Ceiling.{IsOrdinary, execute_steps-IsOrdinary}

-- While a database call is awaited, the other tasks leave the workflow executions alone, and nothing
-- but a cancellation is raised.
pub record IsCalm (host : Host) : Type 0 where
  pub keeps : (s : Store) → (host.wait s).1.executions ≡ s.executions
  pub raises : (s : Store) (x : Error) → (host.wait s).0 ≡ err x → x ≡ cancelled_error

module _ (host : Host) (calm : IsCalm host) where
  -- A database call is cancelled, or it gives what it gives on the same executions.
  db_run-elim :
      {A : Type 0} (Q : Result Error A × Store → Type 0) (m : Proc A) (s : Store)
      → ((t : Store) → Q (err cancelled_error, t))
      → ((s' t : Store)
          → s'.executions ≡ s.executions
          → t.executions ≡ (m s').1.executions
          → Q ((m s').0, t))
      → Q (db_run host m s)
  db_run-elim {A} Q m s cancelled returned = before (host.wait s) (calm.keeps s) (calm.raises s)
    where
      after :
          (s' : Store)
          → s'.executions ≡ s.executions
          → (w : Result Error (Unit {0}) × Store) → w.1.executions ≡ (m s').1.executions
          → ((x : Error) → w.0 ≡ err x → x ≡ cancelled_error)
          → Q (attempt w (λ waited t. (after_wait (m s').0 waited, t)))
      after s' kept (ok u, t) e r = returned s' t kept e
      after s' kept (err x, t) e r = subst (λ y. Q (err y, t)) (sym (r x refl)) (cancelled t)

      before :
          (w : Result Error (Unit {0}) × Store)
          → w.1.executions ≡ s.executions
          → ((x : Error) → w.0 ≡ err x → x ≡ cancelled_error)
          → Q (
              then_with w (λ waited s'.
                attempt
                  (m s')
                  λ r s2. attempt (host.wait s2) λ waited' s3. (after_wait r waited', s3)))
      before (ok u, s') e r =
          after s' e (host.wait (m s').1) (calm.keeps (m s').1) (calm.raises (m s').1)
      before (err x, s') e r = subst (λ y. Q (err y, s')) (sym (r x refl)) (cancelled s')

module _ (host : Host) (calm : IsCalm host) (context : TenantContext) (call_session_id : ℕ)
    (v : AgentVersion) (d : WorkflowDefinition) (valid : validate d ≡ ok tt) where
  abbrev Good : Result Error WorkflowRunResult × Store → Type 0
  Good = Returns (IsOrdinary (length d.steps))

  begun-Good :
      (row : CallWorkflowExecution) (s' t : Store)
      → IsBegun context call_session_id d row s'
      → Good (run_begun host context call_session_id d (ok row) t)
  begun-Good row s' t b = rw b.running (
      rw b.at_entry (
        rw b.unstarted (
          execute_steps-IsOrdinary host
            (record { context = context; call_session_id = call_session_id; execution_id = row.id })
            d t valid)))

  begin-Good :
      (r : Result Error (CallWorkflowExecution × Store)) (s' t : Store)
      → begin_execution context call_session_id v d s' ≡ r
      → find_execution_row context call_session_id s' ≡ none
      → Good (run_begun host context call_session_id d (settle s' r).0 t)
  begin-Good (ok (row, s2)) s' t e n =
      elim (begin_execution-cases context call_session_id v d s' s2 row e) [
        | inl (same, found, ended) ↦ cc
        | inr b ↦ begun-Good row s2 t b
      ]
  begin-Good (err (workflow_execution_in_progress id)) s' t e n = record {
    known_steps = λ p. cc;
    below_ceiling = λ p. cc;
    bounded = omega arith;
  }
  begin-Good (err _) s' t e n = tt

  none_moved :
      (s t : Store)
      → t.executions ≡ s.executions
      → find_execution_row context call_session_id s ≡ none
      → find_execution_row context call_session_id t ≡ none
  unfolding find_execution_row
  none_moved s t e n =
      subst
        (λ rows.
          find_first
            (λ (x : CallWorkflowExecution).
              x.tenant_id == context.tenant_id && x.call_session_id == call_session_id)
            rows
          ≡ none)
        (sym e) n

  loaded-Good :
      (s : Store)
      → find_execution_row context call_session_id s ≡ none
      → Good (run_loaded host context call_session_id v (ok d) s)
  loaded-Good s n =
      db_run-elim host calm (λ x. Good (attempt x (run_begun host context call_session_id d)))
        (run (begin_execution context call_session_id v d)) s (λ t. tt)
        λ s' t kept kept'.
          begin-Good (begin_execution context call_session_id v d s') s' t refl
            (none_moved s s' kept n)

  -- For a call that has no workflow execution yet and an agent version whose workflow
  -- `model_validate` accepts, if the other tasks leave the executions alone and raise nothing but
  -- a cancellation: what `run_workflow` returns has neither the reason
  -- "invalid_workflow_definition" nor "max_steps_exceeded", and counts at most as many executed
  -- steps as the workflow has.
  pub run_workflow-IsOrdinary :
      (s : Store)
      → v.workflow ≡ some (some d)
      → find_execution_row context call_session_id s ≡ none
      → Returns (IsOrdinary (length d.steps)) (run_workflow host context call_session_id v s)
  unfolding run_workflow load_workflow_definition
  run_workflow-IsOrdinary s w n =
      db_run-elim host calm (λ x. Good (attempt x (run_loaded host context call_session_id v)))
        (λ s'. (load_workflow_definition v, s')) s (λ t. tt)
        λ s' t kept kept'.
          subst (λ r. Good (run_loaded host context call_session_id v r t)) (sym loads)
            (loaded-Good t (none_moved s t (kept' ∙ kept) n))
    where
      loads : load_workflow_definition v ≡ ok d
      loads = rw w (rw valid refl)
