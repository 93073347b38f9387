-- ===== src/Workflow/Service/Once.antt =====
-- `begin_execution` of voiceagent/workflows/service.py, and the begin that follows it.
use call_agent.Prelude.{
  ℕ, suc, ◌≡◌, ◌≢◌, ◌⊎◌, inl, inr, refl, sym, subst, arith, Bool, true, Option, none, some, List,
  [], ◌∷◌, ◌++◌, find_first, any, Bool-cases,
}
use call_agent.Prelude.Eq.{◌==◌, string_eq, nat_eq}
use call_agent.Prelude.Results.{Result, ok, err}
use call_agent.Store.{Store}
use call_agent.Store.Rows.{TenantContext, CallSession, CallWorkflowExecution}
use call_agent.Store.Errors.{Error, workflow_execution_in_progress}
use call_agent.Store.Table.{find_row}
use call_agent.Store.Tx.{◌>>=◌, gets, >>=-eq-ok, raise_if-bind, committed}
use call_agent.Calls.Service.{found, get_row}
use call_agent.Workflow.Config.{WorkflowDefinition}
use call_agent.Workflow.Service.{
  AgentVersion, find_execution_row, new_execution, insert_execution, begin_found, begin_execution,
}

-- `_require_call_row` reads the calls and nothing else.
found-read :
    (context : TenantContext) (id : ℕ) (o : Option CallSession) (s s' : Store) (call : CallSession)
    → found context id o s ≡ ok (call, s')
    → (s' ≡ s) × ((t : Store) → found context id o t ≡ ok (call, t))
found-read context id none s s' call h = cc
found-read context id (some row) s s' call h =
    elim (Bool-cases (row.tenant_id == context.tenant_id)) [
      | inl mine ↦
          let (same, stored) = committed (rw mine at h) in
          (
            sym stored,
            λ t. rw mine (
                subst (λ r. ◌≡◌ {A = Result Error (CallSession × Store)} (ok (row, t)) (ok (r, t)))
                  same refl),
          )
      | inr other ↦ absurd (refused (rw other at h))
    ]
  where
    refused : {x : Error} → ◌≡◌ {A = Result Error (CallSession × Store)} (err x) (ok (call, s')) → ⊥
    refused p = cc

find_first-append :
    {A : Type 0} (p : A → Bool) (rows : List A) (row : A)
    → find_first p rows ≡ none
    → p row ≡ true
    → find_first p (rows ++ row ∷ []) ≡ some row
find_first-append p [] row h q = ground arith
find_first-append p (x ∷ rows) row h q = ground (arith, find_first-append p rows row)

module _ (context : TenantContext) (call_session_id : ℕ) where
  -- A begin that claimed the call: the execution starts at the entry, and the next begin is refused.
  pub record IsBegun (d : WorkflowDefinition) (row : CallWorkflowExecution) (t : Store)
      : Type 0 where
    pub running : row.status ≡ "running"
    pub at_entry : row.current_step_id ≡ d.entry_step_id
    pub unstarted : row.steps_executed ≡ 0
    pub stored : find_execution_row context call_session_id t ≡ some row
    pub refuses :
        (v : AgentVersion) (d' : WorkflowDefinition)
        → begin_execution context call_session_id v d' t
          ≡ err (workflow_execution_in_progress call_session_id)

  pub begin_execution-cases :
      (v : AgentVersion) (d : WorkflowDefinition) (s t : Store) (row : CallWorkflowExecution)
      → begin_execution context call_session_id v d s ≡ ok (row, t)
      → ((t ≡ s)
          × (find_execution_row context call_session_id s ≡ some row)
          × (row.status ≢ "running"))
        ⊎ IsBegun d row t
  unfolding begin_execution get_row find_execution_row insert_execution new_execution
  begin_execution-cases v d s t row h =
      let (call, s₁, read, h₁) = >>=-eq-ok (get_row context call_session_id) _ s h in
      let (same, again) = found-read context call_session_id _ s s₁ call read in
      go (find_execution_row context call_session_id s) refl
        (subst
          (λ x.
            (gets (find_execution_row context call_session_id)
                >>= begin_found context call_session_id v d)
              x
            ≡ ok (row, t))
          same h₁)
        call again
    where
      go :
          (o : Option CallWorkflowExecution)
          → find_execution_row context call_session_id s ≡ o
          → begin_found context call_session_id v d o s ≡ ok (row, t)
          → (call : CallSession)
          → ((t : Store)
              → found context call_session_id
                  (find_row (λ (c : CallSession). c.id) call_session_id s.call_sessions)
                  t
                ≡ ok (call, t))
          → ((t ≡ s)
              × (find_execution_row context call_session_id s ≡ some row)
              × (row.status ≢ "running"))
            ⊎ IsBegun d row t
      go (some existing) e p call again =
          let (ended, q) =
            raise_if-bind (existing.status == "running")
              (workflow_execution_in_progress call_session_id) _ s t row p in
          let (this, kept) = committed q in
          inl (
            sym kept,
            subst (λ r. find_execution_row context call_session_id s ≡ some r) this e,
            subst (λ (r : CallWorkflowExecution). r.status ≢ "running") this
                (λ q'. ground (arith, string_eq.equal_iff existing.status "running")),
          )
      go none e p call again =
          let (r₁, s₂, inserted, p₁) =
            >>=-eq-ok (insert_execution new) _ (record s { supply = suc s.supply }) p in
          let (fresh, q) =
            raise_if-bind
              (any (λ (x : CallWorkflowExecution). x.call_session_id == call_session_id)
                s.executions)
              (workflow_execution_in_progress call_session_id) _ _ s₂ r₁ inserted in
          let (this, kept) = committed q in
          let (that, last) = committed p₁ in
          inr (
            subst (λ r. IsBegun d r t) that
              (subst (λ x. IsBegun d r₁ x) last
                (subst (λ x. IsBegun d r₁ (audited r₁ x)) kept
                  (subst (λ r. IsBegun d r (audited r added)) this begun))))
        where
          new : CallWorkflowExecution
          new = new_execution context s.supply call_session_id v d s.now

          added : Store
          added = record s { supply = suc s.supply; executions = s.executions ++ new ∷ [] }

          audited : CallWorkflowExecution → Store → Store
          audited r x = record x {
            audit =
                record {
                  action = "workflow.execution_started";
                  tenant_id = r.tenant_id;
                  resource_id = r.id;
                  count = r.steps_executed;
                }
                ∷ x.audit;
          }

          stored_new : find_execution_row context call_session_id (audited new added) ≡ some new
          stored_new = find_first-append _ s.executions new e (ground arith)

          begun : IsBegun d new (audited new added)
          begun = record {
            running = refl;
            at_entry = refl;
            unstarted = refl;
            stored = stored_new;
            refuses = λ v' d'. rw (again (audited new added)) (rw stored_new refl);
          }
