-- ===== src/Workflow/Executor/Rounds.antt =====
-- One round of the loop in voiceagent/workflows/executor.py, as a function of the rest of the loop.
use call_agent.Prelude.{
  ℕ, suc, ◌≡◌, refl, arith, String, Bool, true, false, Option, none, some, List, [], ◌∷◌,
  if◌then◌else◌,
}
use call_agent.Prelude.Eq.{string_eq}
use call_agent.Prelude.Sets.{◌∈◌}
use call_agent.Prelude.Results.{Result, ok, err}
use call_agent.Store.{Store}
use call_agent.Store.Rows.{CallWorkflowExecution}
use call_agent.Store.Errors.{Error, workflow_execution_conflict}
use call_agent.Store.Proc.{run, attempt, Returns, then_with-cong, then_with-elim}
use call_agent.Workflow.Config.{WorkflowStep, tool, condition, outcome, follow_up, finish, outgoing}
use call_agent.Workflow.Service.{record_step_advance, complete_execution, fail_execution}
use call_agent.Workflow.Steps.{evaluate_condition, apply_outcome_step, apply_follow_up_step}
use call_agent.Workflow.Executor.{
  WorkflowRunResult, Host, Run, Rest, failed, completed, db_run, end_failed, after_advance, advance,
  after_tool, visit_step,
}

-- The results that one round itself returns.
pub record RoundReturns (P : WorkflowRunResult → Type 0) (n : ℕ) : Type 0 where
  pub conflict : (t : String) → P (failed t (suc n) "execution_conflict")
  pub tool_failed : (t : String) → P (failed t (suc n) "tool_step_failed")
  pub done : (t : String) → P (completed t (suc n))

module _ (host : Host) (r : Run) where
  -- Two rests that agree on a step's targets.
  abbrev pub AgreeOn : List String → Rest → Rest → Type 0
  AgreeOn targets f g = (t : String) → t ∈ targets → (n : ℕ) (s : Store) → f t n s ≡ g t n s

  advance-cong :
      (next_step_id : String) (n : ℕ) (f g : Rest) (s : Store)
      → ((n : ℕ) (s : Store) → f next_step_id n s ≡ g next_step_id n s)
      → advance host r next_step_id n f s ≡ advance host r next_step_id n g s
  unfolding advance
  advance-cong next_step_id n f g s h =
      go (db_run host (run (record_step_advance r.context r.execution_id next_step_id n)) s)
    where
      go :
          (x : Result Error CallWorkflowExecution × Store)
          → attempt x (after_advance next_step_id n f) ≡ attempt x (after_advance next_step_id n g)
      go (ok row, s') = h n s'
      go (err (workflow_execution_conflict id), s') = refl
      go (err _, s') = refl

  branch-cong :
      (b : Bool) (if_true if_false : String) (n : ℕ) (f g : Rest) (s : Store)
      → AgreeOn (if_true ∷ if_false ∷ []) f g
      → advance host r (if b then if_true else if_false) n f s
        ≡ advance host r (if b then if_true else if_false) n g s
  branch-cong true if_true if_false n f g s h =
      advance-cong if_true n f g s (h if_true (ground (arith, string_eq.equal_iff if_true if_true)))
  branch-cong false if_true if_false n f g s h =
      advance-cong if_false n f g s
        (h if_false (ground (arith, string_eq.equal_iff if_false if_false)))

  next-cong :
      (t : String) (n : ℕ) (f g : Rest) (s : Store)
      → AgreeOn (t ∷ []) f g
      → advance host r t n f s ≡ advance host r t n g s
  next-cong t n f g s h = advance-cong t n f g s (h t (ground (arith, string_eq.equal_iff t t)))

  pub visit_step-cong :
      (current : String) (n : ℕ) (f g : Rest) (step : WorkflowStep) (s : Store)
      → AgreeOn (outgoing step) f g
      → visit_step host r current n f (some step) s ≡ visit_step host r current n g (some step) s
  unfolding visit_step
  visit_step-cong current n f g (finish e) s h = refl
  visit_step-cong current n f g (condition c) s h =
      then_with-cong (db_run host (run (evaluate_condition r.context r.call_session_id c.branch)) s)
        _ _ λ b s'. branch-cong b c.branch.if_true c.branch.if_false (suc n) f g s' h
  visit_step-cong current n f g (tool t) s h = then_with-cong (host.gateway t s) _ _ code_cong
    where
      code_cong :
          (code : Option String) (s' : Store)
          → after_tool host r t n f code s' ≡ after_tool host r t n g code s'
      code_cong none s' = next-cong t.next (suc n) f g s' h
      code_cong (some x) s' = refl
  visit_step-cong current n f g (outcome o) s h =
      then_with-cong
        (db_run host (run (apply_outcome_step r.context r.call_session_id o.outcome o.notes)) s) _ _
        λ b s'. next-cong o.next (suc n) f g s' h
  visit_step-cong current n f g (follow_up o) s h =
      then_with-cong
        (db_run host
          (apply_follow_up_step host.uuid_text r.context r.call_session_id o.follow_up_type
            o.description)
          s)
        _ _ λ b s'. next-cong o.next (suc n) f g s' h

  module _ (P : WorkflowRunResult → Type 0) where
    -- What the rest returns has the property, wherever it starts.
    abbrev pub RestReturns : List String → ℕ → Rest → Type 0
    RestReturns targets n rest = (t : String) → t ∈ targets → (s : Store) → Returns P (rest t n s)

    end_failed-Returns :
        (step_id : String) (n : ℕ) (reason : String) (s : Store)
        → P (failed step_id n reason)
        → Returns P (end_failed host r step_id n reason s)
    unfolding end_failed
    end_failed-Returns step_id n reason s h =
        then_with-elim P (db_run host (run (fail_execution r.context r.execution_id reason n)) s) _
          λ row s'. h

    advance-Returns :
        (t : String) (n : ℕ) (rest : Rest) (s : Store)
        → P (failed t n "execution_conflict")
        → ((s : Store) → Returns P (rest t n s))
        → Returns P (advance host r t n rest s)
    unfolding advance
    advance-Returns t n rest s c h =
        go (db_run host (run (record_step_advance r.context r.execution_id t n)) s)
      where
        go :
            (x : Result Error CallWorkflowExecution × Store)
            → Returns P (attempt x (after_advance t n rest))
        go (ok row, s') = h s'
        go (err (workflow_execution_conflict id), s') = c
        go (err _, s') = tt

    pub visit_step-Returns :
        (current : String) (n : ℕ) (rest : Rest) (step : WorkflowStep) (s : Store)
        → RoundReturns P n
        → RestReturns (outgoing step) (suc n) rest
        → Returns P (visit_step host r current n rest (some step) s)
    unfolding visit_step
    visit_step-Returns current n rest (finish e) s p h =
        then_with-elim P
          (db_run host (run (complete_execution r.context r.execution_id e.step_id (suc n))) s) _
          λ row s'. p.done e.step_id
    visit_step-Returns current n rest (condition c) s p h =
        then_with-elim P
          (db_run host (run (evaluate_condition r.context r.call_session_id c.branch)) s) _ branch
      where
        branch :
            (b : Bool) (s' : Store)
            → Returns P
                (advance host r (if b then c.branch.if_true else c.branch.if_false) (suc n) rest s')
        branch true s' =
            advance-Returns c.branch.if_true (suc n) rest s' (p.conflict c.branch.if_true) (
              h c.branch.if_true
                (ground (arith, string_eq.equal_iff c.branch.if_true c.branch.if_true)))
        branch false s' =
            advance-Returns c.branch.if_false (suc n) rest s' (p.conflict c.branch.if_false) (
              h c.branch.if_false
                (ground (arith, string_eq.equal_iff c.branch.if_false c.branch.if_false)))
    visit_step-Returns current n rest (tool t) s p h = then_with-elim P (host.gateway t s) _ code
      where
        code : (x : Option String) (s' : Store) → Returns P (after_tool host r t n rest x s')
        code none s' =
            advance-Returns t.next (suc n) rest s' (p.conflict t.next)
              (h t.next (ground (arith, string_eq.equal_iff t.next t.next)))
        code (some x) s' =
            end_failed-Returns t.step_id (suc n) "tool_step_failed" s' (p.tool_failed t.step_id)
    visit_step-Returns current n rest (outcome o) s p h =
        then_with-elim P
          (db_run host (run (apply_outcome_step r.context r.call_session_id o.outcome o.notes)) s) _
          λ u s'.
            advance-Returns o.next (suc n) rest s' (p.conflict o.next)
              (h o.next (ground (arith, string_eq.equal_iff o.next o.next)))
    visit_step-Returns current n rest (follow_up o) s p h =
        then_with-elim P
          (db_run host
            (apply_follow_up_step host.uuid_text r.context r.call_session_id o.follow_up_type
              o.description)
            s)
          _
          λ u s'.
            advance-Returns o.next (suc n) rest s' (p.conflict o.next)
              (h o.next (ground (arith, string_eq.equal_iff o.next o.next)))
