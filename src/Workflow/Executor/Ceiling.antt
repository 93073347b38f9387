-- ===== src/Workflow/Executor/Ceiling.antt =====
-- The ceiling `MAX_EXECUTION_TRANSITIONS` of voiceagent/workflows/executor.py.
use call_agent.Prelude.{
  ℕ, zero, suc, ◌+◌, ◌≤◌, ◌≡◌, ◌≢◌, refl, arith, String, false, Option, some, List, [], ◌∷◌, length,
  Bool-cases, inl, inr, subst,
}
use call_agent.Prelude.Eq.{◌==◌, string_eq}
use call_agent.Prelude.Sets.{◌∈◌}
use call_agent.Prelude.Results.{Result, ok, err, >>=-eq-ok}
use call_agent.Store.{Store}
use call_agent.Store.Errors.{Error, cancelled_error}
use call_agent.Store.Proc.{Returns, attempt}
use call_agent.Workflow.Graph.{targets}
use call_agent.Workflow.Graph.Relations.{Reaches, here, next}
use call_agent.Workflow.Graph.Decision.{IsRanking, has_cycle_iff}
use call_agent.Workflow.Config.{
  WorkflowStep, WorkflowDefinition, step_id, outgoing, validate_fields, validate_fields-counted,
  max_workflow_steps,
}
use call_agent.Workflow.Config.Structure.{find_step, validate}
use call_agent.Workflow.Config.Structure.Passes.{ids_of, edges_of, edges_of-IsClosed}
use call_agent.Workflow.Config.Structure.Spec.{IsWellFormed, validate_structure_iff, IsGraph-of}
use call_agent.Workflow.Executor.{
  WorkflowRunResult, Host, Run, failed, loop, execute_steps, max_execution_transitions, on_cancel,
}
use call_agent.Workflow.Executor.Rounds.{visit_step-cong, RoundReturns, visit_step-Returns}

-- `definition.step` finds the step of an id, whose targets the graph has.
find_step-found :
    (steps : List WorkflowStep) (id : String)
    → id ∈ ids_of steps
    → (step : WorkflowStep) × (find_step steps id ≡ some step)
      × (outgoing step ≡ targets (edges_of steps) id)
unfolding find_step targets
find_step-found [] id m = cc
find_step-found (x ∷ rest) id m = elim (Bool-cases (step_id x == id)) [
  | inl same ↦ (
    x,
    ground arith,
    ground (arith, string_eq.equal_iff id (step_id x), string_eq.equal_iff (step_id x) id),
  )
  | inr other ↦
      let (step, p, q) =
        find_step-found rest id (
          ground (arith, string_eq.equal_iff id (step_id x), string_eq.equal_iff (step_id x) id)) in
      (
        step,
        ground arith,
        ground (arith, string_eq.equal_iff id (step_id x), string_eq.equal_iff (step_id x) id),
      )
]

length-edges_of : (steps : List WorkflowStep) → length (edges_of steps) ≡ length steps
length-edges_of [] = refl
length-edges_of (x ∷ rest) = ground (arith, length-edges_of rest)

-- The result does not come from a step that was not found, nor from the ceiling, and no more
-- than `bound` steps were run.
pub record IsOrdinary (bound : ℕ) (result : WorkflowRunResult) : Type 0 where
  pub known_steps : result.failure_reason ≢ some "invalid_workflow_definition"
  pub below_ceiling : result.failure_reason ≢ some "max_steps_exceeded"
  pub bounded : result.steps_executed ≤ bound

IsOrdinary-mono :
    {a b : ℕ} (result : WorkflowRunResult) → a ≤ b → IsOrdinary a result → IsOrdinary b result
IsOrdinary-mono result h o = record {
  known_steps = o.known_steps;
  below_ceiling = o.below_ceiling;
  bounded = omega (arith, o.bounded);
}

Returns-IsOrdinary_mono :
    {a b : ℕ} (x : Result Error WorkflowRunResult × Store)
    → a ≤ b
    → Returns (IsOrdinary a) x
    → Returns (IsOrdinary b) x
Returns-IsOrdinary_mono (ok result, s) h o = IsOrdinary-mono result h o
Returns-IsOrdinary_mono (err x, s) h o = tt

reasons_apart : (a b : String) → (a == b) ≡ false → ◌≢◌ {A = Option String} (some a) (some b)
reasons_apart a b h p = let same : a ≡ b = cc in ground (arith, string_eq.equal_iff a b)

failed-IsOrdinary :
    (t : String) (bound n : ℕ) (reason : String)
    → n ≤ bound
    → (reason == "invalid_workflow_definition") ≡ false
    → (reason == "max_steps_exceeded") ≡ false
    → IsOrdinary bound (failed t n reason)
failed-IsOrdinary t bound n reason h a b = record {
  known_steps = reasons_apart reason "invalid_workflow_definition" a;
  below_ceiling = reasons_apart reason "max_steps_exceeded" b;
  bounded = h;
}

round-IsOrdinary : (bound n : ℕ) → suc n ≤ bound → RoundReturns (IsOrdinary bound) n
round-IsOrdinary bound n h = record {
  conflict = λ t. failed-IsOrdinary t bound (suc n) "execution_conflict" h refl refl;
  tool_failed = λ t. failed-IsOrdinary t bound (suc n) "tool_step_failed" h refl refl;
  done = λ t. record { known_steps = λ p. cc; below_ceiling = λ p. cc; bounded = h };
}

-- A rank that falls along the transitions of a definition that was accepted.
abbrev Ranking : WorkflowDefinition → (String → ℕ) → Type 0
Ranking d height = IsRanking (edges_of d.steps) d.entry_step_id height

ranked : (d : WorkflowDefinition) → IsWellFormed d → (height : String → ℕ) × Ranking d height
ranked d h =
    let g = IsGraph-of d h.entered h.known in
    let (b, decided, cycles, ranks) =
      has_cycle_iff (edges_of d.steps) d.entry_step_id g.entry_key g.closed in
    elim (Bool-cases b) [
      | inl cyclic ↦ let (x, r, c) = cycles.0 cyclic in absurd (h.acyclic x r c)
      | inr clear ↦ ranks clear
    ]

module _ (host : Host) (r : Run) (d : WorkflowDefinition) (h : IsWellFormed d) (height : String → ℕ)
    (k : Ranking d height) where
  abbrev Reached : String → Type 0
  Reached x = Reaches (edges_of d.steps) d.entry_step_id x

  Reached-ids : {x : String} → Reached x → x ∈ ids_of d.steps
  Reached-ids here = h.entered
  Reached-ids (next {y = y} {z = z} p m) = edges_of-IsClosed (ids_of d.steps) d.steps h.known y z m

  -- Enough rounds: from there on their number makes no difference.
  loop_enough :
      (m m' : ℕ) (current : String) (n : ℕ) (s : Store)
      → Reached current
      → height current ≤ m
      → height current ≤ m'
      → loop host r d.steps m current n s ≡ loop host r d.steps m' current n s
  unfolding loop
  loop_enough zero m' current n s p a b = absurd (omega (arith, a, k.positive current p))
  loop_enough (suc m) zero current n s p a b = absurd (omega (arith, b, k.positive current p))
  loop_enough (suc m) (suc m') current n s p a b =
      let (step, found, out) = find_step-found d.steps current (Reached-ids p) in
      rw found (
        visit_step-cong host r current n (loop host r d.steps m) (loop host r d.steps m') step s
          λ t i n' s'.
            let edge : t ∈ targets (edges_of d.steps) current = subst (λ ts. t ∈ ts) out i in
            loop_enough m m' t n' s' (next p edge) (omega (arith, k.falls current t p edge, a))
              (omega (arith, k.falls current t p edge, b)))

  loop-IsOrdinary :
      (m : ℕ) (current : String) (n : ℕ) (s : Store)
      → Reached current
      → height current ≤ m
      → Returns (IsOrdinary (n + height current)) (loop host r d.steps m current n s)
  unfolding loop
  loop-IsOrdinary zero current n s p a = absurd (omega (arith, a, k.positive current p))
  loop-IsOrdinary (suc m) current n s p a =
      let (step, found, out) = find_step-found d.steps current (Reached-ids p) in
      rw found (
        visit_step-Returns host r (IsOrdinary (n + height current)) current n
          (loop host r d.steps m) step s
          (round-IsOrdinary (n + height current) n (omega (arith, k.positive current p)))
          λ t i s'.
            let edge : t ∈ targets (edges_of d.steps) current = subst (λ ts. t ∈ ts) out i in
            Returns-IsOrdinary_mono (loop host r d.steps m t (suc n) s')
              (omega (arith, k.falls current t p edge))
              (loop-IsOrdinary m t (suc n) s' (next p edge)
                (omega (arith, k.falls current t p edge, a))))

  height-entry : height d.entry_step_id ≤ length d.steps
  height-entry = omega (arith, k.bounded d.entry_step_id, length-edges_of d.steps)

-- What `model_validate` guarantees: a good graph of at most 20 steps.
accepted :
    (d : WorkflowDefinition)
    → validate d ≡ ok tt
    → (length d.steps ≤ max_workflow_steps) × IsWellFormed d
unfolding validate
accepted d p =
    let (u, fields, structure) = >>=-eq-ok (validate_fields d) _ p in
    (validate_fields-counted d fields, (validate_structure_iff d).0 structure)

cancel-Returns :
    (P : WorkflowRunResult → Type 0) (host : Host) (r : Run)
    (x : Result Error WorkflowRunResult × Store)
    → Returns P x
    → Returns P (attempt x (on_cancel host r))
cancel-Returns P host r (ok result, s) h = h
cancel-Returns P host r (err cancelled_error, s) h = tt
cancel-Returns P host r (err _, s) h = tt

-- For a definition that `model_validate` accepts, the loop with any number of rounds that is at
-- least the number of steps does, from the entry, what the loop with its ceiling of
-- `MAX_EXECUTION_TRANSITIONS + 1` rounds does, whatever the tools, the other tasks and the tables do.
pub ceiling_is_enough :
    (host : Host) (r : Run) (d : WorkflowDefinition) (rounds : ℕ) (n : ℕ) (s : Store)
    → validate d ≡ ok tt
    → length d.steps ≤ rounds
    → loop host r d.steps rounds d.entry_step_id n s
      ≡ loop host r d.steps (suc max_execution_transitions) d.entry_step_id n s
ceiling_is_enough host r d rounds n s p a =
    let (short, h) = accepted d p in
    let (height, k) = ranked d h in
    let low = height-entry host r d h height k in
    loop_enough host r d h height k rounds (suc max_execution_transitions) d.entry_step_id n s here
      (omega (arith, low, a)) (omega (arith, low, short))

-- A run from the entry of a definition that `model_validate` accepts: if it returns a result, the
-- result's reason is neither "invalid_workflow_definition" nor "max_steps_exceeded", and at most as
-- many steps were executed as the definition has, whatever the tools, the other tasks and the
-- tables do.
pub execute_steps-IsOrdinary :
    (host : Host) (r : Run) (d : WorkflowDefinition) (s : Store)
    → validate d ≡ ok tt
    → Returns (IsOrdinary (length d.steps)) (execute_steps host r d.steps d.entry_step_id 0 s)
unfolding execute_steps
execute_steps-IsOrdinary host r d s p =
    let (short, h) = accepted d p in
    let (height, k) = ranked d h in
    let low = height-entry host r d h height k in
    let x = loop host r d.steps (suc max_execution_transitions) d.entry_step_id 0 s in
    cancel-Returns (IsOrdinary (length d.steps)) host r x (
      Returns-IsOrdinary_mono x (omega (arith, low)) (
        loop-IsOrdinary host r d h height k (suc max_execution_transitions) d.entry_step_id 0 s here
          (omega (arith, low, short))))
