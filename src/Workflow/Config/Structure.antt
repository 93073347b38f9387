-- ===== src/Workflow/Config/Structure.antt =====
-- `WorkflowDefinition._validate_structure`, `.step`, and the whole validation of a definition.
pub mod Passes
pub mod Spec
use call_agent.Prelude.{
  String, Bool, true, false, not, Option, none, some, List, [], ◌∷◌, map, any, find_first,
  if◌then◌else◌,
}
use call_agent.Prelude.Eq.{◌==◌, string_eq}
use call_agent.Prelude.Sets.{elem}
use call_agent.Prelude.Results.{Result, ok, err, ◌>>=◌, ◌>>◌, raise_if}
use call_agent.Workflow.Graph.{Edges, reachable_from, has_cycle}
use call_agent.Workflow.Config.{
  Invalid, duplicate_step_id, unknown_entry, no_end_step, unknown_transition, unreachable_step,
  cycle, fuel_exhausted, WorkflowStep, WorkflowDefinition, validate_fields, step_id, is_end,
  outgoing,
}

-- The loop that fills `steps_by_id`. Only the keys of that dict are read, so they are what is kept.
pub step_ids : List WorkflowStep → List String → Result Invalid (List String)
step_ids [] seen = ok seen
step_ids (s ∷ rest) seen = do
  raise_if (elem (step_id s) seen) duplicate_step_id
  step_ids rest (step_id s ∷ seen)

-- `for target in targets: if target not in steps_by_id: raise`
pub check_targets : List String → List String → Result Invalid (Unit {0})
check_targets ids [] = ok tt
check_targets ids (t ∷ ts) = do raise_if (not (elem t ids)) unknown_transition; check_targets ids ts

-- The loop that fills `edges`.
pub collect_edges : List String → List WorkflowStep → Result Invalid (Edges String)
unfolding check_targets
collect_edges ids [] = ok []
collect_edges ids (s ∷ rest) = do
  check_targets ids (outgoing s)
  edges ← collect_edges ids rest
  ok ((step_id s, outgoing s) ∷ edges)

abbrev pub or_exhausted : {A : Type 0} → Option A → Result Invalid A
or_exhausted none = err fuel_exhausted
or_exhausted (some a) = ok a

unfoldable pub validate_structure : WorkflowDefinition → Result Invalid (Unit {0})
unfolding step_ids collect_edges reachable_from has_cycle
validate_structure d = do
  ids ← step_ids d.steps []
  raise_if (not (elem d.entry_step_id ids)) unknown_entry
  raise_if (not (any is_end d.steps)) no_end_step
  edges ← collect_edges ids d.steps
  reachable ← or_exhausted (reachable_from d.entry_step_id edges)
  raise_if (any (λ id. not (elem id reachable)) ids) unreachable_step
  cyclic ← or_exhausted (has_cycle d.entry_step_id edges)
  raise_if cyclic cycle

-- `WorkflowDefinition.model_validate`, once the value has the shape of a definition.
unfoldable pub validate : WorkflowDefinition → Result Invalid (Unit {0})
unfolding validate_fields validate_structure
validate d = do validate_fields d; validate_structure d

-- `WorkflowDefinition.step`
unfoldable pub find_step : List WorkflowStep → String → Option WorkflowStep
find_step steps id = find_first (λ s. step_id s == id) steps
