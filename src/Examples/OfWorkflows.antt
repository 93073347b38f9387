-- ===== src/Examples/OfWorkflows.antt =====
-- The theorems on workflows at a small definition.
use call_agent.Prelude.{
  ℕ, ◌≡◌, ◌↔◌, suc, refl, arith, String, Bool, true, false, none, some, List, [], ◌∷◌,
}
use call_agent.Prelude.Eq.{string_eq}
use call_agent.Prelude.Sets.{◌∈◌}
use call_agent.Prelude.Results.{ok}
use call_agent.Store.{Store}
use call_agent.Store.Rows.{CallWorkflowExecution}
use call_agent.Store.Proc.{Returns}
use call_agent.Workflow.Graph.{Edges, targets, reachable_from, has_cycle}
use call_agent.Workflow.Graph.Relations.{Reaches, IsOnCycle}
use call_agent.Workflow.Graph.Reachable.{reachable_from_iff}
use call_agent.Workflow.Graph.Decision.{has_cycle_iff, IsRanking}
use call_agent.Workflow.Config.{tool, condition, outcome, finish, WorkflowDefinition}
use call_agent.Workflow.Config.Structure.{validate_structure, validate}
use call_agent.Workflow.Config.Structure.Passes.{edges_of}
use call_agent.Workflow.Config.Structure.Spec.{IsWellFormed, validate_structure_iff}
use call_agent.Workflow.Service.{AgentVersion, find_execution_row, begin_execution, new_execution}
use call_agent.Workflow.Executor.{
  Host, Run, completed, loop, execute_steps, run_workflow, max_execution_transitions,
}
use call_agent.Workflow.Executor.Ceiling.{IsOrdinary, ceiling_is_enough, execute_steps-IsOrdinary}
use call_agent.Workflow.Executor.Answers.{IsCalm, run_workflow-IsOrdinary}
use call_agent.Examples.{tenant, call_with, store_with, returned}

-- Ask whether the caller is known; if not, run a tool; then note the outcome and end.
abbrev definition : WorkflowDefinition
definition = record {
  entry_step_id = "known";
  steps =
      condition (record {
        step_id = "known";
        branch = record {
          predicate = "contact_associated";
          threshold_seconds = none;
          if_true = "note";
          if_false = "lookup";
        };
      })
      ∷ tool (record {
        step_id = "lookup";
        tool_id = "contacts.lookup";
        arguments = [];
        next = "note";
      })
      ∷ outcome (record { step_id = "note"; outcome = "resolved"; notes = none; next = "end" })
      ∷ finish (record { step_id = "end" })
      ∷ [];
}

abbrev edges : Edges String
edges = edges_of definition.steps

abbrev version : AgentVersion
version = record { id = 5; config_hash = "c0ffee"; workflow = some (some definition) }

abbrev quiet_host : Host
quiet_host = record {
  wait = λ s. (ok tt, s);
  gateway = λ t s. (ok none, s);
  uuid_text = λ id. "uuid";
}

abbrev started : Store
started = store_with (call_with 1 "in_progress" none none) []

abbrev begun : CallWorkflowExecution × Store
begun =
    returned (new_execution tenant 0 1 version definition 0, started)
      (begin_execution tenant 1 version definition started)

abbrev this_run : Run
this_run = record { context = tenant; call_session_id = 1; execution_id = 100 }

-- The whole workflow, on a call without a contact.
workflow_runs : (run_workflow quiet_host tenant 1 version started).0 ≡ ok (completed "end" 4)
unfolding run_workflow
workflow_runs = refl

accepted_example : validate definition ≡ ok tt
unfolding validate
accepted_example = refl

structure_example : validate_structure definition ≡ ok tt
unfolding validate_structure
structure_example = refl

validate_structure_iff_example : (validate_structure definition ≡ ok tt) ↔ IsWellFormed definition
validate_structure_iff_example = validate_structure_iff definition

ceiling_is_enough_example :
    loop quiet_host this_run definition.steps 4 "known" 0 begun.1
    ≡ loop quiet_host this_run definition.steps (suc max_execution_transitions) "known" 0 begun.1
ceiling_is_enough_example =
    ceiling_is_enough quiet_host this_run definition 4 0 begun.1 accepted_example (omega arith)

execute_steps-IsOrdinary_example :
    Returns (IsOrdinary 4) (execute_steps quiet_host this_run definition.steps "known" 0 begun.1)
execute_steps-IsOrdinary_example =
    execute_steps-IsOrdinary quiet_host this_run definition begun.1 accepted_example

IsCalm-quiet : IsCalm quiet_host
IsCalm-quiet = record { keeps = λ s. refl; raises = λ s x p. cc }

run_workflow-IsOrdinary_example :
    Returns (IsOrdinary 4) (run_workflow quiet_host tenant 1 version started)
unfolding find_execution_row
run_workflow-IsOrdinary_example =
    run_workflow-IsOrdinary quiet_host IsCalm-quiet tenant 1 version definition accepted_example
      started refl refl

-- A graph with a cycle below its entry.
abbrev looping : Edges String
looping = ("a", "b" ∷ []) ∷ ("b", "c" ∷ []) ∷ ("c", "b" ∷ []) ∷ []

IsClosed-looping : (x t : String) → t ∈ targets looping x → t ∈ ("a" ∷ "b" ∷ "c" ∷ [])
unfolding targets
IsClosed-looping x t m = ground arith

reachable_from_iff_example :
    (seen : List String) × (reachable_from "a" looping ≡ some seen)
    × ((x : String) → (x ∈ seen) ↔ Reaches looping "a" x)
reachable_from_iff_example = reachable_from_iff looping "a" refl IsClosed-looping

has_cycle_iff_example :
    (b : Bool) × (has_cycle "a" looping ≡ some b)
    × ((b ≡ true) ↔ ((x : String) × Reaches looping "a" x × IsOnCycle looping x))
    × (b ≡ false → (height : String → ℕ) × IsRanking looping "a" height)
has_cycle_iff_example = has_cycle_iff looping "a" refl IsClosed-looping
