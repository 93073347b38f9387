-- ===== src/Workflow/Graph.antt =====
-- The graph walks of voiceagent/workflows/config.py: `_reachable_from` and `_has_cycle`, over any
-- type of step ids. Python's dict of edges is an association list, its sets are lists without
-- repetition. The fuel is the number of keys for the worklist (each node is pushed once), and one
-- more for the recursion (the nodes on the stack are distinct); `none` is fuel that ran out.
pub mod Relations
pub mod Reachable
mod Order
mod Cycles
mod Fuel
pub mod Decision
use call_agent.Prelude.{
  ℕ, zero, suc, Bool, true, false, Option, none, some, List, [], ◌∷◌, length, if◌then◌else◌,
}
use call_agent.Prelude.Eq.{Eq}
use call_agent.Prelude.Sets.{elem, add}

abbrev pub Edges : Type 0 → Type 0
Edges A = List (A × List A)

-- What `_visit` returns: a cycle was met, or the set `done` that it leaves.
pub data Verdict (A : Type 0) : Type 0 where
  cyclic : Verdict A
  clear : List A → Verdict A
  exhausted : Verdict A

module _ {A : Type 0} ⦃e : Eq A⦄ where
  -- `edges.get(node, ())`
  unfoldable pub targets : Edges A → A → List A
  targets [] node = []
  targets ((k, ts) ∷ rest) node = if e.equal k node then ts else targets rest node

  -- The body of `for target in edges.get(node, ())`: a new target is seen and pushed.
  pub push_new : List A → List A → List A → List A × List A
  push_new [] seen stack = (seen, stack)
  push_new (t ∷ ts) seen stack = push_new ts (add t seen) (if elem t seen then stack else t ∷ stack)

  -- `while stack`, with the top of the stack first.
  pub reach_loop : Edges A → ℕ → List A → List A → Option (List A)
  reach_loop edges fuel seen [] = some seen
  reach_loop edges zero seen (node ∷ stack) = none
  reach_loop edges (suc fuel) seen (node ∷ stack) =
      let (seen', stack') = push_new (targets edges node) seen stack in
      reach_loop edges fuel seen' stack'

  unfoldable pub reachable_from : A → Edges A → Option (List A)
  unfolding reach_loop push_new targets
  reachable_from entry edges = reach_loop edges (length edges) (entry ∷ []) (entry ∷ [])

  -- The loop over the targets inside `_visit`; `visit` is `_visit` with the node on the stack.
  pub visit_targets : (List A → A → Verdict A) → List A → List A → Verdict A
  visit_targets visit done [] = clear done
  visit_targets visit done (t ∷ ts) = elim (visit done t) [
    | clear done' ↦ visit_targets visit done' ts
    | cyclic ↦ cyclic
    | exhausted ↦ exhausted
  ]

  -- `on_stack.discard(node)` and `done.add(node)`, after the loop has met no cycle.
  pub finish_visit : A → Verdict A → Verdict A
  finish_visit node (clear done) = clear (add node done)
  finish_visit node cyclic = cyclic
  finish_visit node exhausted = exhausted

  -- `_visit`. `on_stack.add(node)` and the discard bracket the loop, so the loop's calls have the
  -- node on the stack, and the caller has its own stack back.
  pub visit : Edges A → ℕ → List A → List A → A → Verdict A
  visit edges zero on_stack done node = exhausted
  visit edges (suc fuel) on_stack done node =
      let deeper =
        finish_visit node
          (visit_targets (visit edges fuel (add node on_stack)) done (targets edges node)) in
      if elem node on_stack then cyclic else if elem node done then clear done else deeper

  pub verdict : Verdict A → Option Bool
  verdict cyclic = some true
  verdict (clear done) = some false
  verdict exhausted = none

  unfoldable pub has_cycle : A → Edges A → Option Bool
  unfolding visit visit_targets finish_visit verdict targets
  has_cycle entry edges = verdict (visit edges (suc (length edges)) [] [] entry)
