-- ===== src/Workflow/Graph/Fuel.antt =====
-- The fuel of `visit`, for `_has_cycle` of voiceagent/workflows/config.py.
use call_agent.Prelude.{
  ℕ, zero, suc, ◌+◌, ◌<◌, List, [], ◌∷◌, arith, length, if◌then◌else◌, if_elim,
}
use call_agent.Prelude.Eq.{Eq}
use call_agent.Prelude.Sets.{
  elem, ◌∈◌, add, IsDistinct, IsSubset, add-IsDistinct, elem-add, length-le_of_IsSubset,
}
use call_agent.Workflow.Graph.{
  Edges, Verdict, cyclic, clear, exhausted, targets, visit_targets, finish_visit, visit,
}
use call_agent.Workflow.Graph.Relations.{IsClosed, keys, length-keys}

module _ {A : Type 0} ⦃e : Eq A⦄ (edges : Edges A) where
  -- Fuel for each node that is not on the stack is enough.
  abbrev pub IsAnswer : Verdict A → Type 0
  IsAnswer exhausted = ⊥
  IsAnswer _ = Unit

  visit_targets-IsAnswer :
      (run : List A → A → Verdict A) (ts done : List A)
      → ((done' : List A) (t : A) → t ∈ ts → IsAnswer (run done' t))
      → IsAnswer (visit_targets run done ts)
  unfolding visit_targets
  visit_targets-IsAnswer run [] done runs = tt
  visit_targets-IsAnswer run (t ∷ ts) done runs =
      go (run done t) (runs done t (ground (arith, e.equal_iff t t)))
        (λ mid. visit_targets-IsAnswer run ts mid (λ d x m. runs d x (ground arith)))
    where
      go :
          (v : Verdict A)
          → IsAnswer v
          → ((mid : List A) → IsAnswer (visit_targets run mid ts))
          → IsAnswer (elim v [
            | clear mid ↦ visit_targets run mid ts
            | cyclic ↦ cyclic
            | exhausted ↦ exhausted
          ])
      go cyclic c rest = tt
      go exhausted c rest = c
      go (clear mid) c rest = rest mid

  finish_visit-IsAnswer : (node : A) (v : Verdict A) → IsAnswer v → IsAnswer (finish_visit node v)
  unfolding finish_visit
  finish_visit-IsAnswer node cyclic c = tt
  finish_visit-IsAnswer node exhausted c = c
  finish_visit-IsAnswer node (clear after) c = tt

  pub visit-IsAnswer :
      (fuel : ℕ) (on_stack done : List A) (node : A)
      → IsClosed edges
      → node ∈ keys edges
      → IsDistinct on_stack
      → IsSubset on_stack (keys edges)
      → length edges < fuel + length on_stack
      → IsAnswer (visit edges fuel on_stack done node)
  unfolding visit
  visit-IsAnswer zero on_stack done node closed m d s l =
      absurd (omega (arith, length-le_of_IsSubset on_stack (keys edges) d s, length-keys edges))
  visit-IsAnswer (suc fuel) on_stack done node closed m d s l =
      let run = visit edges fuel (add node on_stack) in
      let deeper = finish_visit node (visit_targets run done (targets edges node)) in
      if_elim IsAnswer (elem node on_stack) cyclic (if elem node done then clear done else deeper)
        (λ again. tt)
        λ fresh.
          if_elim IsAnswer (elem node done) (clear done) deeper (λ old. tt)
            λ new. finish_visit-IsAnswer node (visit_targets run done (targets edges node)) (
              visit_targets-IsAnswer run (targets edges node) done (λ done' t i.
                visit-IsAnswer fuel (add node on_stack) done' t closed (closed node t i)
                  (add-IsDistinct node on_stack d)
                  (λ x h. ground (arith, e.equal_iff x node, elem-add x node on_stack, s x))
                  (ground arith)))
