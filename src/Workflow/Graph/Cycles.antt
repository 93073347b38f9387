-- ===== src/Workflow/Graph/Cycles.antt =====
-- The answer `True` of `_visit` (voiceagent/workflows/config.py) and cycles.
use call_agent.Prelude.{
  ℕ, zero, suc, ◌≡◌, inl, inr, List, [], ◌∷◌, arith, if◌then◌else◌, if_elim, Bool-cases, sym, subst,
}
use call_agent.Prelude.Eq.{Eq}
use call_agent.Prelude.Sets.{elem, ◌∈◌, add, elem-add}
use call_agent.Workflow.Graph.{
  Edges, Verdict, cyclic, clear, exhausted, targets, visit_targets, finish_visit, visit,
}
use call_agent.Workflow.Graph.Relations.{Reaches, here, next, IsOnCycle}

module _ {A : Type 0} ⦃e : Eq A⦄ (edges : Edges A) where
  -- The stack is the path to the node: each node on it reaches the node over one edge or more.
  abbrev pub IsPath : List A → A → Type 0
  IsPath on_stack node =
      (s : A) → s ∈ on_stack → (y : A) × (y ∈ targets edges s) × Reaches edges y node

  abbrev pub Cycle : A → Verdict A → Type 0
  Cycle entry cyclic = (x : A) × Reaches edges entry x × IsOnCycle edges x
  Cycle entry _ = Unit

  IsPath-next :
      (on_stack : List A) (node t : A)
      → IsPath on_stack node
      → t ∈ targets edges node
      → IsPath (add node on_stack) t
  IsPath-next on_stack node t p h s m = elim (Bool-cases (elem s on_stack)) [
    | inl old ↦ let (y, i, r) = p s old in (y, i, next r h)
    | inr new ↦
        let same : s ≡ node = ground (arith, e.equal_iff s node, elem-add s node on_stack) in
        subst (λ z. IsOnCycle_to z) (sym same) (t, h, here)
  ]
    where
      IsOnCycle_to : A → Type 0
      IsOnCycle_to z = (y : A) × (y ∈ targets edges z) × Reaches edges y t

  module _ (entry : A) where
    visit_targets-Cycle :
        (run : List A → A → Verdict A) (ts done : List A)
        → ((done' : List A) (t : A) → t ∈ ts → Cycle entry (run done' t))
        → Cycle entry (visit_targets run done ts)
    unfolding visit_targets
    visit_targets-Cycle run [] done runs = tt
    visit_targets-Cycle run (t ∷ ts) done runs =
        go (run done t) (runs done t (ground (arith, e.equal_iff t t)))
          (λ mid. visit_targets-Cycle run ts mid (λ d x m. runs d x (ground arith)))
      where
        go :
            (v : Verdict A)
            → Cycle entry v
            → ((mid : List A) → Cycle entry (visit_targets run mid ts))
            → Cycle entry (elim v [
              | clear mid ↦ visit_targets run mid ts
              | cyclic ↦ cyclic
              | exhausted ↦ exhausted
            ])
        go cyclic c rest = c
        go exhausted c rest = tt
        go (clear mid) c rest = rest mid

    finish_visit-Cycle :
        (node : A) (v : Verdict A) → Cycle entry v → Cycle entry (finish_visit node v)
    unfolding finish_visit
    finish_visit-Cycle node cyclic c = c
    finish_visit-Cycle node exhausted c = tt
    finish_visit-Cycle node (clear after) c = tt

    pub visit-Cycle :
        (fuel : ℕ) (on_stack done : List A) (node : A)
        → Reaches edges entry node
        → IsPath on_stack node
        → Cycle entry (visit edges fuel on_stack done node)
    unfolding visit
    visit-Cycle zero on_stack done node r p = tt
    visit-Cycle (suc fuel) on_stack done node r p =
        let run = visit edges fuel (add node on_stack) in
        let deeper = finish_visit node (visit_targets run done (targets edges node)) in
        if_elim (Cycle entry) (elem node on_stack) cyclic
          (if elem node done then clear done else deeper) (λ again. (node, r, p node again))
          λ fresh.
            if_elim (Cycle entry) (elem node done) (clear done) deeper (λ old. tt)
              λ new. finish_visit-Cycle node (visit_targets run done (targets edges node)) (
                visit_targets-Cycle run (targets edges node) done (λ done' t m.
                  visit-Cycle fuel (add node on_stack) done' t (next r m)
                    (IsPath-next on_stack node t p m)))
