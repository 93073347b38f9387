-- ===== src/Workflow/Graph/Reachable.antt =====
-- The worklist of `_reachable_from` (voiceagent/workflows/config.py) and paths from the entry.
use call_agent.Prelude.{
  ℕ, zero, suc, ◌+◌, ◌≤◌, ◌≡◌, refl, inl, inr, ◌↔◌, false, not, ◌||◌, ◌&&◌, some, List, [], ◌∷◌,
  arith, length, if◌then◌else◌, Bool-cases, sym, subst,
}
use call_agent.Prelude.Eq.{Eq}
use call_agent.Prelude.Sets.{
  elem, ◌∈◌, add, IsDistinct, IsSubset, add-IsDistinct, length-le_of_IsSubset,
}
use call_agent.Workflow.Graph.{Edges, targets, push_new, reach_loop, reachable_from}
use call_agent.Workflow.Graph.Relations.{Reaches, here, next, IsClosed, keys, length-keys}

module _ {A : Type 0} ⦃e : Eq A⦄ where
  elem-push_new_seen :
      (x : A) (ts seen stack : List A)
      → elem x (push_new ts seen stack).0 ≡ (elem x seen || elem x ts)
  unfolding push_new
  elem-push_new_seen x [] seen stack = ground arith
  elem-push_new_seen x (t ∷ ts) seen stack = ground (
    arith,
    elem-push_new_seen x ts (add t seen) (if elem t seen then stack else t ∷ stack),
    e.equal_iff x t,
  )

  elem-push_new_stack :
      (x : A) (ts seen stack : List A)
      → elem x (push_new ts seen stack).1 ≡ (elem x stack || (elem x ts && not (elem x seen)))
  unfolding push_new
  elem-push_new_stack x [] seen stack = ground arith
  elem-push_new_stack x (t ∷ ts) seen stack = ground (
    arith,
    elem-push_new_stack x ts (add t seen) (if elem t seen then stack else t ∷ stack),
    e.equal_iff x t,
  )

  push_new-IsDistinct :
      (ts seen stack : List A) → IsDistinct seen → IsDistinct (push_new ts seen stack).0
  unfolding push_new
  push_new-IsDistinct [] seen stack h = h
  push_new-IsDistinct (t ∷ ts) seen stack h =
      push_new-IsDistinct ts (add t seen) (if elem t seen then stack else t ∷ stack)
        (add-IsDistinct t seen h)

  -- what is pushed is what is newly seen
  length-push_new :
      (ts seen stack : List A)
      → length (push_new ts seen stack).1 + length seen
        ≡ length stack + length (push_new ts seen stack).0
  unfolding push_new
  length-push_new [] seen stack = refl
  length-push_new (t ∷ ts) seen stack =
      ground (arith, length-push_new ts (add t seen) (if elem t seen then stack else t ∷ stack))

module _ {A : Type 0} ⦃e : Eq A⦄ (edges : Edges A) (entry : A) where
  -- Between two rounds: what is seen is reached, and what has left the stack has its targets seen.
  pub record IsWalk (seen stack : List A) : Type 0 where
    pub distinct : IsDistinct seen
    pub entered : entry ∈ seen
    pub stacked : IsSubset stack seen
    pub sound : (x : A) → x ∈ seen → Reaches edges entry x
    pub expanded : (x : A) → x ∈ seen → elem x stack ≡ false → IsSubset (targets edges x) seen

  module _ (node : A) (seen stack : List A) (h : IsWalk seen (node ∷ stack)) where
    abbrev pushed : List A × List A
    pushed = push_new (targets edges node) seen stack

    pushed-stacked : IsSubset pushed.1 pushed.0
    pushed-stacked x m = ground (
      arith,
      elem-push_new_stack x (targets edges node) seen stack,
      elem-push_new_seen x (targets edges node) seen stack,
      h.stacked x,
    )

    pushed_sound : (x : A) → x ∈ pushed.0 → Reaches edges entry x
    pushed_sound x m = elim (Bool-cases (elem x seen)) [
      | inl old ↦ h.sound x old
      | inr new ↦
          next (h.sound node (h.stacked node (ground (arith, e.equal_iff node node))))
            (ground (arith, elem-push_new_seen x (targets edges node) seen stack))
    ]

    pushed-expanded :
        (x : A) → x ∈ pushed.0 → elem x pushed.1 ≡ false → IsSubset (targets edges x) pushed.0
    pushed-expanded x m n y t = elim (Bool-cases (e.equal x node)) [
      | inl same ↦
          ground (arith, e.equal_iff x node, elem-push_new_seen y (targets edges node) seen stack)
      | inr other ↦ ground (
        arith,
        elem-push_new_seen y (targets edges node) seen stack,
        h.expanded x
            (ground (
              arith,
              elem-push_new_seen x (targets edges node) seen stack,
              elem-push_new_stack x (targets edges node) seen stack,
            ))
            (ground (arith, elem-push_new_stack x (targets edges node) seen stack)) y t,
      )
    ]

    pushed-IsWalk : IsWalk pushed.0 pushed.1
    pushed-IsWalk = record {
      distinct = push_new-IsDistinct (targets edges node) seen stack h.distinct;
      entered = ground (arith, h.entered, elem-push_new_seen entry (targets edges node) seen stack);
      stacked = pushed-stacked;
      sound = pushed_sound;
      expanded = pushed-expanded;
    }

  entry-IsWalk : IsWalk (entry ∷ []) (entry ∷ [])
  entry-IsWalk = record {
    distinct = ground arith;
    entered = ground (arith, e.equal_iff entry entry);
    stacked = λ x m. m;
    sound = λ x m. elim (Bool-cases (e.equal x entry)) [
      | inl same ↦ subst (Reaches edges entry) (sym ((e.equal_iff x entry).0 same)) here
      | inr other ↦ ground arith
    ];
    expanded = λ x m n. ground arith;
  }

  reach_loop-IsWalk :
      (fuel : ℕ) (seen stack : List A) {result : List A}
      → IsWalk seen stack
      → reach_loop edges fuel seen stack ≡ some result
      → IsWalk result []
  unfolding reach_loop
  reach_loop-IsWalk zero seen [] h p = subst (λ s. IsWalk s []) (ground arith) h
  reach_loop-IsWalk (suc fuel) seen [] h p = subst (λ s. IsWalk s []) (ground arith) h
  reach_loop-IsWalk zero seen (node ∷ stack) h p = cc
  reach_loop-IsWalk (suc fuel) seen (node ∷ stack) h p =
      let s = push_new (targets edges node) seen stack in
      reach_loop-IsWalk fuel s.0 s.1 (pushed-IsWalk node seen stack h) p

  -- One unit of fuel for each node that is not seen yet, and for each one on the stack.
  reach_loop_total :
      (nodes : List A)
      → ((x : A) → IsSubset (targets edges x) nodes)
      → (fuel : ℕ) (seen stack : List A) → IsWalk seen stack
      → IsSubset seen nodes
      → length stack + length nodes ≤ fuel + length seen
      → (result : List A) × (reach_loop edges fuel seen stack ≡ some result)
  unfolding reach_loop
  reach_loop_total nodes closed zero seen [] h s l = (seen, refl)
  reach_loop_total nodes closed (suc fuel) seen [] h s l = (seen, refl)
  reach_loop_total nodes closed zero seen (node ∷ stack) h s l =
      absurd (omega (arith, length-le_of_IsSubset seen nodes h.distinct s))
  reach_loop_total nodes closed (suc fuel) seen (node ∷ stack) h s l =
      let p = push_new (targets edges node) seen stack in
      reach_loop_total nodes closed fuel p.0 p.1 (pushed-IsWalk node seen stack h)
        (λ x m.
          ground (arith, elem-push_new_seen x (targets edges node) seen stack, s x, closed node x))
        (omega (arith, length-push_new (targets edges node) seen stack))

  Reaches-seen : (seen : List A) → IsWalk seen [] → {x : A} → Reaches edges entry x → x ∈ seen
  Reaches-seen seen h here = h.entered
  Reaches-seen seen h (next {y = y} {z = z} r t) = h.expanded y (Reaches-seen seen h r) refl z t

  -- Over a closed graph with the entry among its keys, the walk ends within its fuel, and its
  -- result holds a node exactly when a path leads from the entry to it.
  pub reachable_from_iff :
      entry ∈ keys edges
      → IsClosed edges
      → (seen : List A) × (reachable_from entry edges ≡ some seen)
        × ((x : A) → (x ∈ seen) ↔ Reaches edges entry x)
  unfolding reachable_from
  reachable_from_iff member closed =
      let (seen, p) =
        reach_loop_total (keys edges) closed (length edges) (entry ∷ []) (entry ∷ []) entry-IsWalk
          (λ x m. ground (arith, e.equal_iff x entry)) (omega (arith, length-keys edges)) in
      let w = reach_loop-IsWalk (length edges) (entry ∷ []) (entry ∷ []) entry-IsWalk p in
      (seen, p, λ x. (w.sound x, Reaches-seen seen w))
