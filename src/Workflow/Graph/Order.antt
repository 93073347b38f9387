-- ===== src/Workflow/Graph/Order.antt =====
-- The list `done` that a run of `_visit` (voiceagent/workflows/config.py) leaves.
use call_agent.Prelude.{
  ℕ, zero, suc, ◌≤◌, ◌<◌, inl, inr, List, [], ◌∷◌, arith, length, if◌then◌else◌, if_elim,
  Bool-cases,
}
use call_agent.Prelude.Eq.{Eq}
use call_agent.Prelude.Sets.{
  elem, ◌∈◌, add, IsDistinct, IsSubset, add-IsDistinct, elem-add, elem-add_self, add-IsSubset,
}
use call_agent.Workflow.Graph.{
  Edges, Verdict, cyclic, clear, exhausted, targets, visit_targets, finish_visit, visit,
}
use call_agent.Workflow.Graph.Relations.{IsClosed, keys}

module _ {A : Type 0} ⦃e : Eq A⦄ (edges : Edges A) where
  -- Each node's targets stand further down the list.
  abbrev pub IsSorted : List A → Type 0
  IsSorted [] = Unit
  IsSorted (x ∷ xs) = IsSubset (targets edges x) xs × IsSorted xs

  -- How far from the end of the list a node first stands; 0 if it does not.
  pub rank : A → List A → ℕ
  rank x [] = 0
  rank x (y ∷ ys) = if e.equal x y then suc (length ys) else rank x ys

  pub rank-le-length : (x : A) (xs : List A) → rank x xs ≤ length xs
  unfolding rank
  rank-le-length x [] = omega arith
  rank-le-length x (y ∷ ys) = ground (arith, rank-le-length x ys)

  pub rank-pos : (x : A) (xs : List A) → x ∈ xs → 0 < rank x xs
  unfolding rank
  rank-pos x [] h = cc
  rank-pos x (y ∷ ys) h = ground (arith, rank-pos x ys)

  pub sorted_targets : (x : A) (xs : List A) → IsSorted xs → x ∈ xs → IsSubset (targets edges x) xs
  sorted_targets x [] s m t h = cc
  sorted_targets x (y ∷ ys) s m t h = elim (Bool-cases (e.equal x y)) [
    | inl same ↦ ground (arith, e.equal_iff x y, s.0 t)
    | inr other ↦ ground (arith, sorted_targets x ys s.1 (ground arith) t h)
  ]

  -- Along an edge the rank falls.
  pub rank-targets :
      (x t : A) (xs : List A)
      → IsSorted xs
      → IsDistinct xs
      → x ∈ xs
      → t ∈ targets edges x
      → rank t xs < rank x xs
  unfolding rank
  rank-targets x t [] s d m h = cc
  rank-targets x t (y ∷ ys) s d m h = elim (Bool-cases (e.equal x y)) [
    | inl same ↦ ground (arith, e.equal_iff x y, s.0 t, rank-le-length t ys, e.equal_iff t y)
    | inr other ↦ ground (
      arith,
      sorted_targets x ys s.1 (ground arith) t h,
      rank-targets x t ys s.1 d.1 (ground arith) h,
      e.equal_iff t y,
    )
  ]

  -- A list of finished nodes: keys of the graph, each once, and each above its targets.
  pub record IsOrder (done : List A) : Type 0 where
    pub sorted : IsSorted done
    pub distinct : IsDistinct done
    pub inside : IsSubset done (keys edges)

  IsOrder-add :
      (node : A) (done : List A)
      → IsOrder done
      → node ∈ keys edges
      → IsSubset (targets edges node) done
      → IsOrder (add node done)
  IsOrder-add node done o m t = record {
    sorted =
        if_elim IsSorted (elem node done) done (node ∷ done) (λ _. o.sorted) (λ _. (t, o.sorted));
    distinct = add-IsDistinct node done o.distinct;
    inside = λ x h. ground (arith, elem-add x node done, e.equal_iff x node, o.inside x);
  }

  -- What a visit that met no cycle leaves: an order that still holds what it held, and what was
  -- wanted.
  pub record IsDone (before wanted after : List A) : Type 0 where
    pub order : IsOrder after
    pub grows : IsSubset before after
    pub holds : IsSubset wanted after

  abbrev pub IsClear : List A → List A → Verdict A → Type 0
  IsClear before wanted (clear after) = IsDone before wanted after
  IsClear before wanted _ = Unit

  IsDone-join :
      (before mid after ts : List A) (t : A)
      → IsDone before (t ∷ []) mid
      → IsDone mid ts after
      → IsDone before (t ∷ ts) after
  IsDone-join before mid after ts t m a = record {
    order = a.order;
    grows = λ x h. a.grows x (m.grows x h);
    holds = λ x h. elim (Bool-cases (e.equal x t)) [
      | inl same ↦ a.grows x (m.holds x (ground arith))
      | inr other ↦ a.holds x (ground arith)
    ];
  }

  abbrev pub Runs : (List A → A → Verdict A) → Type 0
  Runs run =
      (done : List A) (x : A) → IsOrder done → x ∈ keys edges → IsClear done (x ∷ []) (run done x)

  visit_targets-IsClear :
      (run : List A → A → Verdict A)
      → Runs run
      → (ts done : List A) → IsOrder done
      → IsSubset ts (keys edges)
      → IsClear done ts (visit_targets run done ts)
  unfolding visit_targets
  visit_targets-IsClear run runs [] done o k = record {
    order = o;
    grows = λ x m. m;
    holds = λ x m. cc;
  }
  visit_targets-IsClear run runs (t ∷ ts) done o k =
      go (run done t) (runs done t o (k t (ground (arith, e.equal_iff t t))))
        (λ mid m. visit_targets-IsClear run runs ts mid m (λ x h. k x (ground arith)))
    where
      join :
          (mid : List A)
          → IsDone done (t ∷ []) mid
          → (v : Verdict A) → IsClear mid ts v
          → IsClear done (t ∷ ts) v
      join mid m cyclic c = tt
      join mid m exhausted c = tt
      join mid m (clear after) c = IsDone-join done mid after ts t m c

      go :
          (v : Verdict A)
          → IsClear done (t ∷ []) v
          → ((mid : List A) → IsOrder mid → IsClear mid ts (visit_targets run mid ts))
          → IsClear done (t ∷ ts) (elim v [
            | clear mid ↦ visit_targets run mid ts
            | cyclic ↦ cyclic
            | exhausted ↦ exhausted
          ])
      go cyclic c rest = tt
      go exhausted c rest = tt
      go (clear mid) c rest = join mid c (visit_targets run mid ts) (rest mid c.order)

  finish_visit-IsClear :
      (node : A) (before : List A) (v : Verdict A)
      → node ∈ keys edges
      → IsClear before (targets edges node) v
      → IsClear before (node ∷ []) (finish_visit node v)
  unfolding finish_visit
  finish_visit-IsClear node before cyclic k c = tt
  finish_visit-IsClear node before exhausted k c = tt
  finish_visit-IsClear node before (clear after) k c = record {
    order = IsOrder-add node after c.order k c.holds;
    grows = λ x h. add-IsSubset node after x (c.grows x h);
    holds =
        λ x h. ground (arith, e.equal_iff x node, elem-add x node after, elem-add_self node after);
  }

  pub visit-IsClear :
      (fuel : ℕ) (on_stack : List A) → IsClosed edges → Runs (visit edges fuel on_stack)
  unfolding visit
  visit-IsClear zero on_stack closed done node o k = tt
  visit-IsClear (suc fuel) on_stack closed done node o k =
      let run = visit edges fuel (add node on_stack) in
      let deeper = finish_visit node (visit_targets run done (targets edges node)) in
      if_elim (IsClear done (node ∷ [])) (elem node on_stack) cyclic
        (if elem node done then clear done else deeper) (λ again. tt)
        λ fresh.
          if_elim (IsClear done (node ∷ [])) (elem node done) (clear done) deeper
            (λ old. record {
              order = o;
              grows = λ x m. m;
              holds = λ x h. ground (arith, e.equal_iff x node);
            })
            λ new. finish_visit-IsClear node done (visit_targets run done (targets edges node)) k (
              visit_targets-IsClear run (visit-IsClear fuel (add node on_stack) closed)
                (targets edges node) done o (closed node))
