-- ===== src/Workflow/Graph/Decision.antt =====
-- The answer of `_has_cycle` of voiceagent/workflows/config.py, and ranks of the nodes.
use call_agent.Prelude.{
  ℕ, suc, ◌≤◌, ◌<◌, ◌≡◌, refl, ◌↔◌, Bool, true, false, some, List, [], ◌∷◌, arith, length,
}
use call_agent.Prelude.Eq.{Eq}
use call_agent.Prelude.Sets.{◌∈◌, length-le_of_IsSubset}
use call_agent.Workflow.Graph.{
  Edges, Verdict, cyclic, clear, exhausted, targets, visit, verdict, has_cycle,
}
use call_agent.Workflow.Graph.Relations.{
  Reaches, here, next, IsOnCycle, IsClosed, keys, length-keys,
}
use call_agent.Workflow.Graph.Order.{
  rank, rank-pos, rank-le-length, rank-targets, sorted_targets, IsOrder, IsDone, IsClear,
  visit-IsClear,
}
use call_agent.Workflow.Graph.Cycles.{Cycle, visit-Cycle}
use call_agent.Workflow.Graph.Fuel.{IsAnswer, visit-IsAnswer}

module _ {A : Type 0} ⦃e : Eq A⦄ (edges : Edges A) where
  -- The ranks that an order gives its nodes.
  pub record IsRanking (entry : A) (height : A → ℕ) : Type 0 where
    pub positive : (x : A) → Reaches edges entry x → 0 < height x
    pub bounded : (x : A) → height x ≤ length edges
    pub falls : (x t : A) → Reaches edges entry x → t ∈ targets edges x → height t < height x

  module _ (entry : A) (done : List A) (h : IsDone edges [] (entry ∷ []) done) where
    Reaches-done : {x : A} → Reaches edges entry x → x ∈ done
    Reaches-done here = h.holds entry (ground (arith, e.equal_iff entry entry))
    Reaches-done (next {y = y} {z = z} r t) =
        sorted_targets edges y done h.order.sorted (Reaches-done r) z t

    done-IsRanking : IsRanking entry (λ x. rank edges x done)
    done-IsRanking = record {
      positive = λ x r. rank-pos edges x done (Reaches-done r);
      bounded = λ x. omega (
        arith,
        rank-le-length edges x done,
        length-keys edges,
        length-le_of_IsSubset done (keys edges) h.order.distinct h.order.inside,
      );
      falls =
          λ x t r m. rank-targets edges x t done h.order.sorted h.order.distinct (Reaches-done r) m;
    }

  Reaches-trans : {x y z : A} → Reaches edges x y → Reaches edges y z → Reaches edges x z
  Reaches-trans r here = r
  Reaches-trans r (next s t) = next (Reaches-trans r s) t

  module _ (entry : A) (height : A → ℕ) (h : IsRanking entry height) where
    Reaches-height : {x y : A} → Reaches edges entry x → Reaches edges x y → height y ≤ height x
    Reaches-height r here = omega arith
    Reaches-height {x = x} r (next {y = y} {z = z} s t) =
        omega (arith, Reaches-height r s, h.falls y z (Reaches-trans r s) t)

    pub IsRanking-acyclic : (x : A) → Reaches edges entry x → ¬ (IsOnCycle edges x)
    IsRanking-acyclic x r (y, m, s) =
        absurd (omega (arith, h.falls x y r m, Reaches-height (next r m) s))

  IsOrder-nil : IsOrder edges []
  IsOrder-nil = record { sorted = tt; distinct = tt; inside = λ x m. cc }

  module _ (entry : A) (member : entry ∈ keys edges) (closed : IsClosed edges) where
    abbrev Decides : Verdict A → Type 0
    Decides v =
        (b : Bool) × (verdict v ≡ some b)
        × ((b ≡ true) ↔ ((x : A) × Reaches edges entry x × IsOnCycle edges x))
        × (b ≡ false → (height : A → ℕ) × IsRanking entry height)

    verdict-Decides :
        (v : Verdict A)
        → IsAnswer edges v
        → IsClear edges [] (entry ∷ []) v
        → Cycle edges entry v
        → Decides v
    unfolding verdict
    verdict-Decides exhausted a c y = absurd a
    verdict-Decides cyclic a c y = (true, refl, ((λ _. y), λ _. refl), λ f. cc)
    verdict-Decides (clear done) a c y =
        let ranking = done-IsRanking entry done c in
        (
          false,
          refl,
          (
            (λ f. cc),
            λ (x, r, o). absurd (IsRanking-acyclic entry (λ z. rank edges z done) ranking x r o),
          ),
          λ _. ((λ x. rank edges x done), ranking),
        )

    -- Over a closed graph with the entry among its keys the walk ends within its fuel. It answers
    -- `True` exactly when a node on a cycle can be reached from the entry; otherwise there is a
    -- rank, at most the number of keys, that falls along every edge that can be reached.
    pub has_cycle_iff :
        (b : Bool) × (has_cycle entry edges ≡ some b)
        × ((b ≡ true) ↔ ((x : A) × Reaches edges entry x × IsOnCycle edges x))
        × (b ≡ false → (height : A → ℕ) × IsRanking entry height)
    unfolding has_cycle
    has_cycle_iff =
        verdict-Decides (visit edges (suc (length edges)) [] [] entry)
          (visit-IsAnswer edges (suc (length edges)) [] [] entry closed member tt (λ x m. cc)
            (omega arith))
          (visit-IsClear edges (suc (length edges)) [] closed [] entry IsOrder-nil member)
          (visit-Cycle edges entry (suc (length edges)) [] [] entry here (λ s m. cc))
