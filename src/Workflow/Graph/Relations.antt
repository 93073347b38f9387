-- ===== src/Workflow/Graph/Relations.antt =====
-- What the two walks decide: the nodes that a path reaches, and the nodes that lie on a cycle.
use call_agent.Prelude.{suc, refl, ap, ◌≡◌, List, length, [], ◌∷◌}
use call_agent.Prelude.Eq.{Eq}
use call_agent.Prelude.Sets.{◌∈◌, IsSubset}
use call_agent.Workflow.Graph.{Edges, targets}

abbrev pub keys : {A : Type 0} → Edges A → List A
keys [] = []
keys ((k, ts) ∷ rest) = k ∷ keys rest

pub length-keys : {A : Type 0} (edges : Edges A) → length (keys edges) ≡ length edges
length-keys [] = refl
length-keys ((k, ts) ∷ rest) = ap suc (length-keys rest)

module _ {A : Type 0} ⦃e : Eq A⦄ where
  -- A path along the edges, of any length.
  pub data Reaches (edges : Edges A) (x : A) : A → Type 0 where
    here : Reaches edges x x
    next : {y z : A} → Reaches edges x y → z ∈ targets edges y → Reaches edges x z

  -- The node comes back to itself over one edge or more.
  abbrev pub IsOnCycle : Edges A → A → Type 0
  IsOnCycle edges x = (y : A) × (y ∈ targets edges x) × Reaches edges y x

  -- Every edge leads to a key: `_validate_structure` has checked this before it walks.
  abbrev pub IsClosed : Edges A → Type 0
  IsClosed edges = (x : A) → IsSubset (targets edges x) (keys edges)
