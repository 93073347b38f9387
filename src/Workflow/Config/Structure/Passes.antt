-- ===== src/Workflow/Config/Structure/Passes.antt =====
-- The loops of `_validate_structure`, against the ids and the edges that the steps have.
use call_agent.Prelude.{
  String, ◌≡◌, refl, ap, sym, ◌∙◌, false, ◌||◌, List, [], ◌∷◌, All, arith, eq_iff,
}
use call_agent.Prelude.Eq.{string_eq}
use call_agent.Prelude.Sets.{elem, ◌∈◌, IsDistinct, IsSubset}
use call_agent.Prelude.Results.{Result, ok, ◌>>=◌, >>=-eq-ok, ok_injective}
use call_agent.Workflow.Graph.{Edges, targets}
use call_agent.Workflow.Graph.Relations.{keys}
use call_agent.Workflow.Config.{Invalid, WorkflowStep, step_id, outgoing}
use call_agent.Workflow.Config.Structure.{step_ids, check_targets, collect_edges}

abbrev pub ids_of : List WorkflowStep → List String
ids_of [] = []
ids_of (s ∷ rest) = step_id s ∷ ids_of rest

abbrev pub edges_of : List WorkflowStep → Edges String
edges_of [] = []
edges_of (s ∷ rest) = (step_id s, outgoing s) ∷ edges_of rest

pub step_ids_sound :
    (steps : List WorkflowStep) (seen ids : List String)
    → step_ids steps seen ≡ ok ids
    → ((x : String) → elem x ids ≡ (elem x seen || elem x (ids_of steps)))
      × IsDistinct (ids_of steps)
      × ((x : String) → x ∈ ids_of steps → elem x seen ≡ false)
unfolding step_ids
step_ids_sound [] seen ids p = ((λ x. ground arith), tt, λ x m. cc)
step_ids_sound (s ∷ rest) seen ids p =
    let fresh : elem (step_id s) seen ≡ false = ground arith in
    let (all, distinct, apart) = step_ids_sound rest (step_id s ∷ seen) ids (ground arith) in
    (
      (λ x. ground (arith, all x)),
      (ground (arith, apart (step_id s), eq_iff (step_id s) (step_id s)), distinct),
      λ x m. ground (arith, apart x, eq_iff x (step_id s)),
    )

pub step_ids_complete :
    (steps : List WorkflowStep) (seen : List String)
    → IsDistinct (ids_of steps)
    → ((x : String) → x ∈ ids_of steps → elem x seen ≡ false)
    → (ids : List String) × (step_ids steps seen ≡ ok ids)
unfolding step_ids
step_ids_complete [] seen d h = (seen, refl)
step_ids_complete (s ∷ rest) seen d h =
    let (ids, p) =
      step_ids_complete rest (step_id s ∷ seen) d.1
        (λ x m. ground (arith, h x, eq_iff x (step_id s))) in
    (ids, ground (arith, h (step_id s), eq_iff (step_id s) (step_id s)))

check_targets_sound : (ids ts : List String) → check_targets ids ts ≡ ok tt → IsSubset ts ids
unfolding check_targets
check_targets_sound ids [] p x m = cc
check_targets_sound ids (t ∷ ts) p x m =
    ground (arith, check_targets_sound ids ts (ground arith) x, eq_iff x t)

check_targets_complete : (ids ts : List String) → IsSubset ts ids → check_targets ids ts ≡ ok tt
unfolding check_targets
check_targets_complete ids [] h = refl
check_targets_complete ids (t ∷ ts) h =
    ground (arith, h t, eq_iff t t, check_targets_complete ids ts (λ x m. h x (ground arith)))

-- Every target of every step is a step's id.
abbrev pub IsKnown : List String → List WorkflowStep → Type 0
IsKnown ids steps = All (λ s. IsSubset (outgoing s) ids) steps

pub collect_edges_sound :
    (ids : List String) (steps : List WorkflowStep) (edges : Edges String)
    → collect_edges ids steps ≡ ok edges
    → (edges ≡ edges_of steps) × IsKnown ids steps
unfolding collect_edges
collect_edges_sound ids [] edges p = (ground arith, tt)
collect_edges_sound ids (s ∷ rest) edges p =
    let (done, checked, q) = >>=-eq-ok (check_targets ids (outgoing s)) (λ _. after) p in
    let (es, collected, r) =
      >>=-eq-ok (collect_edges ids rest) (λ es. ok ((step_id s, outgoing s) ∷ es)) q in
    let (same, known) = collect_edges_sound ids rest es collected in
    (
      sym (ok_injective r) ∙ ap (λ es. (step_id s, outgoing s) ∷ es) same,
      (check_targets_sound ids (outgoing s) checked, known),
    )
  where
    after : Result Invalid (Edges String)
    after = do es ← collect_edges ids rest; ok ((step_id s, outgoing s) ∷ es)

pub collect_edges_complete :
    (ids : List String) (steps : List WorkflowStep)
    → IsKnown ids steps
    → collect_edges ids steps ≡ ok (edges_of steps)
unfolding collect_edges
collect_edges_complete ids [] known = refl
collect_edges_complete ids (s ∷ rest) known =
    rw (check_targets_complete ids (outgoing s) known.0, collect_edges_complete ids rest known.1)
      refl

pub keys-edges_of : (steps : List WorkflowStep) → keys (edges_of steps) ≡ ids_of steps
keys-edges_of [] = refl
keys-edges_of (s ∷ rest) = ap (λ ks. step_id s ∷ ks) (keys-edges_of rest)

-- The edges lead to ids, so the walks run over a closed graph.
pub edges_of-IsClosed :
    (ids : List String) (steps : List WorkflowStep)
    → IsKnown ids steps
    → (x : String) → IsSubset (targets (edges_of steps) x) ids
unfolding targets
edges_of-IsClosed ids [] known x y m = cc
edges_of-IsClosed ids (s ∷ rest) known x y m =
    ground (arith, known.0 y, edges_of-IsClosed ids rest known.1 x y)

pub IsKnown-mono :
    (ids ids' : List String) (steps : List WorkflowStep)
    → IsSubset ids ids'
    → IsKnown ids steps
    → IsKnown ids' steps
IsKnown-mono ids ids' [] h k = tt
IsKnown-mono ids ids' (s ∷ rest) h k = ((λ x m. h x (k.0 x m)), IsKnown-mono ids ids' rest h k.1)
