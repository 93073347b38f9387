-- ===== src/Workflow/Config/Structure/Spec.antt =====
-- What a structurally valid workflow is, in terms of its graph, beside `_validate_structure` of
-- voiceagent/workflows/config.py.
use call_agent.Prelude.{
  String, ◌≡◌, refl, subst, ◌↔◌, Bool, true, false, not, List, [], ◌∷◌, any, arith,
}
use call_agent.Prelude.Eq.{string_eq}
use call_agent.Prelude.Sets.{elem, ◌∈◌, IsDistinct, IsSubset}
use call_agent.Prelude.Results.{Result, ok, ◌>>=◌, ◌>>◌, raise_if, >>=-eq-ok}
use call_agent.Workflow.Graph.{Edges, reachable_from, has_cycle}
use call_agent.Workflow.Graph.Relations.{Reaches, IsOnCycle, keys, IsClosed}
use call_agent.Workflow.Graph.Reachable.{reachable_from_iff}
use call_agent.Workflow.Graph.Decision.{has_cycle_iff}
use call_agent.Workflow.Config.{
  Invalid, unknown_entry, no_end_step, unreachable_step, cycle, WorkflowDefinition, is_end,
}
use call_agent.Workflow.Config.Structure.{step_ids, collect_edges, or_exhausted, validate_structure}
use call_agent.Workflow.Config.Structure.Passes.{
  ids_of, edges_of, step_ids_sound, step_ids_complete, IsKnown, IsKnown-mono, collect_edges_sound,
  collect_edges_complete, keys-edges_of, edges_of-IsClosed,
}

pub record IsWellFormed (d : WorkflowDefinition) : Type 0 where
  pub distinct : IsDistinct (ids_of d.steps)
  pub entered : d.entry_step_id ∈ ids_of d.steps
  pub ended : any is_end d.steps ≡ true
  pub known : IsKnown (ids_of d.steps) d.steps
  pub reached : (x : String) → x ∈ ids_of d.steps → Reaches (edges_of d.steps) d.entry_step_id x
  pub acyclic :
      (x : String)
      → Reaches (edges_of d.steps) d.entry_step_id x
      → ¬ (IsOnCycle (edges_of d.steps) x)

any-not : (xs seen : List String) → any (λ x. not (elem x seen)) xs ≡ false → IsSubset xs seen
any-not [] seen h x m = cc
any-not (y ∷ ys) seen h x m =
    ground (arith, any-not ys seen (ground arith) x, string_eq.equal_iff x y)

any-not_complete :
    (xs seen : List String) → IsSubset xs seen → any (λ x. not (elem x seen)) xs ≡ false
any-not_complete [] seen h = refl
any-not_complete (y ∷ ys) seen h =
    ground
      (arith, h y, string_eq.equal_iff y y, any-not_complete ys seen (λ x m. h x (ground arith)))

-- The facts under which the two walks run.
pub record IsGraph (d : WorkflowDefinition) : Type 0 where
  pub entry_key : d.entry_step_id ∈ keys (edges_of d.steps)
  pub closed : IsClosed (edges_of d.steps)

pub IsGraph-of :
    (d : WorkflowDefinition)
    → d.entry_step_id ∈ ids_of d.steps
    → IsKnown (ids_of d.steps) d.steps
    → IsGraph d
IsGraph-of d m known = record {
  entry_key = rw (keys-edges_of d.steps) m;
  closed =
      λ x y h. rw (keys-edges_of d.steps) (edges_of-IsClosed (ids_of d.steps) d.steps known x y h);
}

-- The last part of `_validate_structure`, from the two walks on.
walks : WorkflowDefinition → List String → Edges String → Result Invalid (Unit {0})
walks d ids edges = do
  reachable ← or_exhausted (reachable_from d.entry_step_id edges)
  raise_if (any (λ id. not (elem id reachable)) ids) unreachable_step
  cyclic ← or_exhausted (has_cycle d.entry_step_id edges)
  raise_if cyclic cycle

module _ (d : WorkflowDefinition) (g : IsGraph d) where
  abbrev entry : String
  entry = d.entry_step_id

  walks_sound :
      (ids : List String)
      → walks d ids (edges_of d.steps) ≡ ok tt
      → ((x : String) → x ∈ ids → Reaches (edges_of d.steps) entry x)
        × ((x : String) → Reaches (edges_of d.steps) entry x → ¬ (IsOnCycle (edges_of d.steps) x))
  unfolding walks
  walks_sound ids p =
      let (seen, found, iff) = reachable_from_iff (edges_of d.steps) entry g.entry_key g.closed in
      let (b, decided, cycles, ranks) =
        has_cycle_iff (edges_of d.steps) entry g.entry_key g.closed in
      let q : (raise_if (any (λ id. not (elem id seen)) ids) unreachable_step >> raise_if b cycle)
          ≡ ok tt =
        rw found at (rw decided at p) in
      let all_seen : any (λ id. not (elem id seen)) ids ≡ false = ground arith in
      let no_cycle : b ≡ false = ground arith in
      (
        (λ x m. (iff x).0 (any-not ids seen all_seen x m)),
        λ x r c. let h : b ≡ true = cycles.1 (x, r, c) in cc,
      )

  walks_complete :
      (ids : List String)
      → ((x : String) → x ∈ ids → Reaches (edges_of d.steps) entry x)
      → ((x : String) → Reaches (edges_of d.steps) entry x → ¬ (IsOnCycle (edges_of d.steps) x))
      → walks d ids (edges_of d.steps) ≡ ok tt
  unfolding walks
  walks_complete ids reached acyclic =
      let (seen, found, iff) = reachable_from_iff (edges_of d.steps) entry g.entry_key g.closed in
      let (b, decided, cycles, ranks) =
        has_cycle_iff (edges_of d.steps) entry g.entry_key g.closed in
      let all_seen : any (λ id. not (elem id seen)) ids ≡ false =
        any-not_complete ids seen (λ x m. (iff x).1 (reached x m)) in
      rw found (rw decided (rw all_seen (no_cycle b cycles.0)))
    where
      no_cycle :
          (b : Bool)
          → (b ≡ true
              → (x : String) × Reaches (edges_of d.steps) entry x × IsOnCycle (edges_of d.steps) x)
          → raise_if b cycle ≡ ok tt
      no_cycle false h = refl
      no_cycle true h = let (x, r, c) = h refl in absurd (acyclic x r c)

-- `_validate_structure` accepts.
abbrev pub IsAccepted : WorkflowDefinition → Type 0
IsAccepted d = validate_structure d ≡ ok tt

accepted_parts :
    (d : WorkflowDefinition)
    → IsAccepted d
    → (ids : List String) × (step_ids d.steps [] ≡ ok ids)
      × (d.entry_step_id ∈ ids)
      × (any is_end d.steps ≡ true)
      × ((edges : Edges String) × (collect_edges ids d.steps ≡ ok edges)
          × (walks d ids edges ≡ ok tt))
unfolding validate_structure walks
accepted_parts d p =
    let (ids, named, p₁) = >>=-eq-ok (step_ids d.steps []) _ p in
    let (u, entered, p₂) =
      >>=-eq-ok (raise_if (not (elem d.entry_step_id ids)) unknown_entry) _ p₁ in
    let (v, ended, p₃) = >>=-eq-ok (raise_if (not (any is_end d.steps)) no_end_step) _ p₂ in
    let (edges, collected, p₄) = >>=-eq-ok (collect_edges ids d.steps) _ p₃ in
    (ids, named, ground arith, ground arith, (edges, collected, p₄))

accepted-IsWellFormed : (d : WorkflowDefinition) → IsAccepted d → IsWellFormed d
accepted-IsWellFormed d p =
    let (ids, named, entered, ended, (edges, collected, walked)) = accepted_parts d p in
    let (same_ids, distinct, apart) = step_ids_sound d.steps [] ids named in
    let (same_edges, known) = collect_edges_sound ids d.steps edges collected in
    let member : d.entry_step_id ∈ ids_of d.steps = ground (arith, same_ids d.entry_step_id) in
    let known' =
      IsKnown-mono ids (ids_of d.steps) d.steps (λ x m. ground (arith, same_ids x)) known in
    let g = IsGraph-of d member known' in
    let (reached, acyclic) =
      walks_sound d g ids (subst (λ es. walks d ids es ≡ ok tt) same_edges walked) in
    record {
      distinct = distinct;
      entered = member;
      ended = ended;
      known = known';
      reached = λ x m. reached x (ground (arith, same_ids x));
      acyclic = acyclic;
    }

IsWellFormed-IsAccepted : (d : WorkflowDefinition) → IsWellFormed d → IsAccepted d
unfolding validate_structure walks
IsWellFormed-IsAccepted d h =
    let (ids, named) = step_ids_complete d.steps [] h.distinct (λ x m. refl) in
    let (same_ids, distinct, apart) = step_ids_sound d.steps [] ids named in
    let known =
      IsKnown-mono (ids_of d.steps) ids d.steps (λ x m. ground (arith, same_ids x)) h.known in
    let entered : elem d.entry_step_id ids ≡ true =
      ground (arith, same_ids d.entry_step_id, h.entered) in
    let walked =
      walks_complete d (IsGraph-of d h.entered h.known) ids
        (λ x m. h.reached x (ground (arith, same_ids x))) h.acyclic in
    rw named (rw entered (rw h.ended (rw (collect_edges_complete ids d.steps known) walked)))

-- `_validate_structure` returns without an error exactly when the step ids are distinct, the entry
-- is one of them, some step is an `end`, every transition leads to a step, every step can be
-- reached from the entry, and no step that can be reached lies on a cycle.
pub validate_structure_iff :
    (d : WorkflowDefinition) → (validate_structure d ≡ ok tt) ↔ IsWellFormed d
validate_structure_iff d = (accepted-IsWellFormed d, IsWellFormed-IsAccepted d)
