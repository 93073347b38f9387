-- ===== src/Runtime/Assignment.antt =====
-- Which runtime `assign_call_to_runtime` chooses, and what it leaves.
use call_agent.Prelude.{
  ℕ, ◌≤◌, ◌≡◌, ◌⊎◌, inl, inr, refl, sym, subst, arith, String, true, false, some, List, [], ◌∷◌,
  ltb, All, Bool-cases, if_elim,
}
use call_agent.Prelude.Eq.{◌==◌, string_eq, option_eq}
use call_agent.Prelude.Results.{Result, ok, err}
use call_agent.Store.{Store}
use call_agent.Store.Rows.{TenantContext, CallSession}
use call_agent.Store.Errors.{Error, no_runtime_capacity}
use call_agent.Store.Proc.{then_with, finish_with, settle}
use call_agent.Store.Tx.{committed}
use call_agent.Calls.Service.{claim_runtime_ownership}
use call_agent.Calls.Service.Rows.{with_row, write_row-put}
use call_agent.Runtime.{
  RuntimeHeartbeat, Heartbeats, has_capacity, candidates, least_loaded, select_from,
  select_runtime_for_assignment, assign_to, assign_call_to_runtime,
}

abbrev pub IsIn : RuntimeHeartbeat → Heartbeats → Type 0
IsIn h [] = ⊥
IsIn h ((k, x) ∷ heartbeats) = (x ≡ h) ⊎ IsIn h heartbeats

abbrev pub NoneHasCapacity : Heartbeats → Type 0
NoneHasCapacity = All (λ (p : String × RuntimeHeartbeat). has_capacity p.1 ≡ false)

-- A runtime with capacity, and none with capacity has a smaller load.
pub record IsLeastLoaded (h : RuntimeHeartbeat) (heartbeats : Heartbeats) : Type 0 where
  pub known : IsIn h heartbeats
  pub free : has_capacity h ≡ true
  pub least :
      All
        (λ (p : String × RuntimeHeartbeat).
          has_capacity p.1 ≡ true → h.current_load ≤ p.1.current_load)
        heartbeats

abbrev IsOneOf : RuntimeHeartbeat → List RuntimeHeartbeat → Type 0
IsOneOf r [] = ⊥
IsOneOf r (h ∷ hs) = (h ≡ r) ⊎ IsOneOf r hs

abbrev IsLeastOf : RuntimeHeartbeat → RuntimeHeartbeat → List RuntimeHeartbeat → Type 0
IsLeastOf r best hs =
    ((r ≡ best) ⊎ IsOneOf r hs)
    × (r.current_load ≤ best.current_load)
    × All (λ h. r.current_load ≤ h.current_load) hs

least_loaded-IsLeastOf :
    (best : RuntimeHeartbeat) (hs : List RuntimeHeartbeat)
    → IsLeastOf (least_loaded best hs) best hs
unfolding least_loaded
least_loaded-IsLeastOf best [] = (inl refl, omega arith, tt)
least_loaded-IsLeastOf best (h ∷ hs) =
    if_elim (λ b. IsLeastOf (least_loaded b hs) best (h ∷ hs))
      (ltb h.current_load best.current_load) h best
      (λ less.
        let (from, low, all') = least_loaded-IsLeastOf h hs in
        (inr (elim from [ inl e ↦ inl (sym e) | inr o ↦ inr o ]), ground arith, (low, all')))
      λ not_less.
        let (from, low, all') = least_loaded-IsLeastOf best hs in
        (elim from [ inl e ↦ inl e | inr o ↦ inr (inr o) ], low, (ground arith, all'))

candidates-none :
    (heartbeats : Heartbeats) → candidates heartbeats ≡ [] → NoneHasCapacity heartbeats
unfolding candidates
candidates-none [] e = tt
candidates-none ((k, h) ∷ heartbeats) e = (ground arith, candidates-none heartbeats (ground arith))

candidates-IsOneOf :
    (heartbeats : Heartbeats) (r : RuntimeHeartbeat)
    → IsOneOf r (candidates heartbeats)
    → IsIn r heartbeats × (has_capacity r ≡ true)
unfolding candidates
candidates-IsOneOf [] r m = absurd m
candidates-IsOneOf ((k, h) ∷ heartbeats) r m = elim (Bool-cases (has_capacity h)) [
  | inl free ↦ elim (rw free at m) [
    | inl e ↦ (inl e, subst (λ x. has_capacity x ≡ true) e free)
    | inr rest ↦ let (known, free') = candidates-IsOneOf heartbeats r rest in (inr known, free')
  ]
  | inr full ↦
      let (known, free') = candidates-IsOneOf heartbeats r (rw full at m) in (inr known, free')
]

candidates-All :
    (P : RuntimeHeartbeat → Type 0) (heartbeats : Heartbeats)
    → All P (candidates heartbeats)
    → All (λ (p : String × RuntimeHeartbeat). has_capacity p.1 ≡ true → P p.1) heartbeats
unfolding candidates
candidates-All P [] h = tt
candidates-All P ((k, x) ∷ heartbeats) h = elim (Bool-cases (has_capacity x)) [
  | inl free ↦ let (p, rest) = rw free at h in ((λ f. p), candidates-All P heartbeats rest)
  | inr full ↦ ((λ f. cc), candidates-All P heartbeats (rw full at h))
]

-- The returned call is the claimed one, which the runtime now owns.
abbrev pub IsAssigned :
    TenantContext
    → ℕ
    → RuntimeHeartbeat
    → Store
    → Result Error (CallSession × String) × Store
    → Type 0
IsAssigned context id h s (ok (call, name), t) =
    (name ≡ h.instance_id)
    × (call.runtime_instance_id ≡ some h.instance_id)
    × (claim_runtime_ownership context id h.instance_id s ≡ ok (call, t))
IsAssigned context id h s (err x, t) =
    (t ≡ s) × (claim_runtime_ownership context id h.instance_id s ≡ err x)

owner-claim_runtime_ownership :
    (context : TenantContext) (id : ℕ) (r : String) (s t : Store) (call : CallSession)
    → claim_runtime_ownership context id r s ≡ ok (call, t)
    → call.runtime_instance_id ≡ some r
unfolding claim_runtime_ownership
owner-claim_runtime_ownership context id r s t call h =
    with_row context id _ s t call h λ c at mine key rest.
      elim (Bool-cases (c.runtime_instance_id == some r)) [
        | inl same ↦
            subst (λ x. x.runtime_instance_id ≡ some r) (committed (rw same at rest)).0
              ((option_eq.equal_iff c.runtime_instance_id (some r)).0 same)
        | inr other ↦ ground (
          arith,
          write_row-put
              (record c { runtime_instance_id = some r; runtime_assigned_at = some s.now }) s,
        )
      ]

assigned :
    (context : TenantContext) (id : ℕ) (h : RuntimeHeartbeat) (s : Store)
    → IsAssigned context id h s (assign_to context id (some h) s)
assigned context id h s = go (claim_runtime_ownership context id h.instance_id s) refl
  where
    go :
        (r : Result Error (CallSession × Store))
        → claim_runtime_ownership context id h.instance_id s ≡ r
        → IsAssigned context id h s
            (then_with (settle s r) λ call. finish_with (call, h.instance_id))
    go (err x) e = (refl, e)
    go (ok (call, t)) e =
        (refl, owner-claim_runtime_ownership context id h.instance_id s t call e, e)

-- `assign_call_to_runtime` raises NoRuntimeCapacityError and changes nothing if no runtime has
-- capacity. Otherwise there is a runtime with capacity, with no smaller load among those with capacity,
-- such that a return names it and gives the call that it now owns, as `claim_runtime_ownership` left
-- it, and an error is that claim's, with nothing changed.
pub assign_call_to_runtime-cases :
    (context : TenantContext) (id : ℕ) (heartbeats : Heartbeats) (s : Store)
    → (NoneHasCapacity heartbeats
        × (assign_call_to_runtime context id heartbeats s ≡ (err (no_runtime_capacity id), s)))
      ⊎ ((h : RuntimeHeartbeat) × IsLeastLoaded h heartbeats
          × IsAssigned context id h s (assign_call_to_runtime context id heartbeats s))
unfolding assign_call_to_runtime select_runtime_for_assignment
assign_call_to_runtime-cases context id heartbeats s = go (candidates heartbeats) refl
  where
    go :
        (hs : List RuntimeHeartbeat)
        → candidates heartbeats ≡ hs
        → (NoneHasCapacity heartbeats
            × (assign_to context id (select_from hs) s ≡ (err (no_runtime_capacity id), s)))
          ⊎ ((h : RuntimeHeartbeat) × IsLeastLoaded h heartbeats
              × IsAssigned context id h s (assign_to context id (select_from hs) s))
    go [] e = inl (candidates-none heartbeats e, refl)
    go (h ∷ hs) e =
        let r = least_loaded h hs in
        let (from, low, all') = least_loaded-IsLeastOf h hs in
        let (known, free) =
          candidates-IsOneOf heartbeats r
            (subst (IsOneOf r) (sym e) (elim from [ inl p ↦ inl (sym p) | inr o ↦ inr o ])) in
        inr (
          r,
          record {
            known = known;
            free = free;
            least =
                candidates-All (λ x. r.current_load ≤ x.current_load) heartbeats
                  (subst (All (λ x. r.current_load ≤ x.current_load)) (sym e) (low, all'));
          },
          assigned context id r s,
        )
