-- ===== src/Calls/Service/Race.antt =====
-- Two runtimes that claim one call.
use call_agent.Prelude.{
  ℕ, ◌≡◌, ◌≢◌, ◌∙◌, refl, sym, subst, arith, String, some, Bool-cases, inl, inr, nat_beq_iff,
  is_some,
}
use call_agent.Prelude.Eq.{◌==◌, string_eq, nat_eq, option_eq}
use call_agent.Prelude.Results.{ok, err}
use call_agent.Store.{Store}
use call_agent.Store.Rows.{TenantContext, CallSession}
use call_agent.Store.Errors.{call_session_already_owned}
use call_agent.Store.Tx.{raise_if-bind, committed}
use call_agent.Calls.Service.{get_row, claim_runtime_ownership}
use call_agent.Calls.Service.Rows.{row, row-put, with_row, write_row-put}

abbrev owned_by : String → ℕ → CallSession → CallSession
owned_by r now c = record c { runtime_instance_id = some r; runtime_assigned_at = some now }

module _ (context : TenantContext) (id : ℕ) where
  -- The runtime owns the call of this tenant.
  pub record IsOwner (r : String) (c : CallSession) (t : Store) : Type 0 where
    pub stored : row t id ≡ some c
    pub mine : c.tenant_id ≡ context.tenant_id
    pub named : c.id ≡ id
    pub owner : c.runtime_instance_id ≡ some r

  owned_again :
      (r : String) (c : CallSession) (t : Store)
      → IsOwner r c t
      → claim_runtime_ownership context id r t ≡ ok (c, t)
  unfolding claim_runtime_ownership row get_row
  owned_again r c t h = rw h.stored (ground (arith, h.owner, h.mine, string_eq.equal_iff r r))

  owned_refused :
      (r other : String) (c : CallSession) (t : Store)
      → IsOwner r c t
      → r ≢ other
      → claim_runtime_ownership context id other t ≡ err (call_session_already_owned id)
  unfolding claim_runtime_ownership row get_row
  owned_refused r other c t h apart =
      rw h.stored (ground (arith, h.owner, h.mine, apart, string_eq.equal_iff r other))

  claimed-IsOwner :
      (r : String) (s t : Store) (c : CallSession)
      → claim_runtime_ownership context id r s ≡ ok (c, t)
      → IsOwner r c t
  unfolding claim_runtime_ownership
  claimed-IsOwner r s t c h = with_row context id _ s t c h λ x at mine key e.
      elim (Bool-cases (x.runtime_instance_id == some r)) [
        | inl same ↦
            let (this, kept) = committed (rw same at e) in
            subst (λ y. IsOwner r y t) this
              (subst (IsOwner r x) kept (record {
                stored = at;
                mine = mine;
                named = key;
                owner = (option_eq.equal_iff x.runtime_instance_id (some r)).0 same;
              }))
        | inr free ↦
            let (unowned, q) =
              raise_if-bind (is_some x.runtime_instance_id) (call_session_already_owned id) _ s t c
                (rw free at e) in
            let (this, kept) = committed (sym (write_row-put (owned_by r s.now x) s) ∙ q) in
            subst (λ y. IsOwner r y t) this
              (subst (IsOwner r (owned_by r s.now x)) kept (record {
                stored =
                    row-put (owned_by r s.now x) s id
                    ∙ rw ((nat_beq_iff x.id id).1 key) (rw at refl);
                mine = mine;
                named = key;
                owner = refl;
              }))
      ]

  -- When a runtime's claim of a call has been committed, the claim of any other runtime that follows
  -- at once raises `CallSessionAlreadyOwnedError`, and the same runtime's claim changes nothing and
  -- returns the same call.
  pub claim_runtime_ownership_race :
      (r other : String) (s t : Store) (c : CallSession)
      → claim_runtime_ownership context id r s ≡ ok (c, t)
      → r ≢ other
      → (claim_runtime_ownership context id other t ≡ err (call_session_already_owned id))
        × (claim_runtime_ownership context id r t ≡ ok (c, t))
        × (c.runtime_instance_id ≡ some r)
  claim_runtime_ownership_race r other s t c h apart =
      let o = claimed-IsOwner r s t c h in
      (owned_refused r other c t o apart, owned_again r c t o, o.owner)
