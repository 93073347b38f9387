-- ===== src/Calls/Service/History.antt =====
-- Histories: any sequence of the service's calls, by any tenants, with time passing between them. Each
-- begins after the one before has committed or raised; a call that raises leaves the store as it was.
pub mod Results
pub mod Activation
use call_agent.Prelude.{
  ℕ, ℤ, ◌+◌, ◌≤◌, ◌≡◌, refl, sym, ap, subst, String, Bool, true, false, Option, none, some, List,
  [], ◌∷◌, ◌++◌, arith, nat_beq, nat_beq_iff, if◌then◌else◌, if_elim, Bool-cases, inl, inr,
}
use call_agent.Prelude.Results.{Result, ok, err, Result-cases}
use call_agent.Store.{Store}
use call_agent.Store.Rows.{TenantContext, CallSession}
use call_agent.Store.Errors.{Error, integrity_error}
use call_agent.Store.Table.{find_row, find_row-append}
use call_agent.Store.Tx.{Tx}
use call_agent.Store.Proc.{run, settle, attempt}
use call_agent.Calls.Service.{
  claim_call_for_activation, claim_runtime_ownership, associate_call, Transition,
  transition_call_session, NewCall, new_call, insert_call, create_call_session, recover,
}
use call_agent.Calls.Service.Creation.{create_call_session-cases, inserted}
use call_agent.Calls.Service.Rows.{
  row, put, row-put, Change, Touch, idle, wrote, claim_call_for_activation-Touch,
  claim_runtime_ownership-Touch, associate_call-Touch, transition_call_session-Touch,
}

pub data Operation : Type 0 where
  transition : TenantContext → ℕ → Transition → Operation
  activate : TenantContext → ℕ → Operation
  own : TenantContext → ℕ → String → Operation
  associate : TenantContext → ℕ → ℕ → Operation
  create : TenantContext → NewCall → Operation
  wait : ℕ → Operation

module _ (millis : ℕ → ℕ → ℤ) (foreign_keys : CallSession → Option String) where
  unfoldable pub perform : Operation → Store → Store
  perform (transition context id t) s = (run (transition_call_session millis context id t) s).1
  perform (activate context id) s = (run (claim_call_for_activation context id) s).1
  perform (own context id r) s = (run (claim_runtime_ownership context id r) s).1
  perform (associate context id k) s = (run (associate_call context id k) s).1
  perform (create context n) s = (create_call_session foreign_keys context n s).1
  perform (wait n) s = record s { now = s.now + n }

  unfoldable pub replay : List Operation → Store → Store
  unfolding perform
  replay [] s = s
  replay (o ∷ rest) s = replay rest (perform o s)

-- The runtime that an operation writes as the owner by a transition.
abbrev pub renames : Operation → Option String
renames (transition context id t) = t.runtime_instance_id
renames _ = none

-- What one operation may do to the row of a call.
pub data RowStep (millis : ℕ → ℕ → ℤ) (name : Option String)
    : Option CallSession → Option CallSession → Type 0 where
  same : {o : Option CallSession} → RowStep millis name o o
  changed : {c c' : CallSession} → Change millis name c c' → RowStep millis name (some c) (some c')
  created :
      (context : TenantContext) (id now : ℕ) (n : NewCall)
      → RowStep millis name none (some (new_call context id now n))

row-inserted :
    (c : CallSession) (s : Store) (id : ℕ)
    → row (inserted c s) id
      ≡ (elim (row s id) [ none ↦ if nat_beq c.id id then some c else none | some x ↦ some x ])
unfolding row
row-inserted c s id = find_row-append (λ (r : CallSession). r.id) id s.call_sessions c

module _ (millis : ℕ → ℕ → ℤ) (foreign_keys : CallSession → Option String) where
  Touch-RowStep :
      (name : Option String) (id k : ℕ) (s t : Store)
      → Touch millis name k s t
      → RowStep millis name (row s id) (row t id)
  Touch-RowStep name id k s t (idle e) =
      subst (λ z. RowStep millis name (row s id) (row z id)) (sym e) same
  Touch-RowStep name id k s t (wrote c c' at key change e) =
      subst (λ z. RowStep millis name (row s id) (row z id)) (sym e)
        (rw (row-put c' s id) (elim (Bool-cases (nat_beq c'.id id)) [
          | inl hit ↦
              rw hit (
                let p : row s id ≡ some c = ground (arith, ap (row s) key) in rw p (changed change))
          | inr miss ↦ rw miss same
        ]))

  run-RowStep :
      {A : Type 0} (name : Option String) (id k : ℕ) (m : Tx A) (s : Store)
      → ((a : A) (t : Store) → m s ≡ ok (a, t) → Touch millis name k s t)
      → RowStep millis name (row s id) (row (run m s).1 id)
  run-RowStep {A} name id k m s touch = split (m s) refl
    where
      split :
          (r : Result Error (A × Store))
          → m s ≡ r
          → RowStep millis name (row s id) (row (settle s r).1 id)
      split (ok (a, t)) e = Touch-RowStep name id k s t (touch a t e)
      split (err x) e = same

  create-RowStep :
      (context : TenantContext) (n : NewCall) (s : Store) (id : ℕ)
      → RowStep millis none (row s id) (row (create_call_session foreign_keys context n s).1 id)
  create-RowStep context n s id = elim (create_call_session-cases foreign_keys context n s) [
    | inl kept ↦ rw kept same
    | inr added ↦ rw added (appended (row s id) refl)
  ]
    where
      new : CallSession
      new = new_call context s.supply s.now n

      appended :
          (o : Option CallSession) → row s id ≡ o → RowStep millis none o (row (inserted new s) id)
      appended none e = rw (row-inserted new s id) (
          rw e (
            if_elim (RowStep millis none none) (nat_beq new.id id) (some new) none
              (λ _. created context s.supply s.now n) (λ _. same)))
      appended (some c) e = rw (row-inserted new s id) (rw e same)

  pub perform-RowStep :
      (o : Operation) (s : Store) (id : ℕ)
      → RowStep millis (renames o) (row s id) (row (perform millis foreign_keys o s) id)
  unfolding perform row
  perform-RowStep (transition context k t) s id =
      run-RowStep t.runtime_instance_id id k (transition_call_session millis context k t) s
        (λ a u. transition_call_session-Touch millis context k s u t a)
  perform-RowStep (activate context k) s id =
      run-RowStep none id k (claim_call_for_activation context k) s
        (λ a u. claim_call_for_activation-Touch millis context k s u a)
  perform-RowStep (own context k r) s id =
      run-RowStep none id k (claim_runtime_ownership context k r) s
        (λ a u. claim_runtime_ownership-Touch millis context k s u r a)
  perform-RowStep (associate context k j) s id =
      run-RowStep none id k (associate_call context k j) s
        (λ a u. associate_call-Touch millis context k s u j a)
  perform-RowStep (create context n) s id = create-RowStep context n s id
  perform-RowStep (wait n) s id = same
