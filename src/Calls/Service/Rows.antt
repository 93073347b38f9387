-- ===== src/Calls/Service/Rows.antt =====
-- What one transaction of the service does to the row that it names and to every other row.
use call_agent.Prelude.{
  ℕ, ℤ, ◌≡◌, refl, String, Bool, true, false, not, ◌&&◌, Option, none, some, arith, nat_beq,
  nat_beq_iff, if◌then◌else◌, is_some, eq_iff, Bool-cases, inl, inr, ◌≢◌,
}
use call_agent.Prelude.Eq.{◌==◌, ◌!=◌, string_eq, nat_eq, option_eq}
use call_agent.Prelude.Sets.{elem}
use call_agent.Prelude.Results.{Result, ok, err}
use call_agent.Store.{Store}
use call_agent.Store.Rows.{TenantContext, CallSession}
use call_agent.Store.Errors.{Error, call_session_not_found, invalid_call_session_transition}
use call_agent.Store.Table.{find_row, update_row, find_row-update_row, find_row-key}
use call_agent.Store.Tx.{Tx, continue, ◌>>=◌, >>=-eq-ok, raise_if-bind}
use call_agent.Calls.Lifecycle.{valid_statuses, is_valid_transition}
use call_agent.Calls.Service.{
  found, get_row, write_row, flush_row, channel_taken, claim_call_for_activation,
  claim_runtime_ownership, associate_call, Transition, redelivered, advanced, check_transition,
  transition_call_session,
}

-- The row of a call, if there is one.
unfoldable pub row : Store → ℕ → Option CallSession
row s id = find_row (λ (c : CallSession). c.id) id s.call_sessions

pub row-id : (s : Store) (id : ℕ) (c : CallSession) → row s id ≡ some c → c.id ≡ id
unfolding row
row-id s id c h = find_row-key (λ (r : CallSession). r.id) id s.call_sessions c h

-- A transaction that reads the row first, and committed.
pub with_row :
    {A : Type 0} {P : Type 0} (context : TenantContext) (id : ℕ) (f : CallSession → Tx A)
    (s t : Store) (a : A)
    → (get_row context id >>= f) s ≡ ok (a, t)
    → ((c : CallSession)
        → row s id ≡ some c
        → c.tenant_id ≡ context.tenant_id
        → c.id ≡ id
        → f c s ≡ ok (a, t)
        → P)
    → P
unfolding get_row row
with_row {A} {P} context id f s t a h k =
    at (find_row (λ (r : CallSession). r.id) id s.call_sessions) refl h
  where
    at :
        (o : Option CallSession)
        → find_row (λ (r : CallSession). r.id) id s.call_sessions ≡ o
        → continue (found context id o s) f ≡ ok (a, t)
        → P
    at none e p = cc
    at (some c) e p = elim (Bool-cases (c.tenant_id == context.tenant_id)) [
      | inl mine ↦
          k c e ((nat_beq_iff c.tenant_id context.tenant_id).0 mine)
            (find_row-key (λ (r : CallSession). r.id) id s.call_sessions c e) (rw mine at p)
      | inr other ↦ absurd (refused (rw other at p))
    ]
      where
        refused :
            ◌≡◌ {A = Result Error (A × Store)} (err (call_session_not_found id)) (ok (a, t)) → ⊥
        refused q = cc

-- The store with a row written.
unfoldable pub put : CallSession → Store → Store
put c s = record s { call_sessions = update_row (λ (c : CallSession). c.id) c s.call_sessions }

pub row-put :
    (c : CallSession) (s : Store) (id : ℕ)
    → row (put c s) id
      ≡ (if nat_beq c.id id then (elim (row s id) [ none ↦ none | some _ ↦ some c ]) else row s id)
unfolding put row
row-put c s id = find_row-update_row (λ (c : CallSession). c.id) id c s.call_sessions

pub write_row-put : (c : CallSession) (s : Store) → write_row c s ≡ ok (c, put c s)
unfolding write_row put
write_row-put c s = refl

pub flush_row-ok :
    (c r : CallSession) (s t : Store)
    → flush_row c s ≡ ok (r, t)
    → (channel_taken c s.call_sessions ≡ false) × (r ≡ c) × (t ≡ put c s)
unfolding flush_row put
flush_row-ok c r s t h = ground arith

pub check_transition-ok :
    (tr : Transition) (c : CallSession) (s t : Store) (u : Unit {0})
    → check_transition tr c s ≡ ok (u, t)
    → (t ≡ s)
      × (is_valid_transition c.status tr.to_status ≡ true)
      × ((is_some tr.expected_runtime_instance_id
            && c.runtime_instance_id != tr.expected_runtime_instance_id)
          ≡ false)
unfolding check_transition
check_transition-ok tr c s t u h = ground arith

-- How a committed transaction may change a row, with the guard under which it does. `name` is the
-- runtime that a transition writes as the owner, if any.
pub data Change (millis : ℕ → ℕ → ℤ) (name : Option String) (c : CallSession)
    : CallSession → Type 0 where
  activated : c.status ≡ "initiated" → Change millis name c (record c { status = "ringing" })
  owned :
      (r : String) (now : ℕ)
      → c.runtime_instance_id ≡ none
      → Change millis name c
          (record c { runtime_instance_id = some r; runtime_assigned_at = some now })
  associated : (k : ℕ) → Change millis name c (record c { contact_id = some k })
  repeated :
      (now : ℕ) (t : Transition)
      → t.runtime_instance_id ≡ name
      → t.to_status ≡ c.status
      → Change millis name c (redelivered now t c)
  moved :
      (now : ℕ) (t : Transition)
      → t.runtime_instance_id ≡ name
      → is_valid_transition c.status t.to_status ≡ true
      → c.status ≢ t.to_status
      → Change millis name c (advanced millis now t c)

-- What a committed transaction on the row `id` has done to the store.
pub data Touch (millis : ℕ → ℕ → ℤ) (name : Option String) (id : ℕ) (s t : Store) : Type 0 where
  idle : t ≡ s → Touch millis name id s t
  wrote :
      (c c' : CallSession)
      → row s id ≡ some c
      → c'.id ≡ id
      → Change millis name c c'
      → t ≡ put c' s
      → Touch millis name id s t

module _ (millis : ℕ → ℕ → ℤ) (context : TenantContext) (id : ℕ) (s t : Store) where
  pub claim_call_for_activation-Touch :
      (won : Bool) → claim_call_for_activation context id s ≡ ok (won, t) → Touch millis none id s t
  unfolding claim_call_for_activation
  claim_call_for_activation-Touch won h = with_row context id _ s t won h λ c at mine key rest.
      elim (Bool-cases (c.status == "initiated")) [
        | inl first ↦
            wrote c (record c { status = "ringing" }) at key
              (activated ((eq_iff c.status "initiated").0 first))
              (ground (arith, write_row-put (record c { status = "ringing" }) s))
        | inr later ↦ idle (ground arith)
      ]

  pub claim_runtime_ownership-Touch :
      (r : String) (c : CallSession)
      → claim_runtime_ownership context id r s ≡ ok (c, t)
      → Touch millis none id s t
  unfolding claim_runtime_ownership
  claim_runtime_ownership-Touch r result h =
      with_row context id _ s t result h λ c at mine key rest.
        elim (Bool-cases (c.runtime_instance_id == some r)) [
          | inl same ↦ idle (ground arith)
          | inr other ↦
              let c' = record c {
                runtime_instance_id = some r;
                runtime_assigned_at = some s.now;
              } in
              wrote c c' at key (owned r s.now (ground arith)) (ground (arith, write_row-put c' s))
        ]

  pub associate_call-Touch :
      (k : ℕ) (c : CallSession)
      → associate_call context id k s ≡ ok (c, t)
      → Touch millis none id s t
  unfolding associate_call
  associate_call-Touch k result h = with_row context id _ s t result h λ c at mine key rest.
      let c' = record c { contact_id = some k } in
      wrote c c' at key (associated k) (ground (arith, write_row-put c' s))

  pub transition_call_session-Touch :
      (tr : Transition) (c : CallSession)
      → transition_call_session millis context id tr s ≡ ok (c, t)
      → Touch millis tr.runtime_instance_id id s t
  unfolding transition_call_session
  transition_call_session-Touch tr result h =
      let (valid, h₁) =
        raise_if-bind (not (elem tr.to_status valid_statuses)) (invalid_call_session_transition id)
          _ s t result h in
      with_row context id _ s t result h₁ λ c at mine key rest.
        let (u, s', checked, rest₁) = >>=-eq-ok (check_transition tr c) _ s rest in
        let (same, legal, guard) = check_transition-ok tr c s s' u checked in
        step c at key legal (rw same at rest₁)
    where
      key_redelivered : (c : CallSession) → c.id ≡ id → (redelivered s.now tr c).id ≡ id
      key_redelivered c e = unfold redelivered in e

      key_advanced : (c : CallSession) → c.id ≡ id → (advanced millis s.now tr c).id ≡ id
      key_advanced c e = unfold advanced in e

      step :
          (c : CallSession)
          → row s id ≡ some c
          → c.id ≡ id
          → is_valid_transition c.status tr.to_status ≡ true
          → flush_row
              (if tr.to_status == c.status
                then redelivered s.now tr c
                else advanced millis s.now tr c)
              s
            ≡ ok (result, t)
          → Touch millis tr.runtime_instance_id id s t
      step c at key legal p = elim (Bool-cases (tr.to_status == c.status)) [
        | inl again ↦
            wrote c (redelivered s.now tr c) at (key_redelivered c key)
              (repeated s.now tr refl ((eq_iff tr.to_status c.status).0 again))
              (flush_row-ok (redelivered s.now tr c) result s t (rw again at p)).2
        | inr new ↦
            wrote c (advanced millis s.now tr c) at (key_advanced c key)
              (moved s.now tr refl legal (λ e. ground (arith, eq_iff tr.to_status c.status)))
              (flush_row-ok (advanced millis s.now tr c) result s t (rw new at p)).2
      ]

module _ (context : TenantContext) (id : ℕ) (s t : Store) where
  -- A claim for activation that commits says whether the call was still `initiated`, and a claim
  -- that wins leaves it ringing.
  pub claim_call_for_activation-ok :
      (won : Bool)
      → claim_call_for_activation context id s ≡ ok (won, t)
      → (c : CallSession) × (row s id ≡ some c)
        × (won ≡ (c.status == "initiated"))
        × (t ≡ (if won then put (record c { status = "ringing" }) s else s))
  unfolding claim_call_for_activation
  claim_call_for_activation-ok won h = with_row context id _ s t won h λ c at mine key rest. (
    c,
    at,
    ground (arith, write_row-put (record c { status = "ringing" }) s),
    ground (arith, write_row-put (record c { status = "ringing" }) s),
  )
