-- ===== src/Runtime/Interruption.antt =====
-- What `transition_call_session` does to the row that it names, and when it is not refused.
use call_agent.Prelude.{
  ℕ, ℤ, ◌≡◌, inl, inr, ◌⊎◌, ap, ◌∙◌, refl, sym, arith, String, true, false, not, none, some,
  Bool-cases, Option-cases, nat_beq, if◌then◌else◌,
}
use call_agent.Prelude.Eq.{◌==◌, string_eq, nat_eq, option_eq}
use call_agent.Prelude.Sets.{elem, ◌∈◌}
use call_agent.Prelude.Results.{ok, err}
use call_agent.Store.{Store}
use call_agent.Store.Rows.{TenantContext, CallSession}
use call_agent.Store.Errors.{
  Error, call_session_not_found, integrity_error, invalid_call_session_transition,
}
use call_agent.Store.Tx.{raise_if-bind, >>=-eq-ok}
use call_agent.Calls.Lifecycle.{valid_statuses, is_valid_transition}
use call_agent.Calls.Service.{
  get_row, Transition, redelivered, advanced, check_transition, flush_row,
  fs_channel_uuid_unique_constraint, transition_call_session,
}
use call_agent.Calls.Service.Rows.{row, row-put, put, with_row, flush_row-ok, check_transition-ok}
use call_agent.Runtime.{is_refusal}

module _ (millis : ℕ → ℕ → ℤ) (context : TenantContext) where
  -- A call of the tenant that the lifecycle lets come to this status.
  pub record IsOpen (status : String) (id : ℕ) (s : Store) : Type 0 where
    pub old : CallSession
    pub there : row s id ≡ some old
    pub mine : old.tenant_id ≡ context.tenant_id
    pub legal : is_valid_transition old.status status ≡ true

  -- A committed transition: the row could come to the status and is now the returned one, which has
  -- it; the others are as they were.
  pub record IsLanded (status : String) (id : ℕ) (call : CallSession) (s t : Store) : Type 0 where
    pub open_before : IsOpen status id s
    pub landed : row t id ≡ some call
    pub reached : call.status ≡ status
    pub others : (j : ℕ) → nat_beq id j ≡ false → row t j ≡ row s j

  written :
      (status : String) (id : ℕ) (s t : Store) (c c' call : CallSession)
      → row s id ≡ some c
      → c.tenant_id ≡ context.tenant_id
      → is_valid_transition c.status status ≡ true
      → c'.id ≡ id
      → c'.status ≡ status
      → call ≡ c'
      → t ≡ put c' s
      → IsLanded status id call s t
  written status id s t c c' call at mine legal key over made kept = record {
    open_before = record { old = c; there = at; mine = mine; legal = legal };
    landed = rw kept (ground (arith, row-put c' s id));
    reached = ap (λ (x : CallSession). x.status) made ∙ over;
    others = λ j other. rw kept (ground (arith, row-put c' s j));
  }

  pub transition-IsLanded :
      (tr : Transition) (id : ℕ) (s t : Store) (call : CallSession)
      → transition_call_session millis context id tr s ≡ ok (call, t)
      → IsLanded tr.to_status id call s t
  unfolding transition_call_session redelivered advanced
  transition-IsLanded tr id s t call h =
      let (valid, h₁) =
        raise_if-bind (not (elem tr.to_status valid_statuses)) (invalid_call_session_transition id)
          _ s t call h in
      with_row context id _ s t call h₁ λ c at mine key rest.
        let (u, s', checked, rest₁) = >>=-eq-ok (check_transition tr c) _ s rest in
        let (same, legal, guard) = check_transition-ok tr c s s' u checked in
        lands c at key mine legal (rw same at rest₁)
    where
      lands :
          (c : CallSession)
          → row s id ≡ some c
          → c.id ≡ id
          → c.tenant_id ≡ context.tenant_id
          → is_valid_transition c.status tr.to_status ≡ true
          → flush_row
              (if tr.to_status == c.status
                then redelivered s.now tr c
                else advanced millis s.now tr c)
              s
            ≡ ok (call, t)
          → IsLanded tr.to_status id call s t
      lands c at key mine legal p = elim (Bool-cases (tr.to_status == c.status)) [
        | inl same ↦
            let (free, made, kept) =
              flush_row-ok (redelivered s.now tr c) call s t (rw same at p) in
            written tr.to_status id s t c (redelivered s.now tr c) call at mine legal key
              (sym ((string_eq.equal_iff tr.to_status c.status).0 same)) made kept
        | inr new ↦
            let (free, made, kept) =
              flush_row-ok (advanced millis s.now tr c) call s t (rw new at p) in
            written tr.to_status id s t c (advanced millis s.now tr c) call at mine legal key refl
              made kept
      ]

  -- A call of the tenant that the lifecycle does not let come to this status.
  pub record IsShut (status : String) (id : ℕ) (s : Store) : Type 0 where
    pub old : CallSession
    pub there : row s id ≡ some old
    pub mine : old.tenant_id ≡ context.tenant_id
    pub illegal : is_valid_transition old.status status ≡ false

  -- The row is missing, or its channel is another row's.
  abbrev pub IsFault : Error → Type 0
  IsFault x =
      (x ≡ integrity_error fs_channel_uuid_unique_constraint)
      ⊎ ((id : ℕ) × (x ≡ call_session_not_found id))

  -- Why a transition to a status, without an expected owner, raises.
  pub transition-IsShut :
      (tr : Transition) (id : ℕ) (s : Store) (x : Error)
      → tr.to_status ∈ valid_statuses
      → tr.expected_runtime_instance_id ≡ none
      → transition_call_session millis context id tr s ≡ err x
      → ((is_refusal x ≡ true) × IsShut tr.to_status id s) ⊎ ((is_refusal x ≡ false) × IsFault x)
  unfolding is_refusal transition_call_session get_row check_transition flush_row row
  transition-IsShut tr id s x valid free h = elim (Option-cases (row s id)) [
    | inl gone ↦ inr (ground arith, inr (id, ground arith))
    | inr (c, at) ↦ elim (Bool-cases (c.tenant_id == context.tenant_id)) [
      | inr foreign ↦ inr (ground arith, inr (id, ground arith))
      | inl mine ↦ elim (Bool-cases (is_valid_transition c.status tr.to_status)) [
        | inl legal ↦ inr (ground arith, inl (ground arith))
        | inr illegal ↦ inl (
          ground arith,
          record {
            old = c;
            there = at;
            mine = (nat_eq.equal_iff c.tenant_id context.tenant_id).0 mine;
            illegal = illegal;
          },
        )
      ]
    ]
  ]
