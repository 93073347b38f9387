-- ===== src/Calls/Service.antt =====
-- voiceagent/calls/service.py: the transactions on `call_sessions`. `millis` is the expression
-- `int((now - started_at).total_seconds() * 1000)`, Python's own float arithmetic; `foreign_keys`
-- names the foreign key that a new row would violate, whose tables are not modelled.
-- Each function is one whole transaction. The two claims read their row with `SELECT ... FOR UPDATE`;
-- `transition_call_session` and `associate_call` read it without a lock; Overlap takes the former
-- apart, for transitions that overlap in time.
pub mod Rows
pub mod Changes
pub mod History
pub mod Creation
pub mod Race
pub mod Overlap
use call_agent.Prelude.{
  ℕ, ℤ, String, Bool, true, false, not, ◌&&◌, ◌||◌, Option, none, some, List, [], ◌∷◌, ◌++◌, any,
  find_first, is_none, is_some, if◌then◌else◌,
}
use call_agent.Prelude.Eq.{◌==◌, ◌!=◌, string_eq, nat_eq, option_eq}
use call_agent.Prelude.Sets.{elem}
use call_agent.Prelude.Results.{Result, ok, err}
use call_agent.Store.{Store}
use call_agent.Store.Rows.{TenantContext, CallSession, Contact}
use call_agent.Store.Errors.{
  Error, integrity_error, call_session_not_found, call_session_already_owned,
  call_session_ownership_mismatch, invalid_call_session_transition, contact_not_found,
}
use call_agent.Store.Table.{find_row, update_row}
use call_agent.Store.Tx.{Tx, ◌>>=◌, ◌>>◌, pure, raise, raise_if, gets, new_uuid}
use call_agent.Store.Proc.{Proc, run, attempt}
use call_agent.Calls.Lifecycle.{valid_statuses, terminal_statuses, is_valid_transition}

abbrev pub fs_channel_uuid_unique_constraint : String
fs_channel_uuid_unique_constraint = "uq_call_sessions_fs_channel_uuid"

abbrev pub found : TenantContext → ℕ → Option CallSession → Tx CallSession
found context id none = raise (call_session_not_found id)
found context id (some row) = do
  raise_if (row.tenant_id != context.tenant_id) (call_session_not_found id)
  pure row

-- `_get_row`
unfoldable pub get_row : TenantContext → ℕ → Tx CallSession
unfolding find_row
get_row context id s = found context id (find_row (λ (c : CallSession). c.id) id s.call_sessions) s

-- `_get_row_for_update`: in one transaction the lock changes nothing.
abbrev pub get_row_for_update : TenantContext → ℕ → Tx CallSession
get_row_for_update = get_row

-- `session.flush()` of a changed row
unfoldable pub write_row : CallSession → Tx CallSession
unfolding update_row
write_row call s =
    ok (
      call,
      record s { call_sessions = update_row (λ (c : CallSession). c.id) call s.call_sessions },
    )

-- Another row holds the channel: the partial unique index `uq_call_sessions_fs_channel_uuid`.
unfoldable pub channel_taken : CallSession → List CallSession → Bool
channel_taken call rows =
    any
      (λ c.
        c.id != call.id && is_some c.fs_channel_uuid && c.fs_channel_uuid == call.fs_channel_uuid)
      rows

-- `session.flush()` of a row whose channel may have been set
unfoldable pub flush_row : CallSession → Tx CallSession
unfolding channel_taken write_row
flush_row call = do
  taken ← gets (λ s. channel_taken call s.call_sessions)
  raise_if taken (integrity_error fs_channel_uuid_unique_constraint)
  write_row call

abbrev pub or_keep : {A : Type 0} → Option A → Option A → Option A
or_keep none old = old
or_keep (some v) old = some v

unfoldable pub get_call_session_by_fs_channel_uuid :
    TenantContext → String → Tx (Option CallSession)
get_call_session_by_fs_channel_uuid context channel = gets (λ s.
    find_first (λ c. c.tenant_id == context.tenant_id && c.fs_channel_uuid == some channel)
      s.call_sessions)

unfoldable pub get_call_session : TenantContext → ℕ → Tx CallSession
unfolding get_row
get_call_session context id = get_row context id

-- `list_non_terminal_call_sessions`
abbrev pub is_non_terminal : TenantContext → CallSession → Bool
is_non_terminal context c =
    c.tenant_id == context.tenant_id && not (elem c.status terminal_statuses)

unfoldable pub claim_call_for_activation : TenantContext → ℕ → Tx Bool
unfolding get_row write_row
claim_call_for_activation context id = do
  call ← get_row_for_update context id
  if call.status != "initiated"
      then pure false
      else do flushed ← write_row (record call { status = "ringing" }); pure true

unfoldable pub claim_runtime_ownership : TenantContext → ℕ → String → Tx CallSession
unfolding get_row write_row
claim_runtime_ownership context id runtime_instance_id = do
  call ← get_row_for_update context id
  if call.runtime_instance_id == some runtime_instance_id then pure call else do
    raise_if (is_some call.runtime_instance_id) (call_session_already_owned id)
    now ← gets (λ s. s.now)
    write_row (record call {
      runtime_instance_id = some runtime_instance_id;
      runtime_assigned_at = some now;
    })

abbrev pub not_in_tenant : TenantContext → Option Contact → Bool
not_in_tenant context none = true
not_in_tenant context (some c) = c.tenant_id != context.tenant_id

unfoldable pub associate_call : TenantContext → ℕ → ℕ → Tx CallSession
unfolding get_row write_row find_row
associate_call context id contact_id = do
  call ← get_row context id
  contact ← gets (λ s. find_row (λ (c : Contact). c.id) contact_id s.contacts)
  raise_if (not_in_tenant context contact) (contact_not_found contact_id)
  write_row (record call { contact_id = some contact_id })

-- The keyword arguments of `transition_call_session`.
pub record Transition : Type 0 where
  pub to_status : String
  pub hangup_cause : Option String
  pub end_reason : Option String
  pub fs_channel_uuid : Option String
  pub runtime_instance_id : Option String
  pub expected_runtime_instance_id : Option String

-- The branch for a redelivered status.
unfoldable pub redelivered : ℕ → Transition → CallSession → CallSession
redelivered now t call = record call {
  fs_channel_uuid = or_keep t.fs_channel_uuid call.fs_channel_uuid;
  runtime_instance_id = or_keep t.runtime_instance_id call.runtime_instance_id;
  runtime_assigned_at =
      if is_some t.runtime_instance_id then some now else call.runtime_assigned_at;
}

-- What is checked before anything is changed.
unfoldable pub check_transition : Transition → CallSession → Tx (Unit {0})
unfolding is_valid_transition
check_transition t call = do
  raise_if
      (is_some t.expected_runtime_instance_id
        && call.runtime_instance_id != t.expected_runtime_instance_id)
      (call_session_ownership_mismatch call.id)
  raise_if (not (is_valid_transition call.status t.to_status))
      (invalid_call_session_transition call.id)

module _ (millis : ℕ → ℕ → ℤ) where
  abbrev pub duration : ℕ → CallSession → Option ℤ
  duration now call = elim call.started_at [
    | some started ↦ some (millis started now)
    | none ↦ call.duration_ms
  ]

  -- The branch for a new status.
  unfoldable pub advanced : ℕ → Transition → CallSession → CallSession
  advanced now t call =
      let ends = elem t.to_status terminal_statuses in
      let answers = elem t.to_status ("answered" ∷ "in_progress" ∷ []) in
      record call {
        status = t.to_status;
        answered_at = if answers && is_none call.answered_at then some now else call.answered_at;
        ended_at = if ends then some now else call.ended_at;
        duration_ms = if ends then duration now call else call.duration_ms;
        hangup_cause = if ends then or_keep t.hangup_cause call.hangup_cause else call.hangup_cause;
        end_reason = if ends then or_keep t.end_reason call.end_reason else call.end_reason;
        fs_channel_uuid = or_keep t.fs_channel_uuid call.fs_channel_uuid;
        runtime_instance_id = or_keep t.runtime_instance_id call.runtime_instance_id;
        runtime_assigned_at =
            if is_some t.runtime_instance_id then some now else call.runtime_assigned_at;
      }

  unfoldable pub transition_call_session : TenantContext → ℕ → Transition → Tx CallSession
  unfolding get_row check_transition advanced redelivered flush_row
  transition_call_session context id t = do
    raise_if (not (elem t.to_status valid_statuses)) (invalid_call_session_transition id)
    call ← get_row context id
    check_transition t call
    now ← gets (λ s. s.now)
    flush_row (if t.to_status == call.status then redelivered now t call else advanced now t call)

-- The arguments of `create_call_session`.
pub record NewCall : Type 0 where
  pub direction : String
  pub from_e164 : String
  pub to_e164 : String
  pub phone_number_id : ℕ
  pub agent_id : ℕ
  pub agent_version_id : ℕ
  pub fs_channel_uuid : Option String

unfoldable pub new_call : TenantContext → ℕ → ℕ → NewCall → CallSession
new_call context id now n = record {
  id = id;
  tenant_id = context.tenant_id;
  direction = n.direction;
  status = "initiated";
  from_e164 = n.from_e164;
  to_e164 = n.to_e164;
  phone_number_id = n.phone_number_id;
  agent_id = n.agent_id;
  agent_version_id = n.agent_version_id;
  contact_id = none;
  fs_channel_uuid = n.fs_channel_uuid;
  runtime_instance_id = none;
  runtime_assigned_at = none;
  started_at = some now;
  answered_at = none;
  ended_at = none;
  duration_ms = none;
  hangup_cause = none;
  end_reason = none;
  data_authorization_decision_id = none;
}

abbrev pub check_keys : Option String → Tx (Unit {0})
check_keys none s = ok (tt, s)
check_keys (some name) s = err (integrity_error name)

-- The `INSERT`, with the constraints that it is checked against.
unfoldable pub insert_call :
    (CallSession → Option String) → TenantContext → NewCall → Tx CallSession
insert_call foreign_keys context n = do
  id ← new_uuid
  now ← gets (λ s. s.now)
  let call = new_call context id now n
  raise_if (not (elem n.direction ("inbound" ∷ "outbound" ∷ [])))
      (integrity_error "ck_call_sessions_direction")
  taken ← gets (λ s. channel_taken call s.call_sessions)
  raise_if taken (integrity_error fs_channel_uuid_unique_constraint)
  check_keys (foreign_keys call)
  λ s. ok (call, record s { call_sessions = s.call_sessions ++ call ∷ [] })

abbrev pub or_raise : Error → Result Error (Option CallSession) → Proc CallSession
or_raise x (ok (some existing)) s = (ok existing, s)
or_raise x (ok none) s = (err x, s)
or_raise x (err y) s = (err y, s)

-- `except IntegrityError`
abbrev pub recover : TenantContext → Option String → Result Error CallSession → Proc CallSession
recover context (some channel) (err (integrity_error name)) s =
    if name == fs_channel_uuid_unique_constraint
    then attempt (run (get_call_session_by_fs_channel_uuid context channel) s)
        (or_raise (integrity_error name))
    else (err (integrity_error name), s)
recover context _ r s = (r, s)

unfoldable pub create_call_session :
    (CallSession → Option String) → TenantContext → NewCall → Proc CallSession
create_call_session foreign_keys context n s =
    attempt (run (insert_call foreign_keys context n) s) (recover context n.fs_channel_uuid)
