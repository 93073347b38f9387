-- ===== src/Followups/Outcomes.antt =====
-- The `CallOutcome` part of voiceagent/followups/service.py.
use call_agent.Prelude.{
  ℕ, String, Bool, false, not, ◌&&◌, Option, none, some, [], ◌∷◌, ◌++◌, find_first, is_some,
}
use call_agent.Prelude.Eq.{◌==◌, string_eq, nat_eq}
use call_agent.Prelude.Sets.{elem}
use call_agent.Prelude.Results.{ok}
use call_agent.Store.{Store}
use call_agent.Store.Rows.{TenantContext, CallSession, CallOutcome}
use call_agent.Store.Errors.{
  call_outcome_not_found, call_outcome_already_exists, invalid_outcome_value,
}
use call_agent.Store.Table.{update_row}
use call_agent.Store.Tx.{Tx, ◌>>=◌, ◌>>◌, pure, raise, raise_if, gets, new_uuid}
use call_agent.Calls.Service.{get_row}
use call_agent.Calendars.{require_contact}
use call_agent.Followups.Lifecycle.{outcome_values}

-- `_resolve_contact_id`
unfoldable pub resolve_contact_id : TenantContext → CallSession → Option ℕ → Tx (Option ℕ)
unfolding require_contact
resolve_contact_id context call none = pure call.contact_id
resolve_contact_id context call (some id) = do require_contact context id; pure (some id)

-- `_find_outcome_row`
unfoldable pub find_outcome_row : TenantContext → ℕ → Store → Option CallOutcome
find_outcome_row context call_session_id s =
    find_first (λ o. o.tenant_id == context.tenant_id && o.call_session_id == call_session_id)
      s.call_outcomes

unfoldable pub new_outcome : TenantContext → ℕ → ℕ → Option ℕ → String → Option String → CallOutcome
new_outcome context id call_session_id contact_id outcome notes = record {
  id = id;
  tenant_id = context.tenant_id;
  call_session_id = call_session_id;
  contact_id = contact_id;
  outcome = outcome;
  notes = notes;
}

unfoldable pub insert_outcome : CallOutcome → Tx CallOutcome
insert_outcome row s = ok (row, record s { call_outcomes = s.call_outcomes ++ row ∷ [] })

unfoldable pub write_outcome : CallOutcome → Tx CallOutcome
unfolding update_row
write_outcome row s =
    ok
      (row, record s { call_outcomes = update_row (λ (o : CallOutcome). o.id) row s.call_outcomes })

abbrev keep_text : Option String → Option String → Option String
keep_text none old = old
keep_text (some v) old = some v

abbrev keep_value : Option String → String → String
keep_value none old = old
keep_value (some v) old = v

unfoldable pub create_call_outcome :
    TenantContext → ℕ → String → Option String → Option ℕ → Tx CallOutcome
unfolding get_row resolve_contact_id find_outcome_row new_outcome insert_outcome
create_call_outcome context call_session_id outcome notes contact_id = do
  raise_if (not (elem outcome outcome_values)) invalid_outcome_value
  call ← get_row context call_session_id
  existing ← gets (find_outcome_row context call_session_id)
  raise_if (is_some existing) (call_outcome_already_exists call_session_id)
  contact ← resolve_contact_id context call contact_id
  id ← new_uuid
  insert_outcome (new_outcome context id call_session_id contact outcome notes)

abbrev unknown_value : Option String → Bool
unknown_value none = false
unknown_value (some v) = not (elem v outcome_values)

abbrev update_found : ℕ → Option String → Option String → Option CallOutcome → Tx CallOutcome
update_found call_session_id outcome notes none = raise (call_outcome_not_found call_session_id)
update_found call_session_id outcome notes (some row) =
    write_outcome
      (record row { outcome = keep_value outcome row.outcome; notes = keep_text notes row.notes })

unfoldable pub update_call_outcome :
    TenantContext → ℕ → Option String → Option String → Tx CallOutcome
unfolding find_outcome_row write_outcome
update_call_outcome context call_session_id outcome notes = do
  raise_if (unknown_value outcome) invalid_outcome_value
  row ← gets (find_outcome_row context call_session_id)
  update_found call_session_id outcome notes row

abbrev set_found :
    TenantContext
    → ℕ
    → CallSession
    → String
    → Option String
    → Option ℕ
    → Option CallOutcome
    → Tx CallOutcome
set_found context call_session_id call outcome notes contact_id none = do
  contact ← resolve_contact_id context call contact_id
  id ← new_uuid
  insert_outcome (new_outcome context id call_session_id contact outcome notes)
set_found context call_session_id call outcome notes contact_id (some row) =
    write_outcome (record row { outcome = outcome; notes = keep_text notes row.notes })

unfoldable pub set_call_outcome :
    TenantContext → ℕ → String → Option String → Option ℕ → Tx CallOutcome
unfolding get_row resolve_contact_id find_outcome_row new_outcome insert_outcome write_outcome
set_call_outcome context call_session_id outcome notes contact_id = do
  raise_if (not (elem outcome outcome_values)) invalid_outcome_value
  call ← get_row context call_session_id
  row ← gets (find_outcome_row context call_session_id)
  set_found context call_session_id call outcome notes contact_id row
