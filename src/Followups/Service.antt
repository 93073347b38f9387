-- ===== src/Followups/Service.antt =====
-- The `FollowUpAction` part of voiceagent/followups/service.py: creation and manual transitions.
use call_agent.Prelude.{
  ℕ, ◌*◌, String, Bool, true, false, not, ◌&&◌, Option, none, some, [], ◌∷◌, ◌++◌, is_none, is_some,
  concat, if◌then◌else◌,
}
use call_agent.Prelude.Eq.{◌==◌, ◌!=◌, string_eq, nat_eq, option_eq}
use call_agent.Prelude.Sets.{elem}
use call_agent.Prelude.Results.{ok, err}
use call_agent.Store.Rows.{TenantContext, CalendarEvent, FollowUpAction}
use call_agent.Store.Errors.{
  follow_up_action_not_found, invalid_follow_up_type, follow_up_invalid_relationship,
  follow_up_appointment_requires_calendar_event, invalid_follow_up_transition,
}
use call_agent.Store.Table.{find_row, update_row}
use call_agent.Store.Tx.{Tx, ◌>>=◌, ◌>>◌, pure, raise, raise_if, modify, new_uuid}
use call_agent.Store.Proc.{Proc, run, attempt, fail}
use call_agent.Calls.Service.{get_row}
use call_agent.Calendars.{get_event_row, create_event}
use call_agent.Followups.Lifecycle.{
  terminal_statuses, is_valid_follow_up_transition, follow_up_types,
}
use call_agent.Followups.RetryPolicy.{executable_types}
use call_agent.Followups.Outcomes.{resolve_contact_id}

-- `timedelta(seconds=n)`, in microseconds
abbrev pub seconds : ℕ → ℕ
seconds n = n * 1000000

abbrev pub found : TenantContext → ℕ → Option FollowUpAction → Tx FollowUpAction
found context id none = raise (follow_up_action_not_found id)
found context id (some row) = do
  raise_if (row.tenant_id != context.tenant_id) (follow_up_action_not_found id)
  pure row

-- `_get_follow_up_row`
unfoldable pub get_follow_up_row : TenantContext → ℕ → Tx FollowUpAction
unfolding find_row
get_follow_up_row context id s =
    found context id (find_row (λ (r : FollowUpAction). r.id) id s.follow_ups) s

-- `session.flush()` of a changed row
unfoldable pub write_follow_up : FollowUpAction → Tx FollowUpAction
unfolding update_row
write_follow_up row s =
    ok (row, record s { follow_ups = update_row (λ (r : FollowUpAction). r.id) row s.follow_ups })

-- `record_audit_event` with the row's attempt count
abbrev pub audit : String → FollowUpAction → Tx (Unit {0})
audit action row = modify (λ s. record s {
  audit =
      record {
        action = action;
        tenant_id = row.tenant_id;
        resource_id = row.id;
        count = row.attempt_count;
      }
      ∷ s.audit;
})

-- The arguments of `create_follow_up`.
pub record NewFollowUp : Type 0 where
  pub type : String
  pub description : Option String
  pub due_at : Option ℕ
  pub contact_id : Option ℕ
  pub calendar_event_id : Option ℕ
  pub calendar_id : Option ℕ
  pub start_at : Option ℕ
  pub end_at : Option ℕ

unfoldable pub new_follow_up :
    TenantContext → ℕ → ℕ → Option ℕ → Option ℕ → NewFollowUp → FollowUpAction
new_follow_up context id call_session_id contact_id calendar_event_id n = record {
  id = id;
  tenant_id = context.tenant_id;
  call_session_id = call_session_id;
  contact_id = contact_id;
  type = n.type;
  status = "pending";
  due_at = n.due_at;
  calendar_event_id = calendar_event_id;
  description = n.description;
  attempt_count = 0;
  next_attempt_at = if elem n.type executable_types then n.due_at else none;
  last_attempted_at = none;
  completed_at = none;
  failure_reason = none;
  execution_id = none;
}

unfoldable pub insert_follow_up : FollowUpAction → Tx FollowUpAction
insert_follow_up row s = ok (row, record s { follow_ups = s.follow_ups ++ row ∷ [] })

abbrev check_event : TenantContext → Option ℕ → Tx (Unit {0})
check_event context none = pure tt
check_event context (some id) = do event ← get_event_row context id; pure tt

-- `create_follow_up`, up to the call of `create_event`. It returns the contact.
unfoldable pub check_new_follow_up : TenantContext → ℕ → NewFollowUp → Tx (Option ℕ)
unfolding get_row resolve_contact_id get_event_row
check_new_follow_up context call_session_id n = do
  raise_if (not (elem n.type follow_up_types)) invalid_follow_up_type
  raise_if (n.type != "appointment" && is_some n.calendar_event_id) follow_up_invalid_relationship
  call ← get_row context call_session_id
  contact ← resolve_contact_id context call n.contact_id
  check_event context n.calendar_event_id
  pure contact

-- `create_follow_up` from the `FollowUpAction(...)` on.
unfoldable pub add_follow_up :
    TenantContext → ℕ → NewFollowUp → Option ℕ → Option ℕ → Tx FollowUpAction
unfolding new_follow_up insert_follow_up
add_follow_up context call_session_id n contact event_id = do
  id ← new_uuid
  insert_follow_up (new_follow_up context id call_session_id contact event_id n)

-- `uuid_text` is `str` of a UUID.
abbrev book :
    (ℕ → String) → TenantContext → ℕ → Option ℕ → Option ℕ → Option ℕ → Option ℕ → Tx CalendarEvent
book uuid_text context call_session_id (some calendar_id) (some start_at) (some end_at) contact =
    create_event context calendar_id (concat "Follow-up for call " (uuid_text call_session_id))
      start_at end_at contact
book uuid_text context call_session_id _ _ _ contact =
    raise follow_up_appointment_requires_calendar_event

-- `create_event` opens a `tenant_scope` of its own, so the event stays when the rest raises.
abbrev create_checked :
    (ℕ → String) → TenantContext → ℕ → NewFollowUp → Option ℕ → Bool → Proc FollowUpAction
create_checked uuid_text context call_session_id n contact false s =
    run (add_follow_up context call_session_id n contact n.calendar_event_id) s
create_checked uuid_text context call_session_id n contact true s =
    attempt
      (run (book uuid_text context call_session_id n.calendar_id n.start_at n.end_at contact) s)
      λ r. elim r [
        | err x ↦ fail x
        | ok event ↦ run (add_follow_up context call_session_id n contact (some event.id))
      ]

unfoldable pub create_follow_up :
    (ℕ → String) → TenantContext → ℕ → NewFollowUp → Proc FollowUpAction
unfolding check_new_follow_up add_follow_up create_event
create_follow_up uuid_text context call_session_id n s =
    attempt (run (check_new_follow_up context call_session_id n) s) λ r. elim r [
      | err x ↦ fail x
      | ok contact ↦
          create_checked uuid_text context call_session_id n contact
            (n.type == "appointment" && is_none n.calendar_event_id)
    ]

-- `_transition_follow_up`; `on_transition` runs after the write.
unfoldable pub transition_follow_up :
    TenantContext → ℕ → String → (FollowUpAction → Tx (Unit {0})) → Tx FollowUpAction
unfolding get_follow_up_row write_follow_up is_valid_follow_up_transition
transition_follow_up context id to_status on_transition = do
  row ← get_follow_up_row context id
  raise_if (not (is_valid_follow_up_transition row.status to_status))
      (invalid_follow_up_transition id)
  if row.status == to_status then pure row else do
    let next = if elem to_status terminal_statuses then none else row.next_attempt_at
    row' ← write_follow_up (record row { status = to_status; next_attempt_at = next })
    on_transition row'
    pure row'

unfoldable pub complete_follow_up : TenantContext → ℕ → Tx FollowUpAction
unfolding transition_follow_up
complete_follow_up context id = transition_follow_up context id "completed" (λ row. pure tt)

-- `_audit_follow_up_cancelled`
abbrev audit_follow_up_cancelled : FollowUpAction → Tx (Unit {0})
audit_follow_up_cancelled row =
    if elem row.type executable_types then audit "follow_up.cancelled" row else pure tt

unfoldable pub cancel_follow_up : TenantContext → ℕ → Tx FollowUpAction
unfolding transition_follow_up
cancel_follow_up context id = transition_follow_up context id "cancelled" audit_follow_up_cancelled
