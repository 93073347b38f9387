-- ===== src/Calendars.antt =====
-- voiceagent/calendars/service.py: events in a tenant's calendars. Timestamps are aware (they are
-- numbers here), so `_require_aware` has nothing to refuse.
pub mod Disjoint
use call_agent.Prelude.{
  ℕ, String, Bool, true, false, not, ◌&&◌, ◌||◌, Option, none, some, List, [], ◌∷◌, ◌++◌,
  find_first, ltb, is_some, if◌then◌else◌,
}
use call_agent.Prelude.Eq.{◌==◌, ◌!=◌, string_eq, nat_eq}
use call_agent.Prelude.Results.{Result, ok, err}
use call_agent.Store.{Store}
use call_agent.Store.Rows.{TenantContext, Contact, Calendar, CalendarEvent}
use call_agent.Store.Errors.{
  contact_not_found, calendar_not_found, calendar_event_not_found, invalid_interval,
  calendar_event_conflict,
}
use call_agent.Store.Table.{find_row, update_row}
use call_agent.Store.Tx.{Tx, ◌>>=◌, ◌>>◌, pure, raise, raise_if, gets, new_uuid}

abbrev pub found_event : TenantContext → ℕ → Option CalendarEvent → Tx CalendarEvent
found_event context id none = raise (calendar_event_not_found id)
found_event context id (some row) = do
  raise_if (row.tenant_id != context.tenant_id) (calendar_event_not_found id)
  pure row

-- `_get_event_row`
unfoldable pub get_event_row : TenantContext → ℕ → Tx CalendarEvent
unfolding find_row
get_event_row context id s =
    found_event context id (find_row (λ (e : CalendarEvent). e.id) id s.calendar_events) s

abbrev pub calendar_visible : TenantContext → Option Calendar → Bool
calendar_visible context none = false
calendar_visible context (some row) = row.tenant_id == context.tenant_id

-- `_get_calendar_row`, whose row no caller here reads
unfoldable pub require_calendar : TenantContext → ℕ → Tx (Unit {0})
unfolding find_row
require_calendar context id = do
  row ← gets (λ s. find_row (λ (c : Calendar). c.id) id s.calendars)
  raise_if (not (calendar_visible context row)) (calendar_not_found id)

abbrev pub contact_visible : TenantContext → Option Contact → Bool
contact_visible context none = false
contact_visible context (some row) = row.tenant_id == context.tenant_id

-- `_require_contact_row`
unfoldable pub require_contact : TenantContext → ℕ → Tx (Unit {0})
unfolding find_row
require_contact context id = do
  row ← gets (λ s. find_row (λ (c : Contact). c.id) id s.contacts)
  raise_if (not (contact_visible context row)) (contact_not_found id)

abbrev pub overlaps : ℕ → ℕ → CalendarEvent → Bool
overlaps start_at end_at e = ltb e.start_at end_at && ltb start_at e.end_at

-- `_conflicting_event`; which of several conflicts the query finds first is left to the table's order.
unfoldable pub conflicting_event : ℕ → ℕ → ℕ → ℕ → List CalendarEvent → Option CalendarEvent
conflicting_event tenant_id calendar_id start_at end_at = find_first (λ e.
    e.tenant_id == tenant_id
    && e.calendar_id == calendar_id
    && e.status == "scheduled"
    && overlaps start_at end_at e)

pub record AvailabilityResult : Type 0 where
  pub available : Bool
  pub conflict_start_at : Option ℕ
  pub conflict_end_at : Option ℕ

abbrev availability : Option CalendarEvent → AvailabilityResult
availability none = record { available = true; conflict_start_at = none; conflict_end_at = none }
availability (some e) = record {
  available = false;
  conflict_start_at = some e.start_at;
  conflict_end_at = some e.end_at;
}

unfoldable pub check_availability : TenantContext → ℕ → ℕ → ℕ → Tx AvailabilityResult
unfolding require_calendar conflicting_event
check_availability context calendar_id start_at end_at = do
  raise_if (not (ltb start_at end_at)) invalid_interval
  require_calendar context calendar_id
  conflict ←
      gets (λ s. conflicting_event context.tenant_id calendar_id start_at end_at s.calendar_events)
  pure (availability conflict)

abbrev pub optional_contact : TenantContext → Option ℕ → Tx (Unit {0})
optional_contact context none = pure tt
optional_contact context (some id) = require_contact context id

unfoldable pub new_event : TenantContext → ℕ → ℕ → String → ℕ → ℕ → Option ℕ → CalendarEvent
new_event context id calendar_id title start_at end_at contact_id = record {
  id = id;
  tenant_id = context.tenant_id;
  calendar_id = calendar_id;
  contact_id = contact_id;
  title = title;
  start_at = start_at;
  end_at = end_at;
  status = "scheduled";
}

unfoldable pub create_event : TenantContext → ℕ → String → ℕ → ℕ → Option ℕ → Tx CalendarEvent
unfolding require_calendar require_contact conflicting_event new_event
create_event context calendar_id title start_at end_at contact_id = do
  raise_if (not (ltb start_at end_at)) invalid_interval
  require_calendar context calendar_id
  optional_contact context contact_id
  conflict ←
      gets (λ s. conflicting_event context.tenant_id calendar_id start_at end_at s.calendar_events)
  raise_if (is_some conflict) calendar_event_conflict
  id ← new_uuid
  let event = new_event context id calendar_id title start_at end_at contact_id
  λ s. ok (event, record s { calendar_events = s.calendar_events ++ event ∷ [] })

unfoldable pub get_event : TenantContext → ℕ → Tx CalendarEvent
unfolding get_event_row
get_event context event_id = get_event_row context event_id

abbrev pub cancel_row : CalendarEvent → Tx CalendarEvent
cancel_row event = if event.status == "cancelled" then pure event else λ s.
    let event' = record event { status = "cancelled" } in
    ok (
      event',
      record s {
        calendar_events = update_row (λ (e : CalendarEvent). e.id) event' s.calendar_events;
      },
    )

unfoldable pub cancel_event : TenantContext → ℕ → Tx CalendarEvent
unfolding get_event_row update_row
cancel_event context event_id = get_event_row context event_id >>= cancel_row
