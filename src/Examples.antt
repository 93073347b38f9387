-- ===== src/Examples.antt =====
-- Small stores and workflows on which the development's theorems are applied and its definitions run.
mod OfCalls
mod OfWorkflows
mod OfFollowUps
mod OfTelephony
mod OfTools
mod OfConversations
mod OfRuntimes
mod OfAgents
mod OfContacts
use call_agent.Prelude.{
  ℕ, ◌/◌, String, Bool, true, false, Option, none, some, List, [], ◌∷◌, ℤ, sub_ℕ,
}
use call_agent.Prelude.Results.{Result, ok, err}
use call_agent.Store.{Store}
use call_agent.Store.Rows.{
  TenantContext, CallSession, Calendar, CalendarEvent, FollowUpAction, CallWorkflowExecution,
}
use call_agent.Store.Errors.{Error}

abbrev pub tenant : TenantContext
tenant = record { tenant_id = 7; actor_id = 70; membership_id = 71 }

abbrev pub call_with : ℕ → String → Option ℕ → Option String → CallSession
call_with id status ended_at runtime = record {
  id = id;
  tenant_id = 7;
  direction = "inbound";
  status = status;
  from_e164 = "+4915112345678";
  to_e164 = "+4930123456";
  phone_number_id = 3;
  agent_id = 4;
  agent_version_id = 5;
  contact_id = none;
  fs_channel_uuid = some "channel-1";
  runtime_instance_id = runtime;
  runtime_assigned_at = none;
  started_at = some 1000;
  answered_at = none;
  ended_at = ended_at;
  duration_ms = none;
  hangup_cause = none;
  end_reason = none;
  data_authorization_decision_id = none;
}

abbrev pub calendar : Calendar
calendar = record { id = 30; tenant_id = 7; name = "Praxis"; timezone = "Europe/Berlin" }

abbrev pub appointment : ℕ → ℕ → ℕ → CalendarEvent
appointment id start_at end_at = record {
  id = id;
  tenant_id = 7;
  calendar_id = 30;
  contact_id = none;
  title = "Termin";
  start_at = start_at;
  end_at = end_at;
  status = "scheduled";
}

abbrev pub follow_up_with : ℕ → String → ℕ → Option ℕ → FollowUpAction
follow_up_with id status attempt_count next_attempt_at = record {
  id = id;
  tenant_id = 7;
  call_session_id = 1;
  contact_id = none;
  type = "appointment";
  status = status;
  due_at = none;
  calendar_event_id = some 40;
  description = none;
  attempt_count = attempt_count;
  next_attempt_at = next_attempt_at;
  last_attempted_at = none;
  completed_at = none;
  failure_reason = none;
  execution_id = some 90;
}

-- A store with one call, one booked appointment and the given follow-ups.
abbrev pub store_with : CallSession → List FollowUpAction → Store
store_with call follow_ups = record {
  now = 5000;
  supply = 100;
  call_sessions = call ∷ [];
  contacts = [];
  calendars = calendar ∷ [];
  calendar_events = appointment 40 100 200 ∷ [];
  call_outcomes = [];
  follow_ups = follow_ups;
  executions = [];
  turns = [];
  agents = [];
  agent_versions = [];
  audit = [];
}

abbrev pub millis : ℕ → ℕ → ℤ
millis a b = sub_ℕ (a / 1000) (b / 1000)

abbrev pub no_violation : CallSession → Option String
no_violation call = none

-- What a transaction returned, or the default.
abbrev pub returned : {A : Type 0} → A × Store → Result Error (A × Store) → A × Store
returned other (ok p) = p
returned other (err x) = other
