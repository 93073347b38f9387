-- ===== src/Store.antt =====
-- The database that the services of voiceagent/ share, one list of rows for each table, and the two
-- ways in which the services run against it. `now` is the clock (microseconds), `supply` the next
-- identifier of `uuid4`, and `audit` the calls of SaaS-OS's `record_audit_event`, newest first.
pub mod Rows
pub mod Table
pub mod Errors
pub mod Tx
pub mod Proc
use call_agent.Prelude.{ℕ, List}
use call_agent.Store.Rows.{
  CallSession, Contact, Calendar, CalendarEvent, CallOutcome, FollowUpAction, CallWorkflowExecution,
  ConversationTurn, Agent, VersionRow, AuditEvent,
}

pub record Store : Type 0 where
  pub now : ℕ
  pub supply : ℕ
  pub call_sessions : List CallSession
  pub contacts : List Contact
  pub calendars : List Calendar
  pub calendar_events : List CalendarEvent
  pub call_outcomes : List CallOutcome
  pub follow_ups : List FollowUpAction
  pub executions : List CallWorkflowExecution
  pub turns : List ConversationTurn
  pub agents : List Agent
  pub agent_versions : List VersionRow
  pub audit : List AuditEvent
