-- ===== src/Store/Rows.antt =====
-- The rows of the tables (the models.py files of voiceagent/calls, contacts, calendars, followups,
-- workflows and conversations). Identifiers are numbers, times are microseconds.
use call_agent.Prelude.{ℕ, String, Option, List, ℤ}

-- `TenantContext` of voiceagent/tenancy/context.py
pub record TenantContext : Type 0 where
  pub tenant_id : ℕ
  pub actor_id : ℕ
  pub membership_id : ℕ

pub record CallSession : Type 0 where
  pub id : ℕ
  pub tenant_id : ℕ
  pub direction : String
  pub status : String
  pub from_e164 : String
  pub to_e164 : String
  pub phone_number_id : ℕ
  pub agent_id : ℕ
  pub agent_version_id : ℕ
  pub contact_id : Option ℕ
  pub fs_channel_uuid : Option String
  pub runtime_instance_id : Option String
  pub runtime_assigned_at : Option ℕ
  pub started_at : Option ℕ
  pub answered_at : Option ℕ
  pub ended_at : Option ℕ
  pub duration_ms : Option ℤ
  pub hangup_cause : Option String
  pub end_reason : Option String
  pub data_authorization_decision_id : Option ℕ

pub record Contact : Type 0 where
  pub id : ℕ
  pub tenant_id : ℕ
  pub name : String
  pub phone_e164 : List ℕ
  pub email : Option String

pub record Calendar : Type 0 where
  pub id : ℕ
  pub tenant_id : ℕ
  pub name : String
  pub timezone : String

pub record CalendarEvent : Type 0 where
  pub id : ℕ
  pub tenant_id : ℕ
  pub calendar_id : ℕ
  pub contact_id : Option ℕ
  pub title : String
  pub start_at : ℕ
  pub end_at : ℕ
  pub status : String

pub record CallOutcome : Type 0 where
  pub id : ℕ
  pub tenant_id : ℕ
  pub call_session_id : ℕ
  pub contact_id : Option ℕ
  pub outcome : String
  pub notes : Option String

pub record FollowUpAction : Type 0 where
  pub id : ℕ
  pub tenant_id : ℕ
  pub call_session_id : ℕ
  pub contact_id : Option ℕ
  pub type : String
  pub status : String
  pub due_at : Option ℕ
  pub calendar_event_id : Option ℕ
  pub description : Option String
  pub attempt_count : ℕ
  pub next_attempt_at : Option ℕ
  pub last_attempted_at : Option ℕ
  pub completed_at : Option ℕ
  pub failure_reason : Option String
  pub execution_id : Option ℕ

pub record CallWorkflowExecution : Type 0 where
  pub id : ℕ
  pub tenant_id : ℕ
  pub call_session_id : ℕ
  pub agent_version_id : ℕ
  pub workflow_config_hash : String
  pub status : String
  pub current_step_id : String
  pub steps_executed : ℕ
  pub started_at : ℕ
  pub ended_at : Option ℕ
  pub failure_reason : Option String

-- `tool_name` is `tool_payload["name"]`, the one part of a payload that the modelled code reads.
pub record ConversationTurn : Type 0 where
  pub id : ℕ
  pub tenant_id : ℕ
  pub call_session_id : ℕ
  pub event_id : String
  pub sequence : ℕ
  pub role : String
  pub content : Option String
  pub tool_name : Option String

-- `Agent` and `AgentVersion` of voiceagent/agents/models.py; a configuration is its canonical text.
pub record Agent : Type 0 where
  pub id : ℕ
  pub tenant_id : ℕ
  pub name : String
  pub description : Option String
  pub status : String
  pub draft_version_id : Option ℕ
  pub published_version_id : Option ℕ

pub record VersionRow : Type 0 where
  pub id : ℕ
  pub tenant_id : ℕ
  pub agent_id : ℕ
  pub version_number : ℕ
  pub status : String
  pub config : String
  pub config_hash : String
  pub published_at : Option ℕ
  pub published_by : Option ℕ

-- One call of `record_audit_event`: its action, its resource, and the attempt or step count that
-- its metadata carries.
pub record AuditEvent : Type 0 where
  pub action : String
  pub tenant_id : ℕ
  pub resource_id : ℕ
  pub count : ℕ
