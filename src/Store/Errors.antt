-- ===== src/Store/Errors.antt =====
-- The exceptions of the modelled services (the errors.py files of voiceagent/), with what the code
-- that catches them reads. `integrity_error` is SQLAlchemy's, with the violated constraint's name.
use call_agent.Prelude.{ℕ, String}

-- The argument of AgentVersionNotFoundError: an identifier or a text.
pub data MissingVersion : Type 0 where
  missing_id : ℕ → MissingVersion
  missing_for : String → MissingVersion

pub data Error : Type 0 where
  integrity_error : String → Error
  value_error runtime_error overflow_error cancelled_error : Error
  -- voiceagent/calls/errors.py
  call_session_not_found call_session_already_owned : ℕ → Error
  call_session_ownership_mismatch invalid_call_session_transition : ℕ → Error
  -- voiceagent/contacts/errors.py, voiceagent/calendars/errors.py
  contact_not_found calendar_not_found calendar_event_not_found : ℕ → Error
  invalid_interval calendar_event_conflict : Error
  contact_invalid_phone contact_phone_conflict : Error
  -- voiceagent/followups/errors.py
  call_outcome_not_found call_outcome_already_exists follow_up_action_not_found : ℕ → Error
  invalid_outcome_value invalid_follow_up_type invalid_follow_up_status : Error
  follow_up_invalid_relationship follow_up_appointment_requires_calendar_event : Error
  invalid_follow_up_transition follow_up_execution_conflict follow_up_not_retryable : ℕ → Error
  invalid_follow_up_failure_reason : Error
  -- voiceagent/workflows/errors.py
  workflow_not_configured workflow_definition_invalid : ℕ → Error
  workflow_execution_in_progress workflow_execution_conflict : ℕ → Error
  workflow_execution_not_found : ℕ → Error
  -- voiceagent/runtime/errors.py
  no_runtime_capacity : ℕ → Error
  -- voiceagent/conversations/errors.py
  invalid_conversation_turn : Error
  -- voiceagent/agents/errors.py
  agent_not_found agent_version_not_draft : ℕ → Error
  agent_version_not_found : MissingVersion → Error
  agent_version_not_published : ℕ → Error
  invalid_agent_config : Error
