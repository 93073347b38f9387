-- ===== src/Tools/Gateway.antt =====
-- `ToolGateway` of voiceagent/tools/gateway.py. The database, the role check and the handlers are not
-- modelled: `World` holds what they answer during one execution, and what happens to the gateway
-- while it is awaiting them, other executions and those that the handler starts itself included.
pub mod Guards
pub mod Cached
use call_agent.Prelude.{ℕ, String, Bool, true, false, Option, none, some, List, [], ◌∷◌}
use call_agent.Prelude.Eq.{nat_eq, string_eq}
use call_agent.Prelude.Dicts.{lookup, put, pop_key}
use call_agent.Tools.{ToolDefinition, Registry, resolve, ToolBinding, is_tool_allowed}
use call_agent.Prelude.Results.{Result, ok, err}

pub record ToolResult (Value : Type 0) : Type 0 where
  pub call_id : String
  pub value : Option Value
  pub error_code : Option String
  pub retryable : Bool

-- `ToolCallRequested`
pub record ToolCallRequested (Arguments : Type 0) : Type 0 where
  pub call_id : String
  pub name : String
  pub arguments : Arguments

-- How `asyncio.wait_for` around the handler ends: a TimeoutError, a cancellation of the caller, a
-- ToolExecutionError with its code and whether a retry may help, another exception, or a value.
pub data HandlerOutcome (Output : Type 0) : Type 0 where
  timed_out handler_cancelled handler_crashed : HandlerOutcome Output
  execution_error : String → Bool → HandlerOutcome Output
  handler_returned : Output → HandlerOutcome Output

pub data Outcome : Type 0 where
  success failure denied : Outcome

-- One `_audit` call.
pub record ToolAudit : Type 0 where
  pub call_session_id : ℕ
  pub tool_id : String
  pub status : String
  pub outcome : Outcome

-- One run of a handler.
pub record Invocation : Type 0 where
  pub call_session_id : ℕ
  pub call_id : String
  pub tool_id : String

-- `_results`, and what the gateway did so far, newest first.
pub record Gateway (Value : Type 0) : Type 0 where
  pub results : List (ℕ × List (String × ToolResult Value))
  pub audits : List ToolAudit
  pub invoked : List Invocation

-- What an execution meets: `_resolve_service_account`, `_check_authorization` and the handler; what
-- other tasks do to the gateway from the test of the cache to the start of the handler, or to the
-- return where none is run; and what they, and the handler itself through `tool_gateway`, do to it
-- from the start of the handler to the return.
pub record World (Input Output Value : Type 0) : Type 0 where
  pub service_account : Option ℕ
  pub can : ℕ → String → Bool
  pub handler : String → Input → HandlerOutcome Output
  pub before : Gateway Value → Gateway Value
  pub during : Gateway Value → Gateway Value

abbrev pub new_gateway : (Value : Type 0) → Gateway Value
new_gateway Value = record { results = []; audits = []; invoked = [] }

abbrev pub or_empty : {A : Type 0} → Option (List A) → List A
or_empty none = []
or_empty (some xs) = xs

-- The task that awaits the execution is cancelled.
pub data GatewayError : Type 0 where
  cancelled_error : GatewayError

abbrev pub Execution : Type 0 → Type 0
Execution Value = Result GatewayError (ToolResult Value) × Gateway Value

module _ {Value : Type 0} where
  abbrev pub forget_call : Gateway Value → ℕ → Gateway Value
  forget_call g call_session_id = record g { results = pop_key call_session_id g.results }

  -- `self._results.get(call_session_id, {}).get(call_id)`
  abbrev pub cached : Gateway Value → ℕ → String → Option (ToolResult Value)
  cached g call_session_id call_id = lookup call_id (or_empty (lookup call_session_id g.results))

  unfoldable pub remember : Gateway Value → ℕ → ToolResult Value → Execution Value
  remember g call_session_id result = (
    ok result,
    record g {
      results =
          put call_session_id
            (put result.call_id result (or_empty (lookup call_session_id g.results))) g.results;
    },
  )

  abbrev pub audited : Gateway Value → ℕ → String → String → Outcome → Gateway Value
  audited g call_session_id tool_id status outcome = record g {
    audits =
        record {
          call_session_id = call_session_id;
          tool_id = tool_id;
          status = status;
          outcome = outcome;
        }
        ∷ g.audits;
  }

  abbrev pub failed_with : String → String → Bool → ToolResult Value
  failed_with call_id code retryable = record {
    call_id = call_id;
    value = none;
    error_code = some code;
    retryable = retryable;
  }

module _ {Arguments Input Output Value : Type 0}
    (registry : Registry Arguments Input Output Value) where
  abbrev pub checked_output : Gateway Value → ℕ → String → String → Option Value → Execution Value
  checked_output g call_session_id call_id tool_id none = (
    ok (failed_with call_id "internal_error" false),
    audited g call_session_id tool_id "failed" failure,
  )
  checked_output g call_session_id call_id tool_id (some value) = (
    ok (record { call_id = call_id; value = some value; error_code = none; retryable = false }),
    audited g call_session_id tool_id "succeeded" success,
  )

  -- `_run_handler`, after the handler
  abbrev pub run_handler :
      Gateway Value
      → ℕ
      → String
      → ToolDefinition Arguments Input Output Value
      → HandlerOutcome Output
      → Execution Value
  run_handler g call_session_id call_id d timed_out = (
    ok (failed_with call_id "timeout" true),
    audited g call_session_id d.tool_id "timed_out" failure,
  )
  run_handler g call_session_id call_id d handler_cancelled =
      (err cancelled_error, audited g call_session_id d.tool_id "cancelled" failure)
  run_handler g call_session_id call_id d (execution_error code retryable) = (
    ok (failed_with call_id code retryable),
    audited g call_session_id d.tool_id "failed" failure,
  )
  run_handler g call_session_id call_id d handler_crashed = (
    ok (failed_with call_id "internal_error" false),
    audited g call_session_id d.tool_id "failed" failure,
  )
  run_handler g call_session_id call_id d (handler_returned output) =
      checked_output g call_session_id call_id d.tool_id (d.validate_output output)

  -- `self._remember(call_session_id, result)`, unless the handler's run raised
  abbrev pub remembered : ℕ → Execution Value → Execution Value
  remembered call_session_id (ok result, g) = remember g call_session_id result
  remembered call_session_id (err x, g) = (err x, g)

  abbrev pub invoke : Gateway Value → ℕ → String → String → Gateway Value
  invoke g call_session_id call_id tool_id = record g {
    invoked =
        record { call_session_id = call_session_id; call_id = call_id; tool_id = tool_id }
        ∷ g.invoked;
  }

  -- The refusals: an audit entry, and a result that is remembered.
  abbrev pub refused :
      Gateway Value → ℕ → String → String → String → String → Outcome → Execution Value
  refused g call_session_id call_id tool_id code status outcome =
      remember (audited g call_session_id tool_id status outcome) call_session_id
        (failed_with call_id code false)

  abbrev pub is_authorized : World Input Output Value → Option ℕ → String → Bool
  is_authorized w none action = false
  is_authorized w (some account) action = w.can account action

  module _ (w : World Input Output Value) (g : Gateway Value) (call_session_id : ℕ)
      (call_id : String) where
    abbrev pub if_authorized :
        ToolDefinition Arguments Input Output Value → Input → Bool → Execution Value
    if_authorized d input false =
        refused (w.before g) call_session_id call_id d.tool_id "unauthorized" "denied" denied
    if_authorized d input true = remembered call_session_id (
        run_handler
          (w.during (
            invoke (audited (w.before g) call_session_id d.tool_id "started" success)
              call_session_id call_id d.tool_id))
          call_session_id call_id d (w.handler d.tool_id input))

    abbrev pub if_valid :
        ToolDefinition Arguments Input Output Value → Option Input → Execution Value
    if_valid d none =
        refused (w.before g) call_session_id call_id d.tool_id "invalid_arguments"
          "validation_failed" failure
    if_valid d (some input) =
        if_authorized d input (is_authorized w w.service_account d.permission_action)

    abbrev pub if_allowed :
        ToolDefinition Arguments Input Output Value → Arguments → Bool → Execution Value
    if_allowed d arguments false =
        refused (w.before g) call_session_id call_id d.tool_id "tool_not_allowed" "denied" denied
    if_allowed d arguments true = if_valid d (d.validate_input arguments)

    abbrev pub if_known :
        List ToolBinding
        → String
        → Arguments
        → Option (ToolDefinition Arguments Input Output Value)
        → Execution Value
    if_known tools name arguments none =
        refused (w.before g) call_session_id call_id name "unknown_tool" "denied" denied
    if_known tools name arguments (some d) =
        if_allowed d arguments (is_tool_allowed tools d.tool_id)

    abbrev pub unless_cached :
        List ToolBinding → String → Arguments → Option (ToolResult Value) → Execution Value
    unless_cached tools name arguments (some result) =
        (ok result, audited (w.before g) call_session_id name "duplicate" success)
    unless_cached tools name arguments none = if_known tools name arguments (resolve registry name)

  unfoldable pub execute :
      World Input Output Value
      → Gateway Value
      → ℕ
      → List ToolBinding
      → ToolCallRequested Arguments
      → Execution Value
  unfolding remember is_tool_allowed
  execute w g call_session_id tools request =
      unless_cached w g call_session_id request.call_id tools request.name request.arguments
        (cached g call_session_id request.call_id)
