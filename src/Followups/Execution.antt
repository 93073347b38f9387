-- ===== src/Followups/Execution.antt =====
-- The execution of follow-ups in voiceagent/followups/service.py: the claim, the two results, and
-- the run of one claimed row. `locked` says which rows another transaction has locked, so that
-- `FOR UPDATE SKIP LOCKED` passes over them.
pub mod Claim
pub mod Attempts
use call_agent.Prelude.{
  ℕ, suc, ◌+◌, ◌*◌, String, Bool, true, false, not, ◌&&◌, ◌||◌, Option, none, some, List, [], ◌∷◌,
  leb, ltb, is_none, if◌then◌else◌,
}
use call_agent.Prelude.Eq.{◌==◌, ◌!=◌, string_eq, nat_eq, option_eq}
use call_agent.Prelude.Sets.{elem}
use call_agent.Prelude.Results.{Result, ok, err}
use call_agent.Store.{Store}
use call_agent.Store.Rows.{TenantContext, CalendarEvent, FollowUpAction}
use call_agent.Store.Errors.{
  Error, runtime_error, calendar_event_not_found, invalid_follow_up_transition,
  follow_up_execution_conflict, follow_up_not_retryable, invalid_follow_up_failure_reason,
}
use call_agent.Store.Tx.{Tx, ◌>>=◌, ◌>>◌, pure, raise, raise_if, gets, new_uuid}
use call_agent.Store.Proc.{Proc, run, attempt, fail}
use call_agent.Calendars.{get_event}
use call_agent.Followups.Lifecycle.{is_valid_follow_up_transition}
use call_agent.Followups.RetryPolicy.{
  executable_types, max_attempts, lease_seconds, failure_reasons, follow_up_backoff,
  next_attempt_delay_seconds,
}
use call_agent.Followups.Service.{seconds, get_follow_up_row, write_follow_up, audit}

abbrev pub is_due : ℕ → Option ℕ → Bool
is_due now none = false
is_due now (some t) = leb t now

abbrev pub claimable_statuses : List String
claimable_statuses = "pending" ∷ "processing" ∷ "failed" ∷ []

-- The `WHERE` of `claim_due_follow_up`'s query.
unfoldable pub is_claimable : TenantContext → ℕ → FollowUpAction → Bool
is_claimable context now row =
    row.tenant_id == context.tenant_id
    && elem row.type executable_types
    && elem row.status claimable_statuses
    && is_due now row.next_attempt_at

-- Whether the first deadline comes strictly before the second.
abbrev pub is_sooner : Option ℕ → Option ℕ → Bool
is_sooner (some a) (some b) = ltb a b
is_sooner _ _ = false

abbrev pub sooner : FollowUpAction → Option FollowUpAction → FollowUpAction
sooner row none = row
sooner row (some other) = if is_sooner other.next_attempt_at row.next_attempt_at then other else row

-- The query itself: an earliest claimable row that is not locked. Among equal deadlines the query
-- may return any; here it is the first of the table.
unfoldable pub next_due :
    (ℕ → Bool) → TenantContext → ℕ → List FollowUpAction → Option FollowUpAction
unfolding is_claimable
next_due locked context now [] = none
next_due locked context now (row ∷ rows) =
    let rest = next_due locked context now rows in
    if is_claimable context now row && not (locked row.id) then some (sooner row rest) else rest

-- What `claim_due_follow_up` writes into the row.
unfoldable pub claimed_row : ℕ → ℕ → FollowUpAction → FollowUpAction
claimed_row now execution_id row = record row {
  status = "processing";
  attempt_count = suc row.attempt_count;
  last_attempted_at = some now;
  next_attempt_at = some (now + seconds lease_seconds);
  execution_id = some execution_id;
}

abbrev kept_execution_id : Option ℕ → Tx ℕ
kept_execution_id none = new_uuid
kept_execution_id (some id) = pure id

abbrev claim_found : ℕ → Option FollowUpAction → Tx (Option FollowUpAction)
claim_found now none = pure none
claim_found now (some row) = do
  raise_if (not (is_valid_follow_up_transition row.status "processing"))
      (invalid_follow_up_transition row.id)
  execution_id ← kept_execution_id row.execution_id
  row' ← write_follow_up (claimed_row now execution_id row)
  audit "follow_up.claimed" row'
  pure (some row')

unfoldable pub claim_due_follow_up : (ℕ → Bool) → TenantContext → ℕ → Tx (Option FollowUpAction)
unfolding next_due claimed_row write_follow_up is_valid_follow_up_transition
claim_due_follow_up locked context now = do
  due ← gets (λ s. next_due locked context now s.follow_ups)
  claim_found now due

-- The ownership guard of the two results.
abbrev require_execution : FollowUpAction → ℕ → Tx (Unit {0})
require_execution row execution_id =
    raise_if (row.status != "processing" || row.execution_id != some execution_id)
      (follow_up_execution_conflict row.id)

unfoldable pub complete_follow_up_execution : TenantContext → ℕ → ℕ → Tx FollowUpAction
unfolding get_follow_up_row write_follow_up
complete_follow_up_execution context id execution_id = do
  now ← gets (λ s. s.now)
  row ← get_follow_up_row context id
  require_execution row execution_id
  row' ← write_follow_up (record row {
    status = "completed";
    completed_at = some now;
    failure_reason = none;
    next_attempt_at = none;
  })
  audit "follow_up.completed" row'
  pure row'

abbrev or_raise : {A : Type 0} → Result Error A → Tx A
or_raise (ok a) = pure a
or_raise (err x) = raise x

-- The deadline of the next attempt, if there is one.
unfoldable pub next_deadline : ℕ → ℕ → Tx (Option ℕ)
unfolding next_attempt_delay_seconds
next_deadline now attempt_count = if leb max_attempts attempt_count then pure none else do
  delay ← or_raise (next_attempt_delay_seconds follow_up_backoff attempt_count)
  pure (some (now + seconds delay))

unfoldable pub fail_follow_up_execution : TenantContext → ℕ → ℕ → String → Tx FollowUpAction
unfolding get_follow_up_row write_follow_up next_deadline
fail_follow_up_execution context id execution_id reason = do
  raise_if (not (elem reason failure_reasons)) invalid_follow_up_failure_reason
  now ← gets (λ s. s.now)
  row ← get_follow_up_row context id
  require_execution row execution_id
  deadline ← next_deadline now row.attempt_count
  row' ←
      write_follow_up
        (record row { status = "failed"; failure_reason = some reason; next_attempt_at = deadline })
  audit "follow_up.failed" row'
  pure row'

-- What `_execute_appointment_follow_up` does with the outcome of `get_event`.
abbrev settle_appointment : TenantContext → ℕ → ℕ → Result Error CalendarEvent → Tx FollowUpAction
settle_appointment context id execution_id (err (calendar_event_not_found event_id)) =
    fail_follow_up_execution context id execution_id "calendar_event_not_found"
settle_appointment context id execution_id (err _) =
    fail_follow_up_execution context id execution_id "unexpected_error"
settle_appointment context id execution_id (ok event) =
    if event.status == "cancelled"
    then fail_follow_up_execution context id execution_id "calendar_event_cancelled"
    else complete_follow_up_execution context id execution_id

abbrev execute_appointment_with : TenantContext → ℕ → Option ℕ → Option ℕ → Proc FollowUpAction
execute_appointment_with context id (some execution_id) (some event_id) s =
    attempt (run (get_event context event_id) s)
      λ r. run (settle_appointment context id execution_id r)
execute_appointment_with context id _ _ s = (err runtime_error, s)

-- `_execute_appointment_follow_up`
unfoldable pub execute_appointment_follow_up : TenantContext → FollowUpAction → Proc FollowUpAction
unfolding get_event fail_follow_up_execution complete_follow_up_execution
execute_appointment_follow_up context claimed =
    execute_appointment_with context claimed.id claimed.execution_id claimed.calendar_event_id

abbrev unsupported : TenantContext → ℕ → Option ℕ → Proc FollowUpAction
unsupported context id none = fail runtime_error
unsupported context id (some execution_id) =
    run (fail_follow_up_execution context id execution_id "unexpected_error")

abbrev some_of : {A : Type 0} → Result Error A × Store → Result Error (Option A) × Store
some_of (ok a, s) = (ok (some a), s)
some_of (err x, s) = (err x, s)

abbrev execute_claimed : TenantContext → Option FollowUpAction → Proc (Option FollowUpAction)
execute_claimed context none s = (ok none, s)
execute_claimed context (some claimed) s =
    if claimed.type == "appointment"
    then some_of (execute_appointment_follow_up context claimed s)
    else some_of (unsupported context claimed.id claimed.execution_id s)

unfoldable pub execute_due_follow_up : (ℕ → Bool) → TenantContext → ℕ → Proc (Option FollowUpAction)
unfolding claim_due_follow_up execute_appointment_follow_up fail_follow_up_execution
execute_due_follow_up locked context now s =
    attempt (run (claim_due_follow_up locked context now) s)
      λ r. elim r [ err x ↦ fail x | ok due ↦ execute_claimed context due ]

unfoldable pub reprocess_follow_up : TenantContext → ℕ → Tx FollowUpAction
unfolding get_follow_up_row write_follow_up
reprocess_follow_up context id = do
  now ← gets (λ s. s.now)
  row ← get_follow_up_row context id
  raise_if (row.status != "failed" || leb max_attempts row.attempt_count)
      (follow_up_not_retryable id)
  row' ← write_follow_up (record row { next_attempt_at = some now })
  audit "follow_up.reprocess_requested" row'
  pure row'
