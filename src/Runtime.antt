-- ===== src/Runtime.antt =====
-- voiceagent/runtime/assignment.py, reconciliation.py and stuck_calls.py: which runtime gets a call,
-- and what becomes of the calls of a runtime that is gone. `heartbeats` is what `read_all` of the
-- heartbeat store returned; metrics and logging are left out.
pub mod Assignment
pub mod Interruption
pub mod Reconciliation
use call_agent.Prelude.{
  ℕ, ℤ, ◌+◌, ◌*◌, ◌-◌, String, Bool, true, false, not, ◌&&◌, Option, none, some, List, [], ◌∷◌,
  filter, length, ltb, is_some, is_none, if◌then◌else◌,
}
use call_agent.Prelude.Eq.{◌==◌, nat_eq, string_eq}
use call_agent.Prelude.Dicts.{lookup}
use call_agent.Prelude.Sets.{elem}
use call_agent.Prelude.Results.{Result, ok, err}
use call_agent.Store.{Store}
use call_agent.Store.Rows.{TenantContext, CallSession}
use call_agent.Store.Errors.{Error, no_runtime_capacity, invalid_call_session_transition}
use call_agent.Store.Proc.{Proc, run, then_with, finish_with, fail, attempt}
use call_agent.Calls.Service.{
  is_non_terminal, claim_runtime_ownership, Transition, transition_call_session,
}

pub record RuntimeHeartbeat : Type 0 where
  pub instance_id : String
  pub address : String
  pub capacity : ℕ
  pub current_load : ℕ
  pub last_heartbeat : ℕ

abbrev pub Heartbeats : Type 0
Heartbeats = List (String × RuntimeHeartbeat)

abbrev pub has_capacity : RuntimeHeartbeat → Bool
has_capacity h = ltb h.current_load h.capacity

-- `[... for heartbeat in heartbeats.values() if heartbeat.has_capacity]`
unfoldable pub candidates : Heartbeats → List RuntimeHeartbeat
candidates [] = []
candidates ((k, h) ∷ heartbeats) =
    let rest = candidates heartbeats in if has_capacity h then h ∷ rest else rest

-- `min(..., key=current_load)`: the first of the least.
unfoldable pub least_loaded : RuntimeHeartbeat → List RuntimeHeartbeat → RuntimeHeartbeat
least_loaded best [] = best
least_loaded best (h ∷ hs) =
    least_loaded (if ltb h.current_load best.current_load then h else best) hs

abbrev pub select_from : List RuntimeHeartbeat → Option RuntimeHeartbeat
select_from [] = none
select_from (h ∷ hs) = some (least_loaded h hs)

unfoldable pub select_runtime_for_assignment : Heartbeats → Option RuntimeHeartbeat
unfolding candidates least_loaded
select_runtime_for_assignment heartbeats = select_from (candidates heartbeats)

abbrev pub assign_to : TenantContext → ℕ → Option RuntimeHeartbeat → Proc (CallSession × String)
assign_to context id none s = (err (no_runtime_capacity id), s)
assign_to context id (some selected) s =
    then_with (run (claim_runtime_ownership context id selected.instance_id) s)
      λ call. finish_with (call, selected.instance_id)

unfoldable pub assign_call_to_runtime : TenantContext → ℕ → Heartbeats → Proc (CallSession × String)
unfolding select_runtime_for_assignment claim_runtime_ownership
assign_call_to_runtime context id heartbeats =
    assign_to context id (select_runtime_for_assignment heartbeats)

abbrev pub is_gone : Heartbeats → Option String → Bool
is_gone heartbeats none = false
is_gone heartbeats (some r) = is_none (lookup r heartbeats)

unfoldable pub find_stale_call_sessions : List CallSession → Heartbeats → List CallSession
find_stale_call_sessions non_terminal heartbeats =
    filter (λ c. is_gone heartbeats c.runtime_instance_id) non_terminal

pub record ReconciliationReport : Type 0 where
  pub scanned : ℕ
  pub stale : List CallSession
  pub repaired : List CallSession

abbrev pub interruption : Transition
interruption = record {
  to_status = "interrupted";
  hangup_cause = none;
  end_reason = some "runtime_crashed";
  fs_channel_uuid = none;
  runtime_instance_id = none;
  expected_runtime_instance_id = none;
}

-- `except InvalidCallSessionTransitionError`
unfoldable pub is_refusal : Error → Bool
is_refusal (invalid_call_session_transition id) = true
is_refusal _ = false

module _ (millis : ℕ → ℕ → ℤ) where
  -- One turn of the loop: what was repaired, nothing for an InvalidCallSessionTransitionError.
  abbrev pub repair_one : Result Error CallSession → Proc (List CallSession)
  repair_one (ok call) s = (ok (call ∷ []), s)
  repair_one (err x) s = if is_refusal x then (ok [], s) else (err x, s)

  abbrev pub prepend : List CallSession → List CallSession → List CallSession
  prepend [] cs = cs
  prepend (c ∷ cs) ds = c ∷ prepend cs ds

  -- `meanwhile call` is what other transactions commit before the repair of this call begins, after the
  -- scan or the repair before it.
  module _ (meanwhile : CallSession → Store → Store) where
    -- The loop over the stale calls, each repair a transaction of its own.
    unfoldable pub repair : TenantContext → List CallSession → Proc (List CallSession)
    unfolding transition_call_session is_refusal
    repair context [] s = (ok [], s)
    repair context (call ∷ calls) s =
        then_with
          (attempt
            (run (transition_call_session millis context call.id interruption) (meanwhile call s))
            repair_one)
          λ one s'. then_with (repair context calls s') λ rest. finish_with (prepend one rest)

    unfoldable pub reconcile_tenant : TenantContext → Heartbeats → Proc ReconciliationReport
    unfolding find_stale_call_sessions repair
    reconcile_tenant context heartbeats s =
        let non_terminal = filter (is_non_terminal context) s.call_sessions in
        let stale = find_stale_call_sessions non_terminal heartbeats in
        then_with (repair context stale s) λ repaired.
          finish_with (record { scanned = length non_terminal; stale = stale; repaired = repaired })

-- stuck_calls.py. `updated_at` is the row's time of its last write, which the store does not keep.
pub record StuckCallSession : Type 0 where
  pub call_session_id : ℕ
  pub status : String
  pub phase : String
  pub age : ℕ
  pub runtime_instance_id : Option String

abbrev pub startup_statuses : List String
startup_statuses = "initiated" ∷ "ringing" ∷ []

abbrev pub active_statuses : List String
active_statuses = "answered" ∷ "in_progress" ∷ []

module _ (updated_at : CallSession → ℕ) (heartbeats : Heartbeats)
    (now startup_threshold active_threshold : ℕ) where
  abbrev pub is_alive : Option String → Bool
  is_alive none = false
  is_alive (some r) = is_some (lookup r heartbeats)

  abbrev stuck_in : CallSession → String → ℕ → Option StuckCallSession
  stuck_in call phase threshold =
      if ltb (updated_at call + threshold) now
      then some (record {
        call_session_id = call.id;
        status = call.status;
        phase = phase;
        age = now - updated_at call;
        runtime_instance_id = call.runtime_instance_id;
      })
      else none

  -- The body of the loop. An age beyond the threshold is one that is longer; a call that was written
  -- after `now` has a negative age.
  abbrev pub stuck_call : CallSession → Option StuckCallSession
  stuck_call call =
      if not (is_alive call.runtime_instance_id)
      then none
      else if elem call.status startup_statuses
      then stuck_in call "startup" startup_threshold
      else if elem call.status active_statuses
      then stuck_in call "active" active_threshold
      else none

  abbrev with_stuck : Option StuckCallSession → List StuckCallSession → List StuckCallSession
  with_stuck none stuck = stuck
  with_stuck (some x) stuck = x ∷ stuck

  unfoldable pub find_stuck_call_sessions : List CallSession → List StuckCallSession
  find_stuck_call_sessions [] = []
  find_stuck_call_sessions (call ∷ calls) =
      with_stuck (stuck_call call) (find_stuck_call_sessions calls)
