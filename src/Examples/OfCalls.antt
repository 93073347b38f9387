-- ===== src/Examples/OfCalls.antt =====
-- The theorems on calls at concrete histories.
use call_agent.Prelude.{Option, All, ◌≡◌, ◌≤◌, ◌<◌, refl, String, none, some, List, [], ◌∷◌}
use call_agent.Prelude.Eq.{string_eq}
use call_agent.Prelude.{true, false, ◌≢◌}
use call_agent.Store.{Store}
use call_agent.Store.Table.{find_row}
use call_agent.Store.Rows.{CallSession}
use call_agent.Calls.Lifecycle.{phase, is_valid_transition, phase-lt}
use call_agent.Prelude.Results.{ok, err}
use call_agent.Store.Errors.{call_session_already_owned}
use call_agent.Calls.Service.{Transition, claim_runtime_ownership}
use call_agent.Calls.Service.Race.{claim_runtime_ownership_race}
use call_agent.Calls.Service.Rows.{row}
use call_agent.Calls.Service.Changes.{IsCallValid, IsFrozen}
use call_agent.Calls.Service.History.{renames, Operation, transition, activate, own, wait, replay}
use call_agent.Calls.Service.History.Results.{Holds, replay-IsCallValid, ownership_is_exclusive}
use call_agent.Calls.Service.History.Activation.{activations, activation_at_most_once}
use call_agent.Calls.Service.Overlap.{Concurrent, Turn, whole, begins, flushes, turns}
use call_agent.Calls.Service.Overlap.Final.{terminal_is_final}
use call_agent.Calls.Service.Overlap.Ended.{IsOrderly, turns-IsOrderly}
use call_agent.Examples.{returned, tenant, call_with, store_with, millis, no_violation}

abbrev to_status : String → Transition
to_status status = record {
  to_status = status;
  fs_channel_uuid = none;
  runtime_instance_id = none;
  hangup_cause = some "NORMAL_CLEARING";
  end_reason = none;
  expected_runtime_instance_id = none;
}

abbrev a_call_from_start_to_end : List Operation
a_call_from_start_to_end =
    own tenant 1 "runtime-a"
    ∷ activate tenant 1
    ∷ activate tenant 1
    ∷ wait 10
    ∷ own tenant 1 "runtime-b"
    ∷ transition tenant 1 (to_status "answered")
    ∷ transition tenant 1 (to_status "in_progress")
    ∷ wait 10
    ∷ transition tenant 1 (to_status "completed")
    ∷ transition tenant 1 (to_status "failed")
    ∷ []

abbrev new_call_store : Store
new_call_store = store_with (call_with 1 "initiated" none none) []

abbrev owned_call : CallSession
owned_call = call_with 1 "initiated" none (some "runtime-a")

abbrev ended_call : CallSession
ended_call = call_with 1 "completed" (some 2000) none

phase-lt_example : phase "answered" < phase "completed"
unfolding is_valid_transition
phase-lt_example = phase-lt "answered" "completed" refl (λ p. cc)

replay-IsCallValid_example :
    Holds IsCallValid (row (replay millis no_violation a_call_from_start_to_end new_call_store) 1)
unfolding row find_row
replay-IsCallValid_example =
    replay-IsCallValid millis no_violation 1 a_call_from_start_to_end new_call_store
      (record { status_valid = refl; ended_iff = refl })

-- A late transition of the call is in flight, and a transition to another status is refused.
abbrev after_the_end : Concurrent millis
after_the_end = record {
  store = store_with ended_call [];
  in_flight = record { transition = to_status "completed"; now = 5000; read = ended_call } ∷ [];
}

abbrev overlapping : List (Turn millis)
overlapping =
    begins tenant 1 (to_status "completed")
    ∷ begins tenant 1 (to_status "in_progress")
    ∷ flushes 1
    ∷ whole (transition tenant 1 (to_status "interrupted"))
    ∷ flushes 0
    ∷ []

terminal_is_final_example :
    (c' : CallSession) × (row (turns millis no_violation after_the_end overlapping).store 1
      ≡ some c')
    × IsFrozen ended_call c'
unfolding row find_row
terminal_is_final_example =
    terminal_is_final millis no_violation 1 ended_call after_the_end overlapping refl refl
      ((λ _. (refl, refl)), tt)

abbrev at_the_start : Concurrent millis
at_the_start = record { store = store_with (call_with 1 "answered" none none) []; in_flight = [] }

abbrev race : List (Turn millis)
race =
    begins tenant 1 (to_status "in_progress")
    ∷ whole (transition tenant 1 (to_status "completed"))
    ∷ flushes 0
    ∷ []

turns-IsOrderly_example :
    IsOrderly millis no_violation 1 (turns millis no_violation at_the_start race)
unfolding row find_row
turns-IsOrderly_example =
    turns-IsOrderly millis no_violation 1 at_the_start race
      (record { status_valid = refl; ended = λ e. cc }, tt)

-- A transition to "in_progress" that read the call before it completed is flushed after that.
abbrev lost_update : Concurrent millis
lost_update = turns millis no_violation at_the_start race

abbrev status_of : Option CallSession → Option String
status_of none = none
status_of (some c) = some c.status

completion_is_lost : status_of (row lost_update.store 1) ≡ some "in_progress"
unfolding turns row call_agent.Calls.Service.transition_call_session
completion_is_lost = refl

quiet_operations : All (λ o. renames o ≡ none) a_call_from_start_to_end
quiet_operations =
    (refl, (refl, (refl, (refl, (refl, (refl, (refl, (refl, (refl, (refl, tt))))))))))

ownership_is_exclusive_example :
    (c' : CallSession) × (row
        (replay millis no_violation a_call_from_start_to_end (store_with owned_call []))
        1
      ≡ some c')
    × (c'.runtime_instance_id ≡ some "runtime-a")
unfolding row find_row
ownership_is_exclusive_example =
    ownership_is_exclusive millis no_violation 1 "runtime-a" a_call_from_start_to_end
      (store_with owned_call []) owned_call refl refl quiet_operations

activation_at_most_once_example :
    activations millis no_violation 1 a_call_from_start_to_end new_call_store ≤ 1
activation_at_most_once_example =
    activation_at_most_once millis no_violation 1 a_call_from_start_to_end new_call_store

true_apart : false ≡ true → ⊥
true_apart p = cc

runtimes_differ : ◌≢◌ {A = String} "runtime-a" "runtime-b"
runtimes_differ p = true_apart ((string_eq.equal_iff "runtime-a" "runtime-b").1 p)

abbrev claimed : CallSession × Store
claimed =
    returned (owned_call, new_call_store)
      (claim_runtime_ownership tenant 1 "runtime-a" new_call_store)

claims : claim_runtime_ownership tenant 1 "runtime-a" new_call_store ≡ ok (claimed.0, claimed.1)
unfolding claim_runtime_ownership
claims = refl

claim_runtime_ownership_race_example :
    (claim_runtime_ownership tenant 1 "runtime-b" claimed.1 ≡ err (call_session_already_owned 1))
    × (claim_runtime_ownership tenant 1 "runtime-a" claimed.1 ≡ ok (claimed.0, claimed.1))
    × (claimed.0.runtime_instance_id ≡ some "runtime-a")
claim_runtime_ownership_race_example =
    claim_runtime_ownership_race tenant 1 "runtime-a" "runtime-b" new_call_store claimed.1 claimed.0
      claims runtimes_differ
