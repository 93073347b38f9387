-- ===== src/Examples/OfFollowUps.antt =====
-- The theorems on follow-ups and calendars at a small store.
use call_agent.Prelude.{ℕ, ◌≡◌, ◌≤◌, ◌<◌, refl, arith, Bool, false, Option, none, some, [], ◌∷◌}
use call_agent.Prelude.Eq.{string_eq}
use call_agent.Prelude.Results.{Result, ok}
use call_agent.Store.{Store}
use call_agent.Store.Rows.{FollowUpAction, CalendarEvent}
use call_agent.Calendars.{create_event, cancel_event}
use call_agent.Calendars.Disjoint.{
  IsDisjoint, IsCancellation, create_event-IsDisjoint, cancel_event-IsDisjoint,
}
use call_agent.Followups.RetryPolicy.{
  follow_up_backoff, next_attempt_delay_seconds, next_attempt_delay_seconds-bounds,
}
use call_agent.Followups.Execution.{claim_due_follow_up, fail_follow_up_execution}
use call_agent.Followups.Execution.Attempts.{
  IsFailedBy, IsFailure, fail_follow_up_execution-IsFailed,
}
use call_agent.Examples.{tenant, call_with, appointment, follow_up_with, store_with, returned}

abbrev waiting : Store
waiting = store_with (call_with 1 "completed" (some 2000) none) (
    follow_up_with 50 "failed" 2 (some 4000)
    ∷ follow_up_with 51 "pending" 0 (some 3000)
    ∷ follow_up_with 52 "pending" 0 (some 9000)
    ∷ [])

abbrev unlocked : ℕ → Bool
unlocked id = false

claimed_id : Result call_agent.Store.Errors.Error (Option FollowUpAction × Store) → Option ℕ
claimed_id (ok (some row, s)) = some row.id
claimed_id _ = none

earliest_is_claimed : claimed_id (claim_due_follow_up unlocked tenant 5000 waiting) ≡ some 51
unfolding claim_due_follow_up claimed_id
earliest_is_claimed = refl

abbrev running : Store
running =
    store_with (call_with 1 "completed" (some 2000) none)
      (follow_up_with 50 "processing" 5 (some 9000) ∷ [])

abbrev failed : FollowUpAction × Store
failed =
    returned (follow_up_with 50 "processing" 5 none, running)
      (fail_follow_up_execution tenant 50 90 "unexpected_error" running)

fails : fail_follow_up_execution tenant 50 90 "unexpected_error" running ≡ ok (failed.0, failed.1)
unfolding fail_follow_up_execution
fails = refl

fail_follow_up_execution-IsFailed_example :
    IsFailedBy 5000 "unexpected_error" 90 failed.0
    × IsFailure tenant 50 90 failed.0 running failed.1
fail_follow_up_execution-IsFailed_example =
    fail_follow_up_execution-IsFailed tenant 50 90 "unexpected_error" running failed.1 failed.0
      fails

next_attempt_delay_seconds-bounds_example :
    ((delay : ℕ)
      → next_attempt_delay_seconds follow_up_backoff 3 ≡ ok delay
      → (60 ≤ delay) × (delay ≤ 3600) × (1 ≤ 3) × (3 ≤ 1024))
    × (1 ≤ 3 → 3 ≤ 1024 → (delay : ℕ) × (next_attempt_delay_seconds follow_up_backoff 3 ≡ ok delay))
next_attempt_delay_seconds-bounds_example =
    next_attempt_delay_seconds-bounds follow_up_backoff 3 (omega arith)

abbrev booked : CalendarEvent × Store
booked =
    returned (appointment 0 0 0, waiting) (create_event tenant 30 "Termin" 200 300 none waiting)

books : create_event tenant 30 "Termin" 200 300 none waiting ≡ ok (booked.0, booked.1)
unfolding create_event
books = refl

create_event-IsDisjoint_example :
    (booked.0.start_at < booked.0.end_at) × IsDisjoint booked.1.calendar_events
create_event-IsDisjoint_example =
    create_event-IsDisjoint tenant 30 "Termin" 200 300 none waiting booked.1 booked.0 (tt, tt) books

abbrev dropped : CalendarEvent × Store
dropped = returned (appointment 0 0 0, waiting) (cancel_event tenant 40 waiting)

drops : cancel_event tenant 40 waiting ≡ ok (dropped.0, dropped.1)
unfolding cancel_event
drops = refl

cancel_event-IsDisjoint_example :
    IsDisjoint dropped.1.calendar_events × IsCancellation tenant 40 dropped.0 waiting dropped.1
cancel_event-IsDisjoint_example =
    cancel_event-IsDisjoint tenant 40 waiting dropped.1 dropped.0 (tt, tt) drops
