-- ===== src/Calls/Service/Overlap.antt =====
-- `transition_call_session` of voiceagent/calls/service.py as its two database statements. It reads the
-- row without a lock, and its flush writes the columns that it changed, over whatever the row holds by
-- then; in between, other transactions may commit.
pub mod Final
pub mod Ended
use call_agent.Prelude.{
  if_elim, sym, ap, refl, ◌≡◌, Bool-cases, inl, inr, ℕ, ℤ, arith, String, Bool, true, false, not,
  Option, none, some, List, [], ◌∷◌, ◌++◌, zero, suc, if◌then◌else◌,
}
use call_agent.Prelude.Eq.{Eq, ◌==◌, string_eq, nat_eq, int_eq, option_eq, beq_refl}
use call_agent.Prelude.Sets.{elem}
use call_agent.Prelude.Results.{Result, ok, err}
use call_agent.Store.{Store}
use call_agent.Store.Rows.{TenantContext, CallSession}
use call_agent.Store.Errors.{Error, runtime_error, invalid_call_session_transition}
use call_agent.Store.Tx.{Tx, ◌>>=◌, ◌>>◌, pure, raise, raise_if, gets}
use call_agent.Store.Proc.{run}
use call_agent.Calls.Lifecycle.{valid_statuses}
use call_agent.Calls.Service.{
  get_row, flush_row, Transition, redelivered, advanced, check_transition, transition_call_session,
}
use call_agent.Calls.Service.Rows.{row}
use call_agent.Calls.Service.History.{Operation, perform}

-- A column after the flush: SQLAlchemy writes the columns whose value is not the one that was read.
abbrev pub merged : {A : Type 0} ⦃e : Eq A⦄ → A → A → A → A
merged read new current = if new == read then current else new

unfoldable pub overlay : CallSession → CallSession → CallSession → CallSession
overlay read new current = record current {
  status = merged read.status new.status current.status;
  runtime_instance_id =
      merged read.runtime_instance_id new.runtime_instance_id current.runtime_instance_id;
  runtime_assigned_at =
      merged read.runtime_assigned_at new.runtime_assigned_at current.runtime_assigned_at;
  fs_channel_uuid = merged read.fs_channel_uuid new.fs_channel_uuid current.fs_channel_uuid;
  answered_at = merged read.answered_at new.answered_at current.answered_at;
  ended_at = merged read.ended_at new.ended_at current.ended_at;
  duration_ms = merged read.duration_ms new.duration_ms current.duration_ms;
  hangup_cause = merged read.hangup_cause new.hangup_cause current.hangup_cause;
  end_reason = merged read.end_reason new.end_reason current.end_reason;
}

-- The part up to the flush: what it read, if its checks let it go on.
unfoldable pub begin_transition : TenantContext → ℕ → Transition → Tx CallSession
unfolding get_row check_transition
begin_transition context id t = do
  raise_if (not (elem t.to_status valid_statuses)) (invalid_call_session_transition id)
  call ← get_row context id
  check_transition t call
  pure call

-- A transition that has read its row and has not flushed: the time and the row that it read.
pub record Pending : Type 0 where
  pub transition : Transition
  pub now : ℕ
  pub read : CallSession

module _ (millis : ℕ → ℕ → ℤ) where
  abbrev pub intended : Pending → CallSession
  intended p =
      if p.transition.to_status == p.read.status
      then redelivered p.now p.transition p.read
      else advanced millis p.now p.transition p.read

  abbrev pub flush_over : Pending → Option CallSession → Tx CallSession
  flush_over p none = raise runtime_error
  flush_over p (some current) = flush_row (overlay p.read (intended p) current)

  -- `session.flush()` over the row as it is now. A row that is gone makes it raise.
  unfoldable pub finish_transition : Pending → Tx CallSession
  unfolding flush_row overlay redelivered advanced
  finish_transition p s = flush_over p (row s p.read.id) s

  -- The store and the transitions in flight.
  pub record Concurrent : Type 0 where
    pub store : Store
    pub in_flight : List Pending

  -- What happens next: a whole operation, the first part of a transition, or the flush of the
  -- transition in flight of this number.
  pub data Turn : Type 0 where
    whole : Operation → Turn
    begins : TenantContext → ℕ → Transition → Turn
    flushes : ℕ → Turn

  abbrev pub begun : Concurrent → Transition → Result Error (CallSession × Store) → Concurrent
  begun c t (ok (read, s)) = record c {
    in_flight = record { transition = t; now = s.now; read = read } ∷ c.in_flight;
  }
  begun c t (err x) = c

  abbrev pub nth : ℕ → List Pending → Option Pending
  nth n [] = none
  nth zero (p ∷ ps) = some p
  nth (suc n) (p ∷ ps) = nth n ps

  abbrev pub flushed : Concurrent → Option Pending → Concurrent
  flushed c none = c
  flushed c (some p) = record c { store = (run (finish_transition p) c.store).1 }

module _ (millis : ℕ → ℕ → ℤ) (foreign_keys : CallSession → Option String) where
  abbrev pub turn : Concurrent millis → Turn millis → Concurrent millis
  turn c (whole o) = record c { store = perform millis foreign_keys o c.store }
  turn c (begins context id t) = begun millis c t (begin_transition context id t c.store)
  turn c (flushes n) = flushed millis c (nth millis n c.in_flight)

  -- Any interleaving. A transition stays in the list after its flush, so that this also covers a
  -- repeated one.
  unfoldable pub turns : Concurrent millis → List (Turn millis) → Concurrent millis
  unfolding perform begin_transition finish_transition
  turns c [] = c
  turns c (t ∷ ts) = turns (turn c t) ts

merged_self : {A : Type 0} ⦃e : Eq A⦄ → (read new : A) → merged read new read ≡ new
merged_self ⦃e⦄ read new =
    if_elim (λ x. x ≡ new) (new == read) read new (λ same. sym ((e.equal_iff new read).0 same))
      (λ _. refl)

-- Nothing in between: the flush writes what the whole transaction writes.
overlay_self :
    (millis : ℕ → ℕ → ℤ) (p : Pending)
    → overlay p.read (intended millis p) p.read ≡ intended millis p
unfolding overlay redelivered advanced
overlay_self millis p = elim (Bool-cases (p.transition.to_status == p.read.status)) [
  | inl twin ↦ rw twin (
      rw
        (
          merged_self p.read.status,
          merged_self p.read.runtime_instance_id,
          merged_self p.read.runtime_assigned_at,
          merged_self p.read.fs_channel_uuid,
          merged_self p.read.answered_at,
          merged_self p.read.ended_at,
          merged_self p.read.duration_ms,
          merged_self p.read.hangup_cause,
          merged_self p.read.end_reason,
        )
        refl)
  | inr new ↦ rw new (
      rw
        (
          merged_self p.read.status,
          merged_self p.read.runtime_instance_id,
          merged_self p.read.runtime_assigned_at,
          merged_self p.read.fs_channel_uuid,
          merged_self p.read.answered_at,
          merged_self p.read.ended_at,
          merged_self p.read.duration_ms,
          merged_self p.read.hangup_cause,
          merged_self p.read.end_reason,
        )
        refl)
]
