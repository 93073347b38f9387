-- ===== src/Calls/Service/Overlap/Final.antt =====
-- A call that has ended, under overlapping transitions.
use call_agent.Prelude.{
  ℕ, ℤ, ◌≡◌, refl, sym, ap, ◌∙◌, subst, arith, String, not, Option, none, some, List, [], ◌∷◌, zero,
  suc, All, Bool-cases, inl, inr, nat_beq, nat_beq_iff, some_injective,
}
use call_agent.Prelude.Eq.{Eq, string_eq, nat_eq, int_eq, option_eq, beq_refl}
use call_agent.Prelude.Sets.{elem, ◌∈◌}
use call_agent.Prelude.Results.{Result, ok, err}
use call_agent.Store.{Store}
use call_agent.Store.Rows.{TenantContext, CallSession}
use call_agent.Store.Errors.{Error, invalid_call_session_transition}
use call_agent.Store.Tx.{raise_if-bind, >>=-eq-ok, committed}
use call_agent.Store.Proc.{run, settle}
use call_agent.Calls.Lifecycle.{valid_statuses, terminal_statuses, terminal_stays}
use call_agent.Calls.Service.{Transition, redelivered, check_transition, flush_row}
use call_agent.Calls.Service.Rows.{
  row, row-id, row-put, with_row, flush_row-ok, check_transition-ok,
}
use call_agent.Calls.Service.Changes.{IsFrozen, IsFrozen-refl, IsFrozen-trans}
use call_agent.Calls.Service.History.{perform-RowStep}
use call_agent.Calls.Service.History.Results.{Stays, Stays-step}
use call_agent.Calls.Service.Overlap.{
  merged, overlay, begin_transition, Pending, intended, flush_over, finish_transition, Concurrent,
  Turn, whole, begins, flushes, begun, nth, flushed, turn, turns,
}

-- A transition in flight that found the call ended, and so repeats its status.
abbrev pub IsLate : ℕ → Pending → Type 0
IsLate id p =
    p.read.id ≡ id → (p.read.status ∈ terminal_statuses) × (p.transition.to_status ≡ p.read.status)

merged_same : {A : Type 0} ⦃e : Eq A⦄ → (read current : A) → merged read read current ≡ current
merged_same ⦃e⦄ read current = rw (beq_refl read) refl

module _ (millis : ℕ → ℕ → ℤ) (foreign_keys : CallSession → Option String) (id : ℕ)
    (c : CallSession) where
  late-IsFrozen :
      (p : Pending) (current : CallSession)
      → p.transition.to_status ≡ p.read.status
      → IsFrozen current (overlay p.read (intended millis p) current)
  unfolding overlay redelivered
  late-IsFrozen p current same =
      rw (same, beq_refl p.read.status)
        (record {
          status_kept = merged_same p.read.status current.status;
          answered_at_kept = merged_same p.read.answered_at current.answered_at;
          ended_at_kept = merged_same p.read.ended_at current.ended_at;
          duration_ms_kept = merged_same p.read.duration_ms current.duration_ms;
          hangup_cause_kept = merged_same p.read.hangup_cause current.hangup_cause;
          end_reason_kept = merged_same p.read.end_reason current.end_reason;
        })

  abbrev IsOver : Concurrent millis → Type 0
  IsOver k = Stays millis foreign_keys id c (row k.store id) × All (IsLate id) k.in_flight

  nth-IsLate :
      (n : ℕ) (ps : List Pending) (p : Pending)
      → All (IsLate id) ps
      → nth millis n ps ≡ some p
      → IsLate id p
  nth-IsLate n [] p h e = cc
  nth-IsLate zero (q ∷ ps) p h e = subst (IsLate id) (some_injective e) h.0
  nth-IsLate (suc n) (q ∷ ps) p h e = nth-IsLate n ps p h.1 e

  begin-IsLate :
      (context : TenantContext) (j : ℕ) (t : Transition) (s s' : Store) (read : CallSession)
      → c.status ∈ terminal_statuses
      → Stays millis foreign_keys id c (row s id)
      → begin_transition context j t s ≡ ok (read, s')
      → IsLate id (record { transition = t; now = s'.now; read = read })
  unfolding begin_transition
  begin-IsLate context j t s s' read over (x, at, frozen) h =
      let (valid, h₁) =
        raise_if-bind (not (elem t.to_status valid_statuses)) (invalid_call_session_transition j) _
          s s' read h in
      with_row context j _ s s' read h₁ λ y there mine key rest.
        let (u, s₁, checked, rest₁) = >>=-eq-ok (check_transition t y) _ s rest in
        let (same, legal, guard) = check_transition-ok t y s s₁ u checked in
        let (made, stored) = committed rest₁ in
        λ named.
          let hit : j ≡ id = sym key ∙ ap (λ (r : CallSession). r.id) made ∙ named in
          let twin : y ≡ x = some_injective (sym there ∙ ap (row s) hit ∙ at) in
          let ended : y.status ∈ terminal_statuses =
            subst (λ z. z ∈ terminal_statuses)
              (sym (ap (λ (r : CallSession). r.status) twin ∙ frozen.status_kept)) over in
          subst (λ (r : CallSession). (r.status ∈ terminal_statuses) × (t.to_status ≡ r.status))
            made (ended, sym (terminal_stays y.status t.to_status ended legal))

  overlay-id :
      (p : Pending) (current : CallSession)
      → (overlay p.read (intended millis p) current).id ≡ current.id
  unfolding overlay
  overlay-id p current = refl

  flush-Stays :
      (p : Pending) (s : Store)
      → IsLate id p
      → Stays millis foreign_keys id c (row s id)
      → Stays millis foreign_keys id c (row (run (finish_transition millis p) s).1 id)
  unfolding finish_transition
  flush-Stays p s late stays = over_row (row s p.read.id) refl
    where
      wrote :
          (current : CallSession) (r : Result Error (CallSession × Store))
          → row s p.read.id ≡ some current
          → flush_row (overlay p.read (intended millis p) current) s ≡ r
          → Stays millis foreign_keys id c (row (settle s r).1 id)
      wrote current (err x) at e = stays
      wrote current (ok (y, t)) at e =
          let new = overlay p.read (intended millis p) current in
          let (free, made, kept) = flush_row-ok new y s t e in
          let key : new.id ≡ p.read.id = overlay-id p current ∙ row-id s p.read.id current at in
          let (x, there, frozen) = stays in
          elim (Bool-cases (nat_beq p.read.id id)) [
            | inr other ↦
                (x, rw kept (ground (arith, row-put new s id, key, other)) ∙ there, frozen)
            | inl same ↦
                let hit : p.read.id ≡ id = (nat_beq_iff p.read.id id).0 same in
                let twin : current ≡ x = some_injective (sym at ∙ ap (row s) hit ∙ there) in
                (
                  new,
                  rw kept (ground (arith, row-put new s id, key, same, there)),
                  IsFrozen-trans c current new (subst (IsFrozen c) (sym twin) frozen)
                      (late-IsFrozen p current (late hit).1),
                )
          ]

      over_row :
          (o : Option CallSession)
          → row s p.read.id ≡ o
          → Stays millis foreign_keys id c (row (settle s (flush_over millis p o s)).1 id)
      over_row none e = stays
      over_row (some current) e =
          wrote current (flush_row (overlay p.read (intended millis p) current) s) e refl

  turn-IsOver :
      (k : Concurrent millis) (t : Turn millis)
      → c.status ∈ terminal_statuses
      → IsOver k
      → IsOver (turn millis foreign_keys k t)
  turn-IsOver k (whole o) over (stays, late) = (
    Stays-step millis foreign_keys id c over _ (row k.store id) _ tt
        (perform-RowStep millis foreign_keys o k.store id) stays,
    late,
  )
  turn-IsOver k (begins context j t) over (stays, late) =
      go (begin_transition context j t k.store) refl
    where
      go :
          (r : Result Error (CallSession × Store))
          → begin_transition context j t k.store ≡ r
          → IsOver (begun millis k t r)
      go (err x) e = (stays, late)
      go (ok (read, s)) e = (stays, (begin-IsLate context j t k.store s read over stays e, late))
  turn-IsOver k (flushes n) over (stays, late) = go (nth millis n k.in_flight) refl
    where
      go : (o : Option Pending) → nth millis n k.in_flight ≡ o → IsOver (flushed millis k o)
      go none e = (stays, late)
      go (some p) e = (flush-Stays p k.store (nth-IsLate n k.in_flight p late e) stays, late)

  turns-IsOver :
      (k : Concurrent millis) (ts : List (Turn millis))
      → c.status ∈ terminal_statuses
      → IsOver k
      → IsOver (turns millis foreign_keys k ts)
  unfolding turns
  turns-IsOver k [] over h = h
  turns-IsOver k (t ∷ ts) over h =
      turns-IsOver (turn millis foreign_keys k t) ts over (turn-IsOver k t over h)

  -- Let a call be completed, failed or interrupted, and let no transition be in flight that read it
  -- before and goes to another status. Then nothing changes its status, its answer and end times, its
  -- duration, its hangup cause or its end reason any more: no operations of the service, and no
  -- transitions that read their rows and flush later, in whatever order these happen.
  pub terminal_is_final :
      (k : Concurrent millis) (ts : List (Turn millis))
      → row k.store id ≡ some c
      → c.status ∈ terminal_statuses
      → All (IsLate id) k.in_flight
      → (c' : CallSession) × (row (turns millis foreign_keys k ts).store id ≡ some c')
        × IsFrozen c c'
  terminal_is_final k ts e over late = (turns-IsOver k ts over ((c, e, IsFrozen-refl c), late)).0
