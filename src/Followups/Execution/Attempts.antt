-- ===== src/Followups/Execution/Attempts.antt =====
-- How often a follow-up is attempted: what `fail_follow_up_execution` leaves in the row.
use call_agent.Prelude.{
  ap, ◌∙◌, nat_beq, ℕ, ◌+◌, ◌≡◌, ◌≤◌, ◌<◌, refl, arith, String, false, not, ◌||◌, Option, none,
  some, Bool-cases, inl, inr, leb, subst, sym,
}
use call_agent.Prelude.Eq.{◌!=◌, string_eq, nat_eq, option_eq}
use call_agent.Prelude.Sets.{elem, ◌∈◌}
use call_agent.Prelude.Results.{Result, ok, err}
use call_agent.Store.{Store}
use call_agent.Store.Rows.{TenantContext, FollowUpAction}
use call_agent.Store.Errors.{
  Error, follow_up_action_not_found, invalid_follow_up_failure_reason, follow_up_execution_conflict,
}
use call_agent.Store.Table.{find_row, update_row, find_row-update_row, find_row-key}
use call_agent.Store.Tx.{continue, >>=-eq-ok, committed, raise_if-bind, ◌>>=◌, ◌>>◌, pure}
use call_agent.Followups.RetryPolicy.{
  follow_up_backoff, max_attempts, failure_reasons, next_attempt_delay_seconds,
  next_attempt_delay_seconds-bounds,
}
use call_agent.Followups.Service.{seconds, found, get_follow_up_row, write_follow_up, audit}
use call_agent.Followups.Execution.{is_claimable, or_raise, next_deadline, fail_follow_up_execution}

-- The deadline that a failed attempt leaves: none from the last attempt on, else one that the
-- backoff sets.
abbrev pub IsDeadline : ℕ → ℕ → Option ℕ → Type 0
IsDeadline now attempt_count deadline =
    (max_attempts ≤ attempt_count → deadline ≡ none)
    × (attempt_count < max_attempts
        → (u : ℕ) × (deadline ≡ some u) × (now + seconds 60 ≤ u) × (u ≤ now + seconds 3600))

next_deadline-IsDeadline :
    (now attempt_count : ℕ) (s t : Store) (deadline : Option ℕ)
    → next_deadline now attempt_count s ≡ ok (deadline, t)
    → IsDeadline now attempt_count deadline
unfolding next_deadline
next_deadline-IsDeadline now attempt_count s t deadline h =
    elim (Bool-cases (leb max_attempts attempt_count)) [
      | inl last ↦ ((λ l. sym (committed (rw last at h)).0), λ l. absurd (ground arith))
      | inr more ↦ (
        (λ l. absurd (ground arith)),
        λ l. go (next_attempt_delay_seconds follow_up_backoff attempt_count) refl (rw more at h),
      )
    ]
  where
    go :
        (r : Result Error ℕ)
        → next_attempt_delay_seconds follow_up_backoff attempt_count ≡ r
        → continue (or_raise r s) (λ delay s'. ok (some (now + seconds delay), s'))
          ≡ ok (deadline, t)
        → (u : ℕ) × (deadline ≡ some u) × (now + seconds 60 ≤ u) × (u ≤ now + seconds 3600)
    go (err x) e p = cc
    go (ok delay) e p =
        let (low, high, l, u) =
          (next_attempt_delay_seconds-bounds follow_up_backoff attempt_count (omega arith)).0 delay
            e in
        (now + seconds delay, sym (committed p).0, omega (arith, low), omega (arith, high))

-- What the row holds after a failed attempt of the execution.
pub record IsFailedBy (now : ℕ) (reason : String) (execution_id : ℕ) (row : FollowUpAction)
    : Type 0 where
  pub failed : row.status ≡ "failed"
  pub explained : row.failure_reason ≡ some reason
  pub reason_listed : reason ∈ failure_reasons
  pub owned : row.execution_id ≡ some execution_id
  pub deadline : IsDeadline now row.attempt_count row.next_attempt_at
  pub spent :
      (context : TenantContext) (later : ℕ)
      → max_attempts ≤ row.attempt_count
      → is_claimable context later row ≡ false

-- What a failure writes: the row of this identifier was processing under the execution id, and now
-- is the returned one; the other rows, and the count of attempts, are as they were.
pub record IsFailure (context : TenantContext) (id execution_id : ℕ) (row : FollowUpAction)
    (s t : Store) : Type 0 where
  pub old : FollowUpAction
  pub there : find_row (λ (r : FollowUpAction). r.id) id s.follow_ups ≡ some old
  pub mine : old.tenant_id ≡ context.tenant_id
  pub was_processing : old.status ≡ "processing"
  pub was_owned : old.execution_id ≡ some execution_id
  pub counted : row.attempt_count ≡ old.attempt_count
  pub stored : find_row (λ (r : FollowUpAction). r.id) id t.follow_ups ≡ some row
  pub others :
      (k : ℕ)
      → nat_beq id k ≡ false
      → find_row (λ (r : FollowUpAction). r.id) k t.follow_ups
        ≡ find_row (λ (r : FollowUpAction). r.id) k s.follow_ups

get_follow_up_row-reads :
    (context : TenantContext) (id : ℕ) (s t : Store) (row : FollowUpAction)
    → get_follow_up_row context id s ≡ ok (row, t)
    → (t ≡ s)
      × (find_row (λ (r : FollowUpAction). r.id) id s.follow_ups ≡ some row)
      × (row.tenant_id ≡ context.tenant_id)
unfolding get_follow_up_row
get_follow_up_row-reads context id s t row h =
    go (find_row (λ (r : FollowUpAction). r.id) id s.follow_ups) refl h
  where
    go :
        (o : Option FollowUpAction)
        → find_row (λ (r : FollowUpAction). r.id) id s.follow_ups ≡ o
        → found context id o s ≡ ok (row, t)
        → (t ≡ s)
          × (find_row (λ (r : FollowUpAction). r.id) id s.follow_ups ≡ some row)
          × (row.tenant_id ≡ context.tenant_id)
    go none e p = cc
    go (some x) e p =
        let (mine, rest) =
          raise_if-bind (x.tenant_id != context.tenant_id) (follow_up_action_not_found id) (pure x)
            s t row p in
        let (same_row, same_store) = committed rest in
        (
          sym same_store,
          e ∙ ap some same_row,
          subst (λ (r : FollowUpAction). r.tenant_id ≡ context.tenant_id) same_row
              (ground (arith, nat_eq.equal_iff x.tenant_id context.tenant_id)),
        )

next_deadline-keeps :
    (now attempt_count : ℕ) (s t : Store) (deadline : Option ℕ)
    → next_deadline now attempt_count s ≡ ok (deadline, t)
    → t ≡ s
unfolding next_deadline
next_deadline-keeps now attempt_count s t deadline h =
    elim (Bool-cases (leb max_attempts attempt_count)) [
      | inl last ↦ sym (committed (rw last at h)).1
      | inr more ↦ go (next_attempt_delay_seconds follow_up_backoff attempt_count) (rw more at h)
    ]
  where
    go :
        (r : Result Error ℕ)
        → continue (or_raise r s) (λ delay s'. ok (some (now + seconds delay), s'))
          ≡ ok (deadline, t)
        → t ≡ s
    go (err x) p = cc
    go (ok delay) p = sym (committed p).1

-- A `fail_follow_up_execution` that commits was called with a listed reason, for a row of the tenant
-- that was processing under the given execution id. It leaves that row, and no other, changed: failed
-- with that reason and with as many attempts as before; from the fifth attempt on with no deadline, so
-- that no claim takes it again, and before with a deadline between one minute and one hour from now.
pub fail_follow_up_execution-IsFailed :
    (context : TenantContext) (id execution_id : ℕ) (reason : String) (s t : Store)
    (row : FollowUpAction)
    → fail_follow_up_execution context id execution_id reason s ≡ ok (row, t)
    → IsFailedBy s.now reason execution_id row × IsFailure context id execution_id row s t
unfolding fail_follow_up_execution is_claimable
fail_follow_up_execution-IsFailed context id execution_id reason s t row h =
    let (listed, h₁) =
      raise_if-bind (not (elem reason failure_reasons)) invalid_follow_up_failure_reason _ s t row
        h in
    let (old, s₁, read, h₂) = >>=-eq-ok (get_follow_up_row context id) _ s h₁ in
    let (same₁, there, mine) = get_follow_up_row-reads context id s s₁ old read in
    let (owned, h₃) =
      raise_if-bind (old.status != "processing" || old.execution_id != some execution_id)
        (follow_up_execution_conflict old.id) _ s₁ t row h₂ in
    let (deadline, s₂, set, h₄) = >>=-eq-ok (next_deadline s.now old.attempt_count) _ s₁ h₃ in
    let is_deadline = next_deadline-IsDeadline s.now old.attempt_count s₁ s₂ deadline set in
    let same₂ = next_deadline-keeps s.now old.attempt_count s₁ s₂ deadline set in
    written old deadline s₂ (same₂ ∙ same₁) there mine (ground arith)
      (ground (arith, string_eq.equal_iff old.status "processing"))
      (ground (arith, option_eq.equal_iff old.execution_id (some execution_id))) is_deadline h₄
  where
    written :
        (old : FollowUpAction) (deadline : Option ℕ) (s₂ : Store)
        → s₂ ≡ s
        → find_row (λ (r : FollowUpAction). r.id) id s.follow_ups ≡ some old
        → old.tenant_id ≡ context.tenant_id
        → reason ∈ failure_reasons
        → old.status ≡ "processing"
        → old.execution_id ≡ some execution_id
        → IsDeadline s.now old.attempt_count deadline
        → (write_follow_up (record old {
          status = "failed";
          failure_reason = some reason;
          next_attempt_at = deadline;
        })
              >>= λ row'. audit "follow_up.failed" row' >> pure row')
            s₂
          ≡ ok (row, t)
        → IsFailedBy s.now reason execution_id row × IsFailure context id execution_id row s t
    written old deadline s₂ same there mine listed processing owned is_deadline p =
        let (made, stored) = committed p in
        let table : t.follow_ups ≡ update_row (λ (r : FollowUpAction). r.id) row s.follow_ups =
          sym (ap (λ (x : Store). x.follow_ups) stored)
          ∙ ap (λ r. update_row (λ (r : FollowUpAction). r.id) r s₂.follow_ups) made
          ∙ ap (λ (x : Store). update_row (λ (r : FollowUpAction). r.id) row x.follow_ups) same in
        let key : row.id ≡ id =
          sym (ap (λ (r : FollowUpAction). r.id) made)
          ∙ find_row-key (λ (r : FollowUpAction). r.id) id s.follow_ups old there in
        (
          subst (IsFailedBy s.now reason execution_id) made (record {
            failed = refl;
            explained = refl;
            reason_listed = listed;
            owned = owned;
            deadline = is_deadline;
            spent = λ context' later l.
                let gone : deadline ≡ none = is_deadline.0 l in ground (arith, gone);
          }),
          record {
            old = old;
            there = there;
            mine = mine;
            was_processing = processing;
            was_owned = owned;
            counted = sym (ap (λ (r : FollowUpAction). r.attempt_count) made);
            stored = rw table (
                ground (
                  arith,
                  find_row-update_row (λ (r : FollowUpAction). r.id) id row s.follow_ups,
                  key,
                  there,
                ));
            others = λ k other. rw table (
                ground (
                  arith,
                  find_row-update_row (λ (r : FollowUpAction). r.id) k row s.follow_ups,
                  key,
                ));
          },
        )
