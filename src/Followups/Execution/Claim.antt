-- ===== src/Followups/Execution/Claim.antt =====
-- Which follow-up `claim_due_follow_up` takes.
use call_agent.Prelude.{◌+◌, ℕ, suc, ◌≡◌, refl, Bool, true, not, ◌&&◌, some, List, All, String, ◌≤◌}
use call_agent.Prelude.Eq.{nat_eq}
use call_agent.Prelude.Results.{ok}
use call_agent.Store.{Store}
use call_agent.Store.Rows.{TenantContext, FollowUpAction}
use call_agent.Store.Table.{update_row}
use call_agent.Store.Tx.{◌>>=◌, ◌>>◌, pure}
use call_agent.Followups.Lifecycle.{is_valid_follow_up_transition}
use call_agent.Followups.Service.{write_follow_up, audit}
use call_agent.Followups.Execution.{is_claimable, claimed_row, claim_due_follow_up}

abbrev IsStart : String → Type 0
IsStart status = is_valid_follow_up_transition status "processing" ≡ true

module _ (locked : ℕ → Bool) (context : TenantContext) (now : ℕ) where
  abbrev pub can_take : FollowUpAction → Bool
  can_take row = is_claimable context now row && not (locked row.id)

  -- No row that could be taken has a deadline before `u`.
  abbrev pub NoneBefore : ℕ → List FollowUpAction → Type 0
  NoneBefore u rows =
      All (λ other. can_take other ≡ true → (t : ℕ) → other.next_attempt_at ≡ some t → u ≤ t) rows

  -- A row that may be taken, due at a time that has come, with none due before it.
  abbrev pub IsEarliest : FollowUpAction → List FollowUpAction → Type 0
  IsEarliest row rows =
      (can_take row ≡ true)
      × ((u : ℕ) × (row.next_attempt_at ≡ some u) × (u ≤ now) × NoneBefore u rows)

  -- The claim of a row: one attempt more, now, with a lease of five minutes under an execution id,
  -- which a row that has one keeps. The other fields are as they were.
  abbrev pub claim_of : ℕ → FollowUpAction → FollowUpAction
  claim_of id row = record {
    id = row.id;
    tenant_id = row.tenant_id;
    call_session_id = row.call_session_id;
    contact_id = row.contact_id;
    type = row.type;
    status = "processing";
    due_at = row.due_at;
    calendar_event_id = row.calendar_event_id;
    description = row.description;
    attempt_count = suc row.attempt_count;
    next_attempt_at = some (now + 300000000);
    last_attempted_at = some now;
    completed_at = row.completed_at;
    failure_reason = row.failure_reason;
    execution_id = some id;
  }

  -- The row that is written and returned, and the table after it.
  abbrev pub IsClaim : FollowUpAction → Store → Type 0
  IsClaim row s =
      (id : ℕ) × (t : Store) × (claim_due_follow_up locked context now s
        ≡ ok (some (claim_of id row), t))
      × (t.follow_ups ≡ update_row (λ (r : FollowUpAction). r.id) (claim_of id row) s.follow_ups)
      × ((old : ℕ) → row.execution_id ≡ some old → id ≡ old)

  record_claim :
      (row : FollowUpAction) (id : ℕ) (s : Store)
      → (t : Store) × ((write_follow_up (claimed_row now id row) >>= λ row'.
              audit "follow_up.claimed" row' >> pure (some row'))
            s
          ≡ ok (some (claim_of id row), t))
        × (t.follow_ups ≡ update_row (λ (r : FollowUpAction). r.id) (claim_of id row) s.follow_ups)
  unfolding write_follow_up claimed_row
  record_claim row id s = (_, refl, refl)
