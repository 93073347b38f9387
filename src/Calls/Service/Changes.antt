-- ===== src/Calls/Service/Changes.antt =====
-- A change of a call's row in voiceagent/calls/service.py, and what it may touch.
use call_agent.Prelude.{
  ℕ, ℤ, ◌≤◌, ◌≡◌, refl, ap, ◌∙◌, String, Bool, true, false, Option, none, some, arith,
  if◌then◌else◌, is_some, Bool-cases, inl, inr,
}
use call_agent.Prelude.Eq.{string_eq}
use call_agent.Prelude.Sets.{elem, ◌∈◌}
use call_agent.Store.Rows.{CallSession}
use call_agent.Calls.Lifecycle.{
  valid_statuses, terminal_statuses, phase, phase-lt, transition_valid, terminal_stays,
}
use call_agent.Calls.Service.{redelivered, advanced}
use call_agent.Calls.Service.Rows.{Change, activated, owned, associated, repeated, moved}

-- The status is one of the seven, and the call has an end exactly if the status is terminal.
pub record IsCallValid (c : CallSession) : Type 0 where
  pub status_valid : c.status ∈ valid_statuses
  pub ended_iff : is_some c.ended_at ≡ elem c.status terminal_statuses

-- What a terminal call never loses.
pub record IsFrozen (c c' : CallSession) : Type 0 where
  pub status_kept : c'.status ≡ c.status
  pub answered_at_kept : c'.answered_at ≡ c.answered_at
  pub ended_at_kept : c'.ended_at ≡ c.ended_at
  pub duration_ms_kept : c'.duration_ms ≡ c.duration_ms
  pub hangup_cause_kept : c'.hangup_cause ≡ c.hangup_cause
  pub end_reason_kept : c'.end_reason ≡ c.end_reason

pub IsFrozen-refl : (c : CallSession) → IsFrozen c c
IsFrozen-refl c = ground arith

pub IsFrozen-trans : (a b c : CallSession) → IsFrozen a b → IsFrozen b c → IsFrozen a c
IsFrozen-trans a b c h k = ground arith

module _ (millis : ℕ → ℕ → ℤ) (name : Option String) where
  pub Change-IsCallValid :
      {c c' : CallSession} → Change millis name c c' → IsCallValid c → IsCallValid c'
  unfolding redelivered advanced
  Change-IsCallValid {c = c} (activated first) v = record {
    status_valid = refl;
    ended_iff = v.ended_iff ∙ ap (λ s. elem s terminal_statuses) first;
  }
  Change-IsCallValid (owned r now free) v = record {
    status_valid = v.status_valid;
    ended_iff = v.ended_iff;
  }
  Change-IsCallValid (associated k) v = record {
    status_valid = v.status_valid;
    ended_iff = v.ended_iff;
  }
  Change-IsCallValid (repeated now t writes same) v = record {
    status_valid = v.status_valid;
    ended_iff = v.ended_iff;
  }
  Change-IsCallValid {c = c} (moved now t writes legal new) v = record {
    status_valid = transition_valid c.status t.to_status legal new;
    ended_iff = elim (Bool-cases (elem c.status terminal_statuses)) [
      | inl over ↦ absurd (new (terminal_stays c.status t.to_status over legal))
      | inr live ↦ ended (elem t.to_status terminal_statuses) (v.ended_iff ∙ live)
    ];
  }
    where
      ended :
          (ends : Bool)
          → is_some c.ended_at ≡ false
          → is_some (if ends then some now else c.ended_at) ≡ ends
      ended true p = refl
      ended false p = p

  pub Change-IsFrozen :
      {c c' : CallSession} → Change millis name c c' → c.status ∈ terminal_statuses → IsFrozen c c'
  unfolding redelivered advanced
  Change-IsFrozen {c = c} (activated first) h =
      absurd (live (ap (λ s. elem s terminal_statuses) first) h)
    where
      live : elem c.status terminal_statuses ≡ false → c.status ∈ terminal_statuses → ⊥
      live p q = cc
  Change-IsFrozen {c = c} (owned r now free) h = ground arith
  Change-IsFrozen {c = c} (associated k) h = ground arith
  Change-IsFrozen {c = c} (repeated now t writes same) h = ground arith
  Change-IsFrozen {c = c} (moved now t writes legal new) h =
      absurd (new (terminal_stays c.status t.to_status h legal))

  pub phase-Change :
      {c c' : CallSession} → Change millis name c c' → phase c.status ≤ phase c'.status
  unfolding redelivered advanced
  phase-Change (activated first) = rw first (omega arith)
  phase-Change (owned r now free) = omega arith
  phase-Change (associated k) = omega arith
  phase-Change (repeated now t writes same) = omega arith
  phase-Change {c = c} (moved now t writes legal new) =
      omega (arith, phase-lt c.status t.to_status legal new)

-- Unless the transition writes an owner, an owned call keeps its owner and the time of the claim.
pub owner-Change :
    (millis : ℕ → ℕ → ℤ) {c c' : CallSession} {r : String}
    → Change millis none c c'
    → c.runtime_instance_id ≡ some r
    → (c'.runtime_instance_id ≡ some r) × (c'.runtime_assigned_at ≡ c.runtime_assigned_at)
unfolding redelivered advanced
owner-Change millis (activated first) e = (e, refl)
owner-Change millis (owned r now free) e = cc
owner-Change millis (associated k) e = (e, refl)
owner-Change millis (repeated now t writes same) e = rw writes (e, refl)
owner-Change millis (moved now t writes legal new) e = rw writes (e, refl)
