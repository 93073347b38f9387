-- ===== src/Followups/RetryPolicy.antt =====
-- voiceagent/followups/retry_policy.py and voiceagent/call_intelligence/retry_policy.py: one
-- formula at two sets of constants. Delays are whole seconds: every float that the source computes
-- below its cap is one, and from the cap on the result is the cap, until 2 ** 1024 no longer
-- converts to a float.
use call_agent.Prelude.{
  ℕ, zero, suc, ◌-◌, ◌*◌, ◌^◌, ◌≤◌, ◌≡◌, refl, String, List, [], ◌∷◌, arith, ltb, if◌then◌else◌,
  Bool-cases, inl, inr, subst,
}
use call_agent.Prelude.Results.{Result, ok, err, ok_injective}
use call_agent.Store.Errors.{Error, value_error, overflow_error}

abbrev pub executable_types : List String
executable_types = "appointment" ∷ []

abbrev pub max_attempts : ℕ
max_attempts = 5

abbrev pub lease_seconds : ℕ
lease_seconds = 300

abbrev pub failure_reasons : List String
failure_reasons =
    "calendar_event_not_found" ∷ "calendar_event_cancelled" ∷ "max_attempts_exceeded"
    ∷ "unexpected_error" ∷ []

-- `BACKOFF_BASE_SECONDS` and `BACKOFF_CAP_SECONDS`
pub record Backoff : Type 0 where
  pub base : ℕ
  pub cap : ℕ

abbrev pub follow_up_backoff : Backoff
follow_up_backoff = record { base = 60; cap = 3600 }

abbrev pub analysis_backoff : Backoff
analysis_backoff = record { base = 30; cap = 900 }

-- Python's `min(a, b)`
abbrev min_of : ℕ → ℕ → ℕ
min_of a b = if ltb b a then b else a

unfoldable pub next_attempt_delay_seconds : Backoff → ℕ → Result Error ℕ
next_attempt_delay_seconds b attempt_count =
    if ltb attempt_count 1
    then err value_error
    else if ltb 1024 attempt_count
    then err overflow_error
    else ok (min_of (b.base * 2 ^ (attempt_count - 1)) b.cap)

pow_pos : (k : ℕ) → 1 ≤ 2 ^ k
pow_pos zero = omega arith
pow_pos (suc k) = omega (arith, pow_pos k)

min_of-bounds :
    (base p cap : ℕ)
    → base ≤ cap
    → 1 ≤ p
    → (base ≤ min_of (base * p) cap) × (min_of (base * p) cap ≤ cap)
min_of-bounds base zero cap h q = absurd (omega (arith, q))
min_of-bounds base (suc p) cap h q = elim (Bool-cases (ltb cap (base * suc p))) [
  | inl over ↦ (rw over h, rw over (omega arith))
  | inr under ↦ (rw under (omega arith), rw under (ground arith))
]

-- If the base is at most the cap, a delay that `next_attempt_delay_seconds` returns lies between
-- them, and there is one exactly for the attempt counts from 1 to 1024.
pub next_attempt_delay_seconds-bounds :
    (b : Backoff) (attempt_count : ℕ)
    → b.base ≤ b.cap
    → ((delay : ℕ)
        → next_attempt_delay_seconds b attempt_count ≡ ok delay
        → (b.base ≤ delay) × (delay ≤ b.cap) × (1 ≤ attempt_count) × (attempt_count ≤ 1024))
      × (1 ≤ attempt_count
          → attempt_count ≤ 1024
          → (delay : ℕ) × (next_attempt_delay_seconds b attempt_count ≡ ok delay))
unfolding next_attempt_delay_seconds
next_attempt_delay_seconds-bounds b attempt_count h = elim (Bool-cases (ltb attempt_count 1)) [
  | inl none' ↦ ((λ delay p. absurd (not_ok (rw none' at p))), λ l u. absurd (ground arith))
  | inr some' ↦ elim (Bool-cases (ltb 1024 attempt_count)) [
    | inl over ↦
        ((λ delay p. absurd (not_ok (rw some' at (rw over at p)))), λ l u. absurd (ground arith))
    | inr under ↦
        let (low, high) =
          min_of-bounds b.base (2 ^ (attempt_count - 1)) b.cap h (pow_pos (attempt_count - 1)) in
        (
          (λ delay p.
              let same = ok_injective (rw some' at (rw under at p)) in
              (
                subst (λ x. b.base ≤ x) same low,
                subst (λ x. x ≤ b.cap) same high,
                ground arith,
                ground arith,
              )),
          λ l u. (min_of (b.base * 2 ^ (attempt_count - 1)) b.cap, rw some' (rw under refl)),
        )
  ]
]
  where
    not_ok : {x : Error} {d : ℕ} → ◌≡◌ {A = Result Error ℕ} (err x) (ok d) → ⊥
    not_ok q = cc
