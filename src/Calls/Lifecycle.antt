-- ===== src/Calls/Lifecycle.antt =====
-- voiceagent/calls/lifecycle.py, over texts as in the source.
use call_agent.Prelude.{
  ℕ, ◌<◌, ◌≡◌, ◌≢◌, String, Bool, true, false, List, [], ◌∷◌, inl, inr, arith, eq_iff,
  if◌then◌else◌, Bool-cases,
}
use call_agent.Prelude.Eq.{◌==◌, string_eq}
use call_agent.Prelude.Sets.{elem, ◌∈◌, get_set, get_set-All}

abbrev pub valid_statuses : List String
valid_statuses =
    "initiated" ∷ "ringing" ∷ "answered" ∷ "in_progress" ∷ "completed" ∷ "failed" ∷ "interrupted"
    ∷ []

abbrev pub terminal_statuses : List String
terminal_statuses = "completed" ∷ "failed" ∷ "interrupted" ∷ []

abbrev transitions : List (String × List String)
transitions =
    ("initiated", "ringing" ∷ "answered" ∷ "failed" ∷ "interrupted" ∷ [])
    ∷ ("ringing", "answered" ∷ "failed" ∷ "interrupted" ∷ [])
    ∷ ("answered", "in_progress" ∷ "completed" ∷ "failed" ∷ "interrupted" ∷ [])
    ∷ ("in_progress", "completed" ∷ "failed" ∷ "interrupted" ∷ [])
    ∷ ("completed", [])
    ∷ ("failed", [])
    ∷ ("interrupted", [])
    ∷ []

unfoldable pub is_valid_transition : String → String → Bool
is_valid_transition current target =
    if current == target then true else elem target (get_set transitions current)

-- How far a call has come.
abbrev pub phase : String → ℕ
phase s =
    if elem s terminal_statuses
    then 4
    else if s == "in_progress"
    then 3
    else if s == "answered"
    then 2
    else if s == "ringing"
    then 1
    else 0

proper_transition :
    (current target : String)
    → is_valid_transition current target ≡ true
    → current ≢ target
    → target ∈ get_set transitions current
unfolding is_valid_transition
proper_transition current target h n = ground (arith, eq_iff current target, n)

-- A legal transition to another status goes forward.
pub phase-lt :
    (current target : String)
    → is_valid_transition current target ≡ true
    → current ≢ target
    → phase current < phase target
phase-lt current target h n =
    get_set-All (λ s t. phase s < phase t) transitions current target (omega arith)
      (proper_transition current target h n)

-- The targets of the table are statuses.
pub transition_valid :
    (current target : String)
    → is_valid_transition current target ≡ true
    → current ≢ target
    → target ∈ valid_statuses
transition_valid current target h n =
    get_set-All (λ s t. t ∈ valid_statuses) transitions current target (ground arith)
      (proper_transition current target h n)

-- No legal transition leaves a terminal status.
pub terminal_stays :
    (current target : String)
    → current ∈ terminal_statuses
    → is_valid_transition current target ≡ true
    → current ≡ target
terminal_stays current target m h = elim (Bool-cases (current == target)) [
  | inl same ↦ (eq_iff current target).0 same
  | inr other ↦ absurd (
      live_source (
        get_set-All (λ s t. elem s terminal_statuses ≡ false) transitions current target
          (ground arith)
          (proper_transition current target h (λ p. ground (arith, eq_iff current target)))))
]
  where
    live_source : elem current terminal_statuses ≡ false → ⊥
    live_source p = cc
