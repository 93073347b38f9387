-- ===== src/Followups/Lifecycle.antt =====
-- voiceagent/followups/lifecycle.py, and the value sets of voiceagent/followups/models.py.
use call_agent.Prelude.{
  ◌≡◌, String, Bool, true, false, List, [], ◌∷◌, arith, eq_iff, if◌then◌else◌, Bool-cases, inl, inr,
}
use call_agent.Prelude.Eq.{◌==◌, string_eq}
use call_agent.Prelude.Sets.{elem, ◌∈◌, get_set, get_set-All}

abbrev pub valid_statuses : List String
valid_statuses = "pending" ∷ "processing" ∷ "completed" ∷ "cancelled" ∷ "failed" ∷ []

abbrev pub terminal_statuses : List String
terminal_statuses = "completed" ∷ "cancelled" ∷ []

abbrev pub transitions : List (String × List String)
transitions =
    ("pending", "processing" ∷ "completed" ∷ "cancelled" ∷ [])
    ∷ ("processing", "completed" ∷ "failed" ∷ [])
    ∷ ("failed", "processing" ∷ "cancelled" ∷ [])
    ∷ ("completed", [])
    ∷ ("cancelled", [])
    ∷ []

unfoldable pub is_valid_follow_up_transition : String → String → Bool
is_valid_follow_up_transition current target =
    if current == target then true else elem target (get_set transitions current)

abbrev pub outcome_values : List String
outcome_values =
    "resolved" ∷ "appointment_scheduled" ∷ "follow_up_required" ∷ "no_answer" ∷ "wrong_number"
    ∷ "not_interested" ∷ []

abbrev pub follow_up_types : List String
follow_up_types = "appointment" ∷ "contact" ∷ "manual_follow_up" ∷ []

-- No legal transition leaves a terminal status.
pub terminal_stays :
    (current target : String)
    → current ∈ terminal_statuses
    → is_valid_follow_up_transition current target ≡ true
    → current ≡ target
unfolding is_valid_follow_up_transition
terminal_stays current target m h = elim (Bool-cases (current == target)) [
  | inl same ↦ (eq_iff current target).0 same
  | inr other ↦ absurd (
      live_source (
        get_set-All (λ s t. elem s terminal_statuses ≡ false) transitions current target
          (ground arith) (ground arith)))
]
  where
    live_source : elem current terminal_statuses ≡ false → ⊥
    live_source p = cc
