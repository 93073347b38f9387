-- ===== src/Calls/Service/History/Results.antt =====
-- Histories of voiceagent/calls/service.py: induction over them, and the row of one call along them.
use call_agent.Prelude.{ℕ, ℤ, ◌≡◌, refl, subst, String, Option, none, some, List, [], ◌∷◌, All}
use call_agent.Prelude.Eq.{string_eq}
use call_agent.Prelude.Sets.{◌∈◌}
use call_agent.Store.{Store}
use call_agent.Store.Rows.{CallSession}
use call_agent.Calls.Lifecycle.{terminal_statuses}
use call_agent.Calls.Service.{new_call}
use call_agent.Calls.Service.Rows.{row, Change}
use call_agent.Calls.Service.Changes.{
  IsCallValid, IsFrozen, IsFrozen-trans, Change-IsCallValid, Change-IsFrozen, owner-Change,
}
use call_agent.Calls.Service.History.{
  Operation, perform, replay, renames, RowStep, same, changed, created, perform-RowStep,
}

-- A statement about the row of a call, if there is one.
abbrev pub Holds : (CallSession → Type 0) → Option CallSession → Type 0
Holds P none = Unit
Holds P (some c) = P c

module _ (millis : ℕ → ℕ → ℤ) (foreign_keys : CallSession → Option String) (id : ℕ) where
  -- Induction over a history, for a statement that every change of the row keeps. `Q` is what is
  -- known of the owners that the transitions write.
  history_keeps :
      (Q : Option String → Type 0) (P : Option CallSession → Type 0)
      → ((name : Option String) (o o' : Option CallSession)
          → Q name
          → RowStep millis name o o'
          → P o
          → P o')
      → (operations : List Operation) (s : Store) → All (λ o. Q (renames o)) operations
      → P (row s id)
      → P (row (replay millis foreign_keys operations s) id)
  unfolding replay
  history_keeps Q P keeps [] s named h = h
  history_keeps Q P keeps (o ∷ rest) s named h =
      history_keeps Q P keeps rest (perform millis foreign_keys o s) named.1 (
        keeps (renames o) (row s id) (row (perform millis foreign_keys o s) id) named.0
          (perform-RowStep millis foreign_keys o s id) h)

  any_names : (operations : List Operation) → All (λ _. Unit {0}) operations
  any_names [] = tt
  any_names (o ∷ rest) = (tt, any_names rest)

  valid_step :
      (name : Option String) (o o' : Option CallSession)
      → Unit {0}
      → RowStep millis name o o'
      → Holds IsCallValid o
      → Holds IsCallValid o'
  unfolding new_call
  valid_step name o o' u same h = h
  valid_step name o o' u (changed change) h = Change-IsCallValid millis name change h
  valid_step name o o' u (created context k now n) h = record {
    status_valid = refl;
    ended_iff = refl;
  }

  -- From a store in which the call's row is valid or not there, after any operations, each begun after
  -- the one before has ended, the row has one of the seven statuses, and it has an end time exactly if
  -- its status is terminal. Transitions that overlap in time are not covered.
  pub replay-IsCallValid :
      (operations : List Operation) (s : Store)
      → Holds IsCallValid (row s id)
      → Holds IsCallValid (row (replay millis foreign_keys operations s) id)
  replay-IsCallValid operations s =
      history_keeps (λ _. Unit {0}) (Holds IsCallValid) valid_step operations s
        (any_names operations)

  module _ (c : CallSession) where
    abbrev pub Stays : Option CallSession → Type 0
    Stays o = (c' : CallSession) × (o ≡ some c') × IsFrozen c c'

    pub Stays-step :
        c.status ∈ terminal_statuses
        → (name : Option String) (o o' : Option CallSession) → Unit {0}
        → RowStep millis name o o'
        → Stays o
        → Stays o'
    Stays-step over name o o' u same h = h
    Stays-step over name o o' u (changed {c = a} {c' = b} change) (x, e, f) =
        let p : x ≡ a = cc in
        let g : IsFrozen c a = subst (IsFrozen c) p f in
        (
          b,
          refl,
          IsFrozen-trans c a b g (Change-IsFrozen millis name change (rw g.status_kept over)),
        )
    Stays-step over name o o' u (created context k now n) (x, e, f) = cc

  module _ (r : String) where
    abbrev Owned : Option CallSession → Type 0
    Owned o = (c : CallSession) × (o ≡ some c) × (c.runtime_instance_id ≡ some r)

    Owned-step :
        (name : Option String) (o o' : Option CallSession)
        → name ≡ none
        → RowStep millis name o o'
        → Owned o
        → Owned o'
    Owned-step name o o' u same h = h
    Owned-step name o o' u (changed {c = a} {c' = b} change) (x, e, f) =
        let p : a.runtime_instance_id ≡ some r = cc in
        (b, refl, (owner-Change millis (subst (λ z. Change millis z a b) u change) p).0)
    Owned-step name o o' u (created context k now n) (x, e, f) = cc

    -- Once a runtime owns a call it stays the owner through any sequence of operations, other
    -- runtimes' claims included, as long as no transition writes an owner itself.
    pub ownership_is_exclusive :
        (operations : List Operation) (s : Store) (c : CallSession)
        → row s id ≡ some c
        → c.runtime_instance_id ≡ some r
        → All (λ o. renames o ≡ none) operations
        → (c' : CallSession) × (row (replay millis foreign_keys operations s) id ≡ some c')
          × (c'.runtime_instance_id ≡ some r)
    ownership_is_exclusive operations s c e f quiet =
        history_keeps (λ name. name ≡ none) Owned Owned-step operations s quiet (c, e, f)
