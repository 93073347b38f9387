-- ===== src/Conversations/Once.antt =====
-- Each event of a call is persisted once.
use call_agent.Prelude.{
  none-some, some_injective, ℕ, ◌≡◌, inl, inr, refl, sym, ◌∙◌, subst, String, true, some, List, [],
  ◌∷◌, find_first, find_first-append, find_first-append_none,
}
use call_agent.Prelude.Eq.{nat_eq, string_eq, beq_refl}
use call_agent.Prelude.Results.{ok}
use call_agent.Store.{Store}
use call_agent.Store.Rows.{TenantContext, ConversationTurn}
use call_agent.Conversations.{NewTurn, is_turn_of, persist_conversation_turn}
use call_agent.Conversations.Persisted.{
  IsPersisted, persist_conversation_turn-IsPersisted, Persist, run, run_keeps,
}

IsPersisted-found :
    (context : TenantContext) (id : ℕ) (n : NewTurn) (s t : Store) (turn : ConversationTurn)
    → IsPersisted context id n turn s t
    → find_first (is_turn_of context id n.event_id n.role) t.turns ≡ some turn
IsPersisted-found context id n s t turn (inl (same, found)) = rw same found
IsPersisted-found context id n s t turn (inr (new, a)) = rw a.appended (
    find_first-append_none (is_turn_of context id n.event_id n.role) s.turns turn new (
      subst (λ x. is_turn_of context id n.event_id n.role x ≡ true) (sym a.made)
        (rw (beq_refl context.tenant_id, beq_refl id, beq_refl n.event_id, beq_refl n.role) refl)))

kept_found :
    (context : TenantContext) (id : ℕ) (event_id role : String) (turn : ConversationTurn)
    (p : Persist) (s t : Store) (other : ConversationTurn)
    → IsPersisted p.context p.call_session_id p.turn other s t
    → find_first (is_turn_of context id event_id role) s.turns ≡ some turn
    → find_first (is_turn_of context id event_id role) t.turns ≡ some turn
kept_found context id event_id role turn p s t other (inl (same, found)) h = rw same h
kept_found context id event_id role turn p s t other (inr (new, a)) h =
    rw a.appended
      (find_first-append (is_turn_of context id event_id role) s.turns (other ∷ []) turn h)

-- An event that is delivered again: after a committed `persist_conversation_turn` and any history of
-- others, a call with the same tenant, call, event and role that commits returns the same turn and
-- changes nothing, whatever its content and payload.
pub persist-persist :
    (context : TenantContext) (id : ℕ) (n m : NewTurn) (s t u : Store)
    (turn again : ConversationTurn) (history : List Persist)
    → persist_conversation_turn context id n s ≡ ok (turn, t)
    → m.event_id ≡ n.event_id
    → m.role ≡ n.role
    → persist_conversation_turn context id m (run t history) ≡ ok (again, u)
    → (again ≡ turn) × (u ≡ run t history)
persist-persist context id n m s t u turn again history h event role k =
    let first =
      IsPersisted-found context id n s t turn
        (persist_conversation_turn-IsPersisted context id n s t turn h) in
    let there =
      run_keeps (λ v. find_first (is_turn_of context id n.event_id n.role) v.turns ≡ some turn)
        (kept_found context id n.event_id n.role turn) t history first in
    go (rw (event, role) there)
      (persist_conversation_turn-IsPersisted context id m (run t history) u again k)
  where
    go :
        find_first (is_turn_of context id m.event_id m.role) (run t history).turns ≡ some turn
        → IsPersisted context id m again (run t history) u
        → (again ≡ turn) × (u ≡ run t history)
    go e (inl (same, found)) = (some_injective (sym found ∙ e), same)
    go e (inr (new, a)) = absurd (none-some (sym new ∙ e))
