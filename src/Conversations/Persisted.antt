-- ===== src/Conversations/Persisted.antt =====
-- What `persist_conversation_turn` does to the table, and histories of its calls.
use call_agent.Prelude.{
  ℕ, ◌≡◌, ◌⊎◌, inl, inr, refl, sym, ap, ◌∙◌, not, Option, none, some, List, [], ◌∷◌, ◌++◌,
  find_first,
}
use call_agent.Prelude.Eq.{nat_eq, string_eq}
use call_agent.Prelude.Sets.{elem}
use call_agent.Prelude.Results.{Result, ok, err}
use call_agent.Store.{Store}
use call_agent.Store.Rows.{TenantContext, ConversationTurn}
use call_agent.Store.Errors.{Error, integrity_error, invalid_conversation_turn}
use call_agent.Store.Tx.{store_after, raise_if-bind, committed}
use call_agent.Calls.Service.Rows.{with_row}
use call_agent.Conversations.{
  roles, NewTurn, is_turn_of, next_sequence, has_shape, new_turn, add_turn, persist_found,
  persist_conversation_turn,
}

-- What a committed `persist_conversation_turn` did: it found the turn, or it appended a new one.
pub record IsAdded (context : TenantContext) (id : ℕ) (n : NewTurn) (turn : ConversationTurn)
    (s t : Store) : Type 0 where
  pub appended : t.turns ≡ s.turns ++ turn ∷ []
  pub made : turn ≡ new_turn context id n s.supply (next_sequence id s.turns)

abbrev pub IsPersisted : TenantContext → ℕ → NewTurn → ConversationTurn → Store → Store → Type 0
IsPersisted context id n turn s t =
    ((t ≡ s) × (find_first (is_turn_of context id n.event_id n.role) s.turns ≡ some turn))
    ⊎ ((find_first (is_turn_of context id n.event_id n.role) s.turns ≡ none)
        × IsAdded context id n turn s t)

pub persist_conversation_turn-IsPersisted :
    (context : TenantContext) (id : ℕ) (n : NewTurn) (s t : Store) (turn : ConversationTurn)
    → persist_conversation_turn context id n s ≡ ok (turn, t)
    → IsPersisted context id n turn s t
unfolding persist_conversation_turn
persist_conversation_turn-IsPersisted context id n s t turn h =
    let (listed, h₁) =
      raise_if-bind (not (elem n.role roles)) invalid_conversation_turn _ s t turn h in
    with_row context id _ s t turn h₁ λ c at mine key rest.
      go (find_first (is_turn_of context id n.event_id n.role) s.turns) refl rest
  where
    added : (add_turn context id n s ≡ ok (turn, t)) → IsAdded context id n turn s t
    added p =
        unfold add_turn in
        let (same, kept) = committed p in
        record {
          appended = ap (λ x. x.turns) (sym kept) ∙ ap (λ x. s.turns ++ x ∷ []) same;
          made = sym same;
        }

    go :
        (o : Option ConversationTurn)
        → find_first (is_turn_of context id n.event_id n.role) s.turns ≡ o
        → persist_found context id n o s ≡ ok (turn, t)
        → IsPersisted context id n turn s t
    go (some existing) e p = let (same, kept) = committed p in inl (sym kept, e ∙ ap some same)
    go none e p =
        let (shaped, p₁) =
          raise_if-bind (not (has_shape n)) (integrity_error "ck_conversation_turns_payload_shape")
            _ s t turn p in
        inr (e, added p₁)

-- One call of `persist_conversation_turn` in a history; one that raises leaves the store.
pub record Persist : Type 0 where
  pub context : TenantContext
  pub call_session_id : ℕ
  pub turn : NewTurn

abbrev pub step : Store → Persist → Store
step s p = store_after s (persist_conversation_turn p.context p.call_session_id p.turn s)

unfoldable pub run : Store → List Persist → Store
unfolding persist_conversation_turn
run s [] = s
run s (p ∷ history) = run (step s p) history

-- What every committed call keeps, a history keeps.
pub run_keeps :
    (P : Store → Type 0)
    → ((p : Persist) (s t : Store) (turn : ConversationTurn)
        → IsPersisted p.context p.call_session_id p.turn turn s t
        → P s
        → P t)
    → (s : Store) (history : List Persist) → P s
    → P (run s history)
unfolding run
run_keeps P k s [] h = h
run_keeps P k s (p ∷ history) h =
    run_keeps P k (step s p) history
      (go (persist_conversation_turn p.context p.call_session_id p.turn s) refl)
  where
    go :
        (r : Result Error (ConversationTurn × Store))
        → persist_conversation_turn p.context p.call_session_id p.turn s ≡ r
        → P (store_after s r)
    go (err x) e = h
    go (ok (turn, t)) e =
        k p s t turn
          (persist_conversation_turn-IsPersisted p.context p.call_session_id p.turn s t turn e) h
