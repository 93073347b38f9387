-- ===== src/Conversations.antt =====
-- voiceagent/conversations/service.py: the turns of a call. The lock on the call's row makes the
-- writers of one call's turns wait for each other, so a history is a sequence of transactions.
pub mod Persisted
pub mod Numbers
pub mod Once
use call_agent.Prelude.{
  ℕ, zero, suc, String, Bool, true, false, not, ◌&&◌, Option, none, some, List, [], ◌∷◌, ◌++◌,
  filter, find_first, length, leb, is_some, is_none, if◌then◌else◌,
}
use call_agent.Prelude.Eq.{◌==◌, nat_eq, string_eq}
use call_agent.Prelude.Sets.{elem}
use call_agent.Prelude.Results.{Result, ok, err}
use call_agent.Store.{Store}
use call_agent.Store.Rows.{TenantContext, CallSession, ConversationTurn}
use call_agent.Store.Errors.{Error, integrity_error, invalid_conversation_turn}
use call_agent.Store.Tx.{Tx, ◌>>=◌, ◌>>◌, pure, raise_if, gets, modify, new_uuid}
use call_agent.Calls.Service.{get_row, get_row_for_update}

-- `ROLES`
abbrev pub roles : List String
roles = "system" ∷ "user" ∷ "assistant" ∷ "tool_call" ∷ "tool_result" ∷ []

-- The arguments of `persist_conversation_turn`; a payload is known by its name, if it has one.
pub record NewTurn : Type 0 where
  pub event_id : String
  pub role : String
  pub content : Option String
  pub tool_payload : Option (Option String)

-- The query for the turn of this event and role.
abbrev pub is_turn_of : TenantContext → ℕ → String → String → ConversationTurn → Bool
is_turn_of context call_session_id event_id role turn =
    turn.tenant_id == context.tenant_id
    && turn.call_session_id == call_session_id
    && turn.event_id == event_id
    && turn.role == role

abbrev pub max_of : ℕ → ℕ → ℕ
max_of a b = if leb a b then b else a

-- `(max(existing_sequences) if existing_sequences else -1) + 1`
unfoldable pub next_sequence : ℕ → List ConversationTurn → ℕ
next_sequence call_session_id [] = 0
next_sequence call_session_id (turn ∷ turns) =
    let rest = next_sequence call_session_id turns in
    if turn.call_session_id == call_session_id then max_of (suc turn.sequence) rest else rest

abbrev payload_name : Option (Option String) → Option String
payload_name none = none
payload_name (some name) = name

-- `ck_conversation_turns_payload_shape`
unfoldable pub has_shape : NewTurn → Bool
has_shape n =
    if elem n.role ("system" ∷ "user" ∷ "assistant" ∷ [])
    then is_some n.content && is_none n.tool_payload
    else elem n.role ("tool_call" ∷ "tool_result" ∷ []) && is_some n.tool_payload

abbrev pub new_turn : TenantContext → ℕ → NewTurn → ℕ → ℕ → ConversationTurn
new_turn context call_session_id n id sequence = record {
  id = id;
  tenant_id = context.tenant_id;
  call_session_id = call_session_id;
  event_id = n.event_id;
  sequence = sequence;
  role = n.role;
  content = n.content;
  tool_name = payload_name n.tool_payload;
}

unfoldable pub add_turn : TenantContext → ℕ → NewTurn → Tx ConversationTurn
unfolding next_sequence
add_turn context call_session_id n s =
    let turn =
      new_turn context call_session_id n s.supply (next_sequence call_session_id s.turns) in
    ok (turn, record s { supply = suc s.supply; turns = s.turns ++ turn ∷ [] })

abbrev pub insert_turn : TenantContext → ℕ → NewTurn → Tx ConversationTurn
insert_turn context call_session_id n =
    raise_if (not (has_shape n)) (integrity_error "ck_conversation_turns_payload_shape")
    >> add_turn context call_session_id n

abbrev pub persist_found :
    TenantContext → ℕ → NewTurn → Option ConversationTurn → Tx ConversationTurn
persist_found context call_session_id n (some existing) = pure existing
persist_found context call_session_id n none = insert_turn context call_session_id n

-- `_lock_call_session`
abbrev pub lock_call_session : TenantContext → ℕ → Tx CallSession
lock_call_session = get_row_for_update

unfoldable pub persist_conversation_turn : TenantContext → ℕ → NewTurn → Tx ConversationTurn
unfolding get_row has_shape add_turn
persist_conversation_turn context call_session_id n = do
  raise_if (not (elem n.role roles)) invalid_conversation_turn
  call ← lock_call_session context call_session_id
  existing ← gets (λ s. find_first (is_turn_of context call_session_id n.event_id n.role) s.turns)
  persist_found context call_session_id n existing

abbrev pub is_of_call : TenantContext → ℕ → ConversationTurn → Bool
is_of_call context call_session_id turn =
    turn.tenant_id == context.tenant_id && turn.call_session_id == call_session_id

-- A deletion of no rows writes nothing.
unfoldable pub delete_conversation_turns : TenantContext → ℕ → Tx ℕ
unfolding get_row
delete_conversation_turns context call_session_id = do
  call ← lock_call_session context call_session_id
  count ← gets (λ s. length (filter (is_of_call context call_session_id) s.turns))
  modify
      (λ s. record s { turns = filter (λ t. not (is_of_call context call_session_id t)) s.turns })
  pure count
