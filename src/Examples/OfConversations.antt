-- ===== src/Examples/OfConversations.antt =====
-- The theorems on conversations at a call with two turns.
use call_agent.Prelude.{◌≡◌, refl, none, some, List, [], ◌∷◌}
use call_agent.Prelude.Results.{ok}
use call_agent.Store.{Store}
use call_agent.Store.Rows.{ConversationTurn}
use call_agent.Conversations.{NewTurn, new_turn, persist_conversation_turn}
use call_agent.Conversations.Persisted.{Persist, run}
use call_agent.Conversations.Numbers.{IsDense, run-IsDense}
use call_agent.Conversations.Once.{persist-persist}
use call_agent.Examples.{tenant, call_with, store_with, returned}

abbrev talking : Store
talking = store_with (call_with 1 "in_progress" none none) []

abbrev said : NewTurn
said = record { event_id = "e1"; role = "user"; content = some "Guten Tag"; tool_payload = none }

abbrev said_again : NewTurn
said_again = record { event_id = "e1"; role = "user"; content = some "Hallo"; tool_payload = none }

abbrev replied : NewTurn
replied = record {
  event_id = "e2";
  role = "assistant";
  content = some "Praxis";
  tool_payload = none;
}

abbrev history : List Persist
history =
    record { context = tenant; call_session_id = 1; turn = replied }
    ∷ record { context = tenant; call_session_id = 9; turn = said }
    ∷ record { context = tenant; call_session_id = 1; turn = said }
    ∷ []

run-IsDense_example : IsDense 1 (run talking history).turns
run-IsDense_example = run-IsDense talking history 1 refl

abbrev first : ConversationTurn × Store
first =
    returned (new_turn tenant 1 said 0 0, talking) (persist_conversation_turn tenant 1 said talking)

persists : persist_conversation_turn tenant 1 said talking ≡ ok (first.0, first.1)
unfolding persist_conversation_turn
persists = refl

abbrev again : ConversationTurn × Store
again =
    returned (new_turn tenant 1 said 0 0, talking)
      (persist_conversation_turn tenant 1 said_again (run first.1 history))

persists_again :
    persist_conversation_turn tenant 1 said_again (run first.1 history) ≡ ok (again.0, again.1)
unfolding persist_conversation_turn run
persists_again = refl

persist-persist_example : (again.0 ≡ first.0) × (again.1 ≡ run first.1 history)
persist-persist_example =
    persist-persist tenant 1 said said_again talking first.1 again.1 first.0 again.0 history
      persists refl refl persists_again
