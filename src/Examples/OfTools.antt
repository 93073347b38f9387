-- ===== src/Examples/OfTools.antt =====
-- The theorems on the tool gateway at one registered tool.
use call_agent.Prelude.{ℕ, ◌≡◌, refl, true, false, none, some, List, [], ◌∷◌}
use call_agent.Prelude.Results.{ok}
use call_agent.Tools.{ToolDefinition, Registry, ToolBinding}
use call_agent.Tools.Gateway.{
  ToolResult, ToolCallRequested, handler_returned, timed_out, World, Gateway, new_gateway, execute,
}
use call_agent.Tools.Gateway.Guards.{IsGuarded, execute-IsGuarded}
use call_agent.Tools.Gateway.Cached.{
  IsCalm, GatewayCall, executing, forgetting, run, execute-execute,
}

-- Arguments, inputs and values are numbers.
abbrev hangup : ToolDefinition ℕ ℕ ℕ ℕ
hangup = record {
  tool_id = "call.hangup";
  permission_action = "hangup";
  validate_input = λ n. some n;
  validate_output = λ n. some n;
}

abbrev registry : Registry ℕ ℕ ℕ ℕ
registry = ("call.hangup", hangup) ∷ []

abbrev world : World ℕ ℕ ℕ
world = record {
  service_account = some 8;
  can = λ account action. true;
  handler = λ tool_id n. handler_returned n;
  before = λ g. g;
  during = λ g. g;
}

abbrev slow_world : World ℕ ℕ ℕ
slow_world = record {
  service_account = some 8;
  can = λ account action. true;
  handler = λ tool_id n. timed_out;
  before = λ g. g;
  during = λ g. g;
}

abbrev bindings : List ToolBinding
bindings = record { key = "call.hangup" } ∷ []

abbrev request : ToolCallRequested ℕ
request = record { call_id = "call-1"; name = "call.hangup"; arguments = 5 }

abbrev answer : ToolResult ℕ
answer = record { call_id = "call-1"; value = some 5; error_code = none; retryable = false }

answers : (execute registry world (new_gateway ℕ) 1 bindings request).0 ≡ ok answer
unfolding execute
answers = refl

abbrev between : List (GatewayCall ℕ ℕ ℕ ℕ)
between = executing slow_world 2 bindings request ∷ forgetting 2 ∷ []

calm :
    {w : World ℕ ℕ ℕ}
    → ((g : Gateway ℕ) → w.before g ≡ g)
    → ((g : Gateway ℕ) → w.during g ≡ g)
    → IsCalm w 1 "call-1" answer
calm p q = record { before = λ g e. rw (p g) e; during = λ g e. rw (q g) e }

execute-execute_example :
    let h = run registry (execute registry world (new_gateway ℕ) 1 bindings request).1 between in
    ((execute registry slow_world h 1 [] request).0 ≡ ok answer)
    × ((execute registry slow_world h 1 [] request).1.invoked ≡ (slow_world.before h).invoked)
execute-execute_example =
    execute-execute registry world slow_world (new_gateway ℕ) 1 bindings [] request request answer
      between answers (calm (λ g. refl) λ g. refl) (calm (λ g. refl) (λ g. refl), (refl, tt)) refl

-- The handler executes another request of its call.
abbrev advancing : World ℕ ℕ ℕ
advancing = record world {
  during = λ g.
      (execute registry slow_world g 1 bindings (record request { call_id = "call-1:step" })).1;
}

execute-IsGuarded_example :
    IsGuarded registry advancing
      (new_gateway ℕ)
      1
      bindings
      request
      (execute registry advancing (new_gateway ℕ) 1 bindings request)
execute-IsGuarded_example = execute-IsGuarded registry advancing (new_gateway ℕ) 1 bindings request
