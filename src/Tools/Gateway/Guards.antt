-- ===== src/Tools/Gateway/Guards.antt =====
-- When a tool's handler runs.
use call_agent.Prelude.{
  none-some, some_injective, true-false, ℕ, ◌≡◌, ◌⊎◌, inl, inr, refl, sym, ◌∙◌, subst, String, Bool,
  true, false, Option, none, some, List, ◌∷◌,
}
use call_agent.Prelude.Results.{ok, err}
use call_agent.Prelude.Eq.{string_eq}
use call_agent.Prelude.Sets.{◌∈◌}
use call_agent.Tools.{
  ToolDefinition, Registry, resolve, ToolBinding, allowed_tool_ids, is_tool_allowed,
}
use call_agent.Tools.Gateway.{
  ToolResult, ToolCallRequested, HandlerOutcome, timed_out, handler_cancelled, handler_crashed,
  execution_error, handler_returned, World, Invocation, Gateway, cached, Execution, remember,
  run_handler, checked_output, remembered, invoke, refused, is_authorized, if_authorized, if_valid,
  if_allowed, if_known, unless_cached, execute,
}

module _ {Arguments Input Output Value : Type 0} (registry : Registry Arguments Input Output Value)
    (w : World Input Output Value) (g : Gateway Value) (call_session_id : ℕ)
    (tools : List ToolBinding) (request : ToolCallRequested Arguments) where
  -- Every guard of `execute`.
  pub record IsPassed : Type 0 where
    pub new : cached g call_session_id request.call_id ≡ none
    pub definition : ToolDefinition Arguments Input Output Value
    pub known : resolve registry request.name ≡ some definition
    pub allowed : definition.tool_id ∈ allowed_tool_ids tools
    pub input : Input
    pub valid : definition.validate_input request.arguments ≡ some input
    pub account : ℕ
    pub active : w.service_account ≡ some account
    pub authorized : w.can account definition.permission_action ≡ true

  -- An answer without a run of a handler: the cached result, or a result without a value. The log of
  -- the runs is what the other tasks made of it.
  abbrev pub IsRefusal : Execution Value → Type 0
  IsRefusal x =
      (x.1.invoked ≡ (w.before g).invoked)
      × (r : ToolResult Value) × (x.0 ≡ ok r)
      × ((cached g call_session_id request.call_id ≡ some r) ⊎ (r.value ≡ none))

  -- A run of the tool's handler, once, from a gateway that the other tasks left to what they and the
  -- handler made of it.
  abbrev pub IsRun : IsPassed → Execution Value → Type 0
  IsRun p x =
      (h : Gateway Value) × (h.invoked
        ≡ record {
          call_session_id = call_session_id;
          call_id = request.call_id;
          tool_id = p.definition.tool_id;
        }
          ∷ (w.before g).invoked)
      × (x.1.invoked ≡ (w.during h).invoked)

  abbrev pub IsGuarded : Execution Value → Type 0
  IsGuarded x = ((IsPassed → ⊥) × IsRefusal x) ⊎ ((p : IsPassed) × IsRun p x)

  refused-IsRefusal :
      (tool_id code status : String) (outcome : call_agent.Tools.Gateway.Outcome)
      → IsRefusal (
          refused registry (w.before g) call_session_id request.call_id tool_id code status outcome)
  unfolding remember
  refused-IsRefusal tool_id code status outcome = (refl, _, refl, inr refl)

  remembered-invoked :
      (x : Execution Value) → (remembered registry call_session_id x).1.invoked ≡ x.1.invoked
  unfolding remember
  remembered-invoked (ok r, h) = refl
  remembered-invoked (err x, h) = refl

  run_handler-invoked :
      (h : Gateway Value) (d : ToolDefinition Arguments Input Output Value)
      (o : HandlerOutcome Output)
      → (run_handler registry h call_session_id request.call_id d o).1.invoked ≡ h.invoked
  run_handler-invoked h d timed_out = refl
  run_handler-invoked h d handler_cancelled = refl
  run_handler-invoked h d handler_crashed = refl
  run_handler-invoked h d (execution_error code retryable) = refl
  run_handler-invoked h d (handler_returned output) = go (d.validate_output output)
    where
      go :
          (v : Option Value)
          → (checked_output registry h call_session_id request.call_id d.tool_id v).1.invoked
            ≡ h.invoked
      go none = refl
      go (some value) = refl

  same_definition :
      (p : IsPassed) (d : ToolDefinition Arguments Input Output Value)
      → resolve registry request.name ≡ some d
      → p.definition ≡ d
  same_definition p d k = some_injective (sym p.known ∙ k)

  unauthorized :
      (p : IsPassed) (d : ToolDefinition Arguments Input Output Value)
      → resolve registry request.name ≡ some d
      → is_authorized registry w w.service_account d.permission_action ≡ false
      → ⊥
  unauthorized p d k e =
      true-false
        (subst (λ x. is_authorized registry w x d.permission_action ≡ true) (sym p.active)
          (subst (λ x. w.can p.account x.permission_action ≡ true) (same_definition p d k)
            p.authorized))
        e

  invalid :
      (p : IsPassed) (d : ToolDefinition Arguments Input Output Value)
      → resolve registry request.name ≡ some d
      → d.validate_input request.arguments ≡ none
      → ⊥
  invalid p d k e = none-some (
      sym e
      ∙ subst (λ x. x.validate_input request.arguments ≡ some p.input) (same_definition p d k)
          p.valid)

  not_allowed :
      (p : IsPassed) (d : ToolDefinition Arguments Input Output Value)
      → resolve registry request.name ≡ some d
      → is_tool_allowed tools d.tool_id ≡ false
      → ⊥
  unfolding is_tool_allowed
  not_allowed p d k e =
      true-false (subst (λ x. x.tool_id ∈ allowed_tool_ids tools) (same_definition p d k) p.allowed)
        e

  unknown : IsPassed → resolve registry request.name ≡ none → ⊥
  unknown p e = none-some (sym e ∙ p.known)

  not_new :
      IsPassed → (r : ToolResult Value) → cached g call_session_id request.call_id ≡ some r → ⊥
  not_new p r e = none-some (sym p.new ∙ e)

  is_tool_allowed_sound :
      (tool_id : String) → is_tool_allowed tools tool_id ≡ true → tool_id ∈ allowed_tool_ids tools
  unfolding is_tool_allowed
  is_tool_allowed_sound tool_id e = e

  is_authorized_sound :
      (account : Option ℕ) (action : String)
      → is_authorized registry w account action ≡ true
      → (a : ℕ) × (account ≡ some a) × (w.can a action ≡ true)
  is_authorized_sound none action e = absurd (true-false e refl)
  is_authorized_sound (some a) action e = (a, refl, e)

  if_authorized-IsGuarded :
      (d : ToolDefinition Arguments Input Output Value) (input : Input) (b : Bool)
      → cached g call_session_id request.call_id ≡ none
      → resolve registry request.name ≡ some d
      → is_tool_allowed tools d.tool_id ≡ true
      → d.validate_input request.arguments ≡ some input
      → is_authorized registry w w.service_account d.permission_action ≡ b
      → IsGuarded (if_authorized registry w g call_session_id request.call_id d input b)
  if_authorized-IsGuarded d input false n k a v e =
      inl (λ p. unauthorized p d k e, refused-IsRefusal _ _ _ _)
  if_authorized-IsGuarded d input true n k a v e =
      let (account, active, authorized) = is_authorized_sound _ _ e in
      inr (
        record {
          new = n;
          definition = d;
          known = k;
          allowed = is_tool_allowed_sound _ a;
          input = input;
          valid = v;
          account = account;
          active = active;
          authorized = authorized;
        },
        (_, refl, remembered-invoked _ ∙ run_handler-invoked _ d (w.handler d.tool_id input)),
      )

  if_valid-IsGuarded :
      (d : ToolDefinition Arguments Input Output Value) (o : Option Input)
      → cached g call_session_id request.call_id ≡ none
      → resolve registry request.name ≡ some d
      → is_tool_allowed tools d.tool_id ≡ true
      → d.validate_input request.arguments ≡ o
      → IsGuarded (if_valid registry w g call_session_id request.call_id d o)
  if_valid-IsGuarded d none n k a e = inl (λ p. invalid p d k e, refused-IsRefusal _ _ _ _)
  if_valid-IsGuarded d (some input) n k a e = if_authorized-IsGuarded d input _ n k a e refl

  if_allowed-IsGuarded :
      (d : ToolDefinition Arguments Input Output Value) (b : Bool)
      → cached g call_session_id request.call_id ≡ none
      → resolve registry request.name ≡ some d
      → is_tool_allowed tools d.tool_id ≡ b
      → IsGuarded (if_allowed registry w g call_session_id request.call_id d request.arguments b)
  if_allowed-IsGuarded d false n k e = inl (λ p. not_allowed p d k e, refused-IsRefusal _ _ _ _)
  if_allowed-IsGuarded d true n k e = if_valid-IsGuarded d _ n k e refl

  if_known-IsGuarded :
      (o : Option (ToolDefinition Arguments Input Output Value))
      → cached g call_session_id request.call_id ≡ none
      → resolve registry request.name ≡ o
      → IsGuarded (
          if_known registry w g call_session_id request.call_id tools request.name request.arguments
            o)
  if_known-IsGuarded none n e = inl (λ p. unknown p e, refused-IsRefusal _ _ _ _)
  if_known-IsGuarded (some d) n e = if_allowed-IsGuarded d _ n e refl

  -- Whatever the role check and the handler answer, and whatever other tasks and the handler do to the
  -- gateway meanwhile, `execute` does one of two things. If its call has no result for the request when
  -- that is tested, and its tool is registered, allowed to the agent version, its arguments are valid,
  -- and the tenant has a service account with the tool's permission, it itself runs that tool's handler
  -- once; executions that the handler starts are not its own. Otherwise it runs no handler, and returns
  -- the result that is cached for the request, or one without a value.
  pub execute-IsGuarded : IsGuarded (execute registry w g call_session_id tools request)
  unfolding execute
  execute-IsGuarded = go (cached g call_session_id request.call_id) refl
    where
      go :
          (o : Option (ToolResult Value))
          → cached g call_session_id request.call_id ≡ o
          → IsGuarded (
              unless_cached registry w g call_session_id request.call_id tools request.name
                request.arguments o)
      go (some r) e = inl (λ p. not_new p r e, (refl, r, refl, inl e))
      go none e = if_known-IsGuarded _ e refl
