-- ===== src/Tools/Gateway/Cached.antt =====
-- A request that is delivered again.
use call_agent.Prelude.{
  none-some, ℕ, ◌≡◌, ◌≢◌, ◌⊎◌, inl, inr, refl, sym, ap, subst, ◌∙◌, String, Bool, true, false,
  Option, none, some, List, [], ◌∷◌, All, Bool-cases,
}
use call_agent.Prelude.Eq.{nat_eq, string_eq, beq_refl}
use call_agent.Prelude.Dicts.{lookup, put, lookup-put, lookup-pop_key}
use call_agent.Prelude.Results.{ok, err, ok_injective}
use call_agent.Tools.{ToolDefinition, Registry, resolve, ToolBinding, is_tool_allowed}
use call_agent.Tools.Gateway.{
  ToolResult, ToolCallRequested, HandlerOutcome, timed_out, handler_cancelled, handler_crashed,
  execution_error, handler_returned, World, Gateway, GatewayError, or_empty, cached, forget_call,
  Execution, remember, run_handler, checked_output, remembered, invoke, audited, success, refused,
  is_authorized, if_authorized, if_valid, if_allowed, if_known, unless_cached, execute,
}

module _ {Value : Type 0} where
  abbrev find : List (ℕ × List (String × ToolResult Value)) → ℕ → String → Option (ToolResult Value)
  find results c i = lookup i (or_empty (lookup c results))

  find-put_self :
      (results : List (ℕ × List (String × ToolResult Value))) (c : ℕ) (i : String)
      (r : ToolResult Value)
      → find (put c (put i r (or_empty (lookup c results))) results) c i ≡ some r
  find-put_self results c i r =
      rw
        (
          lookup-put c c (put i r (or_empty (lookup c results))) results,
          beq_refl c,
          lookup-put i i r (or_empty (lookup c results)),
          beq_refl i,
        )
        refl

  find-put_other :
      (results : List (ℕ × List (String × ToolResult Value))) (c d : ℕ) (i j : String)
      (r s : ToolResult Value)
      → (c ≡ d → i ≡ j → ⊥)
      → find results d j ≡ some s
      → find (put c (put i r (or_empty (lookup c results))) results) d j ≡ some s
  find-put_other results c d i j r s n e = elim (Bool-cases (nat_eq.equal c d)) [
    | inr other ↦ rw (lookup-put d c (put i r (or_empty (lookup c results))) results, other) e
    | inl same ↦ elim (Bool-cases (string_eq.equal i j)) [
      | inl twin ↦
          let cd : c ≡ d = (nat_eq.equal_iff c d).0 same in
          let ij : i ≡ j = (string_eq.equal_iff i j).0 twin in absurd (n cd ij)
      | inr apart ↦
          let cd : c ≡ d = (nat_eq.equal_iff c d).0 same in
          rw
            (
              lookup-put d c (put i r (or_empty (lookup c results))) results,
              same,
              lookup-put j i r (or_empty (lookup c results)),
              apart,
            )
            (ap (λ k. find results k j) cd ∙ e)
    ]
  ]

module _ {Input Output Value : Type 0} (w : World Input Output Value) where
  -- What is done to the gateway while an execution awaits keeps this result.
  pub record IsCalm (c : ℕ) (i : String) (r : ToolResult Value) : Type 0 where
    pub before : (g : Gateway Value) → cached g c i ≡ some r → cached (w.before g) c i ≡ some r
    pub during : (g : Gateway Value) → cached g c i ≡ some r → cached (w.during g) c i ≡ some r

  -- The results after the waits of an execution begun in `g`.
  data IsAwaited (g h : Gateway Value) : Type 0 where
    refused_then : h.results ≡ (w.before g).results → IsAwaited g h
    ran :
        (k : Gateway Value)
        → k.results ≡ (w.before g).results
        → h.results ≡ (w.during k).results
        → IsAwaited g h

  awaited-cached :
      (g h : Gateway Value) (c : ℕ) (i : String) (r : ToolResult Value)
      → IsCalm c i r
      → IsAwaited g h
      → cached g c i ≡ some r
      → cached h c i ≡ some r
  awaited-cached g h c i r calm (refused_then same) e =
      ap (λ rs. find rs c i) same ∙ calm.before g e
  awaited-cached g h c i r calm (ran k before during) e =
      ap (λ rs. find rs c i) during
      ∙ calm.during k (ap (λ rs. find rs c i) before ∙ calm.before g e)

  -- The results after a new request: what the waits left, with its result put in if it returned.
  abbrev IsNew : Gateway Value → ℕ → String → Execution Value → Type 0
  IsNew g c i (x, h) =
      (k : Gateway Value) × IsAwaited g k
      × (((h.results ≡ k.results) × ((r : ToolResult Value) → x ≢ ok r))
          ⊎ ((r : ToolResult Value) × (x ≡ ok r)
              × (r.call_id ≡ i)
              × (h.results ≡ put c (put i r (or_empty (lookup c k.results))) k.results)))

-- The calls that a gateway gets.
pub data GatewayCall (Arguments Input Output Value : Type 0) : Type 0 where
  executing :
      World Input Output Value
      → ℕ
      → List ToolBinding
      → ToolCallRequested Arguments
      → GatewayCall Arguments Input Output Value
  forgetting : ℕ → GatewayCall Arguments Input Output Value

module _ {Arguments Input Output Value : Type 0}
    (registry : Registry Arguments Input Output Value) where
  refused-IsNew :
      (w : World Input Output Value) (g : Gateway Value) (c : ℕ) (i tool_id code status : String)
      (outcome : call_agent.Tools.Gateway.Outcome)
      → IsNew w g c i (refused registry (w.before g) c i tool_id code status outcome)
  unfolding remember
  refused-IsNew w g c i tool_id code status outcome =
      (w.before g, refused_then refl, inr (_, refl, refl, refl))

  -- What a run of a handler leaves, before its result is remembered.
  abbrev IsAnswer : Gateway Value → String → Execution Value → Type 0
  IsAnswer k i (ok r, h) = (h.results ≡ k.results) × (r.call_id ≡ i)
  IsAnswer k i (err x, h) = h.results ≡ k.results

  remembered-IsNew :
      (w : World Input Output Value) (g k : Gateway Value) (c : ℕ) (i : String)
      (x : Execution Value)
      → IsAwaited w g k
      → IsAnswer k i x
      → IsNew w g c i (remembered registry c x)
  unfolding remember
  remembered-IsNew w g k c i (ok r, h) a (e, same) = (
    k,
    a,
    inr (
      r,
      refl,
      same,
      ap (λ j. put c (put j r (or_empty (lookup c h.results))) h.results) same
          ∙ ap (λ rs. put c (put i r (or_empty (lookup c rs))) rs) e,
    ),
  )
  remembered-IsNew w g k c i (err x, h) a e = (k, a, inl (e, λ r p. cc))

  run_handler-IsAnswer :
      (k : Gateway Value) (c : ℕ) (i : String) (d : ToolDefinition Arguments Input Output Value)
      (o : HandlerOutcome Output)
      → IsAnswer k i (run_handler registry k c i d o)
  run_handler-IsAnswer k c i d timed_out = (refl, refl)
  run_handler-IsAnswer k c i d handler_cancelled = refl
  run_handler-IsAnswer k c i d handler_crashed = (refl, refl)
  run_handler-IsAnswer k c i d (execution_error code retryable) = (refl, refl)
  run_handler-IsAnswer k c i d (handler_returned output) = go (d.validate_output output)
    where
      go : (v : Option Value) → IsAnswer k i (checked_output registry k c i d.tool_id v)
      go none = (refl, refl)
      go (some value) = (refl, refl)

  if_known-IsNew :
      (w : World Input Output Value) (g : Gateway Value) (c : ℕ) (tools : List ToolBinding)
      (i name : String) (arguments : Arguments)
      (o : Option (ToolDefinition Arguments Input Output Value))
      → IsNew w g c i (if_known registry w g c i tools name arguments o)
  if_known-IsNew w g c tools i name arguments none = refused-IsNew w g c i _ _ _ _
  if_known-IsNew w g c tools i name arguments (some d) =
      if_allowed-IsNew (is_tool_allowed tools d.tool_id)
    where
      if_authorized-IsNew :
          (input : Input) (b : Bool) → IsNew w g c i (if_authorized registry w g c i d input b)
      if_authorized-IsNew input false = refused-IsNew w g c i _ _ _ _
      if_authorized-IsNew input true =
          let k =
            w.during (
              invoke registry (audited (w.before g) c d.tool_id "started" success) c i d.tool_id) in
          remembered-IsNew w g k c i _
            (ran
              (invoke registry (audited (w.before g) c d.tool_id "started" success) c i d.tool_id)
              refl refl)
            (run_handler-IsAnswer k c i d (w.handler d.tool_id input))

      if_valid-IsNew : (v : Option Input) → IsNew w g c i (if_valid registry w g c i d v)
      if_valid-IsNew none = refused-IsNew w g c i _ _ _ _
      if_valid-IsNew (some input) = if_authorized-IsNew input _

      if_allowed-IsNew : (b : Bool) → IsNew w g c i (if_allowed registry w g c i d arguments b)
      if_allowed-IsNew false = refused-IsNew w g c i _ _ _ _
      if_allowed-IsNew true = if_valid-IsNew (d.validate_input arguments)

  abbrev pub step : Gateway Value → GatewayCall Arguments Input Output Value → Gateway Value
  step g (executing w c tools request) = (execute registry w g c tools request).1
  step g (forgetting c) = forget_call g c

  unfoldable pub run :
      Gateway Value → List (GatewayCall Arguments Input Output Value) → Gateway Value
  unfolding execute
  run g [] = g
  run g (call ∷ calls) = run (step g call) calls

  -- What happens during the call keeps this result, and the call does not forget it.
  abbrev pub Keeps :
      ℕ → String → ToolResult Value → GatewayCall Arguments Input Output Value → Type 0
  Keeps c i r (executing w d tools request) = IsCalm w c i r
  Keeps c i r (forgetting d) = nat_eq.equal d c ≡ false

  -- A cached result stays through such calls.
  step-cached :
      (g : Gateway Value) (call : GatewayCall Arguments Input Output Value) (c : ℕ) (i : String)
      (r : ToolResult Value)
      → Keeps c i r call
      → cached g c i ≡ some r
      → cached (step g call) c i ≡ some r
  unfolding execute
  step-cached g (executing w d tools request) c i r calm e = go (cached g d request.call_id) refl
    where
      new :
          (x : Execution Value)
          → cached g d request.call_id ≡ none
          → IsNew w g d request.call_id x
          → cached x.1 c i ≡ some r
      new x n (k, a, inl (same, raised)) =
          ap (λ rs. find rs c i) same ∙ awaited-cached w g k c i r calm a e
      new x n (k, a, inr (s, returned, same_id, put')) =
          ap (λ rs. find rs c i) put'
          ∙ find-put_other k.results d c request.call_id i s r
              (λ dc ji. none-some (
                sym n
                ∙ ap (λ j. find g.results j request.call_id) dc
                ∙ ap (λ j. find g.results c j) ji
                ∙ e))
              (awaited-cached w g k c i r calm a e)

      go :
          (o : Option (ToolResult Value))
          → cached g d request.call_id ≡ o
          → cached
              (unless_cached registry w g d request.call_id tools request.name request.arguments
                o).1
              c
              i
            ≡ some r
      go (some s) f = calm.before g e
      go none f =
          new
            (if_known registry w g d request.call_id tools request.name request.arguments
              (resolve registry request.name))
            f (if_known-IsNew w g d tools request.call_id request.name request.arguments _)
  step-cached g (forgetting d) c i r k e = rw (lookup-pop_key c d g.results, k) e

  run-cached :
      (g : Gateway Value) (calls : List (GatewayCall Arguments Input Output Value)) (c : ℕ)
      (i : String) (r : ToolResult Value)
      → All (Keeps c i r) calls
      → cached g c i ≡ some r
      → cached (run g calls) c i ≡ some r
  unfolding run
  run-cached g [] c i r k e = e
  run-cached g (call ∷ calls) c i r k e =
      run-cached (step g call) calls c i r k.1 (step-cached g call c i r k.0 e)

  -- What an execution returned is cached.
  execute-cached :
      (w : World Input Output Value) (g : Gateway Value) (c : ℕ) (tools : List ToolBinding)
      (request : ToolCallRequested Arguments) (r : ToolResult Value)
      → IsCalm w c request.call_id r
      → (execute registry w g c tools request).0 ≡ ok r
      → cached (execute registry w g c tools request).1 c request.call_id ≡ some r
  unfolding execute
  execute-cached w g c tools request r calm = go (cached g c request.call_id) refl
    where
      new :
          (x : Execution Value)
          → IsNew w g c request.call_id x
          → x.0 ≡ ok r
          → cached x.1 c request.call_id ≡ some r
      new x (k, a, inl (same, raised)) e = absurd (raised r e)
      new x (k, a, inr (s, returned, same_id, put')) e =
          ap (λ rs. find rs c request.call_id) put'
          ∙ find-put_self k.results c request.call_id s
          ∙ ap some (ok_injective (sym returned ∙ e))

      go :
          (o : Option (ToolResult Value))
          → cached g c request.call_id ≡ o
          → (unless_cached registry w g c request.call_id tools request.name request.arguments o).0
            ≡ ok r
          → cached
              (unless_cached registry w g c request.call_id tools request.name request.arguments
                o).1
              c
              request.call_id
            ≡ some r
      go (some s) f e = calm.before g (f ∙ ap some (ok_injective e))
      go none f e =
          new
            (if_known registry w g c request.call_id tools request.name request.arguments
              (resolve registry request.name))
            (if_known-IsNew w g c tools request.call_id request.name request.arguments _) e

  -- A request that is delivered again under the same identifier of the same call after an execution of
  -- it returned a result: it returns the same result and itself runs no handler, whatever its name,
  -- arguments, allowlist and service account. In between there may be any executions, but the call is
  -- not forgotten, and what other tasks and handlers do while these executions and the first one await
  -- keeps the cached result, as it does unless another execution of the same request is in flight.
  pub execute-execute :
      (w v : World Input Output Value) (g : Gateway Value) (c : ℕ) (tools others : List ToolBinding)
      (request again : ToolCallRequested Arguments) (r : ToolResult Value)
      (calls : List (GatewayCall Arguments Input Output Value))
      → (execute registry w g c tools request).0 ≡ ok r
      → IsCalm w c request.call_id r
      → All (Keeps c request.call_id r) calls
      → again.call_id ≡ request.call_id
      → let h = run (execute registry w g c tools request).1 calls in
        ((execute registry v h c others again).0 ≡ ok r)
        × ((execute registry v h c others again).1.invoked ≡ (v.before h).invoked)
  unfolding execute
  execute-execute w v g c tools others request again r calls e calm k same =
      let h = run (execute registry w g c tools request).1 calls in
      let there : cached h c again.call_id ≡ some r =
        ap (λ i. cached h c i) same
        ∙ run-cached (execute registry w g c tools request).1 calls c request.call_id r k
            (execute-cached w g c tools request r calm e) in
      subst
        (λ o.
          let x = unless_cached registry v h c again.call_id others again.name again.arguments o in
          (x.0 ≡ ok r) × (x.1.invoked ≡ (v.before h).invoked))
        (sym there) (refl, refl)
