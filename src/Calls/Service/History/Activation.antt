-- ===== src/Calls/Service/History/Activation.antt =====
-- `claim_call_for_activation` of voiceagent/calls/service.py over histories: how often it is won.
use call_agent.Prelude.{
  ℕ, ℤ, ◌+◌, ◌≤◌, ◌<◌, ◌≡◌, refl, sym, ap, ◌∙◌, subst, String, Bool, true, false, ◌&&◌, Option,
  some, List, [], ◌∷◌, arith, nat_beq, nat_beq_iff, if◌then◌else◌, eq_iff, Bool-cases, inl, inr,
  ◌⊎◌,
}
use call_agent.Prelude.Eq.{◌==◌, string_eq}
use call_agent.Prelude.Results.{Result, ok, err}
use call_agent.Store.Proc.{settle}
use call_agent.Store.{Store}
use call_agent.Store.Rows.{CallSession}
use call_agent.Store.Errors.{Error}
use call_agent.Calls.Lifecycle.{phase}
use call_agent.Calls.Service.{claim_call_for_activation}
use call_agent.Calls.Service.Rows.{row, row-id, row-put, claim_call_for_activation-ok}
use call_agent.Calls.Service.Changes.{phase-Change}
use call_agent.Calls.Service.History.{
  Operation, activate, perform, renames, RowStep, same, changed, created, perform-RowStep,
}

module _ (millis : ℕ → ℕ → ℤ) (foreign_keys : CallSession → Option String) (id : ℕ) where
  -- Whether the operation is a claim of this call for activation that wins.
  abbrev won : Result Error (Bool × Store) → Bool
  won (ok (b, s)) = b
  won (err x) = false

  abbrev pub wins : Operation → Store → Bool
  wins (activate context k) s = nat_beq k id && won (claim_call_for_activation context k s)
  wins _ s = false

  abbrev pub activations : List Operation → Store → ℕ
  activations [] s = 0
  activations (o ∷ rest) s =
      (if wins o s then 1 else 0) + activations rest (perform millis foreign_keys o s)

  some_inj : {a b : CallSession} → ◌≡◌ {A = Option CallSession} (some a) (some b) → a ≡ b
  some_inj p = cc

  -- The call has left `initiated`.
  abbrev Started : Option CallSession → Type 0
  Started o = (c : CallSession) × (o ≡ some c) × (0 < phase c.status)

  Started-step :
      (name : Option String) (o o' : Option CallSession)
      → RowStep millis name o o'
      → Started o
      → Started o'
  Started-step name o o' same h = h
  Started-step name o o' (changed {c = a} {c' = b} change) (x, e, f) =
      let p : 0 < phase a.status = subst (λ z. 0 < phase z.status) (sym (some_inj e)) f in
      (b, refl, omega (arith, p, phase-Change millis name change))
  Started-step name o o' (created context k now n) (x, e, f) = cc

  not_initiated : (status : String) → 0 < phase status → (status == "initiated") ≡ false
  not_initiated status h = elim (Bool-cases (status == "initiated")) [
    | inl p ↦
        let q : 0 < phase "initiated" =
          subst (λ z. 0 < phase z) ((eq_iff status "initiated").0 p) h in
        absurd (omega arith)
    | inr p ↦ p
  ]

  and_parts : (a b : Bool) → (a && b) ≡ true → (a ≡ true) × (b ≡ true)
  and_parts a b h = ground arith

  wins-Started :
      (o : Operation) (s : Store)
      → wins o s ≡ true
      → Started (row (perform millis foreign_keys o s) id)
  unfolding perform
  wins-Started (activate context k) s w = split (claim_call_for_activation context k s) refl w
    where
      impossible : false ≡ true → ⊥
      impossible p = cc

      split :
          (r : Result Error (Bool × Store))
          → claim_call_for_activation context k s ≡ r
          → (nat_beq k id && won r) ≡ true
          → Started (row (settle s r).1 id)
      split (err x) e w = absurd (impossible (and_parts (nat_beq k id) false w).1)
      split (ok (false, t)) e w = absurd (impossible (and_parts (nat_beq k id) false w).1)
      split (ok (true, t)) e w =
          let (c, at, first, after) = claim_call_for_activation-ok context k s t true e in
          (
            record c { status = "ringing" },
            rw after (
                rw (row-put (record c { status = "ringing" }) s id) (
                  ground (
                    arith,
                    row-id s k c at,
                    (nat_beq_iff k id).0 (and_parts (nat_beq k id) true w).0,
                  ))),
            omega arith,
          )
  wins-Started o s w = cc

  Started-never_wins : (o : Operation) (s : Store) → Started (row s id) → wins o s ≡ false
  Started-never_wins (activate context k) s (c, e, f) =
      split (claim_call_for_activation context k s) refl (Bool-cases (nat_beq k id))
    where
      split :
          (r : Result Error (Bool × Store))
          → claim_call_for_activation context k s ≡ r
          → (nat_beq k id ≡ true) ⊎ (nat_beq k id ≡ false)
          → (nat_beq k id && won r) ≡ false
      split r p (inr other) = rw other
      split (err x) p (inl mine) = ground arith
      split (ok (b, t)) p (inl mine) =
          let (a, at, first, after) = claim_call_for_activation-ok context k s t b p in
          let same : a ≡ c = some_inj (sym at ∙ ap (row s) ((nat_beq_iff k id).0 mine) ∙ e) in
          rw mine (first ∙ not_initiated a.status (subst (λ z. 0 < phase z.status) (sym same) f))
  Started-never_wins _ s h = refl

  Started-activations :
      (operations : List Operation) (s : Store) → Started (row s id) → activations operations s ≡ 0
  Started-activations [] s h = refl
  Started-activations (o ∷ rest) s h = rw (Started-never_wins o s h) (
      omega (
        arith,
        Started-activations rest (perform millis foreign_keys o s) (
            Started-step (renames o) (row s id) (row (perform millis foreign_keys o s) id)
              (perform-RowStep millis foreign_keys o s id) h),
      ))

  -- In any history at most one claim of a call for activation returns `True`.
  pub activation_at_most_once :
      (operations : List Operation) (s : Store) → activations operations s ≤ 1
  activation_at_most_once [] s = omega arith
  activation_at_most_once (o ∷ rest) s = elim (Bool-cases (wins o s)) [
    | inl w ↦ rw w (
        omega
          (arith, Started-activations rest (perform millis foreign_keys o s) (wins-Started o s w)))
    | inr l ↦ rw l (omega (arith, activation_at_most_once rest (perform millis foreign_keys o s)))
  ]
