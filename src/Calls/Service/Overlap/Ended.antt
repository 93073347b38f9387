-- ===== src/Calls/Service/Overlap/Ended.antt =====
-- The status and the end of a call, under overlapping transitions.
use call_agent.Prelude.{
  ℕ, ℤ, ◌≡◌, refl, sym, ap, ◌∙◌, subst, arith, String, true, not, Option, none, some, List, [], ◌∷◌,
  zero, suc, All, if_elim, Bool-cases, inl, inr, nat_beq, nat_beq_iff, some_injective, is_some,
}
use call_agent.Prelude.Eq.{Eq, ◌==◌, string_eq, nat_eq, int_eq, option_eq, beq_refl}
use call_agent.Prelude.Sets.{elem, ◌∈◌}
use call_agent.Prelude.Results.{Result, ok, err}
use call_agent.Store.{Store}
use call_agent.Store.Rows.{TenantContext, CallSession}
use call_agent.Store.Errors.{Error, invalid_call_session_transition}
use call_agent.Store.Tx.{raise_if-bind, >>=-eq-ok, committed}
use call_agent.Store.Proc.{run, settle}
use call_agent.Calls.Lifecycle.{valid_statuses, terminal_statuses, transition_valid}
use call_agent.Calls.Service.{
  Transition, redelivered, advanced, check_transition, flush_row, new_call,
}
use call_agent.Calls.Service.Rows.{
  row, row-id, row-put, with_row, flush_row-ok, Change, activated, owned, associated, repeated,
  moved,
}
use call_agent.Calls.Service.History.{perform-RowStep, RowStep, same, changed, created}
use call_agent.Calls.Service.History.Results.{Holds}
use call_agent.Calls.Service.Overlap.{
  merged, overlay, begin_transition, Pending, intended, flush_over, finish_transition, Concurrent,
  Turn, whole, begins, flushes, begun, nth, flushed, turn, turns,
}

-- The status is one of the seven, and a call that is over has an end time.
pub record IsSettled (c : CallSession) : Type 0 where
  pub status_valid : c.status ∈ valid_statuses
  pub ended : c.status ∈ terminal_statuses → is_some c.ended_at ≡ true

abbrev HasEnd : Option CallSession → Type 0
HasEnd none = ⊥
HasEnd (some c) = is_some c.ended_at ≡ true

-- A transition in flight of this call goes to one of the seven statuses, and an end time that it read
-- is one that the row has.
abbrev pub IsSound : ℕ → Option CallSession → Pending → Type 0
IsSound id o p =
    p.read.id ≡ id
    → (p.transition.to_status ∈ valid_statuses) × (is_some p.read.ended_at ≡ true → HasEnd o)

-- An end time stays one.
abbrev Keeps : Option CallSession → Option CallSession → Type 0
Keeps o o' = HasEnd o → HasEnd o'

module _ (millis : ℕ → ℕ → ℤ) (name : Option String) where
  Change-ended :
      {c c' : CallSession}
      → Change millis name c c'
      → is_some c.ended_at ≡ true
      → is_some c'.ended_at ≡ true
  unfolding redelivered advanced
  Change-ended (activated first) h = h
  Change-ended (owned r now free) h = h
  Change-ended (associated k) h = h
  Change-ended (repeated now t writes twin) h = h
  Change-ended {c = c} (moved now t writes legal new) h =
      if_elim (λ o. is_some o ≡ true) (elem t.to_status terminal_statuses) (some now) c.ended_at
        (λ _. refl) (λ _. h)

  Change-IsSettled : {c c' : CallSession} → Change millis name c c' → IsSettled c → IsSettled c'
  unfolding redelivered advanced
  Change-IsSettled (activated first) v = record { status_valid = refl; ended = λ e. cc }
  Change-IsSettled (owned r now free) v = record { status_valid = v.status_valid; ended = v.ended }
  Change-IsSettled (associated k) v = record { status_valid = v.status_valid; ended = v.ended }
  Change-IsSettled (repeated now t writes twin) v = record {
    status_valid = v.status_valid;
    ended = v.ended;
  }
  Change-IsSettled {c = c} (moved now t writes legal new) v = record {
    status_valid = transition_valid c.status t.to_status legal new;
    ended = λ e. rw e refl;
  }

  RowStep-Keeps : {o o' : Option CallSession} → RowStep millis name o o' → Keeps o o'
  RowStep-Keeps same h = h
  RowStep-Keeps (changed change) h = Change-ended change h
  RowStep-Keeps (created context id now n) h = absurd h

  RowStep-IsSettled :
      {o o' : Option CallSession}
      → RowStep millis name o o'
      → Holds IsSettled o
      → Holds IsSettled o'
  unfolding new_call
  RowStep-IsSettled same h = h
  RowStep-IsSettled (changed change) h = Change-IsSettled change h
  RowStep-IsSettled (created context id now n) h = record { status_valid = refl; ended = λ e. cc }

module _ {A : Type 0} ⦃e : Eq A⦄ where
  merged_some :
      (read new current : Option A)
      → is_some new ≡ true
      → (is_some read ≡ true → is_some current ≡ true)
      → is_some (merged read new current) ≡ true
  merged_some read new current n k =
      if_elim (λ o. is_some o ≡ true) (new == read) current new
        (λ twin. k (subst (λ o. is_some o ≡ true) ((option_eq.equal_iff new read).0 twin) n))
        (λ _. n)

  merged_same : (read current : Option A) → merged read read current ≡ current
  merged_same read current = rw (beq_refl read) refl

module _ (millis : ℕ → ℕ → ℤ) (foreign_keys : CallSession → Option String) (id : ℕ) where
  -- The end of a call after a flush, and its status.
  overlay-ended :
      (p : Pending) (current : CallSession)
      → is_some current.ended_at ≡ true
      → is_some (overlay p.read (intended millis p) current).ended_at ≡ true
  unfolding overlay redelivered advanced
  overlay-ended p current h = elim (Bool-cases (p.transition.to_status == p.read.status)) [
    | inl twin ↦ rw twin (rw (merged_same p.read.ended_at current.ended_at) h)
    | inr new ↦ rw new (elim (Bool-cases (elem p.transition.to_status terminal_statuses)) [
      | inl over ↦ rw over (merged_some p.read.ended_at (some p.now) current.ended_at refl (λ _. h))
      | inr live ↦ rw live (rw (merged_same p.read.ended_at current.ended_at) h)
    ])
  ]

  overlay-IsSettled :
      (p : Pending) (current : CallSession)
      → p.transition.to_status ∈ valid_statuses
      → (is_some p.read.ended_at ≡ true → is_some current.ended_at ≡ true)
      → IsSettled current
      → IsSettled (overlay p.read (intended millis p) current)
  unfolding overlay redelivered advanced
  overlay-IsSettled p current valid k v =
      elim (Bool-cases (p.transition.to_status == p.read.status)) [
        | inl twin ↦ rw twin (record {
          status_valid = rw (beq_refl p.read.status) v.status_valid;
          ended = rw (beq_refl p.read.status, merged_same p.read.ended_at current.ended_at) v.ended;
        })
        | inr new ↦ rw new (record {
          status_valid = rw new valid;
          ended =
              rw new (λ over.
                rw over (merged_some p.read.ended_at (some p.now) current.ended_at refl k));
        })
      ]

  abbrev pub IsOrderly : Concurrent millis → Type 0
  IsOrderly k = Holds IsSettled (row k.store id) × All (IsSound id (row k.store id)) k.in_flight

  IsSound-after :
      (o o' : Option CallSession) (ps : List Pending)
      → Keeps o o'
      → All (IsSound id o) ps
      → All (IsSound id o') ps
  IsSound-after o o' [] k h = tt
  IsSound-after o o' (p ∷ ps) k h = (
    (λ named. let (valid, ends) = h.0 named in (valid, λ e. k (ends e))),
    IsSound-after o o' ps k h.1,
  )

  nth-IsSound :
      (o : Option CallSession) (n : ℕ) (ps : List Pending) (p : Pending)
      → All (IsSound id o) ps
      → nth millis n ps ≡ some p
      → IsSound id o p
  nth-IsSound o n [] p h e = cc
  nth-IsSound o zero (q ∷ ps) p h e = subst (IsSound id o) (some_injective e) h.0
  nth-IsSound o (suc n) (q ∷ ps) p h e = nth-IsSound o n ps p h.1 e

  begin-IsSound :
      (context : TenantContext) (j : ℕ) (t : Transition) (s s' : Store) (read : CallSession)
      → begin_transition context j t s ≡ ok (read, s')
      → IsSound id (row s id) (record { transition = t; now = s'.now; read = read })
  unfolding begin_transition
  begin-IsSound context j t s s' read h =
      let (valid, h₁) =
        raise_if-bind (not (elem t.to_status valid_statuses)) (invalid_call_session_transition j) _
          s s' read h in
      with_row context j _ s s' read h₁ λ y there mine key rest.
        let (u, s₁, checked, rest₁) = >>=-eq-ok (check_transition t y) _ s rest in
        let (made, stored) = committed rest₁ in
        λ named.
          let hit : j ≡ id = sym key ∙ ap (λ (r : CallSession). r.id) made ∙ named in
          (
            ground arith,
            λ e.
                subst HasEnd (sym there ∙ ap (row s) hit)
                  (subst (λ (r : CallSession). is_some r.ended_at ≡ true) (sym made) e),
          )

  overlay-id :
      (p : Pending) (current : CallSession)
      → (overlay p.read (intended millis p) current).id ≡ current.id
  unfolding overlay
  overlay-id p current = refl

  abbrev IsStep : Option CallSession → Option CallSession → Type 0
  IsStep o o' = (Holds IsSettled o → Holds IsSettled o') × Keeps o o'

  flush-IsStep :
      (p : Pending) (s : Store)
      → IsSound id (row s id) p
      → IsStep (row s id) (row (run (finish_transition millis p) s).1 id)
  unfolding finish_transition
  flush-IsStep p s sound = over_row (row s p.read.id) refl
    where
      wrote :
          (current : CallSession) (r : Result Error (CallSession × Store))
          → row s p.read.id ≡ some current
          → flush_row (overlay p.read (intended millis p) current) s ≡ r
          → IsStep (row s id) (row (settle s r).1 id)
      wrote current (err x) at e = ((λ h. h), λ h. h)
      wrote current (ok (y, t)) at e =
          let new = overlay p.read (intended millis p) current in
          let (free, made, kept) = flush_row-ok new y s t e in
          let key : new.id ≡ p.read.id = overlay-id p current ∙ row-id s p.read.id current at in
          elim (Bool-cases (nat_beq p.read.id id)) [
            | inr other ↦
                let stays : row t id ≡ row s id =
                  rw kept (ground (arith, row-put new s id, key, other)) in
                rw stays ((λ h. h), λ h. h)
            | inl mine ↦
                let hit : p.read.id ≡ id = (nat_beq_iff p.read.id id).0 mine in
                let before : row s id ≡ some current = sym (ap (row s) hit) ∙ at in
                let after : row t id ≡ some new =
                  rw kept (ground (arith, row-put new s id, key, mine, before)) in
                let (valid, ends) = sound hit in
                rw (before, after)
                  (
                    overlay-IsSettled p current valid (λ e. subst HasEnd before (ends e)),
                    overlay-ended p current,
                  )
          ]

      over_row :
          (o : Option CallSession)
          → row s p.read.id ≡ o
          → IsStep (row s id) (row (settle s (flush_over millis p o s)).1 id)
      over_row none e = ((λ h. h), λ h. h)
      over_row (some current) e =
          wrote current (flush_row (overlay p.read (intended millis p) current) s) e refl

  turn-IsOrderly :
      (k : Concurrent millis) (t : Turn millis)
      → IsOrderly k
      → IsOrderly (turn millis foreign_keys k t)
  turn-IsOrderly k (whole o) (settled, sound) =
      let change = perform-RowStep millis foreign_keys o k.store id in
      (
        RowStep-IsSettled millis _ change settled,
        IsSound-after _ _ k.in_flight (RowStep-Keeps millis _ change) sound,
      )
  turn-IsOrderly k (begins context j t) (settled, sound) =
      go (begin_transition context j t k.store) refl
    where
      go :
          (r : Result Error (CallSession × Store))
          → begin_transition context j t k.store ≡ r
          → IsOrderly (begun millis k t r)
      go (err x) e = (settled, sound)
      go (ok (read, s)) e = (settled, (begin-IsSound context j t k.store s read e, sound))
  turn-IsOrderly k (flushes n) (settled, sound) = go (nth millis n k.in_flight) refl
    where
      go : (o : Option Pending) → nth millis n k.in_flight ≡ o → IsOrderly (flushed millis k o)
      go none e = (settled, sound)
      go (some p) e =
          let (settles, keeps) =
            flush-IsStep p k.store (nth-IsSound (row k.store id) n k.in_flight p sound e) in
          (settles settled, IsSound-after _ _ k.in_flight keeps sound)

  -- However whole operations of the service, reads and flushes of transitions follow one another, if at
  -- the start the call's row has one of the seven statuses, has an end time if it is terminal, and the
  -- transitions in flight go to one of the seven and read no end time that the row has not: then so it
  -- is at the end. (That a call that is not terminal has no end time fails where transitions overlap.)
  pub turns-IsOrderly :
      (k : Concurrent millis) (ts : List (Turn millis))
      → IsOrderly k
      → IsOrderly (turns millis foreign_keys k ts)
  unfolding turns
  turns-IsOrderly k [] h = h
  turns-IsOrderly k (t ∷ ts) h =
      turns-IsOrderly (turn millis foreign_keys k t) ts (turn-IsOrderly k t h)
