-- ===== src/Conversations/Numbers.antt =====
-- A call's turns are numbered without gaps.
use mathlib.Core.List.{append-nil}
use call_agent.Prelude.{
  ℕ, zero, suc, ◌+◌, ◌≡◌, inl, inr, refl, sym, ap, ◌∙◌, subst, arith, true, List, [], ◌∷◌, ◌++◌,
  length, Bool-cases, if◌then◌else◌,
}
use call_agent.Prelude.Eq.{nat_eq, string_eq}
use call_agent.Store.{Store}
use call_agent.Store.Rows.{ConversationTurn}
use call_agent.Conversations.{max_of, next_sequence, new_turn}
use call_agent.Conversations.Persisted.{IsPersisted, Persist, run, run_keeps}

-- The sequence numbers of a call's turns, in the order of the table.
abbrev pub numbers : ℕ → List ConversationTurn → List ℕ
numbers id [] = []
numbers id (turn ∷ turns) =
    if nat_eq.equal turn.call_session_id id
    then turn.sequence ∷ numbers id turns
    else numbers id turns

-- `from`, `from + 1`, ... , of this length
abbrev pub count_from : ℕ → ℕ → List ℕ
count_from from zero = []
count_from from (suc n) = from ∷ count_from (suc from) n

-- A call's turns are numbered 0, 1, 2, ...
abbrev pub IsDense : ℕ → List ConversationTurn → Type 0
IsDense id turns = numbers id turns ≡ count_from 0 (length (numbers id turns))

numbers-snoc :
    (id : ℕ) (turns : List ConversationTurn) (turn : ConversationTurn)
    → numbers id (turns ++ turn ∷ [])
      ≡ numbers id turns
        ++ (if nat_eq.equal turn.call_session_id id then turn.sequence ∷ [] else [])
numbers-snoc id [] turn = ground arith
numbers-snoc id (t ∷ turns) turn = ground (arith, numbers-snoc id turns turn)

-- One more than the largest.
abbrev above : List ℕ → ℕ
above [] = 0
above (n ∷ ns) = max_of (suc n) (above ns)

next_sequence-above :
    (id : ℕ) (turns : List ConversationTurn) → next_sequence id turns ≡ above (numbers id turns)
unfolding next_sequence
next_sequence-above id [] = refl
next_sequence-above id (t ∷ turns) = ground (arith, next_sequence-above id turns)

above-count_from : (from n : ℕ) → above (count_from from (suc n)) ≡ from + suc n
above-count_from from zero = ground arith
above-count_from from (suc n) = ground (arith, above-count_from (suc from) n)

above-count_from_zero : (n : ℕ) → above (count_from 0 n) ≡ n
above-count_from_zero zero = refl
above-count_from_zero (suc n) = omega (arith, above-count_from 0 n)

count_from-snoc : (from n : ℕ) → count_from from (suc n) ≡ count_from from n ++ (from + n) ∷ []
count_from-snoc from zero = ap (λ k. k ∷ []) (omega arith)
count_from-snoc from (suc n) =
    ap (λ ns. from ∷ ns)
      (count_from-snoc (suc from) n ∙ ap (λ k. count_from (suc from) n ++ k ∷ []) (omega arith))

length-snoc : (ns : List ℕ) (n : ℕ) → length (ns ++ n ∷ []) ≡ suc (length ns)
length-snoc [] n = refl
length-snoc (m ∷ ns) n = ap suc (length-snoc ns n)

dense_snoc :
    (ns : List ℕ)
    → ns ≡ count_from 0 (length ns)
    → ns ++ above ns ∷ [] ≡ count_from 0 (length (ns ++ above ns ∷ []))
dense_snoc ns e =
    let top : above ns ≡ length ns = ap above e ∙ above-count_from_zero (length ns) in
    rw (length-snoc ns (above ns), top, count_from-snoc 0 (length ns))
      (ap (λ ms. ms ++ length ns ∷ []) e
        ∙ ap (λ k. count_from 0 (length ns) ++ k ∷ []) (omega arith))

-- A turn that is appended with the next number.
snoc-IsDense :
    (id : ℕ) (turns : List ConversationTurn) (turn : ConversationTurn)
    → (nat_eq.equal turn.call_session_id id ≡ true → turn.sequence ≡ next_sequence id turns)
    → IsDense id turns
    → IsDense id (turns ++ turn ∷ [])
snoc-IsDense id turns turn numbered d =
    let ns = numbers id turns in
    elim (Bool-cases (nat_eq.equal turn.call_session_id id)) [
      | inl mine ↦
          let e : numbers id (turns ++ turn ∷ []) ≡ ns ++ above ns ∷ [] =
            numbers-snoc id turns turn
            ∙ rw mine (ap (λ k. ns ++ k ∷ []) (numbered mine ∙ next_sequence-above id turns)) in
          subst (λ ms. ms ≡ count_from 0 (length ms)) (sym e) (dense_snoc ns d)
      | inr other ↦
          let e : numbers id (turns ++ turn ∷ []) ≡ ns =
            numbers-snoc id turns turn ∙ rw other (append-nil ns) in
          subst (λ ms. ms ≡ count_from 0 (length ms)) (sym e) d
    ]

IsPersisted-IsDense :
    (id : ℕ) (p : Persist) (s t : Store) (turn : ConversationTurn)
    → IsPersisted p.context p.call_session_id p.turn turn s t
    → IsDense id s.turns
    → IsDense id t.turns
IsPersisted-IsDense id p s t turn (inl (same, found)) d = rw same d
IsPersisted-IsDense id p s t turn (inr (new, a)) d =
    subst (IsDense id) (sym a.appended) (snoc-IsDense id s.turns turn (numbered a.made) d)
  where
    numbered :
        turn
          ≡ new_turn p.context p.call_session_id p.turn s.supply
              (next_sequence p.call_session_id s.turns)
        → nat_eq.equal turn.call_session_id id ≡ true
        → turn.sequence ≡ next_sequence id s.turns
    numbered made mine =
        ap (λ x. x.sequence) made
        ∙ ap (λ c. next_sequence c s.turns)
            (sym (ap (λ x. x.call_session_id) made)
              ∙ (nat_eq.equal_iff turn.call_session_id id).0 mine)

-- In any history of calls of `persist_conversation_turn`, a call of the product whose turns are
-- numbered 0, 1, 2, ... in the order in which they were inserted stays so numbered.
pub run-IsDense :
    (s : Store) (history : List Persist) (id : ℕ)
    → IsDense id s.turns
    → IsDense id (run s history).turns
run-IsDense s history id d =
    run_keeps (λ t. IsDense id t.turns) (IsPersisted-IsDense id) s history d
