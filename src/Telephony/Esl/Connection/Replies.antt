-- ===== src/Telephony/Esl/Connection/Replies.antt =====
-- Which reply a `send` returns.
use call_agent.Prelude.{
  ℕ, ◌≡◌, ◌⊎◌, inl, inr, refl, Bool, true, false, Option, none, some, List, [], ◌∷◌, All, if_elim,
}
use call_agent.Telephony.Esl.Connection.{
  Reader, running, cancelled, ended, Connection, connected, Move, calls, acquires, arrives, takes,
  abandons, stops, acquire, arrive, take, abandon, finish_reading, move,
}
use call_agent.Telephony.Esl.Connection.Pending.{
  replies, AreMatched, IsSound, acquire-IsAlive, arrive-IsAlive, tear_down-IsAlive, take-IsSound,
  finish_reading-IsAlive,
}

-- The cancellation of a `send` finds no reply in the control queue, or no other `send` waiting.
abbrev pub IsCarefulMove : Connection → Move → Type 0
IsCarefulMove c abandons = (replies c.control ≡ []) ⊎ (c.waiting ≡ [])
IsCarefulMove c _ = Unit

unfoldable pub run : Connection → List Move → Connection
unfolding move
run c [] = c
run c (m ∷ moves) = run (move c m) moves

unfoldable pub IsCareful : Connection → List Move → Type 0
unfolding move
IsCareful c [] = Unit
IsCareful c (m ∷ moves) = IsCarefulMove c m × IsCareful (move c m) moves

-- Each move keeps what a live connection and a dead one have.
move-IsSound : (c : Connection) (m : Move) → IsCarefulMove c m → IsSound c → IsSound (move c m)
unfolding move
move-IsSound c (calls command) careful (m, inl h) =
    if_elim IsSound c.closed _ _ (λ _. (m, inl h))
      λ _.
        (m, inl (record { pending = h.pending; error_last = h.error_last; no_error = h.no_error }))
move-IsSound c (calls command) careful (m, inr h) =
    if_elim IsSound c.closed _ _ (λ _. (m, inr h))
      λ (o : c.closed ≡ false). absurd (differ h.closed o)
  where
    differ : {b : Bool} → b ≡ true → b ≡ false → ⊥
    differ p q = cc
move-IsSound c acquires careful (m, inl h) =
    (acquired c.in_flight c.waiting, inl (acquire-IsAlive c c.in_flight c.waiting h.pending h))
  where
    acquired : (o : Option ℕ) (w : List ℕ) → AreMatched (acquire c o w).returned
    acquired none [] = m
    acquired none (x ∷ w) = m
    acquired (some x) w = m
move-IsSound c acquires careful (m, inr h) = go c.in_flight c.waiting h.in_flight h.waiting
  where
    go : (o : Option ℕ) (w : List ℕ) → o ≡ none → w ≡ [] → IsSound (acquire c o w)
    go none [] e k = (m, inr h)
    go none (x ∷ w) e k = cc
    go (some x) w e k = cc
move-IsSound c arrives careful (m, inl h) =
    (arrived c.reader c.unanswered, inl (arrive-IsAlive c c.reader c.unanswered refl h.pending h))
  where
    arrived : (r : Reader) (u : List ℕ) → AreMatched (arrive c r u).returned
    arrived running [] = m
    arrived running (x ∷ u) = m
    arrived cancelled u = m
    arrived ended u = m
move-IsSound c arrives careful (m, inr h) = go c.reader c.unanswered
  where
    go : (r : Reader) (u : List ℕ) → IsSound (arrive c r u)
    go running [] = (m, inr h)
    go running (x ∷ u) =
        (m, inr (record { closed = h.closed; waiting = h.waiting; in_flight = h.in_flight }))
    go cancelled u = (m, inr h)
    go ended u = (m, inr h)
move-IsSound c takes careful (m, inl h) =
    let (m', h') = take-IsSound c c.in_flight c.control h.pending h.error_last h.no_error m h in
    (m', inl h')
move-IsSound c takes careful (m, inr h) = go c.in_flight h.in_flight
  where
    go : (o : Option ℕ) → o ≡ none → IsSound (take c o c.control)
    go none e = (m, inr h)
    go (some x) e = cc
move-IsSound c abandons careful (m, inl h) = go c.in_flight careful
  where
    go : (o : Option ℕ) → ((replies c.control ≡ []) ⊎ (c.waiting ≡ [])) → IsSound (abandon c o)
    go none k = (m, inl h)
    go (some x) (inl none') = (m, inl (tear_down-IsAlive c none'))
    go (some x) (inr alone) = (m, inr (record { closed = refl; waiting = alone; in_flight = refl }))
move-IsSound c abandons careful (m, inr h) = go c.in_flight h.in_flight
  where
    go : (o : Option ℕ) → o ≡ none → IsSound (abandon c o)
    go none e = (m, inr h)
    go (some x) e = cc
move-IsSound c stops careful (m, inl h) =
    (finished c.reader, inl (finish_reading-IsAlive c c.reader h))
  where
    finished : (r : Reader) → AreMatched (finish_reading c r).returned
    finished running = m
    finished cancelled = m
    finished ended = m
move-IsSound c stops careful (m, inr h) = go c.reader
  where
    go : (r : Reader) → IsSound (finish_reading c r)
    go running = (m, inr (record { closed = refl; waiting = h.waiting; in_flight = h.in_flight }))
    go cancelled = (m, inr (record { closed = refl; waiting = h.waiting; in_flight = h.in_flight }))
    go ended = (m, inr h)

run-IsSound :
    (c : Connection) (moves : List Move) → IsCareful c moves → IsSound c → IsSound (run c moves)
unfolding run IsCareful
run-IsSound c [] careful h = h
run-IsSound c (m ∷ moves) careful h =
    run-IsSound (move c m) moves careful.1 (move-IsSound c m careful.0 h)

-- In every sequence of moves on a new connection, in which no `send` is cancelled at a moment when
-- both a reply is queued and another `send` waits for the lock: each `send` that returned, returned
-- FreeSWITCH's reply to its own command.
pub run-AreMatched :
    (moves : List Move)
    → IsCareful connected moves
    → All (λ (p : ℕ × ℕ). p.0 ≡ p.1) (run connected moves).returned
run-AreMatched moves careful =
    (run-IsSound connected moves careful
      (tt, inl (record { pending = (refl, λ _. refl); error_last = tt; no_error = λ _. tt }))).0
