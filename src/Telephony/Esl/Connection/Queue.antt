-- ===== src/Telephony/Esl/Connection/Queue.antt =====
-- What the consumer of the event queue sees.
use mathlib.Core.List.{append-nil, append_assoc}
use call_agent.Prelude.{
  ℕ, suc, ◌-◌, ◌≤◌, ◌≡◌, refl, sym, ap, ◌∙◌, subst, arith, true, Option, List, [], ◌∷◌, ◌++◌,
  length, ltb, ltb→lt, if◌then◌else◌, Bool-cases, inl, inr,
}
use call_agent.Telephony.Esl.Connection.{Fields, push_event}

-- The queue, and what the consumer took from it.
pub record Feed : Type 0 where
  pub queue : List (Option Fields)
  pub taken : List (Option Fields)

pub data FeedMove : Type 0 where
  pushes : Option Fields → FeedMove
  takes_one : FeedMove

abbrev take_one : Feed → List (Option Fields) → Feed
take_one f [] = f
take_one f (event ∷ queue) = record { queue = queue; taken = f.taken ++ event ∷ [] }

abbrev pub feed_move : Feed → FeedMove → Feed
feed_move f (pushes event) = record f { queue = push_event event f.queue }
feed_move f takes_one = take_one f f.queue

unfoldable pub feed : Feed → List FeedMove → Feed
unfolding push_event
feed f [] = f
feed f (m ∷ moves) = feed (feed_move f m) moves

-- The pushed items that find room: those before which fewer than 256 are waiting. `n` counts the
-- items that wait.
unfoldable pub with_room : ℕ → List FeedMove → List (Option Fields)
with_room n [] = []
with_room n (pushes event ∷ moves) =
    let there = with_room (suc n) moves in
    let full = with_room n moves in if ltb n 256 then event ∷ there else full
with_room n (takes_one ∷ moves) = with_room (n - 1) moves

length-snoc :
    (queue : List (Option Fields)) (e : Option Fields)
    → length (queue ++ e ∷ []) ≡ suc (length queue)
length-snoc [] e = refl
length-snoc (x ∷ queue) e = omega (arith, length-snoc queue e)

-- The queue is bounded, and holds with what was taken the given items and those that find room.
abbrev IsFed : Feed → List (Option Fields) → ℕ → List FeedMove → Type 0
IsFed g before n moves = (length g.queue ≤ 256) × (g.taken ++ g.queue ≡ before ++ with_room n moves)

feed_keeps :
    (f : Feed) (moves : List FeedMove)
    → length f.queue ≤ 256
    → IsFed (feed f moves) (f.taken ++ f.queue) (length f.queue) moves
unfolding feed with_room push_event
feed_keeps f [] h = (h, sym (append-nil (f.taken ++ f.queue)))
feed_keeps f (pushes event ∷ moves) h =
    pushed f.queue h (λ queue. feed_keeps (record f { queue = queue }) moves)
  where
    pushed :
        (queue : List (Option Fields))
        → length queue ≤ 256
        → ((q : List (Option Fields))
            → length q ≤ 256
            → IsFed (feed (record f { queue = q }) moves) (f.taken ++ q) (length q) moves)
        → IsFed
            (feed (record f { queue = push_event event queue }) moves)
            (f.taken ++ queue)
            (length queue)
            (pushes event ∷ moves)
    pushed queue b ih = elim (Bool-cases (ltb (length queue) 256)) [
      | inl room ↦
          let (bounded, same) = ih (queue ++ event ∷ []) (room_lem room) in
          rw room (
            bounded,
            same ∙ rw (length-snoc queue event) (moved (with_room (suc (length queue)) moves)),
          )
      | inr full ↦ rw full (ih queue b)
    ]
      where
        room_lem : ltb (length queue) 256 ≡ true → length (queue ++ event ∷ []) ≤ 256
        room_lem r = omega (arith, length-snoc queue event, ltb→lt (length queue) 256 r)

        moved :
            (rest : List (Option Fields))
            → (f.taken ++ (queue ++ event ∷ [])) ++ rest ≡ (f.taken ++ queue) ++ event ∷ rest
        moved rest =
            ap (λ l. l ++ rest) (sym (append_assoc f.taken queue (event ∷ [])))
            ∙ append_assoc (f.taken ++ queue) (event ∷ []) rest
feed_keeps f (takes_one ∷ moves) h = took f.queue h (λ g. feed_keeps g moves)
  where
    took :
        (queue : List (Option Fields))
        → length queue ≤ 256
        → ((g : Feed)
            → length g.queue ≤ 256
            → IsFed (feed g moves) (g.taken ++ g.queue) (length g.queue) moves)
        → IsFed
            (feed (take_one (record f { queue = queue }) queue) moves)
            (f.taken ++ queue)
            (length queue)
            (takes_one ∷ moves)
    took [] b ih = ih (record f { queue = [] }) b
    took (event ∷ queue) b ih =
        let fewer : length queue ≡ suc (length queue) - 1 = omega arith in
        let g : Feed = record { queue = queue; taken = f.taken ++ event ∷ [] } in
        subst (λ n. IsFed (feed g moves) (f.taken ++ event ∷ queue) n moves) fewer
          (subst (λ l. IsFed (feed g moves) l (length queue) moves)
            (append_assoc f.taken (event ∷ []) queue) (ih g (omega arith)))

-- However the reader's pushes and the consumer's takes alternate on a new connection: the event queue
-- never holds more than 256 items; and what was taken and what is still queued are, in this order,
-- exactly the pushed items before which fewer than 256 were waiting.
pub feed-IsFed :
    (moves : List FeedMove)
    → let f = feed (record { queue = []; taken = [] }) moves in
      (length f.queue ≤ 256) × (f.taken ++ f.queue ≡ with_room 0 moves)
feed-IsFed moves = feed_keeps (record { queue = []; taken = [] }) moves (omega arith)
