-- ===== src/Telephony/Esl/Connection/Pending.antt =====
-- What a connection's queues hold beside the command that awaits its reply, and what each part of a
-- move does to it.
use call_agent.Prelude.{
  ℕ, ◌≡◌, ◌≢◌, ◌⊎◌, inl, inr, refl, sym, ap, ◌∙◌, true, Option, none, some, List, [], ◌∷◌, ◌++◌,
  All,
}
use call_agent.Telephony.Esl.Connection.{
  Control, reply, closed_error, Reader, running, cancelled, ended, Connection, acquire, arrive,
  take, stop_reader, tear_down, finish_reading,
}

-- the replies in the control queue
abbrev pub replies : List (Control ℕ) → List ℕ
replies [] = []
replies (reply command ∷ control) = command ∷ replies control
replies (closed_error ∷ control) = replies control

abbrev pub AreMatched : List (ℕ × ℕ) → Type 0
AreMatched = All (λ (p : ℕ × ℕ). p.0 ≡ p.1)

-- The replies that are queued or to come, beside the command that awaits one.
abbrev pub ArePending : Option ℕ → List ℕ → Reader → List ℕ → Type 0
ArePending none queued reader unanswered = (queued ≡ []) × (reader ≡ running → unanswered ≡ [])
ArePending (some command) queued reader unanswered =
    ((queued ≡ []) × (reader ≡ running → unanswered ≡ command ∷ []))
    ⊎ ((queued ≡ command ∷ []) × (reader ≡ running → unanswered ≡ []))

-- No reply comes behind the error.
abbrev pub IsErrorLast : List (Control ℕ) → Type 0
IsErrorLast [] = Unit
IsErrorLast (reply command ∷ control) = IsErrorLast control
IsErrorLast (closed_error ∷ control) = replies control ≡ []

abbrev pub HasNoError : List (Control ℕ) → Type 0
HasNoError [] = Unit
HasNoError (reply command ∷ control) = HasNoError control
HasNoError (closed_error ∷ control) = ⊥

pub record IsAlive (c : Connection) : Type 0 where
  pub pending : ArePending c.in_flight (replies c.control) c.reader c.unanswered
  pub error_last : IsErrorLast c.control
  pub no_error : c.reader ≡ running → HasNoError c.control

-- Nobody sends on the connection, now or later.
pub record IsDead (c : Connection) : Type 0 where
  pub closed : c.closed ≡ true
  pub waiting : c.waiting ≡ []
  pub in_flight : c.in_flight ≡ none

abbrev pub IsSound : Connection → Type 0
IsSound c = AreMatched c.returned × (IsAlive c ⊎ IsDead c)

replies-reply :
    (control : List (Control ℕ)) (command : ℕ)
    → replies (control ++ reply command ∷ []) ≡ replies control ++ command ∷ []
replies-reply [] command = refl
replies-reply (reply d ∷ control) command = ap (λ r. d ∷ r) (replies-reply control command)
replies-reply (closed_error ∷ control) command = replies-reply control command

replies-closed_error :
    (control : List (Control ℕ)) → replies (control ++ closed_error ∷ []) ≡ replies control
replies-closed_error [] = refl
replies-closed_error (reply d ∷ control) = ap (λ r. d ∷ r) (replies-closed_error control)
replies-closed_error (closed_error ∷ control) = replies-closed_error control

reply_behind :
    (control : List (Control ℕ)) (command : ℕ)
    → HasNoError control
    → IsErrorLast (control ++ reply command ∷ []) × HasNoError (control ++ reply command ∷ [])
reply_behind [] command h = (tt, tt)
reply_behind (reply d ∷ control) command h = reply_behind control command h
reply_behind (closed_error ∷ control) command h = absurd h

error_behind :
    (control : List (Control ℕ)) → IsErrorLast control → IsErrorLast (control ++ closed_error ∷ [])
error_behind [] h = refl
error_behind (reply d ∷ control) h = error_behind control h
error_behind (closed_error ∷ control) h = replies-closed_error control ∙ h

no_replies : (control : List (Control ℕ)) → replies control ≡ [] → IsErrorLast control
no_replies [] h = tt
no_replies (reply d ∷ control) h = cc
no_replies (closed_error ∷ control) h = h

not_running : (r : Reader) → stop_reader r ≢ running
not_running running e = cc
not_running cancelled e = cc
not_running ended e = cc

ended_ne : ◌≡◌ {A = Reader} ended running → ⊥
ended_ne e = cc

-- A reply moves from the unanswered to the queued.
arrives_pending :
    (o : Option ℕ) (queued : List ℕ) (command : ℕ) (unanswered : List ℕ)
    → ArePending o queued running (command ∷ unanswered)
    → ArePending o (queued ++ command ∷ []) running unanswered
arrives_pending none queued command unanswered (e, f) = let g = f refl in cc
arrives_pending (some x) queued command unanswered (inl (e, f)) =
    let g = f refl in let same : command ≡ x = cc in inr (rw (e, same) refl, λ _. cc)
arrives_pending (some x) queued command unanswered (inr (e, f)) = let g = f refl in cc

pub acquire-IsAlive :
    (c : Connection) (o : Option ℕ) (waiting : List ℕ)
    → ArePending o (replies c.control) c.reader c.unanswered
    → IsAlive c
    → IsAlive (acquire c o waiting)
acquire-IsAlive c none [] p h = h
acquire-IsAlive c (some x) waiting p h = h
acquire-IsAlive c none (command ∷ waiting) p h = record {
  pending = inl (p.0, λ r. rw (p.1 r) refl);
  error_last = h.error_last;
  no_error = h.no_error;
}

pub arrive-IsAlive :
    (c : Connection) (r : Reader) (unanswered : List ℕ)
    → c.reader ≡ r
    → ArePending c.in_flight (replies c.control) r unanswered
    → IsAlive c
    → IsAlive (arrive c r unanswered)
arrive-IsAlive c cancelled unanswered e p h = h
arrive-IsAlive c ended unanswered e p h = h
arrive-IsAlive c running [] e p h = h
arrive-IsAlive c running (command ∷ unanswered) e p h =
    let (last, none') = reply_behind c.control command (h.no_error e) in
    record {
      pending =
          rw (replies-reply c.control command, e)
            (arrives_pending c.in_flight (replies c.control) command unanswered p);
      error_last = last;
      no_error = λ _. none';
    }

-- A send that gave up, when no reply is queued.
pub tear_down-IsAlive : (c : Connection) → replies c.control ≡ [] → IsAlive (tear_down c)
tear_down-IsAlive c e = record {
  pending = (e, λ r. absurd (not_running c.reader r));
  error_last = no_replies c.control e;
  no_error = λ r. absurd (not_running c.reader r);
}

first : (d x : ℕ) (ds : List ℕ) → d ∷ ds ≡ x ∷ [] → d ≡ x
first d x ds e = cc

rest_of : (d x : ℕ) (ds : List ℕ) → d ∷ ds ≡ x ∷ [] → ds ≡ []
rest_of d x ds e = cc

pub take-IsSound :
    (c : Connection) (o : Option ℕ) (control : List (Control ℕ))
    → ArePending o (replies control) c.reader c.unanswered
    → IsErrorLast control
    → (c.reader ≡ running → HasNoError control)
    → AreMatched c.returned
    → IsAlive c
    → AreMatched (take c o control).returned × IsAlive (take c o control)
take-IsSound c none control p l n m h = (m, h)
take-IsSound c (some x) [] p l n m h = (m, h)
take-IsSound c (some x) (closed_error ∷ control) p l n m h =
    (m, tear_down-IsAlive (record c { control = control }) l)
take-IsSound c (some x) (reply d ∷ control) (inl (e, f)) l n m h = cc
take-IsSound c (some x) (reply d ∷ control) (inr (e, f)) l n m h = (
  (sym (first d x (replies control) e), m),
  record { pending = (rest_of d x (replies control) e, f); error_last = l; no_error = n },
)

ended_pending :
    (o : Option ℕ) (queued : List ℕ) (r : Reader) (unanswered : List ℕ)
    → ArePending o queued r unanswered
    → ArePending o queued ended unanswered
ended_pending none queued r unanswered p = (p.0, λ e. absurd (ended_ne e))
ended_pending (some x) queued r unanswered (inl p) = inl (p.0, λ e. absurd (ended_ne e))
ended_pending (some x) queued r unanswered (inr p) = inr (p.0, λ e. absurd (ended_ne e))

finished-IsAlive :
    (c : Connection)
    → IsAlive c
    → IsAlive (record c { closed = true; reader = ended; control = c.control ++ closed_error ∷ [] })
finished-IsAlive c h = record {
  pending =
      rw (replies-closed_error c.control)
        (ended_pending c.in_flight (replies c.control) c.reader c.unanswered h.pending);
  error_last = error_behind c.control h.error_last;
  no_error = λ r. absurd (ended_ne r);
}

pub finish_reading-IsAlive :
    (c : Connection) (r : Reader) → IsAlive c → IsAlive (finish_reading c r)
finish_reading-IsAlive c ended h = h
finish_reading-IsAlive c running h = finished-IsAlive c h
finish_reading-IsAlive c cancelled h = finished-IsAlive c h
