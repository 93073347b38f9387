-- ===== src/Telephony/Esl/Connection.antt =====
-- `EslTcpConnection` of voiceagent/telephony/freeswitch/esl_transport.py: the tasks that share one
-- connection. A step is what one task does between two awaits; FreeSWITCH's reply to a command is
-- known by the command that it answers.
pub mod Pending
pub mod Replies
pub mod Queue
use call_agent.Prelude.{
  ℕ, suc, ◌<◌, ◌≡◌, Bool, true, false, not, ◌&&◌, ◌||◌, Option, none, some, List, [], ◌∷◌, ◌++◌,
  length, ltb, codes, if◌then◌else◌,
}
use call_agent.Prelude.Dicts.{lookup, put}
use call_agent.Prelude.Eq.{◌==◌, Eq}
use call_agent.Telephony.Esl.Fields.{parse_kv_block}
use call_agent.Telephony.Esl.{Text, text_eq, RawFrame}

-- `_QUEUE_MAXSIZE`
abbrev pub queue_maxsize : ℕ
queue_maxsize = 256

abbrev pub Fields : Type 0
Fields = List (Text × Text)

-- An item of the control queue: a frame, or the TransportError that the reader leaves.
pub data Control (Reply : Type 0) : Type 0 where
  reply : Reply → Control Reply
  closed_error : Control Reply

-- `_push_event`: an item for a full queue is dropped.
unfoldable pub push_event : Option Fields → List (Option Fields) → List (Option Fields)
push_event event queue = if ltb (length queue) queue_maxsize then queue ++ event ∷ [] else queue

-- What the read loop does with one frame: it goes on with an event or a reply, or it ends.
pub data Dispatched : Type 0 where
  event_frame control_frame : Fields → Dispatched
  disconnected : Dispatched

abbrev pub text : Option Text → Text
text none = []
text (some t) = t

abbrev pub with_body : Fields → Option Text → Fields
with_body headers none = headers
with_body headers (some body) = put (codes "__body__") body headers

module _ (unquote : Text → Text) where
  -- The test on the frame's Content-Type.
  unfoldable pub dispatch : RawFrame → Dispatched
  unfolding parse_kv_block
  dispatch frame =
      let content_type = text (lookup (codes "Content-Type") frame.headers) in
      if content_type == codes "text/event-plain"
      then event_frame (parse_kv_block unquote (text frame.body))
      else if content_type == codes "text/disconnect-notice"
      then disconnected
      else control_frame (with_body frame.headers frame.body)

-- The reader task: at work, told to stop, or past its `finally`.
pub data Reader : Type 0 where
  running cancelled ended : Reader

-- `waiting` are the commands whose `send` has passed its test of `_closed` and waits for the lock,
-- `in_flight` the one that holds it, `unanswered` those that FreeSWITCH has yet to answer, `returned`
-- the commands whose `send` returned, each with the command that its reply answers.
pub record Connection : Type 0 where
  pub closed : Bool
  pub reader : Reader
  pub waiting : List ℕ
  pub in_flight : Option ℕ
  pub written : List ℕ
  pub unanswered : List ℕ
  pub control : List (Control ℕ)
  pub returned : List (ℕ × ℕ)

abbrev pub connected : Connection
connected = record {
  closed = false;
  reader = running;
  waiting = [];
  in_flight = none;
  written = [];
  unanswered = [];
  control = [];
  returned = [];
}

pub data Move : Type 0 where
  calls : ℕ → Move
  acquires arrives takes abandons stops : Move

-- `if self._closed: raise TransportError`, else the command queues for the lock.
abbrev pub call_send : Connection → ℕ → Connection
call_send c command = if c.closed then c else record c { waiting = c.waiting ++ command ∷ [] }

-- The lock goes to the longest waiting command, which is written.
abbrev pub acquire : Connection → Option ℕ → List ℕ → Connection
acquire c none (command ∷ waiting) = record c {
  waiting = waiting;
  in_flight = some command;
  written = c.written ++ command ∷ [];
  unanswered = c.unanswered ++ command ∷ [];
}
acquire c _ _ = c

-- FreeSWITCH answers in order, and the read loop queues the reply.
abbrev pub arrive : Connection → Reader → List ℕ → Connection
arrive c running (command ∷ unanswered) = record c {
  unanswered = unanswered;
  control = c.control ++ reply command ∷ [];
}
arrive c _ _ = c

-- `except BaseException:` in `send`
abbrev pub stop_reader : Reader → Reader
stop_reader running = cancelled
stop_reader r = r

abbrev pub tear_down : Connection → Connection
tear_down c = record c { closed = true; in_flight = none; reader = stop_reader c.reader }

-- `_next_control`: the reply is returned, the error is raised.
abbrev pub take : Connection → Option ℕ → List (Control ℕ) → Connection
take c (some command) (reply answered ∷ control) = record c {
  in_flight = none;
  control = control;
  returned = (command, answered) ∷ c.returned;
}
take c (some command) (closed_error ∷ control) = tear_down (record c { control = control })
take c _ _ = c

-- The `send` that holds the lock is cancelled while it awaits its reply.
abbrev pub abandon : Connection → Option ℕ → Connection
abandon c none = c
abandon c (some command) = tear_down c

-- The `finally` of the read loop, after a cancellation or at the end of the stream.
abbrev pub finish_reading : Connection → Reader → Connection
finish_reading c ended = c
finish_reading c _ = record c {
  closed = true;
  reader = ended;
  control = c.control ++ closed_error ∷ [];
}

unfoldable pub move : Connection → Move → Connection
move c (calls command) = call_send c command
move c acquires = acquire c c.in_flight c.waiting
move c arrives = arrive c c.reader c.unanswered
move c takes = take c c.in_flight c.control
move c abandons = abandon c c.in_flight
move c stops = finish_reading c c.reader
