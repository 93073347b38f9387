-- ===== src/Examples/OfTelephony.antt =====
-- The theorems on telephony at small streams and connections.
use call_agent.Prelude.{
  leb, length, ◌≤◌, ℕ, ◌<◌, ◌≡◌, inl, refl, arith, Bool, true, false, none, some, List, [], ◌∷◌,
  ◌++◌, codes, All, all, any, ltb, nat_beq, ◌&&◌, ◌||◌,
}
use call_agent.Prelude.Eq.{nat_eq}
use call_agent.Telephony.Media.{AudioFormat, refused, accepted, new_stream, threshold_bytes}
use call_agent.Telephony.Media.Heard.{audio, IsSound}
use call_agent.Telephony.Media.Sending.{
  Call, sending, closing, played, run as stream_run, run-refines,
}
use call_agent.Telephony.Media.Pacing.{PacedSince, run-IsPaced}
use call_agent.Telephony.Media.Provider.{Provider, new_provider, register_socket, attach}
use call_agent.Telephony.Media.Provider.Attached.{
  Event, registering, attaching, detaching, speaking, run as provider_run, IsConsistentAt,
  run-IsConsistentAt, IsAttach, attach-detach,
}
use call_agent.Prelude.Strip.{is_space, IsStripped}
use call_agent.Telephony.Esl.{Text, RawFrame, at_eof, int, read_frames}
use call_agent.Telephony.Esl.Printed.{print_header, print_frames, IsAscii, IsHeader, IsPrintable}
use call_agent.Telephony.Esl.RoundTrip.{read_frames-print_frames}
use call_agent.Telephony.Esl.Fuel.{Yields, read_frames-enough}
use call_agent.Telephony.Esl.Fields.{is_break, parse_kv_block}
use call_agent.Telephony.Esl.Fields.Block.{
  print_block, IsField, unquoted, parse_kv_block-print_block,
}
use call_agent.Telephony.Esl.Reconnect.{Reconnection, supervise}
use call_agent.Telephony.Esl.Connection.{
  connected, Move, calls, acquires, arrives, takes, abandons, stops,
}
use call_agent.Telephony.Esl.Connection.Replies.{run, IsCareful, run-AreMatched}
use call_agent.Telephony.Esl.Connection.Queue.{
  FeedMove, pushes, takes_one, feed, with_room, feed-IsFed,
}

-- Base64 is the identity here, and so are the two decoders.
abbrev same : List ℕ → List ℕ
same bytes = bytes

-- A format of low rate, for which 200 ms are four bytes.
abbrev slow_format : AudioFormat
slow_format = record { encoding = "pcm_s16le"; sample_rate = 10; channels = 1 }

abbrev spoken : List Call
spoken =
    sending (1 ∷ 2 ∷ []) 0 accepted
    ∷ sending (3 ∷ 4 ∷ 5 ∷ []) 10 accepted
    ∷ sending (6 ∷ 7 ∷ 8 ∷ 9 ∷ []) 20 refused
    ∷ sending (10 ∷ []) 30 accepted
    ∷ closing 40 accepted
    ∷ sending (11 ∷ []) 50 accepted
    ∷ []

positive : 0 < threshold_bytes slow_format
unfolding threshold_bytes
positive = omega arith

run-refines_example :
    let s = stream_run same (new_stream (List ℕ) slow_format) spoken in
    (audio same same (λ bytes. refl) s.handed ++ s.buffer ≡ played spoken)
    × IsSound same same (λ bytes. refl) slow_format s
run-refines_example =
    run-refines same same (λ bytes. refl) slow_format spoken positive
      (refl, (refl, (refl, (refl, (refl, (refl, tt))))))

run-IsPaced_example :
    let s = stream_run same (new_stream (List ℕ) slow_format) spoken in
    PacedSince same slow_format s.playback_started_at s.handed
run-IsPaced_example = run-IsPaced same slow_format spoken

abbrev events : List Event
events =
    registering 1 9
    ∷ attaching 1 none 100
    ∷ speaking 1 (1 ∷ []) 110 accepted
    ∷ detaching 1 200 accepted
    ∷ attaching 1 none 300
    ∷ []

run-IsConsistentAt_example :
    IsConsistentAt same (provider_run same (new_provider (List ℕ)) events) 1
run-IsConsistentAt_example = run-IsConsistentAt same events 1

abbrev wired : Provider (List ℕ)
wired = register_socket (new_provider (List ℕ)) 1 9

attach-detach_example : IsAttach same wired 1 none 200 accepted (attach wired 1 none 100)
attach-detach_example = attach-detach same wired 1 none 100 200 accepted

-- A reply without a body, and a response with one.
abbrev answered : List RawFrame
answered =
    record {
      headers =
          (codes "Content-Type", codes "command/reply")
          ∷ (codes "Reply-Text", codes "+OK accepted")
          ∷ [];
      body = none;
    }
    ∷ record {
      headers =
          (codes "Content-Type", codes "api/response") ∷ (codes "Content-Length", codes "3") ∷ [];
      body = some (codes "+OK");
    }
    ∷ []

all-IsAscii : (text : Text) → all (λ c. ltb c 128) text ≡ true → IsAscii text
all-IsAscii [] h = tt
all-IsAscii (c ∷ cs) h = (ground arith, all-IsAscii cs (ground arith))

tests-IsHeader :
    (name value : Text)
    → all (λ c. ltb c 128) name && all (λ c. ltb c 128) value ≡ true
    → any (nat_beq 10) name || any (nat_beq 10) value || any (nat_beq 58) name ≡ false
    → leb (length (print_header name value)) 65536 ≡ true
    → IsStripped name
    → IsStripped value
    → IsHeader name value
tests-IsHeader name value ascii lines l n v = record {
  short = ground arith;
  name_ascii = all-IsAscii name (ground arith);
  value_ascii = all-IsAscii value (ground arith);
  name_line = ground arith;
  value_line = ground arith;
  name_colon = ground arith;
  name_stripped = n;
  value_stripped = v;
}

printable : All IsPrintable answered
unfolding int is_space
printable = (
  record {
    headers = (
      tests-IsHeader _ _ refl refl refl (refl, refl) (refl, refl),
      (tests-IsHeader _ _ refl refl refl (refl, refl) (refl, refl), tt),
    );
    distinct = (refl, (refl, tt));
    body = refl;
  },
  (
    record {
      headers = (
        tests-IsHeader _ _ refl refl refl (refl, refl) (refl, refl),
        (tests-IsHeader _ _ refl refl refl (refl, refl) (refl, refl), tt),
      );
      distinct = (refl, (refl, tt));
      body = (all-IsAscii (codes "+OK") refl, refl);
    },
    tt,
  ),
)

read_frames-print_frames_example :
    read_frames same 3 (print_frames answered) ≡ some (answered, at_eof)
read_frames-print_frames_example =
    read_frames-print_frames same (λ bytes h. refl) answered 3 printable (omega arith)

read_frames-enough_example : Yields same (read_frames same 6 (codes "A: b\n"))
read_frames-enough_example = read_frames-enough same 6 (codes "A: b\n") (omega arith)

abbrev fields : List (Text × Text)
fields =
    (codes "Event-Name", codes "CHANNEL_ANSWER") ∷ (codes "Answer-State", codes "answered") ∷ []

are_fields : All (λ (f : Text × Text). IsField f.0 f.1) fields
unfolding is_break is_space
are_fields = (
  record {
    name_line = refl;
    value_line = refl;
    name_colon = refl;
    name_stripped = (refl, refl);
    value_stripped = (refl, refl);
  },
  (
    record {
      name_line = refl;
      value_line = refl;
      name_colon = refl;
      name_stripped = (refl, refl);
      value_stripped = (refl, refl);
    },
    tt,
  ),
)

parse_kv_block-print_block_example : parse_kv_block same (print_block fields) ≡ unquoted same fields
parse_kv_block-print_block_example =
    parse_kv_block-print_block same fields are_fields (refl, (refl, tt))

abbrev reconnection : Reconnection
reconnection = record { initial_backoff = 1; max_backoff = 5 }

abbrev losses : List (List Bool)
losses = (false ∷ false ∷ false ∷ false ∷ true ∷ []) ∷ (true ∷ []) ∷ []

the_waits : supervise reconnection 1 losses ≡ (1 ∷ 2 ∷ 4 ∷ 5 ∷ []) ∷ [] ∷ []
unfolding supervise
the_waits = refl

-- One `send` is answered, the next one is cancelled while a third waits, which then fails.
abbrev moves : List Move
moves =
    calls 1
    ∷ acquires
    ∷ arrives
    ∷ takes
    ∷ calls 2
    ∷ calls 3
    ∷ acquires
    ∷ abandons
    ∷ acquires
    ∷ stops
    ∷ takes
    ∷ []

is_careful : IsCareful connected moves
unfolding IsCareful
is_careful = (tt, (tt, (tt, (tt, (tt, (tt, (tt, (inl refl, (tt, (tt, (tt, tt)))))))))))

run-AreMatched_example : All (λ (p : ℕ × ℕ). p.0 ≡ p.1) (run connected moves).returned
run-AreMatched_example = run-AreMatched moves is_careful

-- Cancelled just as its reply was queued, the first `send` leaves the reply to the waiting one.
abbrev careless : List Move
careless = calls 1 ∷ calls 2 ∷ acquires ∷ arrives ∷ abandons ∷ acquires ∷ takes ∷ []

reply_goes_astray : (run connected careless).returned ≡ (2, 1) ∷ []
unfolding run
reply_goes_astray = refl

abbrev fed : List FeedMove
fed = pushes (some []) ∷ takes_one ∷ pushes none ∷ []

feed-IsFed_example :
    let f = feed (record { queue = []; taken = [] }) fed in
    (length f.queue ≤ 256) × (f.taken ++ f.queue ≡ with_room 0 fed)
feed-IsFed_example = feed-IsFed fed
