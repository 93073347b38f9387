-- ===== src/Telephony/Esl.antt =====
-- The wire format of FreeSWITCH's event socket, as voiceagent/telephony/freeswitch/esl_transport.py
-- reads it. Bytes and characters are numbers, a text is a list of them. `decode` is
-- `bytes.decode("utf-8", errors="replace")` and `unquote` that of urllib, both parameters.
pub mod Connection
pub mod Fields
pub mod Fuel
pub mod Printed
pub mod Reconnect
pub mod RoundTrip
use call_agent.Prelude.{
  ℕ, zero, suc, ◌+◌, ◌-◌, ◌*◌, ◌≡◌, ◌↔◌, arith, Bool, true, false, not, ◌&&◌, ◌||◌, Option, none,
  some, List, [], ◌∷◌, ◌++◌, ℤ, pos, negsuc, codes, length, nat_beq, leb, if◌then◌else◌,
}
use call_agent.Prelude.Eq.{Eq, nat_eq}
use call_agent.Prelude.Dicts.{lookup, put}
use call_agent.Prelude.Strip.{strip, rstrip_by, partition}

abbrev pub Text : Type 0
Text = List ℕ

abbrev pub text_beq : Text → Text → Bool
text_beq [] [] = true
text_beq (c ∷ cs) (d ∷ ds) = nat_beq c d && text_beq cs ds
text_beq _ _ = false

pub text_beq_iff : (s t : Text) → (text_beq s t ≡ true) ↔ (s ≡ t)
text_beq_iff [] [] = ground arith
text_beq_iff [] (d ∷ ds) = ground arith
text_beq_iff (c ∷ cs) [] = ground arith
text_beq_iff (c ∷ cs) (d ∷ ds) = ground (arith, text_beq_iff cs ds)

instance abbrev pub text_eq : Eq Text
text_eq = record { equal = text_beq; equal_iff = text_beq_iff }

-- `_RawFrame`
pub record RawFrame : Type 0 where
  pub headers : List (Text × Text)
  pub body : Option Text

-- What `_read_frame` does on the bytes that are left: it returns `None` at the end of the stream,
-- raises TransportError, IncompleteReadError or, in the last two cases, ValueError, or returns a frame.
pub data FrameRead : Type 0 where
  at_eof malformed incomplete negative too_long : FrameRead
  read : RawFrame → List ℕ → FrameRead

abbrev pub is_digit : ℕ → Bool
is_digit c = leb 48 c && leb c 57

-- Digits with single underscores between them; the flag asks for a digit.
abbrev digits : ℕ → Bool → Text → Option ℕ
digits value wanted [] = if wanted then none else some value
digits value wanted (c ∷ cs) = elim (is_digit c) [
  | true ↦ digits (value * 10 + (c - 48)) false cs
  | false ↦ elim (nat_beq c 95 && not wanted) [ true ↦ digits value true cs | false ↦ none ]
]

abbrev negated : Option ℕ → Option ℤ
negated none = none
negated (some zero) = some (pos 0)
negated (some (suc n)) = some (negsuc n)

abbrev positive : Option ℕ → Option ℤ
positive none = none
positive (some n) = some (pos n)

abbrev signed : Text → Option ℤ
signed [] = none
signed (c ∷ cs) =
    if nat_beq c 45
    then negated (digits 0 true cs)
    else if nat_beq c 43
    then positive (digits 0 true cs)
    else positive (digits 0 true (c ∷ cs))

-- `int(text)`, with `none` for a ValueError; digits are ASCII.
unfoldable pub int : Text → Option ℤ
int text = signed (strip text)

abbrev pub take : ℕ → List ℕ → List ℕ
take zero bs = []
take (suc n) [] = []
take (suc n) (b ∷ bs) = b ∷ take n bs

abbrev pub drop : ℕ → List ℕ → List ℕ
drop zero bs = bs
drop (suc n) [] = []
drop (suc n) (b ∷ bs) = drop n bs

abbrev pub is_crlf : ℕ → Bool
is_crlf c = nat_beq c 13 || nat_beq c 10

abbrev pub is_empty : Text → Bool
is_empty [] = true
is_empty (c ∷ cs) = false

abbrev pub content_length : Text
content_length = codes "Content-Length"

-- `headers[name.strip()] = value.strip()`, if the line has a colon
abbrev pub put_line : Text × Bool × Text → List (Text × Text) → List (Text × Text)
put_line (name, false, value) headers = headers
put_line (name, true, value) headers = put (strip name) (strip value) headers

-- The `limit` of asyncio's StreamReader, which `open_connection` leaves at its default of 64 KiB.
abbrev pub line_limit : ℕ
line_limit = 65536

module _ (decode : List ℕ → Text) where
  abbrev pub body_of : List (Text × Text) → List ℕ → Option ℤ → FrameRead
  body_of headers rest none = malformed
  body_of headers rest (some (negsuc n)) = negative
  body_of headers rest (some (pos n)) =
      if leb n (length rest)
      then read (record { headers = headers; body = some (decode (take n rest)) }) (drop n rest)
      else incomplete

  abbrev pub with_length : List (Text × Text) → List ℕ → Option Text → FrameRead
  with_length headers rest none = read (record { headers = headers; body = none }) rest
  with_length headers rest (some raw_length) = body_of headers rest (int raw_length)

  -- what follows the loop over the header lines
  unfoldable pub read_body : List (Text × Text) → List ℕ → FrameRead
  unfolding int
  read_body headers rest = with_length headers rest (lookup content_length headers)

  -- The text of one line, read with its newline if it has one.
  abbrev pub line_text : List ℕ → Text
  line_text line = rstrip_by is_crlf (decode line)

  -- The loop over the header lines; `readline` is part of the recursion, and `line` is what it has
  -- read of the current line. A last line may lack its newline. A line of more bytes than
  -- `line_limit` before its newline is a ValueError.
  unfoldable pub read_headers : List (Text × Text) → List ℕ → List ℕ → FrameRead
  unfolding read_body
  read_headers headers line [] =
      if is_empty line
      then at_eof
      else if is_empty (line_text line)
      then read_body headers []
      else at_eof
  read_headers headers line (b ∷ bs) = elim (nat_beq b 10) [
    | false ↦ elim (leb line_limit (length line)) [
      | true ↦ too_long
      | false ↦ read_headers headers (line ++ b ∷ []) bs
    ]
    | true ↦ elim (is_empty (line_text (line ++ b ∷ []))) [
      | true ↦ read_body headers bs
      | false ↦ read_headers (put_line (partition 58 (line_text (line ++ b ∷ []))) headers) [] bs
    ]
  ]

  unfoldable pub read_frame : List ℕ → FrameRead
  unfolding read_headers
  read_frame bytes = read_headers [] [] bytes

  abbrev pub followed_by :
      RawFrame → Option (List RawFrame × FrameRead) → Option (List RawFrame × FrameRead)
  followed_by frame none = none
  followed_by frame (some (frames, last)) = some (frame ∷ frames, last)

  abbrev pub and_then :
      FrameRead → (List ℕ → Option (List RawFrame × FrameRead)) → Option (List RawFrame × FrameRead)
  and_then (read frame rest) more = followed_by frame (more rest)
  and_then ended more = some ([], ended)

  -- The frames that the read loop gets from a stream, and what ends it; `none` without fuel.
  unfoldable pub read_frames : ℕ → List ℕ → Option (List RawFrame × FrameRead)
  unfolding read_frame
  read_frames zero bytes = none
  read_frames (suc fuel) bytes = and_then (read_frame bytes) (read_frames fuel)
