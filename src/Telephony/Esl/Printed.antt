-- ===== src/Telephony/Esl/Printed.antt =====
-- The frames of FreeSWITCH's event socket as text, and which frames can be printed.
use call_agent.Prelude.{
  ℕ, ◌<◌, ◌≤◌, ◌≡◌, false, Option, none, some, List, [], ◌∷◌, ◌++◌, pos, length, nat_beq, All, any,
}
use call_agent.Prelude.Eq.{nat_eq}
use call_agent.Prelude.Dicts.{lookup}
use call_agent.Prelude.Sets.{IsDistinct}
use call_agent.Prelude.Strip.{IsStripped}
use call_agent.Telephony.Esl.{Text, text_eq, RawFrame, int, content_length}

-- A header line, and a frame: its header lines, a blank line and its body.
abbrev pub print_header : Text → Text → Text
print_header name value = name ++ 58 ∷ 32 ∷ value

unfoldable pub print_headers : List (Text × Text) → List ℕ → List ℕ
print_headers [] rest = 10 ∷ rest
print_headers ((name, value) ∷ headers) rest =
    print_header name value ++ 10 ∷ print_headers headers rest

abbrev pub body_bytes : Option Text → List ℕ
body_bytes none = []
body_bytes (some body) = body

unfoldable pub print_frames : List RawFrame → List ℕ
unfolding print_headers
print_frames [] = []
print_frames (frame ∷ frames) =
    print_headers frame.headers (body_bytes frame.body ++ print_frames frames)

abbrev pub IsAscii : Text → Type 0
IsAscii = All (λ c. c < 128)

-- A line of at most 64 KiB that is stripped and holds no newline; a name holds no colon either.
pub record IsHeader (name value : Text) : Type 0 where
  pub name_ascii : IsAscii name
  pub value_ascii : IsAscii value
  pub name_line : any (nat_beq 10) name ≡ false
  pub value_line : any (nat_beq 10) value ≡ false
  pub name_colon : any (nat_beq 58) name ≡ false
  pub name_stripped : IsStripped name
  pub value_stripped : IsStripped value
  pub short : length (print_header name value) ≤ 65536

-- A body comes with a Content-Length that reads as its length.
abbrev pub IsBody : Option Text → Option Text → Type 0
IsBody none body = body ≡ none
IsBody (some raw_length) none = ⊥
IsBody (some raw_length) (some body) = IsAscii body × (int raw_length ≡ some (pos (length body)))

abbrev pub names : List (Text × Text) → List Text
names [] = []
names ((name, value) ∷ headers) = name ∷ names headers

pub record IsPrintable (frame : RawFrame) : Type 0 where
  pub headers : All (λ (h : Text × Text). IsHeader h.0 h.1) frame.headers
  pub distinct : IsDistinct (names frame.headers)
  pub body : IsBody (lookup content_length frame.headers) frame.body
