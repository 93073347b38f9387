-- ===== src/Telephony/Esl/RoundTrip.antt =====
-- `_read_frame` reads back the frames that were printed.
use mathlib.Core.List.{append-nil, append_assoc}
use call_agent.Prelude.{
  ℕ, zero, suc, ◌+◌, ◌<◌, ◌≤◌, ◌≡◌, refl, sym, ap, ◌∙◌, arith, true, false, Option, none, some,
  List, [], ◌∷◌, ◌++◌, length, nat_beq, leb, All, any,
}
use call_agent.Prelude.Eq.{nat_eq}
use call_agent.Prelude.Dicts.{lookup, put, lookup-put}
use call_agent.Prelude.Sets.{elem, IsDistinct}
use call_agent.Prelude.Strip.{
  is_space, rstrip_by, partition, partition-append, rstrip_by-append, rstrip_by-append_left,
  rstrip_by_mono, rstripped,
}
use call_agent.Telephony.Esl.{
  Text, text_eq, RawFrame, at_eof, read, take, drop, is_crlf, is_empty, content_length, put_line,
  line_limit, read_body, line_text, with_length, read_headers, read_frame, read_frames,
}
use call_agent.Telephony.Esl.Printed.{
  print_header, print_headers, body_bytes, print_frames, IsAscii, IsHeader, IsBody, names,
  IsPrintable,
}

abbrev pub puts : List (Text × Text) → List (Text × Text) → List (Text × Text)
puts headers [] = headers
puts headers ((name, value) ∷ more) = puts (put name value headers) more

put_new :
    (name value : Text) (headers : List (Text × Text))
    → lookup name headers ≡ none
    → put name value headers ≡ headers ++ (name, value) ∷ []
put_new name value [] h = refl
put_new name value ((n, v) ∷ headers) h = ground (arith, put_new name value headers)

still_new :
    (name value : Text) (headers : List (Text × Text)) (others : List Text)
    → elem name others ≡ false
    → All (λ other. lookup other headers ≡ none) others
    → All (λ other. lookup other (put name value headers) ≡ none) others
still_new name value headers [] n h = tt
still_new name value headers (other ∷ others) n h = (
  ground (arith, h.0, lookup-put other name value headers),
  still_new name value headers others (ground arith) h.1,
)

pub puts-append :
    (headers more : List (Text × Text))
    → IsDistinct (names more)
    → All (λ name. lookup name headers ≡ none) (names more)
    → puts headers more ≡ headers ++ more
puts-append headers [] d h = sym (append-nil headers)
puts-append headers ((name, value) ∷ more) d h =
    puts-append (put name value headers) more d.1
      (still_new name value headers (names more) d.0 h.1)
    ∙ rw (put_new name value headers h.0) (append_assoc headers ((name, value) ∷ []) more)

pub lookup-none : (others : List Text) → All (λ other. lookup {A = Text} other [] ≡ none) others
lookup-none [] = tt
lookup-none (other ∷ others) = (refl, lookup-none others)

is_crlf→is_space : (c : ℕ) → is_crlf c ≡ true → is_space c ≡ true
unfolding is_space
is_crlf→is_space c h = ground arith

All-append : (P : ℕ → Type 0) (s t : Text) → All P s → All P t → All P (s ++ t)
All-append P [] t h k = k
All-append P (c ∷ cs) t h k = (h.0, All-append P cs t h.1 k)

print_header-IsAscii :
    (name value : Text) → IsHeader name value → IsAscii (print_header name value ++ 10 ∷ [])
print_header-IsAscii name value h =
    All-append (λ c. c < 128) (print_header name value) (10 ∷ [])
      (All-append (λ c. c < 128) name (58 ∷ 32 ∷ value) h.name_ascii
        (omega arith, (omega arith, h.value_ascii)))
      (omega arith, tt)

ends_well :
    (value : Text)
    → rstrip_by is_space value ≡ value
    → rstrip_by is_crlf (58 ∷ 32 ∷ value) ≡ 58 ∷ 32 ∷ value
ends_well value h = rw (rstrip_by_mono is_crlf is_space value is_crlf→is_space h) (go value)
  where
    go : (v : Text) → rstripped is_crlf 58 (rstripped is_crlf 32 v) ≡ 58 ∷ 32 ∷ v
    go [] = refl
    go (c ∷ cs) = refl

print_header_line :
    (name value : Text) → IsHeader name value → any (nat_beq 10) (print_header name value) ≡ false
print_header_line name value h = go name h.name_line
  where
    go : (n : Text) → any (nat_beq 10) n ≡ false → any (nat_beq 10) (n ++ 58 ∷ 32 ∷ value) ≡ false
    go [] e = ground (arith, h.value_line)
    go (c ∷ cs) e = ground (arith, go cs)

pub print_header_ne : (name value : Text) → is_empty (print_header name value) ≡ false
print_header_ne [] value = refl
print_header_ne (c ∷ cs) value = refl

take-append : (s t : List ℕ) → take (length s) (s ++ t) ≡ s
take-append [] t = refl
take-append (c ∷ cs) t = ap (λ r. c ∷ r) (take-append cs t)

drop-append : (s t : List ℕ) → drop (length s) (s ++ t) ≡ t
drop-append [] t = refl
drop-append (c ∷ cs) t = drop-append cs t

length-append : (s t : List ℕ) → length (s ++ t) ≡ length s + length t
length-append [] t = omega arith
length-append (c ∷ cs) t = omega (arith, length-append cs t)

module _ (decode : List ℕ → Text)
    (decode_ascii : (bytes : List ℕ) → IsAscii bytes → decode bytes ≡ bytes) where
  -- The loop takes in a line up to its newline.
  read_headers_line :
      (headers : List (Text × Text)) (line w rest : List ℕ)
      → any (nat_beq 10) w ≡ false
      → length line + length w ≤ line_limit
      → read_headers decode headers line (w ++ 10 ∷ rest)
        ≡ read_headers decode headers (line ++ w) (10 ∷ rest)
  unfolding read_headers
  read_headers_line headers line [] rest h l = rw append-nil refl
  read_headers_line headers line (b ∷ bs) rest h l =
      let other : nat_beq b 10 ≡ false = ground arith in
      let room : leb line_limit (length line) ≡ false = ground arith in
      rw (read_headers, other, room)
        (read_headers_line headers (line ++ b ∷ []) bs rest (ground arith)
            (omega (arith, length-append line (b ∷ [])))
          ∙ rw (append_assoc line (b ∷ []) bs) refl)

  print_header_text :
      (name value : Text)
      → IsHeader name value
      → line_text decode (print_header name value ++ 10 ∷ []) ≡ print_header name value
  print_header_text name value h =
      rw (decode_ascii (print_header name value ++ 10 ∷ []) (print_header-IsAscii name value h)) (
        rstrip_by-append is_crlf 10 (print_header name value) refl
        ∙ rstrip_by-append_left is_crlf name 58 (32 ∷ value) (ends_well value h.value_stripped.1))

  put_line_header :
      (name value : Text) (headers : List (Text × Text))
      → IsHeader name value
      → put_line (partition 58 (print_header name value)) headers ≡ put name value headers
  unfolding is_space
  put_line_header name value headers h =
      rw (partition-append 58 name (32 ∷ value) h.name_colon)
        (rw (h.name_stripped.0, h.name_stripped.1, h.value_stripped.0, h.value_stripped.1) refl)

  read_headers_header :
      (name value : Text) (headers : List (Text × Text)) (rest : List ℕ)
      → IsHeader name value
      → read_headers decode headers [] (print_header name value ++ 10 ∷ rest)
        ≡ read_headers decode (put name value headers) [] rest
  unfolding read_headers
  read_headers_header name value headers rest h =
      read_headers_line headers [] (print_header name value) rest (print_header_line name value h)
        (omega (arith, h.short))
      ∙ rw (read_headers, print_header_text name value h)
          (rw (print_header_ne name value) (
            ap (λ t. read_headers decode (put_line (partition 58 t) headers) [] rest)
              (print_header_text name value h)
            ∙ ap (λ hs. read_headers decode hs [] rest) (put_line_header name value headers h)))

  read_headers-print_headers :
      (headers more : List (Text × Text)) (rest : List ℕ)
      → All (λ (h : Text × Text). IsHeader h.0 h.1) more
      → read_headers decode headers [] (print_headers more rest)
        ≡ read_body decode (puts headers more) rest
  unfolding print_headers read_headers read_body
  read_headers-print_headers headers [] rest h =
      rw (read_headers, decode_ascii (10 ∷ []) (omega arith, tt)) refl
  read_headers-print_headers headers ((name, value) ∷ more) rest h =
      read_headers_header name value headers (print_headers more rest) h.0
      ∙ read_headers-print_headers (put name value headers) more rest h.1

  read_body_of :
      (frame : RawFrame) (rest : List ℕ)
      → IsBody (lookup content_length frame.headers) frame.body
      → read_body decode frame.headers (body_bytes frame.body ++ rest) ≡ read frame rest
  unfolding read_body
  read_body_of frame rest h = go (lookup content_length frame.headers) frame.body refl h
    where
      fits : (body : Text) → leb (length body) (length (body ++ rest)) ≡ true
      fits body = ground (arith, length-append body rest)

      go :
          (o : Option Text) (b : Option Text)
          → frame.body ≡ b
          → IsBody o b
          → with_length decode frame.headers (body_bytes b ++ rest) o ≡ read frame rest
      go none none e k = ap (λ b. read (record frame { body = b }) rest) (sym e)
      go none (some body) e k = cc
      go (some raw_length) none e k = absurd k
      go (some raw_length) (some body) e k =
          rw (k.1, fits body, take-append body rest, drop-append body rest, decode_ascii body k.0)
            (ap (λ b. read (record frame { body = b }) rest) (sym e))

  read_frame-print :
      (frame : RawFrame) (rest : List ℕ)
      → IsPrintable frame
      → read_frame decode (print_headers frame.headers (body_bytes frame.body ++ rest))
        ≡ read frame rest
  unfolding read_frame
  read_frame-print frame rest h =
      read_headers-print_headers [] frame.headers (body_bytes frame.body ++ rest) h.headers
      ∙ rw (puts-append [] frame.headers h.distinct (lookup-none (names frame.headers)))
          (read_body_of frame rest h.body)

  -- Let `decode` leave ASCII bytes as they are. Frames printed one after another, each with distinct
  -- stripped header names, stripped values, header lines of at most 64 KiB, and a body exactly when there is a Content-Length, which
  -- then reads as its length in bytes, are read back in their order, and then the end of the stream
  -- is met; the fuel is any number above that of the frames.
  pub read_frames-print_frames :
      (frames : List RawFrame) (fuel : ℕ)
      → All IsPrintable frames
      → length frames < fuel
      → read_frames decode fuel (print_frames frames) ≡ some (frames, at_eof)
  unfolding read_frames print_frames
  read_frames-print_frames frames zero h l = absurd (omega arith)
  read_frames-print_frames [] (suc fuel) h l = refl
  read_frames-print_frames (frame ∷ frames) (suc fuel) h l =
      rw
        (
          read_frame-print frame (print_frames frames) h.0,
          read_frames-print_frames frames fuel h.1 (omega arith),
        )
        refl
