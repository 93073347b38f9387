-- ===== src/Telephony/Esl/Fuel.antt =====
-- The read loop ends: every frame takes at least one byte of the stream.
use call_agent.Prelude.{
  ℕ, zero, suc, ◌+◌, ◌≤◌, ◌<◌, ◌≡◌, refl, ap, arith, Option, none, some, List, [], ◌∷◌, ◌++◌, ℤ,
  pos, negsuc, length, nat_beq, leb, if_elim, Bool-cases, inl, inr,
}
use call_agent.Prelude.Dicts.{lookup}
use call_agent.Prelude.Strip.{partition}
use call_agent.Telephony.Esl.{
  Text, text_eq, RawFrame, FrameRead, at_eof, malformed, incomplete, line_limit, too_long, negative,
  read, int, drop, is_empty, content_length, put_line, body_of, with_length, read_body, line_text,
  read_headers, read_frame, and_then, read_frames,
}

-- What is left after a frame, if there is one.
abbrev Leaves : ℕ → FrameRead → Type 0
Leaves n (read frame rest) = length rest ≤ n
Leaves n _ = Unit

length-drop : (n : ℕ) (bytes : List ℕ) → length (drop n bytes) ≤ length bytes
length-drop zero bytes = omega arith
length-drop (suc n) [] = omega arith
length-drop (suc n) (b ∷ bs) = omega (arith, length-drop n bs)

Leaves-mono : (m n : ℕ) (r : FrameRead) → m ≤ n → Leaves m r → Leaves n r
Leaves-mono m n at_eof l h = tt
Leaves-mono m n malformed l h = tt
Leaves-mono m n incomplete l h = tt
Leaves-mono m n negative l h = tt
Leaves-mono m n too_long l h = tt
Leaves-mono m n (read frame rest) l h = omega arith

length-snoc : (line : List ℕ) (b : ℕ) → length (line ++ b ∷ []) ≡ suc (length line)
length-snoc [] b = refl
length-snoc (c ∷ cs) b = ap suc (length-snoc cs b)

module _ (decode : List ℕ → Text) where
  read_body-Leaves :
      (headers : List (Text × Text)) (rest : List ℕ)
      → Leaves (length rest) (read_body decode headers rest)
  unfolding read_body
  read_body-Leaves headers rest = of_length (lookup content_length headers)
    where
      of_body : (o : Option ℤ) → Leaves (length rest) (body_of decode headers rest o)
      of_body none = tt
      of_body (some (negsuc n)) = tt
      of_body (some (pos n)) =
          if_elim (Leaves (length rest)) (leb n (length rest)) _ _ (λ _. length-drop n rest) λ _. tt

      of_length : (o : Option Text) → Leaves (length rest) (with_length decode headers rest o)
      of_length none = omega arith
      of_length (some raw_length) = of_body (int raw_length)

  -- The bytes that are left and one more were there, or read of the current line.
  read_headers-Leaves :
      (headers : List (Text × Text)) (line bytes : List ℕ) (n : ℕ)
      → length bytes + length line ≤ suc n
      → Leaves n (read_headers decode headers line bytes)
  unfolding read_headers
  read_headers-Leaves headers line [] n e =
      if_elim (Leaves n) (is_empty line) _ _ (λ _. tt)
        λ _.
          if_elim (Leaves n) (is_empty (line_text decode line)) _ _
            (λ _.
              Leaves-mono 0 n (read_body decode headers []) (omega arith)
                (read_body-Leaves headers []))
            λ _. tt
  read_headers-Leaves headers line (b ∷ bs) n e = elim (Bool-cases (nat_beq b 10)) [
    | inl newline ↦ elim (Bool-cases (is_empty (line_text decode (line ++ b ∷ [])))) [
      | inl blank ↦
          rw (read_headers, newline, blank)
            (Leaves-mono (length bs) n (read_body decode headers bs) (omega arith)
              (read_body-Leaves headers bs))
      | inr more ↦
          rw (read_headers, newline, more)
            (read_headers-Leaves
              (put_line (partition 58 (line_text decode (line ++ b ∷ []))) headers) [] bs n
              (omega arith))
    ]
    | inr other ↦ elim (Bool-cases (leb line_limit (length line))) [
      | inl long ↦ rw (read_headers, other, long) tt
      | inr room ↦
          rw (read_headers, other, room)
            (read_headers-Leaves headers (line ++ b ∷ []) bs n (omega (arith, length-snoc line b)))
    ]
  ]

  read_frame-Leaves :
      (bytes : List ℕ) (n : ℕ) → length bytes ≤ suc n → Leaves n (read_frame decode bytes)
  unfolding read_frame
  read_frame-Leaves bytes n l = read_headers-Leaves [] [] bytes n (omega arith)

  abbrev pub Yields : Option (List RawFrame × FrameRead) → Type 0
  Yields o = (frames : List RawFrame) × (last : FrameRead) × (o ≡ some (frames, last))

  and_then-Yields :
      (n : ℕ) (r : FrameRead) (more : List ℕ → Option (List RawFrame × FrameRead))
      → Leaves n r
      → ((rest : List ℕ) → length rest ≤ n → Yields (more rest))
      → Yields (and_then decode r more)
  and_then-Yields n at_eof more l h = ([], at_eof, refl)
  and_then-Yields n malformed more l h = ([], malformed, refl)
  and_then-Yields n incomplete more l h = ([], incomplete, refl)
  and_then-Yields n negative more l h = ([], negative, refl)
  and_then-Yields n too_long more l h = ([], too_long, refl)
  and_then-Yields n (read frame rest) more l h =
      let (frames, last, e) = h rest l in (frame ∷ frames, last, rw e refl)

  -- The read loop ends on every stream of bytes: with a fuel larger than the number of bytes it yields
  -- the frames that it read and what ended it.
  pub read_frames-enough :
      (fuel : ℕ) (bytes : List ℕ) → length bytes < fuel → Yields (read_frames decode fuel bytes)
  unfolding read_frames
  read_frames-enough zero bytes l = absurd (omega arith)
  read_frames-enough (suc zero) [] l = ([], at_eof, refl)
  read_frames-enough (suc zero) (b ∷ bs) l = absurd (omega arith)
  read_frames-enough (suc (suc n)) bytes l =
      and_then-Yields n (read_frame decode bytes) (read_frames decode (suc n))
        (read_frame-Leaves bytes n (omega arith))
        λ rest small. read_frames-enough (suc n) rest (omega arith)
