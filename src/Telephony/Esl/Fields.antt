-- ===== src/Telephony/Esl/Fields.antt =====
-- `_parse_kv_block` of voiceagent/telephony/freeswitch/esl_transport.py: the fields of one event.
pub mod Block
use call_agent.Prelude.{
  ℕ, Bool, true, false, ◌&&◌, ◌||◌, List, [], ◌∷◌, ◌++◌, codes, nat_beq, leb, any, if◌then◌else◌,
}
use call_agent.Prelude.Dicts.{put}
use call_agent.Prelude.Strip.{strip, partition}
use call_agent.Telephony.Esl.{Text, text_eq, is_empty}

-- The characters at which `str.splitlines` splits.
unfoldable pub is_break : ℕ → Bool
is_break c =
    (leb 10 c && leb c 13) || (leb 28 c && leb c 30) || any (nat_beq c) (133 ∷ 8232 ∷ 8233 ∷ [])

abbrev last_line : Text → List Text
last_line [] = []
last_line (c ∷ line) = (c ∷ line) ∷ []

-- `text.splitlines()`, with the line read so far; the flag says that a carriage return was just read,
-- whose line feed belongs to it.
unfoldable pub split_lines : Bool → Text → Text → List Text
unfolding is_break
split_lines after_return line [] = last_line line
split_lines after_return line (c ∷ cs) = elim (after_return && nat_beq c 10) [
  | true ↦ split_lines false line cs
  | false ↦ elim (is_break c) [
    | true ↦ line ∷ split_lines (nat_beq c 13) [] cs
    | false ↦ split_lines false (line ++ c ∷ []) cs
  ]
]

-- `"\n".join(lines)`
abbrev join_lines : List Text → Text
join_lines [] = []
join_lines (line ∷ []) = line
join_lines (line ∷ l ∷ lines) = line ++ 10 ∷ join_lines (l ∷ lines)

module _ (unquote : Text → Text) where
  abbrev pub put_field : Text × Bool × Text → List (Text × Text) → List (Text × Text)
  put_field (name, false, value) fields = fields
  put_field (name, true, value) fields = put (strip name) (unquote (strip value)) fields

  -- The loop over the lines; a blank one ends it, and what follows is the body.
  unfoldable pub read_fields : List (Text × Text) → List Text → List (Text × Text)
  read_fields fields [] = fields
  read_fields fields (line ∷ lines) = elim (is_empty line) [
    | true ↦ put (codes "__body__") (join_lines lines) fields
    | false ↦ read_fields (put_field (partition 58 line) fields) lines
  ]

  unfoldable pub parse_kv_block : Text → List (Text × Text)
  unfolding split_lines read_fields
  parse_kv_block text = read_fields [] (split_lines false [] text)
