-- ===== src/Telephony/Esl/Fields/Block.antt =====
-- `_parse_kv_block` reads a printed block of fields.
use mathlib.Core.List.{append-nil, append_assoc}
use call_agent.Prelude.{
  ◌≡◌, refl, sym, ap, ◌∙◌, arith, false, List, [], ◌∷◌, ◌++◌, nat_beq, any, All,
}
use call_agent.Prelude.Dicts.{put}
use call_agent.Prelude.Sets.{IsDistinct}
use call_agent.Prelude.Strip.{is_space, IsStripped, partition, partition-append}
use call_agent.Telephony.Esl.{Text, text_eq}
use call_agent.Telephony.Esl.Printed.{print_header, names}
use call_agent.Telephony.Esl.RoundTrip.{puts, puts-append, lookup-none, print_header_ne}
use call_agent.Telephony.Esl.Fields.{is_break, split_lines, put_field, read_fields, parse_kv_block}

unfoldable pub print_block : List (Text × Text) → Text
print_block [] = []
print_block ((name, value) ∷ fields) = print_header name value ++ 10 ∷ print_block fields

-- No line break in either part, and no colon in the name.
pub record IsField (name value : Text) : Type 0 where
  pub name_line : any is_break name ≡ false
  pub value_line : any is_break value ≡ false
  pub name_colon : any (nat_beq 58) name ≡ false
  pub name_stripped : IsStripped name
  pub value_stripped : IsStripped value

split_lines_line :
    (line w rest : Text)
    → any is_break w ≡ false
    → split_lines false line (w ++ 10 ∷ rest) ≡ (line ++ w) ∷ split_lines false [] rest
unfolding split_lines is_break
split_lines_line line [] rest h = ap (λ l. l ∷ split_lines false [] rest) (sym (append-nil line))
split_lines_line line (c ∷ cs) rest h =
    let other : is_break c ≡ false = ground arith in
    rw (split_lines, other)
      (split_lines_line (line ++ c ∷ []) cs rest (ground arith)
        ∙ ap (λ l. l ∷ split_lines false [] rest) (append_assoc line (c ∷ []) cs))

header_line :
    (name value : Text) → IsField name value → any is_break (print_header name value) ≡ false
unfolding is_break
header_line name value h = go name h.name_line
  where
    go : (n : Text) → any is_break n ≡ false → any is_break (n ++ 58 ∷ 32 ∷ value) ≡ false
    go [] e = h.value_line
    go (c ∷ cs) e = ground (arith, go cs)

module _ (unquote : Text → Text) where
  abbrev pub unquoted : List (Text × Text) → List (Text × Text)
  unquoted [] = []
  unquoted ((name, value) ∷ fields) = (name, unquote value) ∷ unquoted fields

  put_field_header :
      (name value : Text) (fields : List (Text × Text))
      → IsField name value
      → put_field unquote (partition 58 (print_header name value)) fields
        ≡ put name (unquote value) fields
  unfolding is_space
  put_field_header name value fields h =
      rw (partition-append 58 name (32 ∷ value) h.name_colon)
        (rw (h.name_stripped.0, h.name_stripped.1, h.value_stripped.0, h.value_stripped.1) refl)

  read_fields_block :
      (fields more : List (Text × Text))
      → All (λ (f : Text × Text). IsField f.0 f.1) more
      → read_fields unquote fields (split_lines false [] (print_block more))
        ≡ puts fields (unquoted more)
  unfolding print_block split_lines read_fields
  read_fields_block fields [] h = refl
  read_fields_block fields ((name, value) ∷ more) h =
      let lines = split_lines false [] (print_block more) in
      ap (read_fields unquote fields) (
        split_lines_line [] (print_header name value) (print_block more)
          (header_line name value h.0))
      ∙ rw (read_fields, print_header_ne name value)
          (ap (λ fs. read_fields unquote fs lines) (put_field_header name value fields h.0))
      ∙ read_fields_block (put name (unquote value) fields) more h.1

  names-unquoted : (fields : List (Text × Text)) → names (unquoted fields) ≡ names fields
  names-unquoted [] = refl
  names-unquoted ((name, value) ∷ fields) = ap (λ ns. name ∷ ns) (names-unquoted fields)

  -- The fields of an event, printed a line each with distinct stripped names and stripped values that
  -- hold no line break, are read back in their order, each value unquoted.
  pub parse_kv_block-print_block :
      (fields : List (Text × Text))
      → All (λ (f : Text × Text). IsField f.0 f.1) fields
      → IsDistinct (names fields)
      → parse_kv_block unquote (print_block fields) ≡ unquoted fields
  unfolding parse_kv_block
  parse_kv_block-print_block fields h d =
      read_fields_block [] fields h
      ∙ puts-append [] (unquoted fields) (rw (names-unquoted fields) d)
          (lookup-none (names (unquoted fields)))
