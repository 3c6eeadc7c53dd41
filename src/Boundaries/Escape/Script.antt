-- ===== src/Boundaries/Escape/Script.antt =====
-- `javascriptString` of server/src/utils/ServerBoundaries.hpp is one string literal, and means the
-- text that it was made from.
use conspire.Prelude.{
  ℕ, ◌+◌, ◌*◌, ◌/◌, ◌%◌, ◌<◌, ◌≡◌, refl, ap, [], ◌∷◌, ◌++◌, Option, none, some, arith, ◌==◌,
  if◌then◌else◌,
}
use mathlib.Core.Option
use mathlib.Core.List.{append_assoc}
use conspire.Prelude.Bytes.{Bytes, IsBytes}
use conspire.Boundaries.Escape.{script_byte, script_body, javascript_string}
use conspire.Boundaries.Escape.Url.{hex_value, hex_value-hex_digit}

-- The character that an escape letter stands for.
abbrev escaped : ℕ → ℕ
escaped e = if e == b'n' then b'\n' else if e == b'r' then b'\r' else if e == b't' then b'\t' else e

-- A reader of string literals: the state is what is known of the escape that is being read.
pub data Reading : Type 0 where
  plain after_backslash hex_four hex_three hex_two : Reading
  hex_one : ℕ → Reading

-- Reads up to the closing quote, and gives the text and what follows the literal.
pub read : Reading → Bytes → Option (Bytes × Bytes)
read mode [] = none
read plain (c ∷ cs) =
    let stop = some ([], cs) in
    let escape = read after_backslash cs in
    let more = Option.map (λ r. (c ∷ r.0, r.1)) (read plain cs) in
    if c == b'"' then stop else if c == b'\\' then escape else more
read after_backslash (c ∷ cs) =
    let unicode = read hex_four cs in
    let more = Option.map (λ r. (escaped c ∷ r.0, r.1)) (read plain cs) in
    if c == b'u' then unicode else more
read hex_four (c ∷ cs) = read hex_three cs
read hex_three (c ∷ cs) = read hex_two cs
read hex_two (c ∷ cs) = read (hex_one (hex_value c)) cs
read (hex_one high) (c ∷ cs) =
    Option.map (λ r. ((high * 16 + hex_value c) ∷ r.0, r.1)) (read plain cs)

-- The literal after its opening quote.
abbrev pub read_literal : Bytes → Option (Bytes × Bytes)
read_literal = read plain

digit_values :
    (hex_value b'0' ≡ 0) × (hex_value b'3' ≡ 3) × (hex_value b'C' ≡ 12) × (hex_value b'E' ≡ 14)
unfolding hex_value
digit_values = (refl, refl, refl, refl)

read-script_byte :
    (c : ℕ) (rest : Bytes)
    → c < 256
    → read plain (script_byte c ++ rest) ≡ Option.map (λ r. (c ∷ r.0, r.1)) (read plain rest)
unfolding read script_byte
read-script_byte c rest h = ground (
  arith,
  digit_values,
  hex_value-hex_digit (c / 16) (omega arith),
  hex_value-hex_digit (c % 16) (omega arith),
)

read-script_body :
    (value after : Bytes)
    → IsBytes value
    → read plain (script_body value ++ b'"' ∷ after) ≡ some (value, after)
unfolding script_body
read-script_body [] after h = unfold read in refl
read-script_body (c ∷ cs) after h =
    rw (append_assoc, read-script_byte c (script_body cs ++ b'"' ∷ after) h.0)
      (rw (read-script_body cs after h.1))

-- A reader of string literals takes the whole of an encoded text for one literal, whatever
-- follows: the first quote that ends it is the last byte. What it reads is the text.
pub read_literal-javascript_string :
    (value after : Bytes)
    → IsBytes value
    → (body : Bytes) × (javascript_string value ++ after ≡ b'"' ∷ body)
      × (read_literal body ≡ some (value, after))
unfolding javascript_string
read_literal-javascript_string value after h = (
  script_body value ++ b'"' ∷ after,
  ap (◌∷◌ b'"') (append_assoc (script_body value) (b'"' ∷ []) after),
  read-script_body value after h,
)
