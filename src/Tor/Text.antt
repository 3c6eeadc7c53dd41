-- ===== src/Tor/Text.antt =====
-- The texts of the Tor control protocol: hexadecimal numbers, quoted values, fields, identifiers.
pub mod Hex
pub mod Quoted
use conspire.Prelude.{
  ℕ, zero, suc, ◌+◌, ◌-◌, ◌*◌, ◌/◌, ◌%◌, ◌≡◌, Bool, true, false, not, ◌&&◌, ◌||◌, List, [], ◌∷◌,
  ◌++◌, Option, none, some, ltb, ◌==◌, length, take, drop, if◌then◌else◌,
}
use mathlib.Core.Option
use conspire.Prelude.Bytes.{Bytes, codes, within, same, all_of, find, is_prefix}
use conspire.Boundaries.Text.{is_empty}

-- HEX[nibble]
unfoldable pub hex_letter : ℕ → ℕ
hex_letter nibble = if ltb nibble 10 then b'0' + nibble else b'A' + (nibble - 10)

-- Both texts are written byte by byte, high half first.
unfoldable pub hex_encode : Bytes → Bytes
unfolding hex_letter
hex_encode [] = []
hex_encode (byte ∷ bytes) = hex_letter (byte / 16) ∷ hex_letter (byte % 16) ∷ hex_encode bytes

-- `none` for the source's -1.
unfoldable pub nibble : ℕ → Option ℕ
nibble c =
    if within b'0' b'9' c
    then some (c - b'0')
    else if within b'a' b'f' c
    then some (c - b'a' + 10)
    else if within b'A' b'F' c
    then some (c - b'A' + 10)
    else none

-- (high << 4) | low, before the bytes that the loop decodes after it
unfoldable pub decoded_byte : Option ℕ → Option ℕ → Option Bytes → Option Bytes
decoded_byte (some high) (some low) (some rest) = some ((high * 16 + low) ∷ rest)
decoded_byte high low rest = none

unfoldable pub decode_pairs : Bytes → Option Bytes
decode_pairs [] = some []
decode_pairs (c ∷ []) = none
decode_pairs (high ∷ low ∷ text) = decoded_byte (nibble high) (nibble low) (decode_pairs text)

unfoldable pub hex_decode : Bytes → Option Bytes
hex_decode text = if is_empty text || not (length text % 2 == 0) then none else decode_pairs text

-- Where the loop of `quotedValue` stands: between characters, after a backslash, or after the
-- octal digits of a number, which it has read.
pub data Mode : Type 0 where
  plain escaped : Mode
  octal : ℕ → ℕ → Mode

unfoldable pub prepend : ℕ → Option Bytes → Option Bytes
prepend c none = none
prepend c (some value) = some (c ∷ value)

-- The characters that stand for another after a backslash.
unfoldable pub escaped_byte : ℕ → ℕ
escaped_byte c = if c == b'n' then 10 else if c == b'r' then 13 else if c == b't' then 9 else c

unfoldable pub is_octal : ℕ → Bool
is_octal = within b'0' b'7'

-- The text from `position` on. A number ends before the first character that is no octal digit,
-- or with its third.
unfoldable pub read_quoted : Mode → Bytes → Option Bytes
unfolding is_octal
read_quoted mode [] = none
read_quoted plain (c ∷ cs) = elim (c == b'"') [
  | true ↦ some []
  | false ↦ elim (c == b'\\') [
    | true ↦ read_quoted escaped cs
    | false ↦ prepend c (read_quoted plain cs)
  ]
]
read_quoted escaped (c ∷ cs) = elim (is_octal c) [
  | true ↦ read_quoted (octal (c - b'0') 1) cs
  | false ↦ prepend (escaped_byte c) (read_quoted plain cs)
]
read_quoted (octal octet count) (c ∷ cs) = elim (is_octal c) [
  | true ↦
      let next = octet * 8 + (c - b'0') in
      elim (count == 2) [
        | true ↦ elim (ltb 255 next) [ true ↦ none | false ↦ prepend next (read_quoted plain cs) ]
        | false ↦ read_quoted (octal next (count + 1)) cs
      ]
  | false ↦ elim (c == b'"') [
    | true ↦ some (octet ∷ [])
    | false ↦ elim (c == b'\\') [
      | true ↦ prepend octet (read_quoted escaped cs)
      | false ↦ prepend octet (prepend c (read_quoted plain cs))
    ]
  ]
]

-- line[position] == '"'
unfoldable pub opened : Bytes → Option Bytes
opened [] = none
opened (c ∷ cs) = if c == b'"' then read_quoted plain cs else none

unfoldable pub quoted_value : Bytes → Bytes → Option Bytes
quoted_value line name = elim (find name line) [
  | none ↦ none
  | some start ↦ opened (drop (start + length name) line)
]

unfoldable pub until : ℕ → Bytes → Bytes
until stop [] = []
until stop (c ∷ cs) = let rest = until stop cs in if c == stop then [] else c ∷ rest

-- What stands after the first occurrence of the field, up to a space.
unfoldable pub field_text : Bytes → Bytes → Option Bytes
field_text line field =
    Option.map (λ start. until b' ' (drop (start + length field) line)) (find field line)

unfoldable pub field_value : Bytes → Bytes → Bytes
unfolding field_text
field_value line field = elim (field_text line field) [ none ↦ [] | some value ↦ value ]

unfoldable pub onto_first : ℕ → List Bytes → List Bytes
onto_first c [] = (c ∷ []) ∷ []
onto_first c (token ∷ tokens) = (c ∷ token) ∷ tokens

unfoldable pub split_commas : Bytes → List Bytes
split_commas [] = [] ∷ []
split_commas (c ∷ cs) =
    let rest = split_commas cs in if c == b',' then [] ∷ rest else onto_first c rest

unfoldable pub is_token : Bytes → List Bytes → Bool
is_token method [] = false
is_token method (token ∷ tokens) = same token method || is_token method tokens

unfoldable pub contains_method : Bytes → Bytes → Bool
unfolding split_commas
contains_method methods method = is_token method (split_commas methods)

unfoldable pub is_service_id_byte : ℕ → Bool
is_service_id_byte c = within b'a' b'z' c || within b'2' b'7' c

unfoldable pub valid_service_id : Bytes → Bool
valid_service_id service_id =
    if not (length service_id == 56) then false else all_of is_service_id_byte service_id

unfoldable pub is_base64_byte : ℕ → Bool
is_base64_byte c =
    within b'A' b'Z' c || within b'a' b'z' c || within b'0' b'9' c || c == b'+' || c == b'/'

abbrev pub key_prefix : Bytes
key_prefix = codes "ED25519-V3:"

-- The prefix, 86 characters of base 64 and two of padding.
unfoldable pub valid_private_key : Bytes → Bool
valid_private_key private_key =
    if not (length private_key == length key_prefix + 88)
      || not (same (take (length key_prefix) private_key) key_prefix)
      || not (same (drop (length private_key - 2) private_key) (codes "=="))
    then false
    else all_of is_base64_byte (take 86 (drop (length key_prefix) private_key))
