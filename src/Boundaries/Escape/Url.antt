-- ===== src/Boundaries/Escape/Url.antt =====
-- `urlPathSegment` of server/src/utils/ServerBoundaries.hpp is read back by percent decoding.
use conspire.Prelude.{
  ℕ, ◌+◌, ◌-◌, ◌*◌, ◌/◌, ◌%◌, ◌<◌, ◌≡◌, refl, true, false, [], ◌∷◌, ◌++◌, arith, ◌==◌, ==_iff,
  Bool-cases, inl, inr, if◌then◌else◌,
}
use conspire.Prelude.Bytes.{Bytes, IsBytes, within, all_of, all_below, all_below_sound}
use conspire.Boundaries.Text.{is_alphanumeric, is_room_id_byte, valid_room_id}
use conspire.Boundaries.Escape.{hex_digit, is_unreserved, url_byte, url_path_segment}

-- The value of a hexadecimal digit in upper case.
unfoldable pub hex_value : ℕ → ℕ
hex_value c = if within b'0' b'9' c then c - b'0' else c - b'A' + 10

hex_table : all_below 16 (λ d. hex_value (hex_digit d) == d) ≡ true
unfolding all_below hex_value hex_digit
hex_table = refl

pub hex_value-hex_digit : (d : ℕ) → d < 16 → hex_value (hex_digit d) ≡ d
hex_value-hex_digit d h = (==_iff _ d).0 (all_below_sound 16 _ d hex_table h)

-- Percent decoding, as RFC 3986 describes it: it knows nothing of what was escaped or why.
pub percent_decode : Bytes → Bytes
percent_decode (c ∷ high ∷ low ∷ rest) =
    let byte = (hex_value high * 16 + hex_value low) ∷ percent_decode rest in
    let kept = c ∷ percent_decode (high ∷ low ∷ rest) in if c == b'%' then byte else kept
percent_decode (c ∷ d ∷ []) = c ∷ d ∷ []
percent_decode (c ∷ []) = c ∷ []
percent_decode [] = []

percent_decode-kept :
    (c : ℕ) (rest : Bytes)
    → (c == b'%') ≡ false
    → percent_decode (c ∷ rest) ≡ c ∷ percent_decode rest
unfolding percent_decode
percent_decode-kept c [] h = refl
percent_decode-kept c (d ∷ []) h = refl
percent_decode-kept c (d ∷ e ∷ rest) h = rw h

is_unreserved-ne_percent : (c : ℕ) → is_unreserved c ≡ true → (c == b'%') ≡ false
unfolding is_unreserved is_alphanumeric
is_unreserved-ne_percent c h = ground arith

percent_decode-url_byte :
    (c : ℕ) (rest : Bytes) → c < 256 → percent_decode (url_byte c ++ rest) ≡ c ∷ percent_decode rest
unfolding url_byte
percent_decode-url_byte c rest h = elim (Bool-cases (is_unreserved c)) [
  | inl kept ↦ rw kept (percent_decode-kept c rest (is_unreserved-ne_percent c kept))
  | inr other ↦ rw other (
      unfold percent_decode in
      ground (
        arith,
        hex_value-hex_digit (c / 16) (omega arith),
        hex_value-hex_digit (c % 16) (omega arith),
      ))
]

-- Percent decoding returns every text of bytes from its path segment.
pub percent_decode-url_path_segment :
    (value : Bytes) → IsBytes value → percent_decode (url_path_segment value) ≡ value
unfolding url_path_segment
percent_decode-url_path_segment [] h = unfold percent_decode in refl
percent_decode-url_path_segment (c ∷ cs) h =
    ground
      (arith, percent_decode-url_byte c (url_path_segment cs), percent_decode-url_path_segment cs)

is_room_id_byte-is_unreserved : (c : ℕ) → is_room_id_byte c ≡ true → is_unreserved c ≡ true
unfolding is_room_id_byte is_unreserved
is_room_id_byte-is_unreserved c h = ground arith

url_path_segment-kept :
    (value : Bytes) → all_of is_room_id_byte value ≡ true → url_path_segment value ≡ value
unfolding url_path_segment url_byte
url_path_segment-kept [] h = refl
url_path_segment-kept (c ∷ cs) h =
    ground (arith, is_room_id_byte-is_unreserved c, url_path_segment-kept cs)

-- A room identifier that is accepted stands in a URL as it is.
pub url_path_segment-valid_room_id :
    (value : Bytes) → valid_room_id value ≡ true → url_path_segment value ≡ value
unfolding valid_room_id
url_path_segment-valid_room_id value h = ground (arith, url_path_segment-kept value)
