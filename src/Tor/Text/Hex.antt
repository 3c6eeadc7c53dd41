-- ===== src/Tor/Text/Hex.antt =====
-- The round trip of hexadecimal numbers, in which nonces and hashes travel.
use conspire.Prelude.{
  ℕ, ◌+◌, ◌*◌, ◌/◌, ◌%◌, ◌<◌, ◌≡◌, refl, ap, Bool, true, false, [], ◌∷◌, Option, none, some, arith,
  ◌==◌, ==_iff, length,
}
use conspire.Prelude.Bytes.{Bytes, IsBytes, all_below, all_below_sound}
use conspire.Boundaries.Text.{is_empty}
use conspire.Tor.Text.{hex_letter, hex_encode, nibble, decoded_byte, decode_pairs, hex_decode}

is_digit_of : Option ℕ → ℕ → Bool
is_digit_of none d = false
is_digit_of (some n) d = n == d

is_digit_of-eq-true : (n : Option ℕ) (d : ℕ) → is_digit_of n d ≡ true → n ≡ some d
unfolding is_digit_of
is_digit_of-eq-true none d h = absurd cc
is_digit_of-eq-true (some n) d h = ap some ((==_iff n d).0 h)

nibble_table : all_below 16 (λ d. is_digit_of (nibble (hex_letter d)) d) ≡ true
unfolding all_below nibble hex_letter is_digit_of
nibble_table = refl

nibble-hex_letter : (d : ℕ) → d < 16 → nibble (hex_letter d) ≡ some d
nibble-hex_letter d h =
    is_digit_of-eq-true (nibble (hex_letter d)) d
      (all_below_sound 16 (λ n. is_digit_of (nibble (hex_letter n)) n) d nibble_table h)

decode_pairs-hex_encode :
    (bytes : Bytes) → IsBytes bytes → decode_pairs (hex_encode bytes) ≡ some bytes
unfolding decode_pairs hex_encode decoded_byte
decode_pairs-hex_encode [] h = refl
decode_pairs-hex_encode (byte ∷ bytes) h =
    let whole : byte / 16 * 16 + byte % 16 ≡ byte = omega arith in
    rw (
      nibble-hex_letter (byte / 16) (omega (arith, h.0)),
      nibble-hex_letter (byte % 16) (omega arith),
      decode_pairs-hex_encode bytes h.1,
      whole,
    )

length-hex_encode : (bytes : Bytes) → length (hex_encode bytes) ≡ 2 * length bytes
unfolding hex_encode
length-hex_encode [] = refl
length-hex_encode (byte ∷ bytes) = omega (arith, length-hex_encode bytes)

nonempty : (byte : ℕ) (bytes : Bytes) → is_empty (hex_encode (byte ∷ bytes)) ≡ false
unfolding is_empty hex_encode
nonempty byte bytes = refl

-- Bytes in hexadecimal are read back, if there are any: the empty text is refused.
pub hex_decode-hex_encode :
    (bytes : Bytes) → IsBytes bytes → 0 < length bytes → hex_decode (hex_encode bytes) ≡ some bytes
unfolding hex_decode
hex_decode-hex_encode [] h some_byte = absurd (omega arith)
hex_decode-hex_encode (byte ∷ bytes) h some_byte =
    let even : (length (hex_encode (byte ∷ bytes)) % 2 == 0) ≡ true =
      (==_iff (length (hex_encode (byte ∷ bytes)) % 2) 0).1
        (omega (arith, length-hex_encode (byte ∷ bytes))) in
    rw (even, nonempty byte bytes, decode_pairs-hex_encode (byte ∷ bytes) h)
