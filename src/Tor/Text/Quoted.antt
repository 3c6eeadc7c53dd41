-- ===== src/Tor/Text/Quoted.antt =====
-- The round trip of quoted values, such as the path of the cookie file, against a writer that
-- escapes what the protocol's quoted strings may not hold as it stands.
use mathlib.Core.List.{append_assoc}
use conspire.Prelude.{
  ℕ, ◌+◌, ◌/◌, ◌%◌, ◌<◌, ◌≡◌, refl, sym, ◌||◌, [], ◌∷◌, ◌++◌, some, arith, ◌==◌, length,
  length-append, drop, if◌then◌else◌,
}
use conspire.Prelude.Bytes.{Bytes, IsBytes, within, find}
use conspire.Tor.Text.{plain, prepend, escaped_byte, is_octal, read_quoted, opened, quoted_value}

-- Printable characters as they stand, `"` and the backslash after a backslash, all else in octal.
unfoldable pub quote_byte : ℕ → Bytes
quote_byte c =
    if c == b'"' || c == b'\\'
    then b'\\' ∷ c ∷ []
    else if within b' ' b'~' c
    then c ∷ []
    else b'\\' ∷ (b'0' + c / 64) ∷ (b'0' + c / 8 % 8) ∷ (b'0' + c % 8) ∷ []

unfoldable pub quote_body : Bytes → Bytes
quote_body [] = b'"' ∷ []
quote_body (c ∷ cs) = quote_byte c ++ quote_body cs

unfoldable pub quote : Bytes → Bytes
quote value = b'"' ∷ quote_body value

read_quoted-quote_byte :
    (c : ℕ) (rest : Bytes)
    → c < 256
    → read_quoted plain (quote_byte c ++ rest) ≡ prepend c (read_quoted plain rest)
unfolding read_quoted quote_byte is_octal escaped_byte
read_quoted-quote_byte c rest h = ground arith

read_quoted-quote_body :
    (value after : Bytes)
    → IsBytes value
    → read_quoted plain (quote_body value ++ after) ≡ some value
unfolding quote_body
read_quoted-quote_body [] after h = unfold read_quoted in refl
read_quoted-quote_body (c ∷ cs) after h =
    rw
      (
        append_assoc (quote_byte c) (quote_body cs) after,
        read_quoted-quote_byte c (quote_body cs ++ after) h.0,
        read_quoted-quote_body cs after h.1,
      )
      (unfold prepend in refl)

drop-length : (xs ys : Bytes) → drop (length xs) (xs ++ ys) ≡ ys
drop-length [] ys = refl
drop-length (x ∷ xs) ys = drop-length xs ys

drop-append :
    (before name after : Bytes)
    → drop (length before + length name) (before ++ (name ++ after)) ≡ after
drop-append before name after =
    rw (sym (length-append before name), sym (append_assoc before name after))
      (drop-length (before ++ name) after)

-- A quoted value is read back from a line in which it follows the first occurrence of its name.
pub quoted_value-quote :
    (before name value after : Bytes)
    → find name (before ++ (name ++ (quote value ++ after))) ≡ some (length before)
    → IsBytes value
    → quoted_value (before ++ (name ++ (quote value ++ after))) name ≡ some value
unfolding quoted_value opened quote
quoted_value-quote before name value after found h =
    rw (found, quoted_value)
      (rw (drop-append before name (quote value ++ after)) (read_quoted-quote_body value after h))
