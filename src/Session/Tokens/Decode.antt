-- ===== src/Session/Tokens/Decode.antt =====
-- What `base64Url` of server/src/utils/SessionCredentials.hpp promises: a text of the right length
-- in the alphabet, from which the bytes can be read back.
use conspire.Prelude.{
  ℕ, ◌+◌, ◌-◌, ◌*◌, ◌/◌, ◌%◌, ◌<◌, ◌≡◌, refl, true, [], ◌∷◌, some, arith, ◌==◌, ==_iff, length,
  if◌then◌else◌,
}
use conspire.Prelude.Bytes.{Bytes, IsBytes, within, all_of, all_below, all_below_sound}
use conspire.Session.Dedupe.{is_base64_url, valid_base64_url_id}
use conspire.Session.Tokens.{letter, base64_url, token_bytes, make_resume_token}

-- The value of a letter: an independent reading of RFC 4648, section 5.
value : ℕ → ℕ
value c =
    if within b'A' b'Z' c
    then c - b'A'
    else if within b'a' b'z' c
    then c - b'a' + 26
    else if within b'0' b'9' c
    then c - b'0' + 52
    else if c == b'-'
    then 62
    else 63

pub decode : Bytes → Bytes
decode (a ∷ b ∷ c ∷ d ∷ rest) =
    (value a * 4 + value b / 16)
    ∷ (value b % 16 * 16 + value c / 4)
    ∷ (value c % 4 * 64 + value d)
    ∷ decode rest
decode (a ∷ b ∷ c ∷ []) = (value a * 4 + value b / 16) ∷ (value b % 16 * 16 + value c / 4) ∷ []
decode (a ∷ b ∷ []) = (value a * 4 + value b / 16) ∷ []
decode _ = []

value_table : all_below 64 (λ i. value (letter i) == i) ≡ true
unfolding all_below letter value
value_table = refl

letter_table : all_below 64 (λ i. is_base64_url (letter i)) ≡ true
unfolding all_below letter is_base64_url
letter_table = refl

value-letter : (i : ℕ) → i < 64 → value (letter i) ≡ i
value-letter i h = (==_iff _ i).0 (all_below_sound 64 _ i value_table h)

is_base64_url-letter : (i : ℕ) → i < 64 → is_base64_url (letter i) ≡ true
is_base64_url-letter i h = all_below_sound 64 _ i letter_table h

-- Every sequence of bytes is read back from its text, so different tokens have different texts.
pub decode-base64_url : (bytes : Bytes) → IsBytes bytes → decode (base64_url bytes) ≡ bytes
unfolding base64_url decode
decode-base64_url [] h = refl
decode-base64_url (a ∷ []) h =
    ground (arith, value-letter (a / 4) (omega arith), value-letter (a % 4 * 16) (omega arith))
decode-base64_url (a ∷ b ∷ []) h = ground (
  arith,
  value-letter (a / 4) (omega arith),
  value-letter (a % 4 * 16 + b / 16) (omega arith),
  value-letter (b % 16 * 4) (omega arith),
)
decode-base64_url (a ∷ b ∷ c ∷ rest) h = ground (
  arith,
  value-letter (a / 4) (omega arith),
  value-letter (a % 4 * 16 + b / 16) (omega arith),
  value-letter (b % 16 * 4 + c / 64) (omega arith),
  value-letter (c % 64) (omega arith),
  decode-base64_url rest,
)

length-base64_url : (bytes : Bytes) → length (base64_url bytes) ≡ (length bytes * 4 + 2) / 3
unfolding base64_url
length-base64_url [] = refl
length-base64_url (a ∷ []) = refl
length-base64_url (a ∷ b ∷ []) = refl
length-base64_url (a ∷ b ∷ c ∷ rest) = omega (arith, length-base64_url rest)

all_of-base64_url : (bytes : Bytes) → IsBytes bytes → all_of is_base64_url (base64_url bytes) ≡ true
unfolding base64_url
all_of-base64_url [] h = refl
all_of-base64_url (a ∷ []) h = ground (
  arith,
  is_base64_url-letter (a / 4) (omega arith),
  is_base64_url-letter (a % 4 * 16) (omega arith),
)
all_of-base64_url (a ∷ b ∷ []) h = ground (
  arith,
  is_base64_url-letter (a / 4) (omega arith),
  is_base64_url-letter (a % 4 * 16 + b / 16) (omega arith),
  is_base64_url-letter (b % 16 * 4) (omega arith),
)
all_of-base64_url (a ∷ b ∷ c ∷ rest) h = ground (
  arith,
  is_base64_url-letter (a / 4) (omega arith),
  is_base64_url-letter (a % 4 * 16 + b / 16) (omega arith),
  is_base64_url-letter (b % 16 * 4 + c / 64) (omega arith),
  is_base64_url-letter (c % 64) (omega arith),
  all_of-base64_url rest h.1.1.1,
)

-- An encoding of bytes passes the check that the program makes of identifiers of that many bytes.
pub valid_base64_url_id-base64_url :
    (bytes : Bytes) → IsBytes bytes → valid_base64_url_id (base64_url bytes) (length bytes) ≡ true
unfolding valid_base64_url_id
valid_base64_url_id-base64_url bytes h =
    ground (arith, length-base64_url bytes, all_of-base64_url bytes h)

-- With bytes from the generator a token is made, it passes the check that a resuming client's
-- token goes through, and the random bytes can be read back from it: none is lost.
pub make_resume_token_lem :
    (random : Bytes)
    → IsBytes random
    → length random ≡ token_bytes
    → (make_resume_token (some random) ≡ some (base64_url random))
      × (valid_base64_url_id (base64_url random) token_bytes ≡ true)
      × (decode (base64_url random) ≡ random)
unfolding make_resume_token
make_resume_token_lem random h size =
    let valid = valid_base64_url_id-base64_url random h in
    (rw valid, rw size at valid, decode-base64_url random h)
