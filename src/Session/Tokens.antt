-- ===== src/Session/Tokens.antt =====
-- `base64Url`, `makeResumeToken`, `digestToken` and `constantTimeDigestEqual` of
-- server/src/utils/SessionCredentials.hpp. The random generator and SHA-256 are OpenSSL's: the
-- bytes that the generator returned and the hash are arguments.
pub mod Decode
use conspire.Prelude.{
  ℕ, suc, ◌+◌, ◌*◌, ◌/◌, ◌%◌, ◌≡◌, refl, Bool, List, [], ◌∷◌, Option, none, some, length, get_or,
  if◌then◌else◌,
}
use conspire.Prelude.Bytes.{Bytes, codes, same}
use conspire.Session.Dedupe.{valid_base64_url_id}

abbrev pub alphabet : Bytes
alphabet = codes "ABCDEFGHIJKLMNOPQRSTUVWXYZabcdefghijklmnopqrstuvwxyz0123456789-_"

unfoldable pub letter : ℕ → ℕ
letter index = get_or alphabet index 0

-- `x >> 2`, `x & 0x03` and the like are `/` and `%`, and the halves that `|` joins share no bit.
-- The three cases at the end are the tests `i + 1 < size` and `i + 2 < size`.
unfoldable pub base64_url : Bytes → Bytes
base64_url [] = []
base64_url (first ∷ []) = letter (first / 4) ∷ letter (first % 4 * 16) ∷ []
base64_url (first ∷ second ∷ []) =
    letter (first / 4) ∷ letter (first % 4 * 16 + second / 16) ∷ letter (second % 16 * 4) ∷ []
base64_url (first ∷ second ∷ third ∷ rest) =
    letter (first / 4)
    ∷ letter (first % 4 * 16 + second / 16)
    ∷ letter (second % 16 * 4 + third / 64)
    ∷ letter (third % 64)
    ∷ base64_url rest

abbrev pub token_bytes : ℕ
token_bytes = 32

-- `none` is a failure of RAND_bytes, or a refused token.
unfoldable pub make_resume_token : Option Bytes → Option Bytes
make_resume_token none = none
make_resume_token (some random) =
    if valid_base64_url_id (base64_url random) (length random)
    then some (base64_url random)
    else none

module _ (sha256 : Bytes → Bytes) where
  unfoldable pub digest_token : Bytes → Bytes
  digest_token token = sha256 token

-- CRYPTO_memcmp of two digests is zero exactly if they are the same bytes.
unfoldable pub constant_time_digest_equal : Bytes → Bytes → Bool
constant_time_digest_equal left right = same left right
