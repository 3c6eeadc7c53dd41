-- ===== src/Tests/Sessions.antt =====
-- The recovery of sessions and their tokens at concrete inputs.
use conspire.Prelude.{ℕ, zero, suc, ◌≡◌, [], ◌∷◌, arith}
use conspire.Prelude.Bytes.{Bytes, codes, bytes_eq, IsBytes}
use conspire.Session.Dedupe.{DedupeWindow, empty, max_dedupe_entries}
use conspire.Session.Tokens.{base64_url}
use conspire.Session.Tokens.Decode.{decode, decode-base64_url}

abbrev message_id : Bytes
message_id = codes "AAAAAAAAAAAAAAAAAAAAAA"

abbrev window : DedupeWindow
window = empty max_dedupe_entries

abbrev zeros : ℕ → Bytes
zeros zero = []
zeros (suc n) = 0 ∷ zeros n

decode-base64_url_example : decode (base64_url (1 ∷ 2 ∷ 255 ∷ 4 ∷ [])) ≡ 1 ∷ 2 ∷ 255 ∷ 4 ∷ []
decode-base64_url_example =
    decode-base64_url (1 ∷ 2 ∷ 255 ∷ 4 ∷ [])
      (omega arith, (omega arith, (omega arith, (omega arith, tt))))

zeros-IsBytes : (n : ℕ) → IsBytes (zeros n)
zeros-IsBytes zero = tt
zeros-IsBytes (suc n) = (omega arith, zeros-IsBytes n)
