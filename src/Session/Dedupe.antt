-- ===== src/Session/Dedupe.antt =====
-- `validBase64UrlId`, `validClientMessageId` and `DedupeWindow` of
-- server/src/utils/SessionReliability.hpp.
use conspire.Prelude.{
  ℕ, ◌+◌, ◌*◌, ◌/◌, ◌≤◌, ◌<◌, ◌≡◌, ◌↔◌, Bool, true, false, not, ◌&&◌, ◌||◌, List, [], ◌∷◌, ◌++◌,
  Option, none, some, arith, leb, ◌==◌, length, length-append, if◌then◌else◌,
}
use conspire.Prelude.Bytes.{Bytes, within, same, same_iff, all_of, bytes_eq}
use conspire.Prelude.Maps.{Map, lookup, emplace, lookup-emplace}

abbrev pub max_client_message_id_bytes : ℕ
max_client_message_id_bytes = 64

abbrev pub max_dedupe_entries : ℕ
max_dedupe_entries = 1024

unfoldable pub is_base64_url : ℕ → Bool
is_base64_url c =
    within b'A' b'Z' c || within b'a' b'z' c || within b'0' b'9' c || c == b'-' || c == b'_'

unfoldable pub valid_base64_url_id : Bytes → ℕ → Bool
valid_base64_url_id value expected_bytes =
    (length value == (expected_bytes * 4 + 2) / 3) && all_of is_base64_url value

unfoldable pub valid_client_message_id : Bytes → Bool
valid_client_message_id value =
    not (length value == 0)
    && leb (length value) max_client_message_id_bytes
    && valid_base64_url_id value 16

pub record DedupeWindow : Type 0 where
  pub sequences : Map Bytes ℕ
  pub order : List Bytes
  pub limit : ℕ

abbrev pub empty : ℕ → DedupeWindow
empty limit = record { sequences = []; order = []; limit = limit }

unfoldable pub find : DedupeWindow → Bytes → Option ℕ
find d id = lookup id d.sequences

unfoldable pub full : DedupeWindow → Bool
full d = leb d.limit (length d.order)

abbrev pub is_some {ℓ} : {A : Type ℓ} → Option A → Bool
is_some none = false
is_some (some a) = true

unfoldable pub remember : DedupeWindow → Bytes → ℕ → DedupeWindow × Bool
remember d id sequence =
    if not (valid_client_message_id id)
      || sequence == 0
      || d.limit == 0
      || is_some (lookup id d.sequences)
    then (d, false)
    else if leb d.limit (length d.order)
    then (d, false)
    else (
      record d { order = d.order ++ id ∷ []; sequences = emplace id sequence d.sequences },
      true,
    )

-- What an attempt to record finds afterwards: the new number if it was recorded, what was found
-- before otherwise and of every other identifier.
pub find-remember :
    (d : DedupeWindow) (id j : Bytes) (sequence : ℕ)
    → find (remember d id sequence).0 j
      ≡ (if (remember d id sequence).1 && same id j then some sequence else find d j)
unfolding find remember
find-remember d id j sequence = ground (arith, lookup-emplace id j sequence d.sequences)

-- An identifier is recorded exactly if it is valid, its sequence number is not zero, it is new and
-- the window has room.
pub remember-eq-true :
    (d : DedupeWindow) (id : Bytes) (sequence : ℕ)
    → ((remember d id sequence).1 ≡ true) ↔ (
        (valid_client_message_id id ≡ true)
        × (0 < sequence)
        × (find d id ≡ none)
        × (full d ≡ false))
unfolding find remember full
remember-eq-true d id sequence = ground arith

-- The size of the window and its limit.
pub record IsBounded (d : DedupeWindow) : Type 0 where
  pub within_limit : length d.order ≤ d.limit
  pub counted : length d.sequences ≡ length d.order

-- The window keeps its limit, and its two collections stay equally long.
pub remember-IsBounded :
    (d : DedupeWindow) (id : Bytes) (sequence : ℕ)
    → IsBounded d
    → IsBounded (remember d id sequence).0
unfolding remember emplace
remember-IsBounded d id sequence b = ground (arith, length-append d.order (id ∷ []))

-- The handler's own test before it publishes is enough: with a valid identifier that the window
-- does not know and a window that is not full, recording a positive sequence number succeeds, and
-- from then on the identifier answers with that number.
pub preflight_suffices :
    (d : DedupeWindow) (id : Bytes) (sequence : ℕ)
    → valid_client_message_id id ≡ true
    → find d id ≡ none
    → full d ≡ false
    → 0 < sequence
    → ((remember d id sequence).1 ≡ true) × (find (remember d id sequence).0 id ≡ some sequence)
preflight_suffices d id sequence valid unknown room positive =
    ground (arith, remember-eq-true d id sequence, find-remember d id id sequence, same_iff id id)
