-- ===== src/Boundaries/Text.antt =====
-- The validators of server/src/utils/ServerBoundaries.hpp.
pub mod Sound
use conspire.Prelude.{
  ℕ, ◌+◌, ◌-◌, ◌≤◌, ◌<◌, ◌≡◌, Bool, true, false, not, ◌&&◌, ◌||◌, List, [], ◌∷◌, Option, none, some,
  arith, ltb, leb, ◌==◌, length, if◌then◌else◌,
}
use conspire.Prelude.Int.{ℤ, is_negative, to_u64}
use conspire.Prelude.Bytes.{Bytes, codes, within, same, all_of, find}
use conspire.Boundaries.Limits.{limits}

unfoldable pub is_empty : Bytes → Bool
is_empty [] = true
is_empty (c ∷ cs) = false

-- value.front() == c, on a text that is not empty
unfoldable pub begins_with : ℕ → Bytes → Bool
begins_with c [] = false
begins_with c (x ∷ xs) = x == c

unfoldable pub contains_control : Bytes → Bool
contains_control [] = false
contains_control (c ∷ cs) = let rest = contains_control cs in ltb c 0x20 || c == 0x7f || rest

unfoldable pub is_alphanumeric : ℕ → Bool
is_alphanumeric c = within b'a' b'z' c || within b'A' b'Z' c || within b'0' b'9' c

unfoldable pub is_room_id_byte : ℕ → Bool
unfolding is_alphanumeric
is_room_id_byte c = is_alphanumeric c || c == b'-' || c == b'_'

unfoldable pub valid_room_id : Bytes → Bool
valid_room_id value =
    if is_empty value || ltb limits.room_id (length value)
    then false
    else all_of is_room_id_byte value

unfoldable pub valid_message_content : Bytes → Bool
valid_message_content value = leb (length value) limits.message && not (contains_control value)

-- The declared limit is `limits.file_bytes` wherever the server calls it.
unfoldable pub valid_file_descriptor : Bytes → ℤ → ℕ → Bool
valid_file_descriptor filename size maximum_size =
    not (is_empty filename)
    && leb (length filename) limits.filename
    && not (contains_control filename)
    && not (is_negative size)
    && leb (to_u64 size) maximum_size

unfoldable pub valid_image_media_type : Bytes → Bool
valid_image_media_type value =
    if ltb limits.media_type (length value)
    then false
    else if not (all_of (λ c. leb c 0x7f) value)
    then false
    else same value (codes "image/jpeg")
      || same value (codes "image/png")
      || same value (codes "image/webp")

unfoldable pub valid_chunk : ℤ → ℤ → ℕ → ℤ → Bool
valid_chunk position declared_size received_size total_size =
    if is_negative position
      || is_negative declared_size
      || is_negative total_size
      || ltb limits.chunk_bytes received_size
      || not (to_u64 declared_size == received_size)
    then false
    else leb (to_u64 position) (to_u64 total_size)
      && leb (to_u64 declared_size) (to_u64 total_size - to_u64 position)

unfoldable pub is_host_byte : ℕ → Bool
unfolding is_alphanumeric
is_host_byte c = is_alphanumeric c || c == b'.' || c == b'-' || c == b':' || c == b'[' || c == b']'

unfoldable pub valid_host : Bytes → Bool
valid_host value =
    if is_empty value || ltb 255 (length value) || contains_control value
    then false
    else all_of is_host_byte value

unfoldable pub is_none {ℓ} : {A : Type ℓ} → Option A → Bool
is_none none = true
is_none (some a) = false

unfoldable pub valid_relative_path : Bytes → Bool
valid_relative_path value =
    not (is_empty value)
    && not (begins_with b'/' value)
    && is_none (find (codes "..") value)
    && is_none (find (codes "?") value)
    && is_none (find (codes "#") value)
    && not (contains_control value)

-- value.find("//") != 0
unfoldable pub is_at_start : Option ℕ → Bool
is_at_start none = false
is_at_start (some i) = i == 0

unfoldable pub valid_request_path : Bytes → Bool
valid_request_path value =
    not (is_empty value)
    && begins_with b'/' value
    && not (is_at_start (find (codes "//") value))
    && is_none (find (codes "..") value)
    && not (contains_control value)

unfoldable pub allowed_origin : Bytes → Bytes → Bool → Bool
allowed_origin origin canonical_origin allow_local =
    if same origin canonical_origin
    then true
    else if not allow_local
    then false
    else same origin (codes "http://localhost")
      || same origin (codes "http://127.0.0.1")
      || same origin (codes "http://[::1]")
