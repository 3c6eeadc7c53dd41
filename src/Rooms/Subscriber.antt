-- ===== src/Rooms/Subscriber.antt =====
-- `File::Subscriber` (server/src/rooms/File.hpp and server/src/rooms/File.cpp): one download of a
-- shared file, chunk by chunk. The coroutine that waits for a chunk is the framework's; it is woken
-- whenever a chunk arrives or the subscriber is invalidated, and calls `read_chunk` again.

pub mod Stream
use conspire.Prelude.{
  ℕ, ◌+◌, ◌-◌, ◌≤◌, ◌<◌, ◌≡◌, Bool, true, false, not, ◌&&◌, ◌||◌, List, [], ◌∷◌, Option, none, some,
  arith, ltb, leb, min, length, if◌then◌else◌,
}
use conspire.Prelude.Int.{ℤ, pos, negsuc}
use conspire.Prelude.Bytes.{Bytes}
use conspire.Boundaries.Limits.{limits}
use conspire.Boundaries.Chunk.{
  Result, accepted, duplicate, invalid, ChunkRequest, initial, begin, accept, cancel,
}
use conspire.Rooms.Dto.{MessageDto, FileDto, Code, blank, blank_file}

-- What does not change of a `File`; `size` is not negative, as `validFileDescriptor` has it.
pub record FileInfo : Type 0 where
  pub host : ℤ
  pub client_file_id : ℤ
  pub server_file_id : ℤ
  pub name : Bytes
  pub size : ℕ
  pub media_type : Option Bytes

pub record Subscriber : Type 0 where
  pub id : ℤ
  pub valid : Bool
  pub progress : ℕ
  pub request : ChunkRequest
  pub chunk : Option Bytes

abbrev pub subscriber : ℤ → Subscriber
subscriber id = record { id = id; valid = true; progress = 0; request = initial; chunk = none }

-- data ? data->size() : 0
abbrev pub size_or_zero : Option Bytes → ℕ
size_or_zero none = 0
size_or_zero (some bytes) = length bytes

-- The buffer after an accepted response.
abbrev pub store_chunk : Subscriber → ChunkRequest → Option Bytes → Subscriber × Result
store_chunk s request content = elim s.chunk [
  | none ↦ (record s { request = request; chunk = content }, accepted)
  | some unread ↦ (record s { request = request }, invalid)
]

-- What follows `m_request.accept`.
unfoldable pub received : Subscriber → Option Bytes → ChunkRequest × Result → Subscriber × Result
received s content (request, result) = elim result [
  | accepted ↦ store_chunk s request content
  | duplicate ↦ (record s { request = request }, duplicate)
  | invalid ↦ (record s { request = request }, invalid)
]

unfoldable pub provide_file_chunk : Subscriber → ℕ → ℤ → ℤ → Option Bytes → Subscriber × Result
provide_file_chunk s id position size content =
    received s content (accept s.request id position size (size_or_zero content))

abbrev pub chunk_request : FileInfo → Subscriber → ℕ → ℤ → MessageDto
chunk_request f s id size = record blank {
  code = some Code.file_request_chunk;
  files = some (
      some (record blank_file {
        client_file_id = some f.client_file_id;
        server_file_id = some f.server_file_id;
        subscriber_id = some s.id;
        chunk_position = some (pos s.progress);
        chunk_size = some size;
        chunk_request_id = some id;
      })
      ∷ []);
}

-- The message for the host, if it is still there; `present` is `m_host.lock()`.
unfoldable pub request_chunk : FileInfo → Bool → Subscriber → ℤ → Subscriber × Option MessageDto
request_chunk f present s size =
    let (request, id) = begin s.request (pos s.progress) size in
    if not s.valid
    then (s, none)
    else if present
    then (record s { request = request }, some (chunk_request f s id size))
    else (record s { valid = false; request = cancel request }, none)

unfoldable pub reissue_outstanding_request :
    FileInfo → Bool → Subscriber → Subscriber × Option MessageDto
reissue_outstanding_request f present s =
    if not s.valid || not s.request.outstanding
    then (s, none)
    else request_chunk f present s s.request.size

-- What a read gives: bytes, the end, a wait with the request that was sent, or an exception.
pub data Read : Type 0 where
  bytes : Bytes → Read
  ended : Read
  waits : Option MessageDto → Read
  fails : Read

abbrev pub request_size : FileInfo → Subscriber → ℕ → ℕ
request_size f s count = min (min count limits.chunk_bytes) (f.size - s.progress)

unfoldable pub read_chunk : FileInfo → Bool → Subscriber → ℕ → Subscriber × Read
read_chunk f present s count =
    let (asked, message) = request_chunk f present s (pos (request_size f s count)) in
    if not s.valid
    then (s, fails)
    else if ltb s.progress f.size
    then elim s.chunk [
      | none ↦ (asked, waits message)
      | some chunk ↦
          if ltb count (length chunk)
          then (s, fails)
          else (record s { progress = s.progress + length chunk; chunk = none }, bytes chunk)
    ]
    else (s, ended)

unfoldable pub invalidate : Subscriber → Subscriber
invalidate s = record s { valid = false; request = cancel s.request }
