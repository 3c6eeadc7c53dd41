-- ===== src/Boundaries/Chunk.antt =====
-- `ChunkRequest` of server/src/utils/ServerBoundaries.hpp: one outstanding chunk request of a
-- file subscriber, and the last one that was answered.
pub mod Once
use conspire.Prelude.{
  ℕ, suc, ◌+◌, ◌-◌, ◌≤◌, ◌<◌, ◌^◌, ◌≡◌, refl, ◌↔◌, ◌≢◌, Bool, true, false, not, ◌&&◌, ◌||◌, arith,
  ltb, leb, ◌==◌, ==_iff, if◌then◌else◌, increment, u64_mod,
}
use conspire.Prelude.Int.{ℤ, pos, negsuc, is_negative, to_u64, ◌==ℤ◌, ==ℤ_iff}

-- `ChunkRequest::Result`
pub data Result : Type 0 where
  accepted duplicate invalid : Result

pub record ChunkRequest : Type 0 where
  pub position : ℤ
  pub size : ℤ
  pub request_id : ℕ
  pub completed_id : ℕ
  pub completed_position : ℤ
  pub completed_size : ℤ
  pub outstanding : Bool

abbrev pub initial : ChunkRequest
initial = record {
  position = pos 0;
  size = pos 0;
  request_id = 0;
  completed_id = 0;
  completed_position = pos 0;
  completed_size = pos 0;
  outstanding = false;
}

-- ++m_requestId; if (m_requestId == 0) ++m_requestId;
unfoldable pub next_id : ℕ → ℕ
next_id id = if increment id == 0 then increment (increment id) else increment id

unfoldable pub begin : ChunkRequest → ℤ → ℤ → ChunkRequest × ℕ
begin c position size = if c.outstanding then (c, c.request_id) else (
  record c {
    position = position;
    size = size;
    request_id = next_id c.request_id;
    outstanding = true;
  },
  next_id c.request_id,
)

-- size < 0 || static_cast<std::uint64_t>(size) != receivedSize
unfoldable pub size_mismatch : ℤ → ℕ → Bool
size_mismatch size received = is_negative size || not (to_u64 size == received)

unfoldable pub repeats : ChunkRequest → ℕ → ℤ → ℤ → Bool
repeats c id position size =
    (id == c.completed_id) && (position ==ℤ c.completed_position) && (size ==ℤ c.completed_size)

unfoldable pub answers : ChunkRequest → ℕ → ℤ → ℤ → Bool
answers c id position size = (id == c.request_id) && (position ==ℤ c.position) && (size ==ℤ c.size)

unfoldable pub accept : ChunkRequest → ℕ → ℤ → ℤ → ℕ → ChunkRequest × Result
accept c id position size received =
    if size_mismatch size received
    then (c, invalid)
    else if repeats c id position size
    then (c, duplicate)
    else if not c.outstanding
    then (c, invalid)
    else if not (answers c id position size)
    then (c, invalid)
    else (
      record c {
        outstanding = false;
        completed_id = id;
        completed_position = position;
        completed_size = size;
      },
      accepted,
    )

unfoldable pub cancel : ChunkRequest → ChunkRequest
cancel c = record c { outstanding = false }
