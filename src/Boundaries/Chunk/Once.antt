-- ===== src/Boundaries/Chunk/Once.antt =====
-- Each chunk request is answered once: `ChunkRequest` of server/src/utils/ServerBoundaries.hpp.
use conspire.Prelude.{
  ℕ, ◌+◌, ◌≤◌, ◌<◌, ◌≡◌, ◌↔◌, ◌≢◌, ◌⊎◌, inl, inr, true, false, arith, ==_iff, u64_mod,
}
use conspire.Prelude.Int.{ℤ, pos, negsuc, ==ℤ_iff}
use conspire.Boundaries.Chunk.{
  Result, accepted, duplicate, invalid, ChunkRequest, next_id, begin, accept, cancel, size_mismatch,
  repeats, answers,
}

size_mismatch_iff :
    (size : ℤ) (received : ℕ) → (size_mismatch size received ≡ false) ↔ (size ≡ pos received)
unfolding size_mismatch
size_mismatch_iff (pos n) received = ground arith
size_mismatch_iff (negsuc n) received = ground arith

answers_iff :
    (c : ChunkRequest) (id : ℕ) (position size : ℤ)
    → (answers c id position size ≡ true)
      ↔ ((id ≡ c.request_id) × (position ≡ c.position) × (size ≡ c.size))
unfolding answers
answers_iff c id position size =
    ground (arith, ==_iff id c.request_id, ==ℤ_iff position c.position, ==ℤ_iff size c.size)

repeats_iff :
    (c : ChunkRequest) (id : ℕ) (position size : ℤ)
    → (repeats c id position size ≡ true)
      ↔ ((id ≡ c.completed_id) × (position ≡ c.completed_position) × (size ≡ c.completed_size))
unfolding repeats
repeats_iff c id position size = ground (
  arith,
  ==_iff id c.completed_id,
  ==ℤ_iff position c.completed_position,
  ==ℤ_iff size c.completed_size,
)

-- The identifiers have not wrapped, and an outstanding request is newer than the answered one.
pub record IsFresh (c : ChunkRequest) : Type 0 where
  pub in_range : c.request_id < u64_mod
  pub completed_le : c.completed_id ≤ c.request_id
  pub newer : c.outstanding ≡ true → c.completed_id < c.request_id

pub begin-IsFresh :
    (c : ChunkRequest) (position size : ℤ)
    → c.request_id + 1 < u64_mod
    → IsFresh c
    → IsFresh (begin c position size).0
unfolding begin next_id
begin-IsFresh c position size room f = ground arith

pub accept-IsFresh :
    (c : ChunkRequest) (id : ℕ) (position size : ℤ) (received : ℕ)
    → IsFresh c
    → IsFresh (accept c id position size received).0
unfolding accept
accept-IsFresh c id position size received f = ground (arith, answers_iff c id position size)

pub cancel-IsFresh : (c : ChunkRequest) → IsFresh c → IsFresh (cancel c)
unfolding cancel
cancel-IsFresh c f = ground arith

-- A response is accepted exactly if it has the declared number of bytes, does not repeat the
-- answered request, and names the outstanding one by its identifier, position and size.
pub accept-eq-accepted :
    (c : ChunkRequest) (id : ℕ) (position size : ℤ) (received : ℕ)
    → ((accept c id position size received).1 ≡ accepted) ↔ (
        (size ≡ pos received)
        × (repeats c id position size ≡ false)
        × (c.outstanding ≡ true)
        × (id ≡ c.request_id)
        × (position ≡ c.position)
        × (size ≡ c.size))
unfolding accept
accept-eq-accepted c id position size received =
    ground (arith, size_mismatch_iff size received, answers_iff c id position size)

-- After a response has been accepted, the same response is a duplicate, at once and also when the
-- next request is under way, and it changes nothing in either case.
pub accept_once :
    (c : ChunkRequest) (id : ℕ) (position size next_position next_size : ℤ) (received : ℕ)
    → (accept c id position size received).1 ≡ accepted
    → let answered = (accept c id position size received).0 in
      let next = (begin answered next_position next_size).0 in
      (accept answered id position size received ≡ (answered, duplicate))
      × (accept next id position size received ≡ (next, duplicate))
unfolding accept begin
accept_once c id position size next_position next_size received h =
    let answered = (accept c id position size received).0 in
    let next = (begin answered next_position next_size).0 in
    (
      ground (arith, repeats_iff answered id position size),
      ground (arith, repeats_iff next id position size),
    )

-- The answer to a new request is accepted: `begin` hands out an identifier that is not zero, and
-- the response with that identifier and as many bytes as asked for ends the request.
pub begin-accept :
    (c : ChunkRequest) (position : ℤ) (size : ℕ)
    → IsFresh c
    → c.request_id + 1 < u64_mod
    → c.outstanding ≡ false
    → let (next, id) = begin c position (pos size) in
      (id ≢ 0)
      × ((accept next id position (pos size) size).1 ≡ accepted)
      × ((accept next id position (pos size) size).0.outstanding ≡ false)
unfolding accept begin next_id
begin-accept c position size f room idle =
    let next = (begin c position (pos size)).0 in
    ground (
      arith,
      size_mismatch_iff (pos size) size,
      repeats_iff next (next_id c.request_id) position (pos size),
      answers_iff next (next_id c.request_id) position (pos size),
    )

-- How a response can be received: as the answer, which ends the request, or with no effect.
pub data Received (c : ChunkRequest) (position size : ℤ) (received : ℕ) (r : ChunkRequest × Result)
    : Type 0 where
  ends :
      r.1 ≡ accepted
      → r.0.outstanding ≡ false
      → size ≡ pos received
      → c.outstanding ≡ true
      → position ≡ c.position
      → size ≡ c.size
      → Received c position size received r
  repeated : r ≡ (c, duplicate) → Received c position size received r
  refused : r ≡ (c, invalid) → Received c position size received r

accept_result :
    (c : ChunkRequest) (id : ℕ) (position size : ℤ) (received : ℕ)
    → ((accept c id position size received).1 ≡ accepted)
      ⊎ ((accept c id position size received ≡ (c, duplicate))
          ⊎ (accept c id position size received ≡ (c, invalid)))
unfolding accept
accept_result c id position size received = ground arith

accept_ended :
    (c : ChunkRequest) (id : ℕ) (position size : ℤ) (received : ℕ)
    → (accept c id position size received).1 ≡ accepted
    → (accept c id position size received).0.outstanding ≡ false
unfolding accept
accept_ended c id position size received h = ground arith

pub accept-Received :
    (c : ChunkRequest) (id : ℕ) (position size : ℤ) (received : ℕ)
    → Received c position size received (accept c id position size received)
accept-Received c id position size received = elim (accept_result c id position size received) [
  | inl hit ↦
      let (sized, new, open_, same_id, same_position, same_size) =
        (accept-eq-accepted c id position size received).0 hit in
      ends hit (accept_ended c id position size received hit) sized open_ same_position same_size
  | inr (inl again) ↦ repeated again
  | inr (inr bad) ↦ refused bad
]
