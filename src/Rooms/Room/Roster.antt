-- ===== src/Rooms/Room/Roster.antt =====
-- The members of a room (`addPeer` and `removePeerById`, server/src/rooms/Room.cpp).
use conspire.Prelude.{
  ℕ, ◌+◌, ◌≤◌, ◌≡◌, refl, true, ◌||◌, List, [], ◌∷◌, inl, inr, Bool-cases, Option-cases, arith,
  length,
}
use conspire.Prelude.Int.{ℤ, ◌==ℤ◌, ==ℤ_iff}
use conspire.Boundaries.Limits.{limits, has_capacity}
use conspire.Rooms.Peer.{Peer, take_files_snapshot}
use conspire.Rooms.Room.{Room, has_id, add_id, remove_id, add_peer, get_peer_by_id, update_peer}
use conspire.Rooms.Room.Broadcast.{Distinct}
use conspire.Rooms.Room.Files.{drop_files, remove_peer_by_id}
use conspire.Rooms.Room.Departure.{has_id-remove_id}

-- No peer is a member twice, and there are at most 64.
pub record IsRoster (r : Room) : Type 0 where
  pub distinct : Distinct r.peer_by_id
  pub few : length r.peer_by_id ≤ limits.peers_per_room

add_id-Distinct : (id : ℤ) (ids : List ℤ) → Distinct ids → Distinct (add_id id ids)
add_id-Distinct id ids d = elim (Bool-cases (has_id id ids)) [
  | inl member ↦ rw member d
  | inr new ↦ rw new (new, d)
]

length-add_id : (id : ℤ) (ids : List ℤ) → length (add_id id ids) ≤ length ids + 1
length-add_id id ids = ground arith

remove_id-Distinct : (id : ℤ) (ids : List ℤ) → Distinct ids → Distinct (remove_id id ids)
remove_id-Distinct id [] d = tt
remove_id-Distinct id (j ∷ js) (new, d) = elim (Bool-cases (j ==ℤ id)) [
  | inl equal ↦ rw equal (remove_id-Distinct id js d)
  | inr other ↦
      rw other ((ground (arith, has_id-remove_id id j js, new), remove_id-Distinct id js d))
]

length-remove_id : (id : ℤ) (ids : List ℤ) → length (remove_id id ids) ≤ length ids
length-remove_id id [] = omega arith
length-remove_id id (j ∷ js) = ground (arith, length-remove_id id js)

has_capacity_lt :
    (current maximum : ℕ) → has_capacity current maximum ≡ true → current + 1 ≤ maximum
unfolding has_capacity
has_capacity_lt current maximum h = ground arith

has_id-add_id : (id : ℤ) (ids : List ℤ) → has_id id (add_id id ids) ≡ true
has_id-add_id id ids = elim (Bool-cases (has_id id ids)) [
  | inl member ↦ rw member member
  | inr new ↦ rw new (ground (arith, ==ℤ_iff id id))
]

-- Adding a peer keeps the members distinct and at most 64, and succeeds exactly if the room has
-- room for one more. The peer is then a member, and else only if it was one.
pub add_peer-IsRoster :
    (r : Room) (p : Peer)
    → IsRoster r
    → IsRoster (add_peer r p).0
      × ((add_peer r p).1 ≡ has_capacity (length r.peer_by_id) limits.peers_per_room)
      × (has_id p.peer_id (add_peer r p).0.peer_by_id ≡ (
          has_capacity (length r.peer_by_id) limits.peers_per_room
          || has_id p.peer_id r.peer_by_id))
unfolding add_peer
add_peer-IsRoster r p h =
    elim (Bool-cases (has_capacity (length r.peer_by_id) limits.peers_per_room)) [
      | inl room ↦
          let few : length (add_id p.peer_id r.peer_by_id) ≤ limits.peers_per_room = omega (
            arith,
            length-add_id p.peer_id r.peer_by_id,
            has_capacity_lt (length r.peer_by_id) limits.peers_per_room room,
          ) in
          rw (room, add_peer)
            (
              record { distinct = add_id-Distinct p.peer_id r.peer_by_id h.distinct; few = few },
              refl,
              has_id-add_id p.peer_id r.peer_by_id,
            )
      | inr full ↦ rw (full, add_peer) (h, refl, refl)
    ]

-- Removing a peer keeps the members distinct and at most 64.

pub remove_peer_by_id-IsRoster :
    (r : Room) (id : ℤ) → IsRoster r → IsRoster (remove_peer_by_id r id)
unfolding remove_peer_by_id drop_files update_peer take_files_snapshot
remove_peer_by_id-IsRoster r id h = elim (Option-cases (get_peer_by_id r id)) [
  | inl e ↦ rw (e, remove_peer_by_id) h
  | inr found ↦
      let (p, e) = found in
      rw (e, remove_peer_by_id)
        (record {
          distinct = remove_id-Distinct id r.peer_by_id h.distinct;
          few = omega (arith, length-remove_id id r.peer_by_id, h.few);
        })
]
