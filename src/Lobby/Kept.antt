-- ===== src/Lobby/Kept.antt =====
-- What leaves the registry of sessions alone (server/src/rooms/Lobby.cpp).
use conspire.Prelude.{ℕ, ◌≡◌, refl, ◌∙◌, inl, inr, Option-cases}
use conspire.Prelude.Maps.{nat_eq, lookup}
use conspire.Rooms.Room.{Room}
use conspire.Lobby.{Lobby, in_room}

-- The sessions and the pending transports stay as they are.
pub record IsKept (l l' : Lobby) : Type 0 where
  pub sessions : l'.sessions ≡ l.sessions
  pub pending : l'.pending ≡ l.pending

pub refl-IsKept : (l : Lobby) → IsKept l l
refl-IsKept l = record { sessions = refl; pending = refl }

pub trans-IsKept : (a b c : Lobby) → IsKept a b → IsKept b c → IsKept a c
trans-IsKept a b c p q = record {
  sessions = q.sessions ∙ p.sessions;
  pending = q.pending ∙ p.pending;
}

pub in_room-IsKept : (key : ℕ) (call : Room → Room) (l : Lobby) → IsKept l (in_room key call l)
unfolding in_room
in_room-IsKept key call l = elim (Option-cases (lookup key l.stores)) [
  | inl e ↦ rw (e, in_room) (refl-IsKept l)
  | inr found ↦ let (r, e) = found in rw (e, in_room) (record { sessions = refl; pending = refl })
]
