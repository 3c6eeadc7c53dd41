-- ===== src/Lobby.antt =====
-- `Lobby` (server/src/rooms/Lobby.hpp and server/src/rooms/Lobby.cpp): the rooms by their names, the
-- transports that still owe a hello and the sessions. Rooms are shared by pointer, so `stores`
-- holds them by number and `rooms` the numbers by name. The counters are the process's: a room
-- gets them while it acts. A room is counted as deleted when its last pointer goes, which is the
-- runtime's doing and not part of the model.
pub mod Hello
pub mod Accept
pub mod Kept
pub mod Expiry
use conspire.Prelude.{
  ℕ, suc, ◌+◌, Bool, true, false, not, ◌&&◌, ◌||◌, List, [], ◌∷◌, Option, none, some, leb, ◌==◌,
  length, if◌then◌else◌, increment, seconds,
}
use conspire.Prelude.Int.{ℤ, pos, next_i64, int_eq, ◌==ℤ◌}
use conspire.Prelude.Maps.{Map, nat_eq, lookup, insert, erase, emplace}
use conspire.Prelude.Bytes.{Bytes, bytes_eq}
use conspire.Boundaries.Limits.{limits, has_capacity}
use conspire.Session.Lease.{SessionLease, detach, expires}
use conspire.Rooms.Dto.{MessageDto, Envelope}
use conspire.Rooms.Host.{Host, idle}
use conspire.Rooms.Peer.{Peer, detach_current}
use conspire.Rooms.Room.{
  Room, Outcome, returns, throws, make_room, update_peer, publish_connection_state, goodbye_peer,
  ping_all_peers,
}
use conspire.Rooms.Room as Room
use conspire.Rooms.Room.Files.{remove_peer_by_id}

-- `Lobby::SessionRecord`
pub record SessionRecord : Type 0 where
  pub room : ℕ
  pub peer : ℤ
  pub digest : Bytes
  pub lease : SessionLease

-- The listener of a socket.
pub data Listener : Type 0 where
  pending_hello : Listener
  peer_listener : ℕ → ℤ → Listener

pub record Lobby : Type 0 where
  pub peer_id_counter : ℤ
  pub rooms : Map Bytes ℕ
  pub stores : Map ℕ Room
  pub next_store : ℕ
  pub sessions : Map Bytes SessionRecord
  -- the deadline of each
  pub pending : Map ℕ ℕ
  pub listeners : Map ℕ Listener
  pub host : Host

abbrev pub empty : Lobby
empty = record {
  peer_id_counter = pos 1;
  rooms = [];
  stores = [];
  next_store = 0;
  sessions = [];
  pending = [];
  listeners = [];
  host = idle;
}

-- A call of the room with this number.
unfoldable pub in_room : ℕ → (Room → Room) → Lobby → Lobby
in_room key call l = elim (lookup key l.stores) [
  | none ↦ l
  | some r ↦
      let r' = call (record r { host = l.host }) in
      record l { stores = insert key r' l.stores; host = r'.host }
]

unfoldable pub obtain_new_peer_id : Lobby → Lobby × ℤ
obtain_new_peer_id l =
    (record l { peer_id_counter = next_i64 l.peer_id_counter }, l.peer_id_counter)

abbrev pub open_room : Bytes → Lobby → Lobby
open_room name l =
    let r = make_room name l.host in
    record l {
      stores = insert l.next_store r l.stores;
      rooms = emplace name l.next_store l.rooms;
      next_store = suc l.next_store;
      host = r.host;
    }

unfoldable pub get_or_create_room : Bytes → Lobby → Lobby × Option ℕ
get_or_create_room name l = elim (lookup name l.rooms) [
  | some key ↦ (l, some key)
  | none ↦
      if not (has_capacity (length l.rooms) limits.rooms)
      then (l, none)
      else (open_room name l, some l.next_store)
]

unfoldable pub get_room : Bytes → Lobby → Option ℕ
get_room name l = lookup name l.rooms

abbrev is_key : ℕ → Option ℕ → Bool
is_key key none = false
is_key key (some found) = found == key

-- found != m_rooms.end() && found->second == room && room->isEmpty()
unfoldable pub is_deletable : ℕ → Room → Lobby → Bool
is_deletable key r l = is_key key (lookup r.name l.rooms) && Room.is_empty r

unfoldable pub delete_room_if_empty : ℕ → Lobby → Lobby
delete_room_if_empty key l = elim (lookup key l.stores) [
  | none ↦ l
  | some r ↦ if is_deletable key r l then record l { rooms = erase r.name l.rooms } else l
]

-- The numbers of the peers whose ping starts are the room's matter.
abbrev ping_room : ℕ → Room → Room
ping_room now r = (ping_all_peers now r).0

unfoldable pub ping_rooms : ℕ → Map Bytes ℕ → Lobby → Lobby
ping_rooms now [] l = l
ping_rooms now ((name, key) ∷ rooms) l = ping_rooms now rooms (in_room key (ping_room now) l)

unfoldable pub run_ping_iteration : ℕ → Lobby → Lobby
run_ping_iteration now l = ping_rooms now l.rooms l

-- The first session of the peer loses its transport.
unfoldable pub detach_first : ℕ → ℤ → Map Bytes SessionRecord → Map Bytes SessionRecord × Option ℕ
detach_first now peer [] = ([], none)
detach_first now peer ((key, s) ∷ sessions) =
    let (rest, room) = detach_first now peer sessions in
    if s.peer ==ℤ peer
    then ((key, record s { lease = detach s.lease now }) ∷ sessions, some s.room)
    else ((key, s) ∷ rest, room)

-- The deadline of a hello is ten seconds away.
unfoldable pub on_after_create : ℕ → ℕ → Lobby → Lobby
on_after_create socket now l = record l {
  pending = emplace socket (now + seconds 10) l.pending;
  listeners = insert socket pending_hello l.listeners;
}

-- The peer of a socket, if it has one, with its room.
unfoldable pub peer_of : ℕ → Lobby → Option (ℕ × ℤ)
peer_of socket l = elim (lookup socket l.listeners) [
  | none ↦ none
  | some listener ↦ elim listener [
    | pending_hello ↦ none
    | peer_listener room peer ↦ some (room, peer)
  ]
]

unfoldable pub find_peer : ℕ → ℤ → Lobby → Option Peer
find_peer room peer l = elim (lookup room l.stores) [ none ↦ none | some r ↦ lookup peer r.peers ]

abbrev pub outcome_room : Room → Outcome (Room × MessageDto) → Room
outcome_room r (returns done) = done.0
outcome_room r (throws thrown r') = r'

module _ (encode : Envelope → Bytes) (maximum : Option ℕ) where
  -- The peer, once it has let go of its current transport, and its session.
  unfoldable pub detached_session : ℕ → ℕ → ℤ → Peer → Lobby → Lobby
  detached_session now room peer p l =
      let let_go = in_room room (λ r. update_peer peer (p, r.host) r) l in
      let (sessions, found) = detach_first now peer let_go.sessions in
      let counted =
        let s = let_go.host.statistics in
        record let_go {
          sessions = sessions;
          host = record let_go.host {
            statistics = record s { peer_disconnected = increment s.peer_disconnected };
          };
        } in
      elim found [
        | none ↦ let_go
        | some key ↦ in_room key (λ r. publish_connection_state encode maximum r p false) counted
      ]

  unfoldable pub detach_session_transport : ℕ → ℕ → Lobby → Lobby
  detach_session_transport socket now l = elim (peer_of socket l) [
    | none ↦ l
    | some found ↦
        let (room, peer) = found in
        elim (find_peer room peer l) [
          | none ↦ l
          | some p ↦
              let (p', done) = detach_current p (some socket) in
              if not done then l else detached_session now room peer p' l
        ]
  ]

  unfoldable pub on_before_destroy : ℕ → ℕ → Lobby → Lobby
  on_before_destroy socket now l =
      detach_session_transport socket now (record l { pending = erase socket l.pending })
