-- ===== src/Rooms/Room.antt =====
-- The state of `Room` (server/src/rooms/Room.hpp), its peers and its messages
-- (server/src/rooms/Room.cpp). A peer outlives its place in the room, so `peers` holds every peer
-- that refers to the room, by its number, and `peer_by_id` the keys of `m_peerById`; likewise for
-- the files.
pub mod Files
pub mod Broadcast
pub mod Departure
pub mod Roster
use conspire.Prelude.{
  ℕ, Bool, true, false, not, ◌||◌, List, [], ◌∷◌, ◌++◌, Option, none, some, length, if◌then◌else◌,
  increment,
}
use conspire.Prelude.Int.{ℤ, pos, int_eq, ◌==ℤ◌}
use conspire.Prelude.Maps.{Map, lookup, insert}
use conspire.Prelude.Bytes.{Bytes, codes}
use conspire.Boundaries.Limits.{limits, has_capacity}
use conspire.Heartbeat
use conspire.Statistics.{zeroes}
use conspire.Rooms.Dto.{Code, MessageDto, PeerDto, Envelope, blank, plain}
use conspire.Rooms.Log.{Log, add_history_message, get_history}
use conspire.Rooms.Log as Log
use conspire.Rooms.Host.{Host}
use conspire.Rooms.Peer.{
  Peer, CloseReason, heartbeat_timeout, invalidate_socket_if_current, send_ping,
}
use conspire.Rooms.Peer.Outbound as Outbound
use conspire.Rooms.File.{File}

pub record Room : Type 0 where
  pub name : Bytes
  pub file_id_counter : ℤ
  pub files : Map ℤ File
  pub file_by_id : List ℤ
  pub peers : Map ℤ Peer
  pub peer_by_id : List ℤ
  pub log : Log
  pub host : Host

-- The exceptions that the room and its peers throw.
pub data Thrown : Type 0 where
  sequence_exhausted not_recordable duplicate_file_id : Thrown

-- The state stays what it was when the exception was thrown.
pub data Outcome {ℓ} (A : Type ℓ) : Type ℓ where
  returns : A → Outcome A
  throws : Thrown → Room → Outcome A

-- The constructor; the counters are those of the process.
unfoldable pub make_room : Bytes → Host → Room
make_room name h = record {
  name = name;
  file_id_counter = pos 1;
  files = [];
  file_by_id = [];
  peers = [];
  peer_by_id = [];
  log = Log.empty;
  host = record h {
    statistics = record h.statistics { room_created = increment h.statistics.room_created };
  };
}

abbrev pub has_id : ℤ → List ℤ → Bool
has_id id [] = false
has_id id (j ∷ js) = (j ==ℤ id) || has_id id js

abbrev pub add_id : ℤ → List ℤ → List ℤ
add_id id ids = if has_id id ids then ids else id ∷ ids

abbrev pub remove_id : ℤ → List ℤ → List ℤ
remove_id id [] = []
remove_id id (j ∷ js) = let rest = remove_id id js in if j ==ℤ id then rest else j ∷ rest

unfoldable pub has_peer_capacity : Room → Bool
has_peer_capacity r = has_capacity (length r.peer_by_id) limits.peers_per_room

unfoldable pub add_peer : Room → Peer → Room × Bool
add_peer r p =
    if not (has_capacity (length r.peer_by_id) limits.peers_per_room) then (r, false) else (
      record r { peers = insert p.peer_id p r.peers; peer_by_id = add_id p.peer_id r.peer_by_id },
      true,
    )

unfoldable pub get_peer_by_id : Room → ℤ → Option Peer
get_peer_by_id r id = if has_id id r.peer_by_id then lookup id r.peers else none

unfoldable pub peer_list : Map ℤ Peer → List ℤ → List PeerDto
peer_list peers [] = []
peer_list peers (id ∷ ids) =
    let rest = peer_list peers ids in
    elim (lookup id peers) [
      | none ↦ rest
      | some p ↦ record { peer_id = p.peer_id; peer_name = p.nickname } ∷ rest
    ]

unfoldable pub get_peers : Room → List PeerDto
get_peers r = peer_list r.peers r.peer_by_id

unfoldable pub is_empty : Room → Bool
is_empty r = elim r.peer_by_id [ [] ↦ true | id ∷ ids ↦ false ]

-- A new state of the peer with this number.
unfoldable pub update_peer : ℤ → Peer × Host → Room → Room
update_peer id (p, h) r = record r { peers = insert id p r.peers; host = h }

-- peer->sendMessageAsync(message)
unfoldable pub send_found : ℤ → Option Peer → Bytes → Room → Room
send_found id none payload r = r
send_found id (some p) payload r = update_peer id (Outbound.send_message_async p payload r.host) r

unfoldable pub send_one : ℤ → Bytes → Room → Room
send_one id payload r = send_found id (lookup id r.peers) payload r

-- peer != excluded; `none` is the null pointer.
abbrev pub is_excluded : Option ℤ → ℤ → Bool
is_excluded none id = false
is_excluded (some excluded) id = excluded ==ℤ id

unfoldable pub send_each : List ℤ → Option ℤ → Bytes → Room → Room
send_each [] excluded payload r = r
send_each (id ∷ ids) excluded payload r =
    send_each ids excluded payload (if is_excluded excluded id then r else send_one id payload r)

-- The beat of one peer, at the time `now`; also whether its ping coroutine starts.
unfoldable pub ping_peer : ℕ → Peer → Host → Peer × Host × Bool
ping_peer now p h =
    let (p', tick, starts) = send_ping p now in
    elim tick [
      | Heartbeat.Tick.expired ↦
          let (q, h', dropped) =
            invalidate_socket_if_current p' p.socket_generation heartbeat_timeout h in
          let s = h'.statistics in
          (
            q,
            if dropped
                then record h' {
                  statistics = record s { peer_zombie_dropped = increment s.peer_zombie_dropped };
                }
                else h',
            starts,
          )
      | Heartbeat.Tick.idle ↦ (p', h, starts)
      | Heartbeat.Tick.queue_ping ↦ (p', h, starts)
    ]

-- The peers whose ping coroutine starts come back.
unfoldable pub ping_each : ℕ → List ℤ → Room → Room × List ℤ
ping_each now [] r = (r, [])
ping_each now (id ∷ ids) r = elim (lookup id r.peers) [
  | none ↦ ping_each now ids r
  | some p ↦
      let (p', h', starts) = ping_peer now p r.host in
      let (r', pings) = ping_each now ids (update_peer id (p', h') r) in
      (r', if starts then id ∷ pings else pings)
]

unfoldable pub ping_all_peers : ℕ → Room → Room × List ℤ
ping_all_peers now r = ping_each now r.peer_by_id r

abbrev pub no_callback : ℕ → Room → Outcome Room
no_callback sequence r = returns r

-- *message->serverSeq, which a published message has
abbrev pub sequence_of : MessageDto → ℕ
sequence_of m = elim m.server_seq [ none ↦ 0 | some sequence ↦ sequence ]

-- `encode` is the object mapper's `writeToString`, `maximum` the configured length of the history.
module _ (encode : Envelope → Bytes) (maximum : Option ℕ) where
  unfoldable pub send_message_async : Room → MessageDto → Option ℤ → Room
  send_message_async r message excluded = send_each r.peer_by_id excluded (encode (plain message)) r

  -- `before` is the callback, which may throw. The message comes back with its sequence number.
  unfoldable pub publish_durable :
      Room → MessageDto → Option ℤ → (ℕ → Room → Outcome Room) → Outcome (Room × MessageDto)
  publish_durable r message excluded before = elim (add_history_message maximum r.log message) [
    | none ↦ throws sequence_exhausted r
    | some added ↦
        let (log, stamped) = added in
        elim (before (sequence_of stamped) (record r { log = log })) [
          | returns r' ↦ returns (send_message_async r' stamped excluded, stamped)
          | throws thrown r' ↦ throws thrown r'
        ]
  ]

  unfoldable pub welcome_peer : Room → Peer → Outcome (Room × MessageDto)
  welcome_peer r p =
      publish_durable r
        (record blank {
          code = some Code.peer_joined;
          peer_id = some p.peer_id;
          peer_name = some p.nickname;
          message = some (p.nickname ++ codes " - joined room");
        })
        (some p.peer_id) no_callback

  unfoldable pub onboard_peer : Room → Peer → Room
  onboard_peer r p =
      send_one p.peer_id
        (encode (record {
          body = record blank {
            code = some Code.info;
            peer_id = some p.peer_id;
            peer_name = some p.nickname;
          };
          peers = some (get_peers r);
          history = get_history maximum r.log;
        }))
        r

  unfoldable pub goodbye_peer : Room → Peer → Outcome (Room × MessageDto)
  goodbye_peer r p =
      publish_durable r
        (record blank {
          code = some Code.peer_left;
          peer_id = some p.peer_id;
          message = some (p.nickname ++ codes " - left room");
        })
        none no_callback

  -- transient: deliberately not sequenced/history retained
  unfoldable pub publish_connection_state : Room → Peer → Bool → Room
  publish_connection_state r p connected =
      send_message_async r
        (record blank {
          code = some Code.peer_connection_state;
          peer_id = some p.peer_id;
          connected = some connected;
        })
        none
