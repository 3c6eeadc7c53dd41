-- ===== src/Rooms/Peer.antt =====
-- The state of `Peer` (server/src/rooms/Peer.hpp) and its transport: the socket, the generation
-- fence, the heartbeat and the close accounting (server/src/rooms/Peer.cpp). A socket is a number;
-- a file that the peer shares is the number of its entry in the room.
pub mod CloseDetail
pub mod Outbound
pub mod Transport
use conspire.Prelude.{
  ℕ, ◌≡◌, refl, Bool, true, false, not, ◌&&◌, ◌||◌, List, [], ◌∷◌, ◌++◌, Option, none, some, ◌==◌,
  if◌then◌else◌,
}
use conspire.Prelude.Int.{ℤ}
use conspire.Prelude.Bytes.{Bytes, same}
use conspire.Boundaries.Text.{is_empty}
use conspire.Session.Dedupe.{DedupeWindow, max_dedupe_entries}
use conspire.Session.Dedupe as Dedupe
use conspire.Session.Generation.{
  TransportGeneration, detached, replace, is_current, detach_if_current, same_transport,
}
use conspire.Heartbeat
use conspire.Heartbeat.{Heartbeat, TerminalCloseAccounting, account_once}
use conspire.Rooms.Host.{Host, count_transport_closed, invalidate}
use CloseDetail.{bounded_close_detail}

-- `Peer::CloseReason`
pub data CloseReason : Type 0 where
  no_reason heartbeat_timeout write_error protocol_error server_shutdown remote_close : CloseReason

-- `Peer::OutboundFrame`
pub record OutboundFrame : Type 0 where
  pub socket : ℕ
  pub generation : ℕ
  pub payload : Bytes

pub record Peer : Type 0 where
  pub socket : Option ℕ
  pub nickname : Bytes
  pub peer_id : ℤ
  pub heartbeat : Heartbeat
  pub transport_generation : TransportGeneration
  pub socket_generation : ℕ
  pub close_reason : CloseReason
  pub close_accounting : TerminalCloseAccounting
  pub close_code : ℕ
  pub close_detail : Bytes
  pub files : List ℤ
  pub file_capability_id : Bytes
  pub dedupe : DedupeWindow
  pub message_buffer : Bytes
  pub outbound_frames : List OutboundFrame
  pub outbound_bytes : ℕ
  pub outbound_drain_active : Bool

-- The constructor; `now` is the clock's.
unfoldable pub make_peer : ℕ → Bytes → ℤ → ℕ → Peer
make_peer socket nickname peer_id now =
    let (fence, generation) = replace detached (some socket) in
    record {
      socket = some socket;
      nickname = nickname;
      peer_id = peer_id;
      heartbeat = Heartbeat.start now 1;
      transport_generation = fence;
      socket_generation = generation;
      close_reason = no_reason;
      close_accounting = record { accounted = false };
      close_code = 0;
      close_detail = [];
      files = [];
      file_capability_id = [];
      dedupe = Dedupe.empty max_dedupe_entries;
      message_buffer = [];
      outbound_frames = [];
      outbound_bytes = 0;
      outbound_drain_active = false;
    }

-- if (m_closeReason == NONE) m_closeReason = reason;
unfoldable pub first_reason : CloseReason → CloseReason → CloseReason
first_reason no_reason cause = cause
first_reason held cause = held

unfoldable pub select_close_reason : Peer → CloseReason → Peer × Bool
select_close_reason p reason =
    let (accounting, first) = account_once p.close_accounting in
    (
      record p { close_reason = first_reason p.close_reason reason; close_accounting = accounting },
      first,
    )

abbrev pub count_if : Bool → Host → Host
count_if first h = if first then count_transport_closed h else h

-- What stands after the locked block of `invalidateSocket` and `invalidateSocketIfCurrent`.
unfoldable pub close_socket : Option ℕ → Bool → Host → Host
close_socket none account h = h
close_socket (some socket) account h = invalidate socket (count_if account h)

unfoldable pub invalidate_socket : Peer → CloseReason → Host → Peer × Host
invalidate_socket p reason h =
    let (p', account) = select_close_reason p reason in (p', close_socket p.socket account h)

unfoldable pub has_socket : Option ℕ → Bool
has_socket none = false
has_socket (some socket) = true

unfoldable pub invalidate_socket_if_current : Peer → ℕ → CloseReason → Host → Peer × Host × Bool
invalidate_socket_if_current p generation reason h =
    if not (generation == p.socket_generation)
    then (p, h, false)
    else let (p', account) = select_close_reason p reason in
      (p', close_socket p.socket account h, has_socket p.socket)

unfoldable pub record_protocol_error : Peer → Host → Peer × Host
record_protocol_error p h =
    let (p', account) = select_close_reason p protocol_error in (p', count_if account h)

-- The transport that is replaced comes back. A null socket replaces nothing.
unfoldable pub replace_socket : Peer → Option ℕ → ℕ → Peer × Option ℕ
replace_socket p none now = (p, none)
replace_socket p (some socket) now =
    let (fence, generation) = replace p.transport_generation (some socket) in
    (
      record p {
        socket = some socket;
        transport_generation = fence;
        socket_generation = generation;
        message_buffer = [];
        close_reason = no_reason;
        close_accounting = record { accounted = false };
        heartbeat = Heartbeat.activate p.heartbeat now generation;
      },
      p.socket,
    )

-- The overload that names a generation; the other one passes the peer's own.
unfoldable pub detach_transport : Peer → Option ℕ → ℕ → Peer × Bool
detach_transport p socket generation =
    if not (is_current p.transport_generation socket generation)
      || not (same_transport socket p.socket)
    then (p, false)
    else (
      record p {
        socket = none;
        transport_generation = (detach_if_current p.transport_generation socket generation).0;
      },
      true,
    )

unfoldable pub detach_current : Peer → Option ℕ → Peer × Bool
detach_current p socket = detach_transport p socket p.socket_generation

-- A frame of the current socket is a sign of life.
abbrev pub note_inbound : Peer → ℕ → Peer
note_inbound p now = record p {
  heartbeat = (Heartbeat.inbound p.heartbeat now p.socket_generation).0;
}

-- Whether a pong is sent.
unfoldable pub on_ping : Peer → Option ℕ → ℕ → Peer × Bool
on_ping p socket now =
    if not (same_transport socket p.socket) then (p, false) else (note_inbound p now, true)

unfoldable pub on_pong : Peer → Option ℕ → ℕ → Peer
on_pong p socket now = if same_transport socket p.socket then note_inbound p now else p

unfoldable pub on_close : Peer → Option ℕ → ℕ → Option Bytes → Host → Peer × Host
on_close p socket code detail h =
    let (p', account) = select_close_reason p remote_close in
    if not (same_transport socket p.socket) then (p, h) else (
      record p' { close_code = code; close_detail = bounded_close_detail detail },
      count_if account h,
    )

-- The tick that the caller sees, and whether a ping coroutine starts. Without a socket the
-- heartbeat has queued a ping that nothing will write.
unfoldable pub send_ping : Peer → ℕ → Peer × Heartbeat.Tick × Bool
send_ping p now =
    let (beat, tick) = Heartbeat.tick p.heartbeat now in
    let p' = record p { heartbeat = beat } in
    elim tick [
      | Heartbeat.Tick.idle ↦ (p', Heartbeat.Tick.idle, false)
      | Heartbeat.Tick.expired ↦ (p', Heartbeat.Tick.expired, false)
      | Heartbeat.Tick.queue_ping ↦
          if has_socket p.socket
          then (p', Heartbeat.Tick.queue_ping, true)
          else (p', Heartbeat.Tick.idle, false)
    ]

unfoldable pub ping_write_completed : Peer → ℕ → Bool → Peer × Bool
ping_write_completed p generation success =
    let (beat, done) = Heartbeat.write_completed p.heartbeat generation success in
    (record p { heartbeat = beat }, done)

unfoldable pub add_files : Peer → List ℤ → Peer
add_files p files = record p { files = p.files ++ files }

unfoldable pub take_files_snapshot : Peer → Peer × List ℤ
take_files_snapshot p = (record p { files = [] }, p.files)

abbrev pub bytes_or_empty : Option Bytes → Bytes
bytes_or_empty none = []
bytes_or_empty (some b) = b

-- Whether an earlier capability was replaced by another.
unfoldable pub set_file_capability : Peer → Option Bytes → Peer × Bool
set_file_capability p capability =
    let next = bytes_or_empty capability in
    (
      record p { file_capability_id = next },
      not (is_empty p.file_capability_id) && not (same p.file_capability_id next),
    )
