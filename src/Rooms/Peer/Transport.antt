-- ===== src/Rooms/Peer/Transport.antt =====
-- Replacing, detaching and closing the transport of a peer (server/src/rooms/Peer.cpp).
use conspire.Prelude.{
  ℕ, ◌<◌, ◌≡◌, ◌≢◌, Bool, true, false, List, [], ◌∷◌, Option, none, some, arith, increment, u64_mod,
}
use conspire.Prelude.Bytes.{Bytes}
use conspire.Session.Generation.{replace, is_current, detach_if_current, same_transport_iff}
use conspire.Heartbeat
use conspire.Heartbeat.{account_once}
use conspire.Rooms.Host.{Host}
use conspire.Rooms.Peer.{
  Peer, CloseReason, no_reason, protocol_error, remote_close, select_close_reason, close_socket,
  invalidate_socket, invalidate_socket_if_current, record_protocol_error, replace_socket,
  detach_transport, detach_current, on_ping, on_pong, on_close, ping_write_completed, first_reason,
}

-- The peer's socket, its generation, the fence and the heartbeat agree.
pub record IsBound (p : Peer) : Type 0 where
  pub range : p.socket_generation < u64_mod
  pub fence_generation : p.transport_generation.generation ≡ p.socket_generation
  pub fence_socket : p.transport_generation.current ≡ p.socket
  pub beat_generation : p.heartbeat.generation ≡ p.socket_generation

pub replace_socket-IsBound :
    (p : Peer) (socket : Option ℕ) (now : ℕ) → IsBound p → IsBound (replace_socket p socket now).0
unfolding replace_socket replace Heartbeat.activate
replace_socket-IsBound p none now b = b
replace_socket-IsBound p (some socket) now b = ground arith

pub detach_current-IsBound :
    (p : Peer) (socket : Option ℕ) → IsBound p → IsBound (detach_current p socket).0
unfolding detach_current detach_transport detach_if_current is_current
detach_current-IsBound p socket b = ground arith

-- A callback of a replaced transport has no effect: with the generation of the old binding it
-- invalidates nothing, detaches nothing (also by the new socket's own address) and completes no
-- ping, and a ping, a pong or a close of the old socket leaves the peer as it is.
pub replace_socket_fences :
    (p : Peer) (old socket now later code : ℕ) (detail : Option Bytes) (cause : CloseReason)
    (success : Bool) (h : Host)
    → IsBound p
    → old ≢ socket
    → let fresh = (replace_socket p (some socket) now).0 in
      (invalidate_socket_if_current fresh p.socket_generation cause h ≡ (fresh, h, false))
      × (detach_transport fresh (some old) p.socket_generation ≡ (fresh, false))
      × (detach_transport fresh (some socket) p.socket_generation ≡ (fresh, false))
      × (detach_current fresh (some old) ≡ (fresh, false))
      × (ping_write_completed fresh p.socket_generation success ≡ (fresh, false))
      × (on_ping fresh (some old) later ≡ (fresh, false))
      × (on_pong fresh (some old) later ≡ fresh)
      × (on_close fresh (some old) code detail h ≡ (fresh, h))
unfolding replace_socket replace invalidate_socket_if_current detach_transport is_current
    detach_current on_ping on_pong on_close ping_write_completed Heartbeat.write_completed
    Heartbeat.activate
replace_socket_fences p old socket now later code detail cause success h b other =
    let stale = same_transport_iff (some old) (some socket) in
    (
      ground arith,
      ground arith,
      ground arith,
      ground (arith, stale),
      ground arith,
      ground (arith, stale),
      ground (arith, stale),
      ground (arith, stale),
    )

-- The ends of a transport, in the order in which the state lock admits them.
pub data Ending : Type 0 where
  invalidates : CloseReason → Ending
  protocol_fails : Ending
  closes : Option ℕ → ℕ → Option Bytes → Ending

abbrev pub end_once : Peer × Host → Ending → Peer × Host
end_once (p, h) (invalidates cause) = invalidate_socket p cause h
end_once (p, h) protocol_fails = record_protocol_error p h
end_once (p, h) (closes socket code detail) = on_close p socket code detail h

abbrev pub end_all : Peer × Host → List Ending → Peer × Host
end_all s [] = s
end_all s (e ∷ es) = end_all (end_once s e) es

abbrev pub closed_count : Peer × Host → ℕ
closed_count s = s.1.statistics.peer_transport_closed

-- Once an ending is accounted for, no further one counts or changes the reason.
pub record IsAccounted (cause : CloseReason) (count : ℕ) (s : Peer × Host) : Type 0 where
  pub done : s.0.close_accounting.accounted ≡ true
  pub held : s.0.close_reason ≡ cause
  pub counted : closed_count s ≡ count

end_once-IsAccounted :
    (cause : CloseReason) (count : ℕ) (s : Peer × Host) (e : Ending)
    → cause ≢ no_reason
    → IsAccounted cause count s
    → IsAccounted cause count (end_once s e)
unfolding invalidate_socket record_protocol_error on_close select_close_reason account_once
    first_reason close_socket
end_once-IsAccounted cause count (p, h) (invalidates other) real a = ground arith
end_once-IsAccounted cause count (p, h) protocol_fails real a = ground arith
end_once-IsAccounted cause count (p, h) (closes socket code detail) real a = ground arith

end_all-IsAccounted :
    (cause : CloseReason) (count : ℕ) (s : Peer × Host) (es : List Ending)
    → cause ≢ no_reason
    → IsAccounted cause count s
    → IsAccounted cause count (end_all s es)
end_all-IsAccounted cause count s [] real a = a
end_all-IsAccounted cause count s (e ∷ es) real a =
    end_all-IsAccounted cause count (end_once s e) es real
      (end_once-IsAccounted cause count s e real a)

-- The reason under which an ending counts.
abbrev pub reason_of : Ending → CloseReason
reason_of (invalidates cause) = cause
reason_of protocol_fails = protocol_error
reason_of (closes socket code detail) = remote_close

-- The ending is one of the transport on this socket: a close names the socket that closed.
abbrev pub IsOf : ℕ → Ending → Type 0
IsOf socket (invalidates cause) = Unit {0}
IsOf socket protocol_fails = Unit {0}
IsOf socket (closes closed code detail) = closed ≡ some socket

first-IsAccounted :
    (p : Peer) (socket : ℕ) (e : Ending) (h : Host)
    → p.socket ≡ some socket
    → p.close_accounting.accounted ≡ false
    → p.close_reason ≡ no_reason
    → IsOf socket e
    → IsAccounted (reason_of e) (increment h.statistics.peer_transport_closed) (end_once (p, h) e)
unfolding invalidate_socket record_protocol_error on_close select_close_reason account_once
    first_reason close_socket
first-IsAccounted p socket (invalidates cause) h bound unaccounted open_reason own = ground arith
first-IsAccounted p socket protocol_fails h bound unaccounted open_reason own = ground arith
first-IsAccounted p socket (closes closed code detail) h bound unaccounted open_reason own =
    ground (arith, same_transport_iff closed p.socket)

-- A bound transport that is not accounted for and has no reason yet ends by an invalidation with a
-- reason, a protocol error or the close of its socket. It counts once, under the reason of that
-- first ending, whatever other endings follow.
pub close_counts_once :
    (p : Peer) (socket : ℕ) (first : Ending) (h : Host) (es : List Ending)
    → p.socket ≡ some socket
    → p.close_accounting.accounted ≡ false
    → p.close_reason ≡ no_reason
    → IsOf socket first
    → reason_of first ≢ no_reason
    → let s = end_all (p, h) (first ∷ es) in
      (closed_count s ≡ increment h.statistics.peer_transport_closed)
      × (s.0.close_reason ≡ reason_of first)
close_counts_once p socket first h es bound unaccounted open_reason own real =
    let a =
      end_all-IsAccounted (reason_of first) _ (end_once (p, h) first) es real
        (first-IsAccounted p socket first h bound unaccounted open_reason own) in
    (a.counted, a.held)
