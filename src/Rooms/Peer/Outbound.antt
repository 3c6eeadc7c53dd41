-- ===== src/Rooms/Peer/Outbound.antt =====
-- The write queue of a peer: `sendMessageAsync`, `takeOutboundFrame`, `isCurrentBinding` and the
-- loop of `startOutboundDrain` (server/src/rooms/Peer.cpp). A payload is the text that the object
-- mapper made of the message.
use conspire.Prelude.{
  ℕ, zero, suc, sym, ◌+◌, ◌-◌, ◌*◌, ◌≤◌, ◌<◌, ◌≡◌, refl, ap, ◌∙◌, Bool-cases, inl, inr, Bool, true,
  false, ◌&&◌, ◌||◌, List, [], ◌∷◌, ◌++◌, Option, none, some, arith, ltb, leb, ◌==◌, min, length,
  length-append, if◌then◌else◌,
}
use mathlib.Core.List.{append-nil, append_assoc}
use conspire.Prelude.Bytes.{Bytes}
use conspire.Session.Generation.{same_transport}
use conspire.Rooms.Host.{Host, execute_drain}
use conspire.Rooms.Peer.{
  Peer, OutboundFrame, write_error, invalidate_socket_if_current, select_close_reason, close_socket,
}

abbrev pub max_outbound_frames : ℕ
max_outbound_frames = 256

abbrev pub max_outbound_bytes : ℕ
max_outbound_bytes = 2 * 1024 * 1024

unfoldable pub overflows : Peer → Bytes → Bool
overflows p payload =
    leb max_outbound_frames (length p.outbound_frames)
    || ltb (max_outbound_bytes - min p.outbound_bytes max_outbound_bytes) (length payload)

abbrev pub push_frame : Peer → ℕ → Bytes → Peer
push_frame p socket payload = record p {
  outbound_frames =
      p.outbound_frames
      ++ record { socket = socket; generation = p.socket_generation; payload = payload } ∷ [];
  outbound_bytes = p.outbound_bytes + length payload;
  outbound_drain_active = true;
}

-- The sending to a peer whose socket is `socket`.
unfoldable pub send_to : Option ℕ → Peer → Bytes → Host → Peer × Host
send_to none p payload h = (p, h)
send_to (some socket) p payload h =
    if overflows p payload
    then (let (p', h', done) = invalidate_socket_if_current p p.socket_generation write_error h in
        (p', h'))
    else (
      push_frame p socket payload,
      if p.outbound_drain_active then h else execute_drain p.peer_id h,
    )

unfoldable pub send_message_async : Peer → Bytes → Host → Peer × Host
send_message_async p payload h = send_to p.socket p payload h

-- `none` is the empty queue, which ends the drain.
unfoldable pub take_outbound_frame : Peer → Peer × Option OutboundFrame
take_outbound_frame p = elim p.outbound_frames [
  | [] ↦ (record p { outbound_drain_active = false }, none)
  | frame ∷ rest ↦ (
    record p { outbound_frames = rest; outbound_bytes = p.outbound_bytes - length frame.payload },
    some frame,
  )
]

unfoldable pub is_current_binding : Peer → OutboundFrame → Bool
is_current_binding p frame =
    same_transport (some frame.socket) p.socket && (frame.generation == p.socket_generation)

abbrev pub total : List OutboundFrame → ℕ
total [] = 0
total (f ∷ fs) = length f.payload + total fs

total-append : (fs gs : List OutboundFrame) → total (fs ++ gs) ≡ total fs + total gs
total-append [] gs = omega arith
total-append (f ∷ fs) gs = omega (arith, total-append fs gs)

-- The count of bytes is that of the frames, and both keep their limits.
pub record IsQueue (p : Peer) : Type 0 where
  pub counted : p.outbound_bytes ≡ total p.outbound_frames
  pub few : length p.outbound_frames ≤ max_outbound_frames
  pub small : p.outbound_bytes ≤ max_outbound_bytes

send_to-IsQueue :
    (socket : Option ℕ) (p : Peer) (payload : Bytes) (h : Host)
    → IsQueue p
    → IsQueue (send_to socket p payload h).0
unfolding send_to overflows invalidate_socket_if_current select_close_reason
send_to-IsQueue none p payload h q = q
send_to-IsQueue (some socket) p payload h q =
    let frame : OutboundFrame = record {
      socket = socket;
      generation = p.socket_generation;
      payload = payload;
    } in
    ground (
      arith,
      total-append p.outbound_frames (frame ∷ []),
      length-append p.outbound_frames (frame ∷ []),
    )

-- Whatever is sent, a peer holds at most 256 frames and 2 MiB for its transport.
pub send_message_async-IsQueue :
    (p : Peer) (payload : Bytes) (h : Host) → IsQueue p → IsQueue (send_message_async p payload h).0
unfolding send_message_async
send_message_async-IsQueue p payload h q = send_to-IsQueue p.socket p payload h q

pub take_outbound_frame-IsQueue : (p : Peer) → IsQueue p → IsQueue (take_outbound_frame p).0
unfolding take_outbound_frame
take_outbound_frame-IsQueue p q = ground arith

-- `nextFrame` of the drain, until the queue is empty: the frames that are written, oldest first.
-- A frame of a binding that is gone is dropped.
unfoldable pub drain_loop : ℕ → Peer → List OutboundFrame → Peer × List OutboundFrame
drain_loop zero p written = (p, written)
drain_loop (suc fuel) p written =
    let (p', taken) = take_outbound_frame p in
    elim taken [
      | none ↦ (p', written)
      | some frame ↦
          drain_loop fuel p'
            (if is_current_binding p' frame then written ++ frame ∷ [] else written)
    ]

-- The frames that are bound to the peer's transport, in their order.
abbrev pub bound_frames : Peer → List OutboundFrame → List OutboundFrame
bound_frames p [] = []
bound_frames p (f ∷ fs) =
    let rest = bound_frames p fs in if is_current_binding p f then f ∷ rest else rest

-- The queue of a peer: what it holds, and that the drain has not ended.
abbrev holding : Peer → List OutboundFrame → ℕ → Peer
holding p fs bytes = record p { outbound_frames = fs; outbound_bytes = bytes }

bound_frames-holding :
    (p : Peer) (gs fs : List OutboundFrame) (bytes : ℕ)
    → bound_frames (holding p gs bytes) fs ≡ bound_frames p fs
unfolding is_current_binding
bound_frames-holding p gs [] bytes = refl
bound_frames-holding p gs (f ∷ fs) bytes = ground (arith, bound_frames-holding p gs fs bytes)

-- What a drain leaves: an empty queue that the next message starts again, and all that is written.
pub record Drains (p : Peer) (written : List OutboundFrame) (r : Peer × List OutboundFrame)
    : Type 0 where
  pub sent : r.1 ≡ written ++ bound_frames p p.outbound_frames
  pub empty : r.0.outbound_frames ≡ []
  pub ended : r.0.outbound_drain_active ≡ false

abbrev extended : Peer → OutboundFrame → List OutboundFrame → List OutboundFrame
extended p f written = if is_current_binding p f then written ++ f ∷ [] else written

abbrev without_first : Peer → OutboundFrame → List OutboundFrame → Peer
without_first p f fs = holding p fs (p.outbound_bytes - length f.payload)

drain_step :
    (fuel : ℕ) (p : Peer) (f : OutboundFrame) (fs written : List OutboundFrame)
    → p.outbound_frames ≡ f ∷ fs
    → drain_loop (suc fuel) p written
      ≡ drain_loop fuel (without_first p f fs) (extended p f written)
unfolding drain_loop take_outbound_frame is_current_binding
drain_step fuel p f fs written e = rw e

extended-append :
    (p : Peer) (f : OutboundFrame) (fs written : List OutboundFrame)
    → extended p f written ++ bound_frames p fs ≡ written ++ bound_frames p (f ∷ fs)
extended-append p f fs written = elim (Bool-cases (is_current_binding p f)) [
  | inl current ↦ rw current (append_assoc written (f ∷ []) (bound_frames p fs))
  | inr stale ↦ rw stale
]

drain_loop-Drains :
    (fuel : ℕ) (p : Peer) (fs written : List OutboundFrame)
    → p.outbound_frames ≡ fs
    → length fs < fuel
    → Drains p written (drain_loop fuel p written)
unfolding drain_loop take_outbound_frame
drain_loop-Drains zero p fs written e h = absurd (omega arith)
drain_loop-Drains (suc fuel) p [] written e h = record {
  sent = rw e (sym (append-nil written));
  empty = rw e;
  ended = rw e;
}
drain_loop-Drains (suc fuel) p (f ∷ fs) written e h =
    let ih =
      drain_loop-Drains fuel (without_first p f fs) fs (extended p f written) refl (omega arith) in
    rw (drain_step fuel p f fs written e) (record {
      sent =
          ih.sent
          ∙ ap (◌++◌ (extended p f written)) (bound_frames-holding p fs fs _)
          ∙ extended-append p f fs written
          ∙ ap (λ gs. written ++ bound_frames p gs) (sym e);
      empty = ih.empty;
      ended = ih.ended;
    })

-- A drain with enough rounds for the queue empties it and ends. It writes the frames of the
-- current binding in the order in which they were queued, each once, and drops those of a
-- transport that was replaced.
pub drain_writes_bound :
    (fuel : ℕ) (p : Peer) → length p.outbound_frames < fuel → Drains p [] (drain_loop fuel p [])
drain_writes_bound fuel p h = drain_loop-Drains fuel p p.outbound_frames [] refl h

-- Sending to a connected peer: with room in the queue the message goes to its end, bound to the
-- current transport, and a drain is running; without, nothing is queued and the transport is
-- invalidated.
pub send_to_lem :
    (socket : ℕ) (p : Peer) (payload : Bytes) (h : Host)
    → ((overflows p payload ≡ false)
        → ((send_to (some socket) p payload h).0.outbound_frames
            ≡ p.outbound_frames
              ++ record { socket = socket; generation = p.socket_generation; payload = payload }
                ∷ [])
          × ((send_to (some socket) p payload h).0.outbound_drain_active ≡ true))
      × ((overflows p payload ≡ true)
          → p.socket ≡ some socket
          → ((send_to (some socket) p payload h).0.outbound_frames ≡ p.outbound_frames)
            × ((send_to (some socket) p payload h).1.invalidated ≡ socket ∷ h.invalidated))
unfolding send_to invalidate_socket_if_current select_close_reason close_socket
send_to_lem socket p payload h = (ground arith, ground arith)
