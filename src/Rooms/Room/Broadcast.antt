-- ===== src/Rooms/Room/Broadcast.antt =====
-- What a message does to the peers of a room (`Room::sendMessageAsync`, server/src/rooms/Room.cpp).
use conspire.Prelude.{
  ℕ, ◌≡◌, refl, sym, ap, ◌∙◌, Bool, true, false, not, ◌&&◌, ◌||◌, List, [], ◌∷◌, Option, none, some,
  inl, inr, Bool-cases, arith, if◌then◌else◌,
}
use mathlib.Core.Option
use conspire.Prelude.Int.{ℤ, int_eq, ◌==ℤ◌, ==ℤ_iff}
use conspire.Prelude.Maps.{lookup, lookup-insert}
use conspire.Prelude.Bytes.{Bytes}
use conspire.Session.Dedupe.{DedupeWindow}
use conspire.Rooms.Host.{Host, idle}
use conspire.Rooms.Peer.{Peer, invalidate_socket_if_current, select_close_reason, close_socket}
use conspire.Rooms.Peer.Outbound.{send_to, overflows}
use conspire.Rooms.Peer.Outbound as Outbound
use conspire.Rooms.Dto.{MessageDto, Envelope, plain}
use conspire.Rooms.Room.{
  Room, send_message_async, send_one, send_found, send_each, update_peer, is_excluded, has_id,
}

-- The peer once the message is sent to it.
abbrev pub delivered : Bytes → Peer → Peer
delivered payload p = (Outbound.send_message_async p payload idle).0

send_to-host :
    (socket : Option ℕ) (p : Peer) (payload : Bytes) (h : Host)
    → ((send_to socket p payload h).0 ≡ (send_to socket p payload idle).0)
      × ((send_to socket p payload h).0.dedupe ≡ p.dedupe)
      × ((send_to socket p payload h).1.statistics.peer_send_message
          ≡ h.statistics.peer_send_message)
unfolding send_to overflows invalidate_socket_if_current select_close_reason close_socket
send_to-host none p payload h = (refl, refl, refl)
send_to-host (some socket) p payload h = ground arith

send_message_async-host :
    (p : Peer) (payload : Bytes) (h : Host)
    → ((Outbound.send_message_async p payload h).0 ≡ delivered payload p)
      × ((Outbound.send_message_async p payload h).0.dedupe ≡ p.dedupe)
      × ((Outbound.send_message_async p payload h).1.statistics.peer_send_message
          ≡ h.statistics.peer_send_message)
unfolding Outbound.send_message_async
send_message_async-host p payload h = send_to-host p.socket p payload h

abbrev pub deliver_if : Bool → Bytes → Option Peer → Option Peer
deliver_if reaches payload o = if reaches then Option.map (delivered payload) o else o

lookup-send_found :
    (id j : ℤ) (o : Option Peer) (payload : Bytes) (r : Room)
    → lookup id r.peers ≡ o
    → lookup j (send_found id o payload r).peers ≡ deliver_if (id ==ℤ j) payload (lookup j r.peers)
unfolding send_found update_peer
lookup-send_found id j none payload r e = elim (Bool-cases (id ==ℤ j)) [
  | inl equal ↦
      let at : lookup j r.peers ≡ none =
        ap (λ k. lookup k r.peers) (sym ((==ℤ_iff id j).0 equal)) ∙ e in
      rw (equal, at)
  | inr other ↦ rw other
]
lookup-send_found id j (some p) payload r e = elim (Bool-cases (id ==ℤ j)) [
  | inl equal ↦
      let at : lookup j r.peers ≡ some p =
        ap (λ k. lookup k r.peers) (sym ((==ℤ_iff id j).0 equal)) ∙ e in
      lookup-insert id j _ r.peers
      ∙ rw (equal, at) (ap some (send_message_async-host p payload r.host).0)
  | inr other ↦ lookup-insert id j _ r.peers ∙ rw other
]

pub lookup-send_one :
    (id j : ℤ) (payload : Bytes) (r : Room)
    → lookup j (send_one id payload r).peers ≡ deliver_if (id ==ℤ j) payload (lookup j r.peers)
unfolding send_one
lookup-send_one id j payload r = lookup-send_found id j (lookup id r.peers) payload r refl

-- No number occurs twice.
abbrev pub Distinct : List ℤ → Type 0
Distinct [] = Unit
Distinct (id ∷ ids) = (has_id id ids ≡ false) × Distinct ids

-- For the number at the head of the list, if the message passes it by,
reaches-out :
    (id j : ℤ) (ids : List ℤ) (excluded : Option ℤ)
    → is_excluded excluded id ≡ true
    → (((id ==ℤ j) || has_id j ids) && not (is_excluded excluded j))
      ≡ (has_id j ids && not (is_excluded excluded j))
reaches-out id j ids excluded out = elim (Bool-cases (id ==ℤ j)) [
  | inl equal ↦
      let at : is_excluded excluded j ≡ true =
        ap (is_excluded excluded) (sym ((==ℤ_iff id j).0 equal)) ∙ out in
      ground (arith, at)
  | inr other ↦ rw other
]

-- and if it gets the message.
reaches-in :
    (id j : ℤ) (ids : List ℤ) (excluded : Option ℤ) (payload : Bytes) (o : Option Peer)
    → is_excluded excluded id ≡ false
    → has_id id ids ≡ false
    → deliver_if
        (has_id j ids && not (is_excluded excluded j))
        payload
        (deliver_if (id ==ℤ j) payload o)
      ≡ deliver_if (((id ==ℤ j) || has_id j ids) && not (is_excluded excluded j)) payload o
reaches-in id j ids excluded payload o present new = elim (Bool-cases (id ==ℤ j)) [
  | inl equal ↦
      let e : j ≡ id = sym ((==ℤ_iff id j).0 equal) in
      let at : is_excluded excluded j ≡ false = ap (is_excluded excluded) e ∙ present in
      let new' : has_id j ids ≡ false = ap (λ k. has_id k ids) e ∙ new in rw (equal, new', at)
  | inr other ↦ rw other
]

-- A peer of the list gets the message once, unless it is the excluded one; nobody else gets it.
pub lookup-send_each :
    (ids : List ℤ) (excluded : Option ℤ) (payload : Bytes) (r : Room) (j : ℤ)
    → Distinct ids
    → lookup j (send_each ids excluded payload r).peers
      ≡ deliver_if (has_id j ids && not (is_excluded excluded j)) payload (lookup j r.peers)
unfolding send_each
lookup-send_each [] excluded payload r j d = refl
lookup-send_each (id ∷ ids) excluded payload r j (new, d) =
    elim (Bool-cases (is_excluded excluded id)) [
      | inl out ↦
          rw (out, send_each)
            (lookup-send_each ids excluded payload r j d
              ∙ ap (λ b. deliver_if b payload (lookup j r.peers))
                  (sym (reaches-out id j ids excluded out)))
      | inr present ↦
          rw (present, send_each)
            (lookup-send_each ids excluded payload (send_one id payload r) j d
              ∙ ap (deliver_if (has_id j ids && not (is_excluded excluded j)) payload)
                  (lookup-send_one id j payload r)
              ∙ reaches-in id j ids excluded payload (lookup j r.peers) present new)
    ]

-- What a message leaves alone.
pub record IsSent (r r' : Room) : Type 0 where
  pub log : r'.log ≡ r.log
  pub members : r'.peer_by_id ≡ r.peer_by_id
  pub shared : r'.file_by_id ≡ r.file_by_id
  pub counted : r'.host.statistics.peer_send_message ≡ r.host.statistics.peer_send_message

send_found-IsSent :
    (id : ℤ) (o : Option Peer) (payload : Bytes) (r : Room) → IsSent r (send_found id o payload r)
unfolding send_found update_peer
send_found-IsSent id none payload r = record {
  log = refl;
  members = refl;
  shared = refl;
  counted = refl;
}
send_found-IsSent id (some p) payload r = record {
  log = refl;
  members = refl;
  shared = refl;
  counted = (send_message_async-host p payload r.host).2;
}

pub send_one-IsSent : (id : ℤ) (payload : Bytes) (r : Room) → IsSent r (send_one id payload r)
unfolding send_one
send_one-IsSent id payload r = send_found-IsSent id (lookup id r.peers) payload r

trans-IsSent : (a b c : Room) → IsSent a b → IsSent b c → IsSent a c
trans-IsSent a b c p q = record {
  log = q.log ∙ p.log;
  members = q.members ∙ p.members;
  shared = q.shared ∙ p.shared;
  counted = q.counted ∙ p.counted;
}

pub send_each-IsSent :
    (ids : List ℤ) (excluded : Option ℤ) (payload : Bytes) (r : Room)
    → IsSent r (send_each ids excluded payload r)
unfolding send_each
send_each-IsSent [] excluded payload r = record {
  log = refl;
  members = refl;
  shared = refl;
  counted = refl;
}
send_each-IsSent (id ∷ ids) excluded payload r = elim (Bool-cases (is_excluded excluded id)) [
  | inl out ↦ rw (out, send_each) (send_each-IsSent ids excluded payload r)
  | inr present ↦
      rw (present, send_each)
        (trans-IsSent r (send_one id payload r)
          (send_each ids excluded payload (send_one id payload r)) (send_one-IsSent id payload r)
          (send_each-IsSent ids excluded payload (send_one id payload r)))
]

-- The record of a peer's commands.
abbrev pub window : ℤ → Room → Option DedupeWindow
window j r = Option.map Peer.dedupe (lookup j r.peers)

deliver_if-dedupe :
    (b : Bool) (payload : Bytes) (o : Option Peer)
    → Option.map Peer.dedupe (deliver_if b payload o) ≡ Option.map Peer.dedupe o
deliver_if-dedupe false payload o = refl
deliver_if-dedupe true payload none = refl
deliver_if-dedupe true payload (some p) = ap some (send_message_async-host p payload idle).1

pub window-send_one :
    (id j : ℤ) (payload : Bytes) (r : Room) → window j (send_one id payload r) ≡ window j r
window-send_one id j payload r =
    ap (Option.map Peer.dedupe) (lookup-send_one id j payload r)
    ∙ deliver_if-dedupe (id ==ℤ j) payload (lookup j r.peers)

pub window-send_each :
    (ids : List ℤ) (excluded : Option ℤ) (payload : Bytes) (r : Room) (j : ℤ)
    → window j (send_each ids excluded payload r) ≡ window j r
unfolding send_each
window-send_each [] excluded payload r j = refl
window-send_each (id ∷ ids) excluded payload r j = elim (Bool-cases (is_excluded excluded id)) [
  | inl out ↦ rw (out, send_each) (window-send_each ids excluded payload r j)
  | inr present ↦
      rw (present, send_each)
        (window-send_each ids excluded payload (send_one id payload r) j
          ∙ window-send_one id j payload r)
]

-- A message to the room reaches each member once, but not the excluded one and nobody outside the
-- room. It leaves the history, the members and the files of the room as they were.
pub broadcast_reaches :
    (encode : Envelope → Bytes) (maximum : Option ℕ) (r : Room) (m : MessageDto)
    (excluded : Option ℤ) (j : ℤ)
    → Distinct r.peer_by_id
    → (lookup j (send_message_async encode maximum r m excluded).peers
        ≡ deliver_if
            (has_id j r.peer_by_id && not (is_excluded excluded j))
            (encode (plain m))
            (lookup j r.peers))
      × IsSent r (send_message_async encode maximum r m excluded)
unfolding send_message_async
broadcast_reaches encode maximum r m excluded j d = (
  lookup-send_each r.peer_by_id excluded (encode (plain m)) r j d,
  send_each-IsSent r.peer_by_id excluded (encode (plain m)) r,
)
