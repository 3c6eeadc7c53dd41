-- ===== src/Lobby/Expiry.antt =====
-- `Lobby::expireSessions` (server/src/rooms/Lobby.cpp).
use conspire.Prelude.{
  ℕ, ◌<◌, ◌≡◌, refl, ap, ◌∙◌, false, List, [], ◌∷◌, Option, none, some, inl, inr, Bool-cases,
  Option-cases, arith, leb, if◌then◌else◌, increment,
}
use conspire.Prelude.Int.{ℤ}
use conspire.Prelude.Maps.{Map, nat_eq, lookup}
use conspire.Prelude.Bytes.{Bytes, bytes_eq, same, All}
use conspire.Session.Lease.{expires}
use conspire.Lobby.Kept.{IsKept, refl-IsKept, trans-IsKept, in_room-IsKept}
use conspire.Rooms.Dto.{Envelope, MessageDto}
use conspire.Rooms.Host.{Host, invalidate}
use conspire.Rooms.Peer.{Peer}
use conspire.Rooms.Room.{Room, Outcome, returns, throws, Thrown, goodbye_peer}
use conspire.Rooms.Room.Files.{remove_peer_by_id}
use conspire.Lobby.{
  Lobby, SessionRecord, in_room, find_peer, outcome_room, is_deletable, delete_room_if_empty,
}

-- The pending transports whose time is over, and the others.
unfoldable pub overdue : ℕ → Map ℕ ℕ → List ℕ × Map ℕ ℕ
overdue now [] = ([], [])
overdue now ((socket, deadline) ∷ pending) =
    let (late, rest) = overdue now pending in
    if leb deadline now then (socket ∷ late, rest) else (late, (socket, deadline) ∷ rest)

-- The sessions that have expired, and the others.
unfoldable pub expired : ℕ → Map Bytes SessionRecord → List SessionRecord × Map Bytes SessionRecord
expired now [] = ([], [])
expired now ((key, s) ∷ sessions) =
    let (over, rest) = expired now sessions in
    if expires s.lease now then (s ∷ over, rest) else (over, (key, s) ∷ rest)

-- socket->getConnection().invalidate() for each
abbrev pub invalidate_each : List ℕ → Host → Host
invalidate_each [] h = h
invalidate_each (socket ∷ sockets) h = invalidate_each sockets (invalidate socket h)

-- The exception of an outcome.
abbrev pub thrown_in {ℓ} : {A : Type ℓ} → Outcome A → Option Thrown
thrown_in (returns a) = none
thrown_in (throws thrown r) = some thrown

module _ (encode : Envelope → Bytes) (maximum : Option ℕ) where
  -- The peer is removed and its departure published, which may throw.
  abbrev pub depart : ℤ → Peer → Room → Outcome (Room × MessageDto)
  depart peer p r = goodbye_peer encode maximum (remove_peer_by_id r peer) p

  -- The room after that, whether or not it threw.
  abbrev pub leave_room : ℤ → Peer → Room → Room
  leave_room peer p r = outcome_room (remove_peer_by_id r peer) (depart peer p r)

  unfoldable pub leave_thrown : SessionRecord → Peer → Lobby → Option Thrown
  leave_thrown s p l = elim (lookup s.room l.stores) [
    | none ↦ none
    | some r ↦ thrown_in (depart s.peer p (record r { host = l.host }))
  ]

  unfoldable pub leave : SessionRecord → Lobby → Lobby × Option Thrown
  unfolding leave_thrown
  leave s l = elim (find_peer s.room s.peer l) [
    | none ↦ (l, none)
    | some p ↦ (in_room s.room (leave_room s.peer p) l, leave_thrown s p l)
  ]

  -- An exception leaves the function before the session is counted.
  unfoldable pub after_leave : SessionRecord → Lobby → Option Thrown → Lobby × Option Thrown
  after_leave s left (some thrown) = (left, some thrown)
  after_leave s left none =
      let t = left.host.statistics in
      (
        delete_room_if_empty s.room (record left {
          host = record left.host {
            statistics = record t { session_expired = increment t.session_expired };
          };
        }),
        none,
      )

  unfoldable pub end_session : SessionRecord → Lobby → Lobby × Option Thrown
  unfolding leave after_leave
  end_session s l = let (left, thrown) = leave s l in after_leave s left thrown

  -- The loop, which ends early where a session's end threw.
  unfoldable pub end_each : List SessionRecord → Lobby → Lobby × Option Thrown
  unfolding end_session
  end_each [] l = (l, none)
  end_each (s ∷ ss) l =
      let (l', thrown) = end_session s l in
      let rest = end_each ss l' in elim thrown [ some t ↦ (l', some t) | none ↦ rest ]

  -- The exception, where there is one, reaches the periodic runner.
  unfoldable pub expire_sessions : ℕ → Lobby → Lobby × Option Thrown
  unfolding end_each
  expire_sessions now l =
      let (late, pending) = overdue now l.pending in
      let (over, sessions) = expired now l.sessions in
      end_each over
        (record l { pending = pending; sessions = sessions; host = invalidate_each late l.host })

delete_room_if_empty-IsKept : (key : ℕ) (l : Lobby) → IsKept l (delete_room_if_empty key l)
unfolding delete_room_if_empty
delete_room_if_empty-IsKept key l = elim (Option-cases (lookup key l.stores)) [
  | inl e ↦ rw (e, delete_room_if_empty) (refl-IsKept l)
  | inr found ↦
      let (r, e) = found in
      elim (Bool-cases (is_deletable key r l)) [
        | inl gone ↦ rw (e, gone, delete_room_if_empty) (record { sessions = refl; pending = refl })
        | inr stays ↦ rw (e, stays, delete_room_if_empty) (refl-IsKept l)
      ]
]

module _ (encode : Envelope → Bytes) (maximum : Option ℕ) where
  leave-IsKept : (s : SessionRecord) (l : Lobby) → IsKept l (leave encode maximum s l).0
  unfolding leave
  leave-IsKept s l = elim (Option-cases (find_peer s.room s.peer l)) [
    | inl e ↦ rw (e, leave) (refl-IsKept l)
    | inr found ↦
        let (p, e) = found in
        rw (e, leave) (in_room-IsKept s.room (leave_room encode maximum s.peer p) l)
  ]

  after_leave-IsKept :
      (s : SessionRecord) (left : Lobby) (thrown : Option Thrown)
      → IsKept left (after_leave encode maximum s left thrown).0
  unfolding after_leave
  after_leave-IsKept s left (some thrown) = refl-IsKept left
  after_leave-IsKept s left none =
      let deleted = delete_room_if_empty-IsKept s.room _ in
      record { sessions = deleted.sessions; pending = deleted.pending }

  end_session-IsKept : (s : SessionRecord) (l : Lobby) → IsKept l (end_session encode maximum s l).0
  unfolding end_session
  end_session-IsKept s l =
      trans-IsKept l (leave encode maximum s l).0 _ (leave-IsKept s l)
        (after_leave-IsKept s (leave encode maximum s l).0 (leave encode maximum s l).1)

  end_each-IsKept :
      (ss : List SessionRecord) (l : Lobby) → IsKept l (end_each encode maximum ss l).0
  unfolding end_each
  end_each-IsKept [] l = refl-IsKept l
  end_each-IsKept (s ∷ ss) l =
      let ended = end_session-IsKept s l in
      let later = end_each-IsKept ss (end_session encode maximum s l).0 in
      elim (Option-cases (end_session encode maximum s l).1) [
        | inl e ↦ rw (e, end_each) (trans-IsKept l (end_session encode maximum s l).0 _ ended later)
        | inr found ↦ let (thrown, e) = found in rw (e, end_each) ended
      ]

  expire_sessions-IsKept :
      (now : ℕ) (l : Lobby)
      → ((expire_sessions encode maximum now l).0.sessions ≡ (expired now l.sessions).1)
        × ((expire_sessions encode maximum now l).0.pending ≡ (overdue now l.pending).1)
  unfolding expire_sessions
  expire_sessions-IsKept now l =
      let kept = end_each-IsKept (expired now l.sessions).0 _ in (kept.sessions, kept.pending)

-- No session that expires at this time.
abbrev pub IsLive : ℕ → Bytes × SessionRecord → Type 0
IsLive now entry = expires entry.1.lease now ≡ false

-- No deadline that has come.
abbrev pub IsPending : ℕ → ℕ × ℕ → Type 0
IsPending now entry = now < entry.1

expired-IsLive :
    (now : ℕ) (sessions : Map Bytes SessionRecord) → All (IsLive now) (expired now sessions).1
unfolding expired
expired-IsLive now [] = tt
expired-IsLive now ((key, s) ∷ sessions) = elim (Bool-cases (expires s.lease now)) [
  | inl over ↦ rw over (expired-IsLive now sessions)
  | inr live ↦ rw live (live, expired-IsLive now sessions)
]

overdue-IsPending : (now : ℕ) (pending : Map ℕ ℕ) → All (IsPending now) (overdue now pending).1
unfolding overdue
overdue-IsPending now [] = tt
overdue-IsPending now ((socket, deadline) ∷ pending) = ground (arith, overdue-IsPending now pending)

lookup-expired :
    (now : ℕ) (key : Bytes) (s : SessionRecord) (sessions : Map Bytes SessionRecord)
    → lookup key sessions ≡ some s
    → expires s.lease now ≡ false
    → lookup key (expired now sessions).1 ≡ some s
unfolding expired lookup
lookup-expired now key s [] e live = ground arith
lookup-expired now key s ((j, t) ∷ sessions) e live = elim (Bool-cases (same j key)) [
  | inl equal ↦
      let found : t ≡ s = ground (arith, equal) in
      let stays : expires t.lease now ≡ false =
        ap (λ (u : SessionRecord). expires u.lease now) found ∙ live in
      rw (stays, equal) (ap some found)
  | inr other ↦
      let later : lookup key sessions ≡ some s = ground (arith, other) in
      elim (Bool-cases (expires t.lease now)) [
        | inl over ↦ rw over (lookup-expired now key s sessions later live)
        | inr stays ↦ rw (stays, other) (lookup-expired now key s sessions later live)
      ]
]

-- After an expiry no session is left whose grace period is over, and no transport whose time for a
-- hello is over, also where the end of a session throws.
pub expire_sessions_ends :
    (encode : Envelope → Bytes) (maximum : Option ℕ) (now : ℕ) (l : Lobby)
    → All (IsLive now) (expire_sessions encode maximum now l).0.sessions
      × All (IsPending now) (expire_sessions encode maximum now l).0.pending
expire_sessions_ends encode maximum now l =
    let (sessions, pending) = expire_sessions-IsKept encode maximum now l in
    rw (sessions, pending) (expired-IsLive now l.sessions, overdue-IsPending now l.pending)

-- An expiry leaves every session as it is that is connected or within its grace period, also where
-- the end of a session throws.
pub expire_sessions_keeps :
    (encode : Envelope → Bytes) (maximum : Option ℕ) (now : ℕ) (l : Lobby) (key : Bytes)
    (s : SessionRecord)
    → lookup key l.sessions ≡ some s
    → expires s.lease now ≡ false
    → lookup key (expire_sessions encode maximum now l).0.sessions ≡ some s
expire_sessions_keeps encode maximum now l key s e live =
    ap (lookup key) (expire_sessions-IsKept encode maximum now l).0
    ∙ lookup-expired now key s l.sessions e live
