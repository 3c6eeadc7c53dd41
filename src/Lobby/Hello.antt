-- ===== src/Lobby/Hello.antt =====
-- `Lobby::acceptSessionHello` and what `PendingHello::readMessage` makes of its answer
-- (server/src/rooms/Lobby.cpp).
pub mod Resume
use conspire.Prelude.{
  ℕ, Bool, true, false, not, ◌&&◌, ◌||◌, List, [], ◌∷◌, Option, none, some, leb, ◌==◌,
  if◌then◌else◌, increment,
}
use conspire.Prelude.Int.{ℤ, pos, int_eq, ◌==ℤ◌}
use conspire.Prelude.Maps.{Map, nat_eq, lookup, insert, erase, emplace}
use conspire.Prelude.Bytes.{Bytes, same, bytes_eq}
use conspire.Session.Dedupe.{valid_base64_url_id}
use conspire.Session.Lease.{connected, resume}
use conspire.Session.Tokens.{make_resume_token, digest_token, constant_time_digest_equal}
use conspire.Rooms.Dto.{Code, MessageDto, Envelope, blank, plain}
use conspire.Rooms.Log.{get_history_after, latest_server_seq}
use conspire.Rooms.Host.{Host, invalidate}
use conspire.Rooms.Peer.{Peer, make_peer, replace_socket, set_file_capability}
use conspire.Rooms.File.{reissue_outstanding_requests}
use conspire.Rooms.Room.{
  Room, Outcome, returns, throws, has_peer_capacity, add_peer, welcome_peer, get_peers, update_peer,
  send_one, publish_connection_state,
}
use conspire.Rooms.Room.Files.{withdraw_peer_files}
use conspire.Lobby.{
  Lobby, SessionRecord, peer_listener, in_room, obtain_new_peer_id, get_or_create_room, find_peer,
}

-- What a hello holds that passes the first check.
pub record Hello : Type 0 where
  pub cursor : ℕ
  pub capability : Bytes
  pub resume_token : Option Bytes

abbrev is_hello : Option Code → Bool
is_hello (some Code.session_hello) = true
is_hello other = false

abbrev is_version_two : Option ℤ → Bool
is_version_two none = false
is_version_two (some version) = version ==ℤ pos 2

unfoldable pub hello_fields : Option ℕ → Option Bytes → Option Bytes → Option Hello
hello_fields (some cursor) (some capability) resume_token =
    if valid_base64_url_id capability 16
    then some (record { cursor = cursor; capability = capability; resume_token = resume_token })
    else none
hello_fields cursor capability resume_token = none

unfoldable pub checked_hello : Option MessageDto → Option Hello
checked_hello none = none
checked_hello (some m) =
    if is_hello m.code && is_version_two m.protocol_version
    then hello_fields m.last_server_seq m.file_capability_id m.resume_token
    else none

-- exactly one application hello per transport
unfoldable pub take_pending : ℕ → ℕ → Lobby → Option Lobby
take_pending socket now l = elim (lookup socket l.pending) [
  | none ↦ none
  | some deadline ↦
      if leb deadline now then none else some (record l { pending = erase socket l.pending })
]

-- The peer of a hello with its room, whether it was resumed, and the token for its client.
pub record Bound : Type 0 where
  pub room : ℕ
  pub peer : ℤ
  pub resumed : Bool
  pub token : Bytes

abbrev room_name : ℕ → Lobby → Option Bytes
room_name key l = elim (lookup key l.stores) [ none ↦ none | some r ↦ some r.name ]

abbrev is_name : Bytes → Option Bytes → Bool
is_name name none = false
is_name name (some found) = same found name

-- if (replaced && replaced != socket) replaced->getConnection().invalidate();
abbrev drop_replaced : ℕ → Option ℕ → Host → Host
drop_replaced socket none h = h
drop_replaced socket (some replaced) h = if replaced == socket then h else invalidate replaced h

-- The peer takes the new socket.
unfoldable pub rebind : ℕ → ℕ → ℤ → Room → Room
rebind socket now peer r = elim (lookup peer r.peers) [
  | none ↦ r
  | some p ↦
      let (p', replaced) = replace_socket p (some socket) now in
      update_peer peer (p', drop_replaced socket replaced r.host) r
]

-- The session that was found, if its digest and the name of its room agree.
unfoldable pub agreeing : Bytes → Bytes → Lobby → Option SessionRecord → Option SessionRecord
agreeing digest name l none = none
agreeing digest name l (some s) =
    if constant_time_digest_equal s.digest digest && is_name name (room_name s.room l)
    then some s
    else none

-- `sha256` is the hash.
module _ (sha256 : Bytes → Bytes) where
  -- The session of a token.
  unfoldable pub known_session : Bytes → Bytes → Lobby → Option SessionRecord
  known_session token name l =
      let digest = digest_token sha256 token in agreeing digest name l (lookup digest l.sessions)

  unfoldable pub resume_session : ℕ → Bytes → Bytes → ℕ → Lobby → Option (Lobby × Bound)
  resume_session socket name token now l =
      if not (valid_base64_url_id token 32) then none else elim (known_session token name l) [
        | none ↦ none
        | some s ↦
            let (lease, done) = resume s.lease now in
            if not done
            then none
            else some (
              in_room s.room (rebind socket now s.peer) (record l {
                sessions =
                    insert (digest_token sha256 token) (record s { lease = lease }) l.sessions;
              }),
              record { room = s.room; peer = s.peer; resumed = true; token = token },
            )
      ]

-- `random` is what the generator of random bytes returned.
module _ (sha256 : Bytes → Bytes) (encode : Envelope → Bytes) (maximum : Option ℕ) where
  -- The exception of the announcement is an answer too: the hello is refused.
  abbrev welcomed : Room → Outcome (Room × MessageDto) → Room × Bool
  welcomed r (returns done) = (done.0, true)
  welcomed r (throws thrown r') = (r', false)

  unfoldable pub enter_room : ℕ → Bytes → Bytes → ℕ → ℕ → Room → Lobby → Lobby × Option Bound
  enter_room socket nickname token now key r l =
      let (numbered, peer_id) = obtain_new_peer_id l in
      let p = make_peer socket nickname peer_id now in
      let (entered, done) = add_peer (record r { host = l.host }) p in
      let digest = digest_token sha256 token in
      let (told, announced) = welcomed entered (welcome_peer encode maximum entered p) in
      if not (has_peer_capacity r) then (l, none) else if not done then (numbered, none) else (
        record numbered {
          stores = insert key told numbered.stores;
          host = told.host;
          sessions =
              emplace digest
                (record { room = key; peer = peer_id; digest = digest; lease = connected })
                numbered.sessions;
        },
        if announced
            then some (record { room = key; peer = peer_id; resumed = false; token = token })
            else none,
      )

  unfoldable pub new_session : ℕ → Bytes → Bytes → Option Bytes → ℕ → Lobby → Lobby × Option Bound
  new_session socket name nickname random now l = elim (make_resume_token random) [
    | none ↦ (l, none)
    | some token ↦
        let (l', found) = get_or_create_room name l in
        elim found [
          | none ↦ (l', none)
          | some key ↦ elim (lookup key l'.stores) [
            | none ↦ (l', none)
            | some r ↦ enter_room socket nickname token now key r l'
          ]
        ]
  ]

  unfoldable pub open_session :
      ℕ → Bytes → Bytes → Option Bytes → ℕ → Hello → Lobby → Lobby × Option Bound
  open_session socket name nickname random now hello l = elim hello.resume_token [
    | none ↦ new_session socket name nickname random now l
    | some token ↦ elim (resume_session sha256 socket name token now l) [
      | none ↦ (l, none)
      | some done ↦ let (l', bound) = done in (l', some bound)
    ]
  ]
