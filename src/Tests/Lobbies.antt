-- ===== src/Tests/Lobbies.antt =====
-- The lobby at concrete inputs.
use conspire.Prelude.{◌≡◌, refl, true, [], ◌∷◌, none, some, seconds}
use conspire.Prelude.Int.{pos}
use conspire.Prelude.Maps.{lookup, nat_eq}
use conspire.Prelude.Bytes.{Bytes, codes, bytes_eq, same, All}
use conspire.Session.Dedupe.{valid_base64_url_id, is_base64_url}
use conspire.Session.Lease.{connected, detach, can_resume, expires}
use conspire.Session.Tokens.{digest_token, constant_time_digest_equal}
use conspire.Rooms.Dto.{Envelope}
use conspire.Rooms.Host.{idle}
use conspire.Rooms.Peer.{make_peer}
use conspire.Rooms.Room.{Room, make_room}
use conspire.Lobby.{Lobby, SessionRecord, empty}
use conspire.Lobby.Expiry.{
  IsLive, IsPending, expire_sessions, expire_sessions_ends, expire_sessions_keeps,
}
use conspire.Lobby.Hello.{agreeing, known_session, resume_session}
use conspire.Lobby.Hello.Resume.{resumed_lobby, resume_session_once}

-- A hash.
abbrev hash : Bytes → Bytes
hash text = text

abbrev encode : Envelope → Bytes
encode e = codes "{}"

abbrev token : Bytes
token = codes "AAAAAAAAAAAAAAAAAAAAAAAAAAAAAAAAAAAAAAAAAAA"

-- The session of a peer that lost its transport at the start.
abbrev ann_session : SessionRecord
ann_session = record { room = 0; peer = pos 1; digest = token; lease = detach connected 0 }

abbrev one_room : Room
one_room = record (make_room (codes "lobby") idle) {
  peers = (pos 1, make_peer 7 (codes "ann") (pos 1) 0) ∷ [];
  peer_by_id = pos 1 ∷ [];
}

abbrev one_session : Lobby
one_session = record empty {
  rooms = (codes "lobby", 0) ∷ [];
  stores = (0, one_room) ∷ [];
  next_store = 1;
  sessions = (token, ann_session) ∷ [];
  pending = (9, seconds 10) ∷ [];
}

resume_session_once_example :
    (resume_session hash 9 (codes "lobby") token (seconds 5) one_session
      ≡ some (
        resumed_lobby hash 9 token (seconds 5) ann_session one_session,
        record { room = 0; peer = pos 1; resumed = true; token = token },
      ))
    × (resume_session hash 11
          (codes "lobby")
          token
          (seconds 6)
          (resumed_lobby hash 9 token (seconds 5) ann_session one_session)
        ≡ none)
unfolding valid_base64_url_id is_base64_url known_session agreeing lookup same digest_token
    constant_time_digest_equal can_resume detach make_room
resume_session_once_example =
    resume_session_once hash 9 11 (codes "lobby") (codes "lobby") token (seconds 5) (seconds 6)
      one_session ann_session refl refl refl

expire_sessions_ends_example :
    All (IsLive (seconds 20)) (expire_sessions encode (some 20) (seconds 20) one_session).0.sessions
    × All
        (IsPending (seconds 20))
        (expire_sessions encode (some 20) (seconds 20) one_session).0.pending
expire_sessions_ends_example = expire_sessions_ends encode (some 20) (seconds 20) one_session

expire_sessions_keeps_example :
    lookup token (expire_sessions encode (some 20) (seconds 20) one_session).0.sessions
    ≡ some ann_session
unfolding lookup same expires detach
expire_sessions_keeps_example =
    expire_sessions_keeps encode (some 20) (seconds 20) one_session token ann_session refl refl
