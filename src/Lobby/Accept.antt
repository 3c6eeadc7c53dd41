-- ===== src/Lobby/Accept.antt =====
-- `Lobby::acceptSessionHello` from the first check to the answer, with `reissueOutstandingFileRequests`
-- of server/src/rooms/Peer.cpp (server/src/rooms/Lobby.cpp).
use conspire.Prelude.{
  ℕ, Bool, true, false, not, List, [], ◌∷◌, Option, none, some, if◌then◌else◌, increment,
}
use conspire.Prelude.Int.{ℤ, pos, int_eq}
use conspire.Prelude.Maps.{nat_eq, lookup, insert}
use conspire.Prelude.Bytes.{Bytes, bytes_eq}
use conspire.Rooms.Dto.{Code, MessageDto, Envelope, blank, plain}
use conspire.Rooms.Log.{get_history_after, latest_server_seq}
use conspire.Rooms.Peer.{Peer, set_file_capability}
use conspire.Rooms.File.{reissue_outstanding_requests}
use conspire.Rooms.Room.{
  Room, returns, throws, get_peers, update_peer, send_one, publish_connection_state,
}
use conspire.Rooms.Room.Files.{withdraw_peer_files}
use conspire.Lobby.{Lobby, peer_listener}
use conspire.Lobby.Hello.{Hello, Bound, checked_hello, take_pending, open_session}

-- The arguments are those of the hello.
module _ (sha256 : Bytes → Bytes) (encode : Envelope → Bytes) (maximum : Option ℕ) where
  -- The answer to the client: what it missed, or all that is kept.
  unfoldable pub ready_message : Bound → ℕ → Peer → Room → Envelope
  ready_message b cursor p r =
      let (history, resync) = get_history_after cursor r.log in
      record {
        body = record blank {
          code = some Code.session_ready;
          protocol_version = some (pos 2);
          resumed = some b.resumed;
          peer_id = some p.peer_id;
          peer_name = some p.nickname;
          latest_server_seq = some (latest_server_seq r.log);
          resync_required = some resync;
          resume_token = some b.token;
        };
        peers = some (get_peers r);
        history = some history;
      }

  -- host->sendMessageAsync for each message
  abbrev send_requests : ℤ → List MessageDto → Room → Room
  send_requests host [] r = r
  send_requests host (m ∷ ms) r = send_requests host ms (send_one host (encode (plain m)) r)

  -- The host of the files is the peer itself, which is there.
  unfoldable pub reissue_each : ℤ → List ℤ → Room → Room
  reissue_each host [] r = r
  reissue_each host (id ∷ ids) r = reissue_each host ids (elim (lookup id r.files) [
    | none ↦ r
    | some f ↦
        let (f', messages) = reissue_outstanding_requests f true in
        send_requests host messages (record r { files = insert id f' r.files })
  ])

  abbrev count_connected : Room → Room
  count_connected r =
      let s = r.host.statistics in
      record r {
        host = record r.host {
          statistics = record s { peer_connected = increment s.peer_connected };
        };
      }

  abbrev count_resumed : Room → Room
  count_resumed r =
      let s = r.host.statistics in
      record r {
        host = record r.host { statistics = record s { peer_resumed = increment s.peer_resumed } };
      }

  -- What follows the ready message.
  unfoldable pub announce : Bound → Bool → Peer → Room → Room
  announce b changed p r =
      if not b.resumed
      then count_connected r
      else let published = publish_connection_state encode maximum (count_resumed r) p true in
        if changed then published else reissue_each b.peer p.files published

  -- The part in the peer's room, from the file capability on; `false` is an exception.
  unfoldable pub greet : Bound → Hello → Room → Room × Bool
  greet b hello r = elim (lookup b.peer r.peers) [
    | none ↦ (r, true)
    | some p ↦
        let (p', changed) = set_file_capability p (some hello.capability) in
        let capable = update_peer b.peer (p', r.host) r in
        let finish : Room → Room = λ s.
          announce b changed p' (send_one b.peer (encode (ready_message b hello.cursor p' s)) s) in
        if not changed
        then (finish capable, true)
        else elim (withdraw_peer_files encode maximum capable p') [
          | returns done ↦ (finish done.0, true)
          | throws thrown s ↦ (s, false)
        ]
  ]

  unfoldable pub greet_bound : ℕ → Hello → Bound → Lobby → Lobby × Bool
  greet_bound socket hello b l =
      let listening = record l {
        listeners = insert socket (peer_listener b.room b.peer) l.listeners;
      } in
      elim (lookup b.room l.stores) [
        | none ↦ (listening, true)
        | some r ↦
            let (r', done) = greet b hello (record r { host = l.host }) in
            (record listening { stores = insert b.room r' l.stores; host = r'.host }, done)
      ]

  -- The peer, if the hello is accepted; a refusal closes the transport.
  unfoldable pub accept_session_hello :
      ℕ → Bytes → Bytes → Option Bytes → ℕ → Option MessageDto → Lobby → Lobby × Option Bound
  accept_session_hello socket name nickname random now message l = elim (checked_hello message) [
    | none ↦ (l, none)
    | some hello ↦ elim (take_pending socket now l) [
      | none ↦ (l, none)
      | some taken ↦
          let (opened, bound) =
            open_session sha256 encode maximum socket name nickname random now hello taken in
          elim bound [
            | none ↦ (opened, none)
            | some b ↦
                let (l', done) = greet_bound socket hello b opened in
                (l', if done then some b else none)
          ]
    ]
  ]
