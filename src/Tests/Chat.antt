-- ===== src/Tests/Chat.antt =====
-- The room, its history, its peers' queues and its files at concrete inputs.
use mathlib.Core.List.{Memᴰ}
use conspire.Prelude.{
  ◌≡◌, refl, true, ◌||◌, false, [], ◌∷◌, Option, none, some, arith, drop, if◌then◌else◌,
}
use conspire.Prelude.Int.{pos, int_eq}
use conspire.Prelude.Maps.{lookup}
use conspire.Prelude.Bytes.{Bytes, codes}
use conspire.Boundaries.Limits.{has_capacity, limits}
use conspire.Boundaries.Chunk.{invalid}
use conspire.Session.Dedupe.{
  find, full, valid_client_message_id, valid_base64_url_id, is_base64_url,
}
use conspire.Rooms.Dto.{Code, MessageDto, Envelope, blank, plain}
use conspire.Rooms.Log.{Log, empty, get_history_after}
use conspire.Rooms.Log.Replay.{add_all, stamp_from}
use conspire.Rooms.Log.Select.{can_continue, replay_exact}
use conspire.Rooms.Host.{idle}
use conspire.Rooms.Peer.{Peer, make_peer}
use conspire.Rooms.Peer.Outbound.{
  Drains, IsQueue, drain_loop, drain_writes_bound, send_message_async-IsQueue,
}
use conspire.Rooms.Peer.Outbound as Outbound
use conspire.Rooms.Subscriber.{FileInfo, Subscriber, subscriber}
use conspire.Rooms.Subscriber.Stream.{
  IsStream, run, start, reads, provides, reissues, download-IsStream,
}
use conspire.Rooms.File.{File, Weak, make_file, subscribe, provide_file_chunk, clear_subscribers}
use conspire.Rooms.File.Withdrawal.{IsOver, clear_subscribers_ends}
use conspire.Rooms.Room.{Room, has_id, add_peer, make_room, get_peer_by_id, send_message_async}
use conspire.Rooms.Room.Broadcast.{IsSent, deliver_if, broadcast_reaches}
use conspire.Rooms.Room.Files.{get_file_by_id, remove_peer_by_id}
use conspire.Rooms.Room.Roster.{IsRoster, add_peer-IsRoster}
use conspire.Rooms.Room.Departure.{remove_peer_by_id_lem}
use conspire.Rooms.Command.{has_content}
use conspire.Rooms.Command.Once.{IsPublished, IsAnswered, message-IsPublished_once}

-- An object mapper.
abbrev encode : Envelope → Bytes
encode e = codes "{}"

abbrev decode : Bytes → Option (Option MessageDto)
decode text = some none

abbrev decode64 : Bytes → Option Bytes
decode64 text = some text

abbrev ann : Peer
ann = record (make_peer 7 (codes "ann") (pos 1) 0) { files = pos 1 ∷ [] }

abbrev bob : Peer
bob = make_peer 8 (codes "bob") (pos 2) 0

abbrev notes : File
notes = make_file (pos 1) (pos 5) (pos 1) (codes "notes.txt") 6 none

abbrev two_peers : Room
two_peers = record (make_room (codes "lobby") idle) {
  files = (pos 1, notes) ∷ [];
  file_by_id = pos 1 ∷ [];
  peers = (pos 1, ann) ∷ (pos 2, bob) ∷ [];
  peer_by_id = pos 1 ∷ pos 2 ∷ [];
}

abbrev message_id : Bytes
message_id = codes "AAAAAAAAAAAAAAAAAAAAAA"

abbrev hello : MessageDto
hello = record blank {
  code = some Code.peer_message;
  message = some (codes "hello");
  client_message_id = some message_id;
}

abbrev hello_again : MessageDto
hello_again = record hello { message = some (codes "hello again") }

message-IsPublished_once_example :
    (r' : Room) × IsPublished encode
      (some 20)
      decode
      decode64
      4096
      two_peers
      (pos 1)
      message_id
      hello
      r'
    × IsAnswered encode (some 20) decode decode64 4096 r' (pos 1) message_id hello_again 1
unfolding has_content valid_client_message_id valid_base64_url_id is_base64_url lookup make_room
    make_peer find full conspire.Boundaries.Text.valid_message_content
    conspire.Boundaries.Text.contains_control
message-IsPublished_once_example =
    message-IsPublished_once encode (some 20) decode decode64 4096 two_peers (pos 1) message_id
      hello hello_again ann refl refl refl refl refl refl refl refl (omega arith)

replay_exact_example :
    (l : Log) × (add_all (some 2) empty (hello ∷ hello ∷ hello ∷ []) ≡ some l)
    × (get_history_after 1 l ≡ (
        if can_continue 2 1 (hello ∷ hello ∷ hello ∷ [])
        then (drop 1 (stamp_from 1 (hello ∷ hello ∷ hello ∷ [])), false)
        else (drop 1 (stamp_from 1 (hello ∷ hello ∷ hello ∷ [])), true)))
replay_exact_example = replay_exact 2 1 (hello ∷ hello ∷ hello ∷ []) (omega arith) (omega arith)

abbrev six_bytes : FileInfo
six_bytes = record {
  host = pos 1;
  client_file_id = pos 5;
  server_file_id = pos 1;
  name = codes "notes.txt";
  size = 6;
  media_type = none;
}

download-IsStream_example : IsStream six_bytes (
    run six_bytes (start (pos 3)) (
      reads 4 true
      ∷ provides 1 (pos 0) (pos 4) (1 ∷ 2 ∷ 3 ∷ 4 ∷ [])
      ∷ reads 4 true
      ∷ reissues true
      ∷ []))
download-IsStream_example = download-IsStream six_bytes (pos 3) (
    reads 4 true
    ∷ provides 1 (pos 0) (pos 4) (1 ∷ 2 ∷ 3 ∷ 4 ∷ [])
    ∷ reads 4 true
    ∷ reissues true
    ∷ [])

abbrev queued : Peer
queued = record bob {
  outbound_frames =
      record { socket = 8; generation = 1; payload = codes "a" }
      ∷ record { socket = 7; generation = 0; payload = codes "b" }
      ∷ [];
  outbound_bytes = 2;
  outbound_drain_active = true;
}

drain_writes_bound_example : Drains queued [] (drain_loop 3 queued [])
drain_writes_bound_example = drain_writes_bound 3 queued (omega arith)

send_message_async-IsQueue_example :
    IsQueue (Outbound.send_message_async queued (codes "hello") idle).0
unfolding make_peer
send_message_async-IsQueue_example =
    send_message_async-IsQueue queued (codes "hello") idle
      (record { counted = refl; few = omega arith; small = omega arith })

broadcast_reaches_example :
    (lookup (pos 2) (send_message_async encode (some 20) two_peers hello (some (pos 1))).peers
      ≡ deliver_if true (encode (plain hello)) (some bob))
    × IsSent two_peers (send_message_async encode (some 20) two_peers hello (some (pos 1)))
unfolding lookup make_room
broadcast_reaches_example =
    broadcast_reaches encode (some 20) two_peers hello (some (pos 1)) (pos 2) (refl, (refl, tt))

remove_peer_by_id_lem_example :
    (get_peer_by_id (remove_peer_by_id two_peers (pos 1)) (pos 1) ≡ none)
    × (get_file_by_id (remove_peer_by_id two_peers (pos 1)) (pos 1) ≡ none)
    × ((remove_peer_by_id two_peers (pos 1)).log ≡ two_peers.log)
unfolding get_peer_by_id lookup make_room
remove_peer_by_id_lem_example = remove_peer_by_id_lem two_peers (pos 1) ann (pos 1) refl

-- A download that has had two bytes.
abbrev reader : Weak
reader = record { alive = true; target = record (subscriber (pos 1)) { progress = 2 } }

abbrev read_notes : File
read_notes = record notes { subscribers = (pos 1, reader) ∷ []; subscriber_id_counter = pos 2 }

clear_subscribers_ends_example :
    (subscribe (clear_subscribers read_notes) ≡ (clear_subscribers read_notes, none))
    × (provide_file_chunk
          (clear_subscribers read_notes)
          (pos 1)
          1
          (pos 2)
          (pos 2)
          (some (1 ∷ 2 ∷ []))
        ≡ (clear_subscribers read_notes, invalid))
    × ((s : Subscriber) × Memᴰ s (clear_subscribers read_notes).released
        × (s.id ≡ pos 1)
        × (s.progress ≡ 2)
        × IsOver s)
clear_subscribers_ends_example =
    clear_subscribers_ends read_notes (pos 1) (pos 1) reader 1 (pos 2) (pos 2) (some (1 ∷ 2 ∷ []))
      (unfold lookup in refl) refl

add_peer-IsRoster_example :
    IsRoster (add_peer two_peers (make_peer 9 (codes "eve") (pos 3) 0)).0
    × ((add_peer two_peers (make_peer 9 (codes "eve") (pos 3) 0)).1
        ≡ has_capacity 2 limits.peers_per_room)
    × (has_id (pos 3) (add_peer two_peers (make_peer 9 (codes "eve") (pos 3) 0)).0.peer_by_id
        ≡ (has_capacity 2 limits.peers_per_room || has_id (pos 3) two_peers.peer_by_id))
unfolding make_room make_peer
add_peer-IsRoster_example =
    add_peer-IsRoster two_peers (make_peer 9 (codes "eve") (pos 3) 0)
      (record { distinct = (refl, (refl, tt)); few = omega arith })
