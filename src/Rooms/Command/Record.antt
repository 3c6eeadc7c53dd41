-- ===== src/Rooms/Command/Record.antt =====
-- The recording of a command when it is published (`handleMessage` and `handleFilesMessage`,
-- server/src/rooms/Peer.cpp).
use conspire.Prelude.{ℕ, ◌+◌, ◌<◌, ◌≡◌, refl, ap, true, Option, none, some, arith, u64_max}
use mathlib.Core.Option
use conspire.Prelude.Int.{ℤ, int_eq}
use conspire.Prelude.Maps.{lookup}
use conspire.Prelude.Bytes.{Bytes}
use conspire.Session.Sequencer.{RoomSequencer, next_lem}
use conspire.Session.Dedupe.{DedupeWindow, find, remember}
use conspire.Rooms.Dto.{MessageDto, Envelope}
use conspire.Rooms.Log.{Log, add_history_message, retain}
use conspire.Rooms.Peer.{Peer}
use conspire.Rooms.Room.{Room, returns, update_peer, publish_durable, send_message_async}
use conspire.Rooms.Room.Broadcast.{window}
use conspire.Rooms.Command.{remember_command, send_message_ack, publish_command}

-- The sequence number that the peer `me` has recorded for a command.
abbrev pub known_in : Bytes → Option DedupeWindow → Option ℕ
known_in id none = none
known_in id (some d) = find d id

abbrev pub known : ℤ → Bytes → Room → Option ℕ
known me id r = known_in id (window me r)

pub known_in-eq-some :
    (id : Bytes) (prior : ℕ) (o : Option Peer)
    → known_in id (Option.map Peer.dedupe o) ≡ some prior
    → (p : Peer) × (o ≡ some p) × (find p.dedupe id ≡ some prior)
known_in-eq-some id prior none k = absurd (ground arith)
known_in-eq-some id prior (some p) k = (p, refl, k)

pub add_history_message_lem :
    (maximum : Option ℕ) (l : Log) (m : MessageDto)
    → l.sequencer.latest < u64_max
    → add_history_message maximum l m
      ≡ some (
        retain maximum l
            (record { latest = l.sequencer.latest + 1 })
            (record m { server_seq = some (l.sequencer.latest + 1) }),
        record m { server_seq = some (l.sequencer.latest + 1) },
      )
unfolding add_history_message
add_history_message_lem maximum l m h =
    let stamped : MessageDto = record m { server_seq = some (l.sequencer.latest + 1) } in
    rw (next_lem l.sequencer h, add_history_message)
      (ap (λ (n : RoomSequencer × Option ℕ). some (retain maximum l n.0 stamped, stamped))
        (next_lem l.sequencer h))

-- The window once the command is recorded.
pub remember_command_lem :
    (me : ℤ) (id : Bytes) (sequence : ℕ) (r : Room) (p : Peer)
    → lookup me r.peers ≡ some p
    → (remember p.dedupe id sequence).1 ≡ true
    → remember_command me id sequence r
      ≡ returns (update_peer me (record p { dedupe = (remember p.dedupe id sequence).0 }, r.host) r)
unfolding remember_command
remember_command_lem me id sequence r p e recorded = rw (e, recorded, remember_command)

-- The room when a new command has been recorded, before the message goes out.
abbrev pub recorded_room : Option ℕ → Room → ℤ → Peer → Bytes → MessageDto → Room
recorded_room maximum r me p id m =
    let sequence = r.log.sequencer.latest + 1 in
    update_peer me (record p { dedupe = (remember p.dedupe id sequence).0 }, r.host)
      (record r {
        log =
            retain maximum r.log (record { latest = sequence })
              (record m { server_seq = some sequence });
      })

module _ (encode : Envelope → Bytes) (maximum : Option ℕ)
    (decode : Bytes → Option (Option MessageDto)) (decode64 : Bytes → Option Bytes)
    (max_message : ℕ) where
  pub publish_command_lem :
      (r : Room) (me : ℤ) (p : Peer) (id : Bytes) (m : MessageDto)
      → lookup me r.peers ≡ some p
      → (remember p.dedupe id (r.log.sequencer.latest + 1)).1 ≡ true
      → r.log.sequencer.latest < u64_max
      → publish_command encode maximum decode decode64 max_message r me id m
        ≡ returns (
            send_message_ack encode maximum decode decode64 max_message me id
              (r.log.sequencer.latest + 1)
              (send_message_async encode maximum
                (recorded_room maximum r me p id m)
                (record m { server_seq = some (r.log.sequencer.latest + 1) })
                none))
  unfolding publish_command publish_durable
  publish_command_lem r me p id m e recorded h = rw (
    add_history_message_lem maximum r.log m h,
    remember_command_lem me id (r.log.sequencer.latest + 1)
        (record r {
          log =
              retain maximum r.log (record { latest = r.log.sequencer.latest + 1 })
                (record m { server_seq = some (r.log.sequencer.latest + 1) });
        })
        p e recorded,
    publish_command,
    publish_durable,
  )
