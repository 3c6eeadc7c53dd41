-- ===== src/Rooms/Command/Once.antt =====
-- A command that is sent again (`handleMessage` and `handleFilesMessage`,
-- server/src/rooms/Peer.cpp).
use conspire.Prelude.{
  ℕ, ◌+◌, ◌<◌, ◌≡◌, refl, ap, ◌∙◌, true, false, Option, none, some, arith, u64_max, increment,
}
use mathlib.Core.Option
use conspire.Prelude.Int.{ℤ, int_eq, ==ℤ_iff}
use conspire.Prelude.Maps.{lookup, lookup-insert}
use conspire.Prelude.Bytes.{Bytes}
use conspire.Session.Dedupe.{find, full, remember, valid_client_message_id, preflight_suffices}
use conspire.Rooms.Dto.{MessageDto, Envelope, plain}
use conspire.Rooms.Log.{retain}
use conspire.Rooms.Peer.{Peer}
use conspire.Rooms.Room.{Room, Outcome, returns, update_peer, send_message_async}
use conspire.Rooms.Room.Broadcast.{
  window-send_one, window-send_each, IsSent, send_one-IsSent, send_each-IsSent,
}
use conspire.Rooms.Command.{
  Action, quiet, count_message, has_content, checked_id, send_message_ack, publish_command,
  publish_message, handle_peer_message,
}
use conspire.Rooms.Command.Record.{
  known_in, known, known_in-eq-some, recorded_room, publish_command_lem,
}

module _ (encode : Envelope → Bytes) (maximum : Option ℕ)
    (decode : Bytes → Option (Option MessageDto)) (decode64 : Bytes → Option Bytes)
    (max_message : ℕ) where
  abbrev pub handle : Room → ℤ → MessageDto → Outcome (Room × Action)
  handle = handle_peer_message encode maximum decode decode64 max_message

  abbrev pub ack : ℤ → Bytes → ℕ → Room → Room
  ack = send_message_ack encode maximum decode decode64 max_message

  ack-IsSent : (me : ℤ) (id : Bytes) (n : ℕ) (r : Room) → IsSent r (ack me id n r)
  unfolding send_message_ack
  ack-IsSent me id n r = send_one-IsSent me _ r

  known-ack : (me : ℤ) (id j : Bytes) (n : ℕ) (r : Room) → known me j (ack me id n r) ≡ known me j r
  unfolding send_message_ack
  known-ack me id j n r = ap (known_in j) (window-send_one me me _ r)

  known-send :
      (me : ℤ) (j : Bytes) (m : MessageDto) (r : Room)
      → known me j (send_message_async encode maximum r m none) ≡ known me j r
  unfolding send_message_async
  known-send me j m r = ap (known_in j) (window-send_each r.peer_by_id none _ r me)

  -- What the room is after a new message.
  pub record IsPublished (r : Room) (me : ℤ) (id : Bytes) (m : MessageDto) (r' : Room)
      : Type 0 where
    pub handled : handle r me m ≡ returns (r', quiet)
    pub logged :
        r'.log
        ≡ retain maximum r.log
            (record { latest = r.log.sequencer.latest + 1 })
            (record m { server_seq = some (r.log.sequencer.latest + 1) })
    pub recorded : known me id r' ≡ some (r.log.sequencer.latest + 1)
    pub counted :
        r'.host.statistics.peer_send_message ≡ increment r.host.statistics.peer_send_message

  -- A command that is on record is acknowledged with the number that it has; the history, the
  -- record and the counter of messages stay what they are.
  pub record IsAnswered (r : Room) (me : ℤ) (id : Bytes) (m : MessageDto) (prior : ℕ) : Type 0 where
    pub handled : handle r me m ≡ returns (ack me id prior r, quiet)
    pub kept : IsSent r (ack me id prior r)
    pub recorded : known me id (ack me id prior r) ≡ some prior

  publish_known :
      (r : Room) (me : ℤ) (id : Bytes) (m : MessageDto) (prior : ℕ) (p : Peer)
      → lookup me r.peers ≡ some p
      → find p.dedupe id ≡ some prior
      → publish_message encode maximum decode decode64 max_message r me id m
        ≡ returns (ack me id prior r, quiet)
  unfolding publish_message
  publish_known r me id m prior p e f = rw (e, f, publish_message)

  -- A command whose number is known is answered.
  answered :
      (r : Room) (me : ℤ) (id : Bytes) (m : MessageDto) (prior : ℕ)
      → has_content m.message ≡ true
      → checked_id m.client_message_id ≡ some id
      → known me id r ≡ some prior
      → IsAnswered r me id m prior
  unfolding handle_peer_message
  answered r me id m prior content valid k =
      let (p, e, f) = known_in-eq-some id prior (lookup me r.peers) k in
      record {
        handled = rw (content, valid, handle_peer_message) (publish_known r me id m prior p e f);
        kept = ack-IsSent me id prior r;
        recorded = known-ack me id id prior r ∙ k;
      }

  publish_new :
      (r r' : Room) (me : ℤ) (id : Bytes) (m : MessageDto) (p : Peer)
      → lookup me r.peers ≡ some p
      → find p.dedupe id ≡ none
      → full p.dedupe ≡ false
      → publish_command encode maximum decode decode64 max_message r me id m ≡ returns r'
      → publish_message encode maximum decode decode64 max_message r me id m
        ≡ returns (count_message r', quiet)
  unfolding publish_message
  publish_new r r' me id m p e f room done = rw (e, f, room, done, publish_message)

  -- What holds of the room once the message is out.
  abbrev sent_room : Room → ℤ → Peer → Bytes → MessageDto → Room
  sent_room r me p id m =
      send_message_async encode maximum (recorded_room maximum r me p id m)
        (record m { server_seq = some (r.log.sequencer.latest + 1) }) none

  known-recorded :
      (r : Room) (me : ℤ) (id : Bytes) (m : MessageDto) (p : Peer) (n : ℕ)
      → find (remember p.dedupe id (r.log.sequencer.latest + 1)).0 id ≡ some n
      → known me id (recorded_room maximum r me p id m) ≡ some n
  unfolding update_peer
  known-recorded r me id m p n h =
      ap (λ o. known_in id (Option.map Peer.dedupe o)) (lookup-insert me me _ r.peers)
      ∙ rw ((==ℤ_iff me me).1 refl) h

  -- A valid new message, while the record has room and the sequence numbers last, is published.
  published :
      (r : Room) (me : ℤ) (id : Bytes) (m : MessageDto) (p : Peer)
      → has_content m.message ≡ true
      → checked_id m.client_message_id ≡ some id
      → valid_client_message_id id ≡ true
      → lookup me r.peers ≡ some p
      → find p.dedupe id ≡ none
      → full p.dedupe ≡ false
      → r.log.sequencer.latest < u64_max
      → IsPublished r me id m
          (count_message (ack me id (r.log.sequencer.latest + 1) (sent_room r me p id m)))
  unfolding handle_peer_message update_peer send_message_async
  published r me id m p content checked valid e f room h =
      let n = r.log.sequencer.latest + 1 in
      let (recorded, found) = preflight_suffices p.dedupe id n valid f room (omega arith) in
      let kept = ack-IsSent me id n (sent_room r me p id m) in
      let sent =
        send_each-IsSent r.peer_by_id none (encode (plain (record m { server_seq = some n })))
          (recorded_room maximum r me p id m) in
      record {
        handled =
            rw (content, checked, handle_peer_message)
              (publish_new r _ me id m p e f room (
                publish_command_lem encode maximum decode decode64 max_message r me p id m e
                  recorded h));
        logged = kept.log ∙ sent.log;
        recorded =
            known-ack me id id n (sent_room r me p id m)
            ∙ known-send me id (record m { server_seq = some n })
                (recorded_room maximum r me p id m)
            ∙ known-recorded r me id m p n found;
        counted = ap increment (kept.counted ∙ sent.counted);
      }

  checked_id_lem :
      (o : Option Bytes) (id : Bytes)
      → o ≡ some id
      → valid_client_message_id id ≡ true
      → checked_id o ≡ some id
  unfolding checked_id
  checked_id_lem o id e valid = rw (e, valid, checked_id)

  -- A valid message whose identifier the peer has not recorded, while its record has room and the
  -- sequence numbers last, is published: it enters the history with the next number, which is
  -- recorded for its identifier, and it is counted. No exception is thrown. Sent again right
  -- after, with whatever valid content, the identifier is acknowledged with the same number and
  -- nothing is published or counted.
  pub message-IsPublished_once :
      (r : Room) (me : ℤ) (id : Bytes) (m again : MessageDto) (p : Peer)
      → has_content m.message ≡ true
      → m.client_message_id ≡ some id
      → has_content again.message ≡ true
      → again.client_message_id ≡ some id
      → valid_client_message_id id ≡ true
      → lookup me r.peers ≡ some p
      → find p.dedupe id ≡ none
      → full p.dedupe ≡ false
      → r.log.sequencer.latest < u64_max
      → (r' : Room) × IsPublished r me id m r'
        × IsAnswered r' me id again (r.log.sequencer.latest + 1)
  message-IsPublished_once r me id m again p content named content' named' valid e f room h =
      let done = published r me id m p content (checked_id_lem _ id named valid) valid e f room h in
      (_, done, answered _ me id again _ content' (checked_id_lem _ id named' valid) done.recorded)
