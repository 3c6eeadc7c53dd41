-- ===== src/Rooms/Command.antt =====
-- The commands of a client: `readMessage`, `handleMessage`, `handleFilesMessage`,
-- `handleFileChunkMessage`, `sendMessageAck` and `onApiError` (server/src/rooms/Peer.cpp). A command
-- acts on the room of its peer, in which `me` is the peer's number.
pub mod Dispatch
pub mod Record
pub mod Once
use conspire.Prelude.{
  ℕ, ◌-◌, Bool, true, false, not, ◌&&◌, ◌||◌, List, [], ◌∷◌, ◌++◌, Option, none, some, map, ltb,
  leb, ◌==◌, length, if◌then◌else◌, increment,
}
use conspire.Prelude.Int.{ℤ, pos, int_eq, ◌==ℤ◌}
use conspire.Prelude.Maps.{lookup, insert}
use conspire.Prelude.Bytes.{Bytes, codes}
use conspire.Boundaries.Limits.{limits}
use conspire.Boundaries.Text.{valid_message_content, valid_file_descriptor, valid_chunk}
use conspire.Boundaries.Chunk.{Result, invalid}
use conspire.Session.Dedupe.{valid_client_message_id, find, full, remember}
use conspire.Session.Generation.{same_transport}
use conspire.Rooms.Dto.{Code, MessageDto, FileDto, Envelope, blank, blank_file, plain}
use conspire.Rooms.Peer.{Peer, record_protocol_error, note_inbound}
use conspire.Rooms.File.{File, provide_file_chunk}
use conspire.Rooms.Room.{
  Room, Outcome, returns, throws, not_recordable, update_peer, send_one, sequence_of,
  publish_durable,
}
use conspire.Rooms.Room.Files.{Descriptor, share_files, get_file_by_id}

-- What a handler leaves to the framework: nothing, or the coroutine that writes an error and a
-- close frame to the socket and ends the connection.
pub data Action : Type 0 where
  quiet : Action
  error_then_close : Option ℕ → Bytes → Action

-- if (!m_dedupe.remember(id, sequence)) throw
unfoldable pub remember_command : ℤ → Bytes → ℕ → Room → Outcome Room
remember_command me id sequence r = elim (lookup me r.peers) [
  | none ↦ returns r
  | some p ↦
      let (window, recorded) = remember p.dedupe id sequence in
      let r' = update_peer me (record p { dedupe = window }, r.host) r in
      if recorded then returns r' else throws not_recordable r'
]

abbrev pub count_message : Room → Room
count_message r =
    let s = r.host.statistics in
    record r {
      host = record r.host {
        statistics = record s { peer_send_message = increment s.peer_send_message };
      };
    }

unfoldable pub has_content : Option Bytes → Bool
has_content none = false
has_content (some text) = valid_message_content text

-- The identifier, if there is one and it is valid.
unfoldable pub checked_id : Option Bytes → Option Bytes
checked_id none = none
checked_id (some id) = if valid_client_message_id id then some id else none

unfoldable pub descriptor : Option ℤ → Option Bytes → Option ℤ → Option Bytes → Option Descriptor
descriptor (some client_file_id) (some name) (some (pos n)) media_type =
    if valid_file_descriptor name (pos n) limits.file_bytes
    then some
        (record { client_file_id = client_file_id; name = name; size = n; media_type = media_type })
    else none
descriptor client_file_id name size media_type = none

-- A file as the handler checks it.
unfoldable pub checked_file : Option FileDto → Option Descriptor
checked_file none = none
checked_file (some f) = descriptor f.client_file_id f.name f.size f.media_type

-- All the files, or none if one of them fails.
unfoldable pub checked_files : List (Option FileDto) → Option (List Descriptor)
checked_files [] = some []
checked_files (f ∷ fs) = elim (checked_file f) [
  | none ↦ none
  | some d ↦ elim (checked_files fs) [ none ↦ none | some ds ↦ some (d ∷ ds) ]
]

abbrev pub shared_file : File → Option FileDto
shared_file f = some (record blank_file {
  server_file_id = some f.info.server_file_id;
  name = some f.info.name;
  size = some (pos f.info.size);
  media_type = f.info.media_type;
})

-- `encode` is the object mapper's `writeToString`, `decode` its `readFromString` (`none` is an
-- exception, `some none` a null), `decode64` the decoder of base64; `maximum` is the configured
-- length of the history and `max_message` the configured size of a message.
module _ (encode : Envelope → Bytes) (maximum : Option ℕ)
    (decode : Bytes → Option (Option MessageDto)) (decode64 : Bytes → Option Bytes)
    (max_message : ℕ) where
  unfoldable pub on_api_error : Room → ℤ → Bytes → Option Bytes → Outcome (Room × Action)
  on_api_error r me text client_message_id = elim (lookup me r.peers) [
    | none ↦ returns (r, quiet)
    | some p ↦ returns (
      update_peer me (record_protocol_error p r.host) r,
      error_then_close p.socket (
          encode (
            plain (record blank {
              code = some Code.api_error;
              message = some text;
              client_message_id = client_message_id;
            }))),
    )
  ]

  unfoldable pub send_message_ack : ℤ → Bytes → ℕ → Room → Room
  send_message_ack me client_message_id server_seq r =
      send_one me
        (encode (
          plain (record blank {
            code = some Code.message_ack;
            client_message_id = some client_message_id;
            server_seq = some server_seq;
          })))
        r

  -- The publication of a command that is recorded, and its acknowledgement.
  unfoldable pub publish_command : Room → ℤ → Bytes → MessageDto → Outcome Room
  publish_command r me id m =
      elim (publish_durable encode maximum r m none (remember_command me id)) [
        | returns done ↦
            let (r', stamped) = done in returns (send_message_ack me id (sequence_of stamped) r')
        | throws thrown r' ↦ throws thrown r'
      ]

  -- CODE_PEER_MESSAGE, from the command lock on
  unfoldable pub publish_message : Room → ℤ → Bytes → MessageDto → Outcome (Room × Action)
  publish_message r me id m = elim (lookup me r.peers) [
    | none ↦ returns (r, quiet)
    | some p ↦ elim (find p.dedupe id) [
      | some prior ↦ returns (send_message_ack me id prior r, quiet)
      | none ↦
          if full p.dedupe
          then on_api_error r me (codes "Retryable command capacity reached.") (some id)
          else elim (publish_command r me id m) [
            | returns r' ↦ returns (count_message r', quiet)
            | throws thrown r' ↦ throws thrown r'
          ]
    ]
  ]

  unfoldable pub handle_peer_message : Room → ℤ → MessageDto → Outcome (Room × Action)
  handle_peer_message r me m =
      if not (has_content m.message)
      then on_api_error r me (codes "Invalid message content.") m.client_message_id
      else elim (checked_id m.client_message_id) [
        | none ↦ on_api_error r me (codes "Invalid client message id.") none
        | some id ↦ publish_message r me id m
      ]

  -- What is published of the files that were shared.
  abbrev pub file_message : Peer → ℕ → List File → MessageDto
  file_message p timestamp files = record blank {
    code = some Code.peer_message_file;
    peer_id = some p.peer_id;
    peer_name = some p.nickname;
    timestamp = some timestamp;
    files = some (map shared_file files);
  }

  unfoldable pub publish_files :
      Room → Peer → Bytes → ℕ → Outcome (Room × List File) → Outcome (Room × Action)
  publish_files r p id timestamp (throws thrown r') = throws thrown r'
  publish_files r p id timestamp (returns (r', [])) =
      on_api_error r' p.peer_id (codes "File limit reached.") (some id)
  publish_files r p id timestamp (returns (r', f ∷ fs)) =
      elim (publish_command r' p.peer_id id (file_message p timestamp (f ∷ fs))) [
        | returns done ↦ returns (done, quiet)
        | throws thrown s ↦ throws thrown s
      ]

  -- CODE_FILE_SHARE, from the command lock on
  unfoldable pub share_command : Room → ℤ → Bytes → ℕ → List Descriptor → Outcome (Room × Action)
  share_command r me id timestamp descriptors = elim (lookup me r.peers) [
    | none ↦ returns (r, quiet)
    | some p ↦ elim (find p.dedupe id) [
      | some prior ↦ returns (send_message_ack me id prior r, quiet)
      | none ↦
          if full p.dedupe
          then on_api_error r me (codes "Retryable command capacity reached.") (some id)
          else publish_files r p id timestamp (share_files r me descriptors)
    ]
  ]

  unfoldable pub handle_files_message : Room → ℤ → ℕ → MessageDto → Outcome (Room × Action)
  handle_files_message r me timestamp m = elim (checked_id m.client_message_id) [
    | none ↦ on_api_error r me (codes "Invalid client message id.") none
    | some id ↦ elim m.files [
      | none ↦ on_api_error r me (codes "Invalid files list.") m.client_message_id
      | some files ↦
          if length files == 0 || ltb limits.files_per_message (length files)
          then on_api_error r me (codes "Invalid files list.") m.client_message_id
          else elim (checked_files files) [
            | none ↦ on_api_error r me (codes "Invalid file descriptor.") m.client_message_id
            | some descriptors ↦ share_command r me id timestamp descriptors
          ]
    ]
  ]
