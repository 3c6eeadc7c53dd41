-- ===== src/Rooms/Command/Dispatch.antt =====
-- `handleFileChunkMessage`, `handleMessage` and `readMessage` (server/src/rooms/Peer.cpp).
use conspire.Prelude.{
  ℕ, ◌-◌, Bool, true, false, not, ◌&&◌, ◌||◌, List, [], ◌∷◌, ◌++◌, Option, none, some, ltb, ◌==◌,
  length, if◌then◌else◌,
}
use conspire.Prelude.Int.{ℤ, pos, int_eq, ◌==ℤ◌}
use conspire.Prelude.Maps.{lookup, insert}
use conspire.Prelude.Bytes.{Bytes, codes}
use conspire.Boundaries.Text.{valid_chunk}
use conspire.Boundaries.Chunk.{Result, accepted, duplicate, invalid}
use conspire.Session.Generation.{same_transport}
use conspire.Rooms.Dto.{Code, MessageDto, FileDto, Envelope}
use conspire.Rooms.Peer.{Peer, note_inbound}
use conspire.Rooms.File.{File, provide_file_chunk}
use conspire.Rooms.Room.{Room, Outcome, returns, update_peer, send_message_async}
use conspire.Rooms.Room.Files.{get_file_by_id}
use conspire.Rooms.Command.{Action, quiet, on_api_error, handle_peer_message, handle_files_message}

-- The fields of a chunk that a valid response has.
pub record ChunkData : Type 0 where
  pub position : ℤ
  pub size : ℤ
  pub request_id : ℕ
  pub content : Bytes

unfoldable pub chunk_fields : Option Bytes → Option ℤ → Option ℤ → Option ℕ → Option ChunkData
chunk_fields (some content) (some position) (some size) (some request_id) =
    some (record { position = position; size = size; request_id = request_id; content = content })
chunk_fields content position size request_id = none

-- Both tests of a chunk: its fields are there, and it lies within the file.
unfoldable pub checked_chunk : File → Option Bytes → FileDto → Option ChunkData
checked_chunk f content d =
    elim (chunk_fields content d.chunk_position d.chunk_size d.chunk_request_id) [
      | none ↦ none
      | some c ↦
          if valid_chunk c.position c.size (length c.content) (pos f.info.size)
          then some c
          else none
    ]

unfoldable pub is_invalid : Result → Bool
is_invalid invalid = true
is_invalid accepted = false
is_invalid duplicate = false

abbrev pub replace_file : ℤ → File → Room → Room
replace_file id f r = record r { files = insert id f r.files }

-- `decode`, `decode64` and the rest are those of the commands. `present` says of a peer that it is
-- still there, where a file asks for its host.
module _ (encode : Envelope → Bytes) (maximum : Option ℕ)
    (decode : Bytes → Option (Option MessageDto)) (decode64 : Bytes → Option Bytes)
    (max_message : ℕ) (present : ℤ → Bool) where
  abbrev pub refuse : Room → ℤ → Bytes → Option Bytes → Outcome (Room × Action)
  refuse = on_api_error encode maximum decode decode64 max_message

  unfoldable pub deliver_chunk : Room → ℤ → ℤ → ℤ → File → ChunkData → Outcome (Room × Action)
  deliver_chunk r me file_id subscriber_id f c =
      let (f', result) =
        provide_file_chunk f subscriber_id c.request_id c.position c.size (some c.content) in
      if is_invalid result
      then refuse (replace_file file_id f' r) me (codes "Unexpected file chunk.") none
      else returns (replace_file file_id f' r, quiet)

  unfoldable pub handle_chunk : Room → ℤ → ℤ → ℤ → Bytes → FileDto → Outcome (Room × Action)
  handle_chunk r me file_id subscriber_id content d = elim (get_file_by_id r file_id) [
    | none ↦ returns (r, quiet)
    | some f ↦
        if not (present f.info.host) || not (f.info.host ==ℤ me)
        then refuse r me (codes "Wrong file host.") none
        else elim (checked_chunk f (decode64 content) d) [
          | none ↦ refuse r me (codes "Invalid file chunk.") none
          | some c ↦ deliver_chunk r me file_id subscriber_id f c
        ]
  ]

  unfoldable pub handle_chunk_file : Room → ℤ → Option FileDto → Outcome (Room × Action)
  handle_chunk_file r me none = refuse r me (codes "File structure is not provided.") none
  handle_chunk_file r me (some d) = elim d.server_file_id [
    | none ↦ refuse r me (codes "File clientId is not provided.") none
    | some file_id ↦ elim d.subscriber_id [
      | none ↦ refuse r me (codes "File subscriberId is not provided.") none
      | some subscriber_id ↦ elim d.content [
        | none ↦ refuse r me (codes "File chunk data is not provided.") none
        | some content ↦ handle_chunk r me file_id subscriber_id content d
      ]
    ]
  ]

  unfoldable pub handle_chunk_list : Room → ℤ → List (Option FileDto) → Outcome (Room × Action)
  handle_chunk_list r me (f ∷ []) = handle_chunk_file r me f
  handle_chunk_list r me files = refuse r me (codes "Invalid files count. Expected - 1.") none

  unfoldable pub handle_file_chunk_message : Room → ℤ → MessageDto → Outcome (Room × Action)
  handle_file_chunk_message r me m = elim m.files [
    | none ↦ refuse r me (codes "No file provided.") none
    | some files ↦ handle_chunk_list r me files
  ]

  -- The switch on the code; `timestamp` is the clock's.
  unfoldable pub dispatch : Room → ℤ → ℕ → MessageDto → Code → Outcome (Room × Action)
  dispatch r me timestamp m Code.peer_message =
      handle_peer_message encode maximum decode decode64 max_message r me m
  dispatch r me timestamp m Code.peer_is_typing =
      returns (send_message_async encode maximum r m none, quiet)
  dispatch r me timestamp m Code.file_share =
      handle_files_message encode maximum decode decode64 max_message r me timestamp m
  dispatch r me timestamp m Code.file_chunk_data = handle_file_chunk_message r me m
  dispatch r me timestamp m code = refuse r me (codes "Invalid client message code.") none

  unfoldable pub handle_message : Room → ℤ → ℕ → Option MessageDto → Outcome (Room × Action)
  handle_message r me timestamp none = refuse r me (codes "No message provided.") none
  handle_message r me timestamp (some m) = elim m.code [
    | none ↦ refuse r me (codes "No message code provided.") none
    | some code ↦ dispatch r me timestamp m code
  ]

  -- What the server writes over the client's own claims.
  abbrev pub attributed : Peer → ℕ → MessageDto → MessageDto
  attributed p timestamp m = record m {
    peer_name = some p.nickname;
    peer_id = some p.peer_id;
    timestamp = some timestamp;
  }

  -- The end of a message: the buffer is taken and parsed.
  unfoldable pub finish_message : Room → ℤ → Peer → ℕ → Outcome (Room × Action)
  finish_message r me p timestamp =
      let r' = update_peer me (record p { message_buffer = [] }, r.host) r in
      elim (decode p.message_buffer) [
        | none ↦ refuse r' me (codes "Can't parse message") none
        | some parsed ↦ elim parsed [
          | none ↦ refuse r' me (codes "No message provided.") none
          | some m ↦ handle_message r' me timestamp (some (attributed p timestamp m))
        ]
      ]

  -- What the peer does with a frame of its current socket.
  unfoldable pub accept_frame : Room → ℤ → Peer → Bytes → ℕ → Outcome (Room × Action)
  accept_frame r me p content timestamp =
      if ltb 0 (length content)
        && (ltb max_message (length p.message_buffer)
            || ltb (max_message - length p.message_buffer) (length content))
      then refuse r me (codes "Message size exceeds max allowed size.") none
      else if length content == 0
      then finish_message r me p timestamp
      else returns (
        update_peer me (record p { message_buffer = p.message_buffer ++ content }, r.host) r,
        quiet,
      )

  -- A frame of the socket `socket`; an empty frame ends the message. `now` is the heartbeat's
  -- clock, `timestamp` the one that the message is stamped with.
  unfoldable pub read_message : Room → ℤ → Option ℕ → Bytes → ℕ → ℕ → Outcome (Room × Action)
  read_message r me socket content now timestamp = elim (lookup me r.peers) [
    | none ↦ returns (r, quiet)
    | some p ↦
        if not (same_transport socket p.socket)
        then returns (r, quiet)
        else accept_frame (update_peer me (note_inbound p now, r.host) r) me (note_inbound p now)
            content timestamp
  ]
