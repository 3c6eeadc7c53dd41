-- ===== src/Rooms/Dto.antt =====
-- server/src/dto/DTOs.hpp: a field that a client left out is `none`. The lists of peers and of past
-- messages, which only the server fills in, stand beside the message in an `Envelope`.
use conspire.Prelude.{ℕ, Bool, List, Option, none}
use conspire.Prelude.Int.{ℤ}
use conspire.Prelude.Bytes.{Bytes}

-- `MessageCodes`
pub data Code : Type 0 where
  info : Code
  peer_joined peer_left peer_message peer_message_file peer_is_typing : Code
  file_share file_request_chunk file_chunk_data : Code
  api_error : Code
  session_hello session_ready message_ack peer_connection_state : Code

pub record PeerDto : Type 0 where
  pub peer_id : ℤ
  pub peer_name : Bytes

pub record FileDto : Type 0 where
  pub client_file_id : Option ℤ
  pub server_file_id : Option ℤ
  pub name : Option Bytes
  pub size : Option ℤ
  pub media_type : Option Bytes
  pub chunk_position : Option ℤ
  pub chunk_size : Option ℤ
  pub subscriber_id : Option ℤ
  pub chunk_request_id : Option ℕ
  pub available : Option Bool
  -- base64
  pub content : Option Bytes

abbrev pub blank_file : FileDto
blank_file = record {
  client_file_id = none;
  server_file_id = none;
  name = none;
  size = none;
  media_type = none;
  chunk_position = none;
  chunk_size = none;
  subscriber_id = none;
  chunk_request_id = none;
  available = none;
  content = none;
}

-- An entry of the list of files may be null.
pub record MessageDto : Type 0 where
  pub peer_id : Option ℤ
  pub peer_name : Option Bytes
  pub code : Option Code
  pub message : Option Bytes
  pub timestamp : Option ℕ
  pub server_seq : Option ℕ
  pub last_server_seq : Option ℕ
  pub latest_server_seq : Option ℕ
  pub protocol_version : Option ℤ
  pub resume_token : Option Bytes
  pub file_capability_id : Option Bytes
  pub client_message_id : Option Bytes
  pub resumed : Option Bool
  pub resync_required : Option Bool
  pub connected : Option Bool
  pub files : Option (List (Option FileDto))

abbrev pub blank : MessageDto
blank = record {
  peer_id = none;
  peer_name = none;
  code = none;
  message = none;
  timestamp = none;
  server_seq = none;
  last_server_seq = none;
  latest_server_seq = none;
  protocol_version = none;
  resume_token = none;
  file_capability_id = none;
  client_message_id = none;
  resumed = none;
  resync_required = none;
  connected = none;
  files = none;
}

pub record Envelope : Type 0 where
  pub body : MessageDto
  pub peers : Option (List PeerDto)
  pub history : Option (List MessageDto)

abbrev pub plain : MessageDto → Envelope
plain m = record { body = m; peers = none; history = none }
