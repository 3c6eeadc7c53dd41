-- ===== src/Statistics.antt =====
-- The counters of server/src/utils/Statistics.hpp.
pub mod Samples
pub mod State
use conspire.Prelude.{ℕ}

-- Each counter is a `std::atomic<v_uint64>`.
pub record Statistics : Type 0 where
  pub front_page_loaded : ℕ
  pub peer_connected : ℕ
  pub peer_disconnected : ℕ
  pub peer_zombie_dropped : ℕ
  pub peer_transport_closed : ℕ
  pub peer_resumed : ℕ
  pub session_expired : ℕ
  pub peer_send_message : ℕ
  pub peer_share_file : ℕ
  pub room_created : ℕ
  pub room_deleted : ℕ
  pub file_served_bytes : ℕ

abbrev pub zeroes : Statistics
zeroes = record {
  front_page_loaded = 0;
  peer_connected = 0;
  peer_disconnected = 0;
  peer_zombie_dropped = 0;
  peer_transport_closed = 0;
  peer_resumed = 0;
  session_expired = 0;
  peer_send_message = 0;
  peer_share_file = 0;
  room_created = 0;
  room_deleted = 0;
  file_served_bytes = 0;
}
