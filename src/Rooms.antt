-- ===== src/Rooms.antt =====
-- server/src/rooms: the messages, the peers, the shared files and the rooms.
pub mod Dto
pub mod Log
pub mod Host
pub mod Peer
pub mod Subscriber
pub mod File
pub mod Room
pub mod Command
