-- ===== src/Tor.antt =====
-- The onion service of server/src/utils/TorControl.cpp, part by part.
pub mod Text
pub mod Wire
pub mod Service
