-- ===== src/Session.antt =====
-- server/src/utils/SessionReliability.hpp and server/src/utils/SessionCredentials.hpp.
pub mod Sequencer
pub mod Dedupe
pub mod Lease
pub mod Generation
pub mod Tokens
