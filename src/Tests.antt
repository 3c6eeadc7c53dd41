-- ===== src/Tests.antt =====
-- The theorems at concrete inputs.
mod Stats
mod Tors
mod Webs
mod Configs
mod Chat
mod Transports
mod Texts
mod Sessions
mod Lobbies
