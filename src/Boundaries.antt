-- ===== src/Boundaries.antt =====
-- server/src/utils/ServerBoundaries.hpp: limits, chunk requests, validators and encoders for
-- values that clients control.
pub mod Limits
pub mod Chunk
pub mod Text
pub mod Escape
pub mod Replace
