-- ===== src/Utils.antt =====
-- helpers/misc-utils.ts: the pure helpers.
pub mod Chunk
pub mod Objects
pub mod Address
pub mod Entries
