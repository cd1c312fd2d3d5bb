-- ===== src/Storage.antt =====
-- The persistent stores (src/storage): the escaping and the atomic replacement that they share, and
-- one index file for each list.
pub mod Escape
pub mod Persistence
pub mod Columns
pub mod Index
pub mod Tasks
pub mod Todos
pub mod Memory
pub mod Examples
