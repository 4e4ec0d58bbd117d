-- ===== src/Manager/Accounts.antt =====
-- The manager's accounts: every reference that the allocator counts is held by a resident entry of a
-- sequence's table or by a record of the prefix index. The children follow the loops of
-- src/KVCacheManager.cpp from one table up to the whole manager.
pub mod Tables
pub mod Frames
pub mod Reserve
pub mod Write
pub mod Evict
pub mod Restore
pub mod Attach
pub mod Ledger
pub mod Prefixes
pub mod Publish
pub mod Adopt
pub mod Sequences
pub mod Changes
pub mod Calls
