-- ===== src/Manager.antt =====
-- include/qwenvl_paged/KVCacheManager.h and src/KVCacheManager.cpp: the cache manager, one module
-- for each group of its methods.
pub mod State
pub mod Prefix
pub mod Sequence
pub mod Swapping
pub mod Request
pub mod View
pub mod Accounts
pub mod Exclusive
pub mod Atomic
pub mod Publishing
