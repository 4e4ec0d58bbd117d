-- ===== src/Attention.antt =====
-- include/qwenvl_paged/PagedAttention.h: attention for one query position over a paged cache.
-- Floating-point numbers and the elements of the cache are parameters; the checks, the walks over
-- the page table and the order of the arithmetic are the source's.
pub mod Floats
pub mod Vectors
pub mod Decode
pub mod Blocked
pub mod Fused
pub mod Walk
pub mod Passes
pub mod Arguments
pub mod Rows
pub mod Same
pub mod Fails
pub mod Reference
pub mod Elements
pub mod Heads
pub mod Found
pub mod Refines
