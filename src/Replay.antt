-- ===== src/Replay.antt =====
-- tools/trace_replay: a recorded trace of requests, replayed on the paged cache and on a baseline
-- that reserves contiguous runs of blocks.
pub mod Trace
pub mod Contiguous
pub mod Growth
pub mod Progress
pub mod Prefill
pub mod Decoding
pub mod Paged
pub mod Runs
pub mod Reserved
pub mod Rounds
pub mod Work
pub mod Admits
pub mod Idle
pub mod Completes
pub mod Stalls
pub mod Json
pub mod Records
pub mod Loading
pub mod Reads
