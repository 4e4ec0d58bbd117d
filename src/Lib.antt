-- ===== src/Lib.antt =====
-- The paged key-value cache of QwenVL-Paged and its batch scheduler, and what makes them correct.
--
-- A request's keys and values live in fixed-size blocks. The block layout says where an element
-- lies in a block; a page table maps the logical blocks of one sequence to physical frames; the
-- allocator owns the frames, counts the references to each and evicts frames to a swap backend; the
-- cache manager creates, forks, grows, writes, swaps and releases sequences, and shares the frames
-- of published prefixes; the scheduler admits requests against the pool, preempts them under
-- pressure and plans the tokens of a step. The scheduler changes the pool only through the manager,
-- the manager only through the allocator. The attention kernels read the cache through a view of one
-- sequence. The trace replay drives the scheduler over recorded requests, and compares it with a
-- baseline that reserves contiguous runs of blocks.
--
-- Which file models what (paths from the repository's root):
--   Block        include/qwenvl_paged/Block.h, src/Block.cpp
--   Layout       include/qwenvl_paged/CacheLayout.h, src/CacheLayout.cpp: KVBlockLayout
--   Table        include/qwenvl_paged/BlockTable.h, src/BlockTable.cpp: BlockTable; `insert_mapping`
--                is BlockTable::map and `update_entry` a write through mutable_entry
--   Swap         include/qwenvl_paged/SwapBackend.h, src/SwapBackend.cpp: HostSwapBackend
--   Allocator    include/qwenvl_paged/MemoryAllocator.h, src/MemoryAllocator.cpp: MemoryAllocator
--   Manager      include/qwenvl_paged/KVCacheManager.h, src/KVCacheManager.cpp: State has the data
--                and the private helpers, Prefix the prefix index, Sequence the life of a sequence,
--                Swapping and Request its swaps and the calls for a whole request, View CacheView
--   Scheduler    include/qwenvl_paged/Scheduler.h, src/Scheduler.cpp: State has the data, Queue the
--                calls on the queues, Admission try_admit and reclaim_for_admission, Step
--                schedule_next
--   Attention    include/qwenvl_paged/PagedAttention.h: Floats has the operations on numbers and the
--                parameters, Vectors the steps that the kernels share, Decode
--                paged_attention_decode, Blocked paged_attention_decode_blocked, Fused the variants of
--                paged_attention_decode_opt; Reference is attention without pages, a specification
--                and not code
--   Replay       tools/trace_replay/TraceReplay.h, TraceReplay.cpp: Trace has the data and
--                suggested_pool_blocks, Contiguous run_contiguous, Growth touch_position,
--                ensure_capacity and reserved_slots, Progress the variables of run_paged, Prefill and
--                Decoding the two halves of its step, Paged the step and the loop, Records and
--                Loading load_trace
--   Tests        runs of the definitions and the theorems at concrete inputs
-- The other children of these files hold proofs. Prelude has the lists, maps and Boolean tests that
-- all share.
--
-- An operation that changes an object returns the new object beside its result. Functions keep the
-- names of the methods; a loop of a method is a function of its own. Numbers are natural numbers,
-- and sums and products that the source computes in 32 or 64 bits are cut with u32 and u64 where
-- they may wrap. std::unordered_map is an association list whose keys differ: put is m[k] = v, and
-- emplace leaves a key that is there as it was. The slot numbers of the swap backend come round after
-- 2 ^ 64 stores, so that what a store promises asks for a next number that no resident slot has.
-- std::vector and std::deque are lists, a pointer that may be null is an Option. A slab of bytes is
-- the list of each frame's bytes. The copy hook of the allocator is a parameter: a function on the
-- frames.
--
-- What the program takes from elsewhere is a parameter. Floating-point numbers and the elements of
-- the cache are two types with the operations of the record Floats, in the order in which the source
-- applies them; nothing is assumed of these. A pointer into the pool is a frame and an element in it,
-- and the memory is a function of both. The vectors of key and value pointers of
-- paged_attention_decode are one row of addresses for each kv head, and the vector of scores holds
-- those that are known so far. The JSON library is the record Json, whose calls give a result or
-- an exception's text. The index of the 99th percentile, which run_paged computes in double
-- precision, is a function of the number of values. None of these stands under a hypothesis.
--
-- Three loops run on fuel. reclaim of Scheduler.Admission, the loop of reclaim_for_admission, has as
-- much fuel as there are active requests, since each of its rounds preempts one. admit_from_pending
-- of Scheduler.Step, the loop of schedule_next, has as much as there are pending requests, since
-- each of its rounds but the last admits one. decode_from of Replay.Contiguous, the loop over the
-- active reservations, has as much as there are reservations, since each round passes or removes one.
-- The outer loops of the replays are bounded by max_steps in the source and so here.
--
-- Not modelled: the AVX-512 paths of include/qwenvl_paged/PagedAttention.h, which are compiler
-- intrinsics, so that paged_attention_decode_fast is the code that runs without them; the eviction
-- selector of MemoryAllocator, a callback on the allocator itself that nothing calls; the addresses
-- and the pinning of the slab; of the trace replay its command line, its CSV rows and the texts of
-- its errors; the benchmarks, the exporters and the Python bindings, which measure, write files or
-- wrap the modelled classes.
mod Prelude
pub mod Block
pub mod Layout
pub mod Table
pub mod Swap
pub mod Allocator
pub mod Manager
pub mod Scheduler
pub mod Attention
pub mod Replay
pub mod Tests
