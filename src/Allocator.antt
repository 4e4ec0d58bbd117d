-- ===== src/Allocator.antt =====
-- include/qwenvl_paged/MemoryAllocator.h and src/MemoryAllocator.cpp: the pool of physical blocks.
-- A method that changes the pool returns the new pool. The bytes of frame i of the slab are the
-- storage of block i; `slab` below gives what they hold when the pool is bound, and the slab is
-- taken to have been allocated. A free list's back, where vector::push_back and pop_back work, is
-- the head of the list.
pub mod Invariant
pub mod Cases
pub mod Keeps
pub mod Effects
pub mod Init
pub mod Capacity
pub mod Numbered
pub mod RoundTrip
use qwen_vl_paged.Prelude.{
  ℕ, zero, suc, ◌+◌, ◌-◌, ◌*◌, ◌/◌, Option, none, some, Bool, List, [], ◌∷◌, ltb, leb, ◌==◌,
  if◌then◌else◌, length, get_elem?, set, u32, u64,
}
use qwen_vl_paged.Block.{
  BlockState, free, active, shared, swapped, BlockShape, byte_size, HostMemoryOptions,
  PhysicalBlock,
}
use qwen_vl_paged.Swap.{HostSwapBackend, store, load, discard, resident_slots, memcpy}

pub record AllocatorConfig : Type 0 where
  pub block_shape : BlockShape
  pub memory_options : HostMemoryOptions
  pub max_blocks : ℕ

pub record AllocatorStats : Type 0 where
  pub total_blocks : ℕ
  pub free_blocks : ℕ
  pub active_blocks : ℕ
  pub shared_blocks : ℕ
  pub swapped_blocks : ℕ
  pub bytes_reserved : ℕ

pub record PhysicalBlockInfo : Type 0 where
  pub id : ℕ
  pub state : BlockState
  pub ref_count : ℕ
  pub generation : ℕ

-- Moves one frame's bytes to another over all the frames of the pool.
abbrev pub BlockCopyHook : Type 0
BlockCopyHook = ℕ → ℕ → List PhysicalBlock → List PhysicalBlock

pub record MemoryAllocator : Type 0 where
  pub config : AllocatorConfig
  pub block_stride_bytes : ℕ
  pub pool_bytes : ℕ
  pub blocks : List PhysicalBlock
  pub infos : List PhysicalBlockInfo
  pub free_list : List ℕ
  pub swap_backend : Option HostSwapBackend
  pub copy_hook : Option BlockCopyHook

unfoldable pub round_up : ℕ → ℕ → ℕ
round_up value alignment =
    if alignment == 0 then value else u64 (u64 (value + alignment - 1) / alignment * alignment)

abbrev pub default_block_alignment_bytes : ℕ
default_block_alignment_bytes = 256

unfoldable pub effective_alignment : AllocatorConfig → ℕ
effective_alignment c =
    if c.memory_options.alignment_bytes == 0
    then default_block_alignment_bytes
    else c.memory_options.alignment_bytes

unfoldable pub block_stride_for : AllocatorConfig → ℕ
unfolding round_up effective_alignment
block_stride_for c =
    let stride = round_up (byte_size c.block_shape) (effective_alignment c) in
    if stride == 0 then effective_alignment c else stride

unfoldable pub pool_bytes_for : AllocatorConfig → ℕ
unfolding block_stride_for
pool_bytes_for c = u64 (block_stride_for c * c.max_blocks)

-- The loop of bind_frames from frame i on, for the `n` frames left.
bind_blocks : ℕ → ℕ → BlockShape → ℕ → (ℕ → List ℕ) → List PhysicalBlock
bind_blocks zero i shape stride slab = []
bind_blocks (suc n) i shape stride slab =
    record { id = i; shape = shape; storage = slab i; size_bytes = stride }
    ∷ bind_blocks n (i + 1) shape stride slab

bind_infos : ℕ → ℕ → List PhysicalBlockInfo
bind_infos zero i = []
bind_infos (suc n) i =
    record { id = i; state = free; ref_count = 0; generation = 0 } ∷ bind_infos n (i + 1)

bind_free : ℕ → ℕ → List ℕ → List ℕ
bind_free zero i ids = ids
bind_free (suc n) i ids = bind_free n (i + 1) (i ∷ ids)

-- Both constructors: they differ in who allocates the slab.
unfoldable pub new_allocator : AllocatorConfig → (ℕ → List ℕ) → MemoryAllocator
unfolding bind_blocks bind_infos bind_free block_stride_for pool_bytes_for
new_allocator c slab = record {
  config = c;
  block_stride_bytes = block_stride_for c;
  pool_bytes = pool_bytes_for c;
  blocks = bind_blocks c.max_blocks 0 c.block_shape (block_stride_for c) slab;
  infos = bind_infos c.max_blocks 0;
  free_list = bind_free c.max_blocks 0 [];
  swap_backend = none;
  copy_hook = none;
}

unfoldable pub block : MemoryAllocator → ℕ → Option PhysicalBlock
block a i = get_elem? a.blocks i

unfoldable pub info : MemoryAllocator → ℕ → Option PhysicalBlockInfo
info a i = get_elem? a.infos i

-- A write through a reference to infos_[i].
abbrev pub set_info : MemoryAllocator → ℕ → PhysicalBlockInfo → MemoryAllocator
set_info a i f = record a { infos = set a.infos i f }

abbrev pub occupy : PhysicalBlockInfo → PhysicalBlockInfo
occupy f = record f { state = active; ref_count = 1 }

take_block : MemoryAllocator → List ℕ → MemoryAllocator × Option ℕ
take_block a [] = (a, none)
take_block a (i ∷ ids) = elim (get_elem? a.infos i) [
  | none ↦ (record a { free_list = ids }, some i)
  | some f ↦ (record a { free_list = ids; infos = set a.infos i (occupy f) }, some i)
]

unfoldable pub allocate : MemoryAllocator → MemoryAllocator × Option ℕ
unfolding take_block
allocate a = take_block a a.free_list

abbrev pub vacate : PhysicalBlockInfo → PhysicalBlockInfo
vacate f = record f { state = free; ref_count = 0; generation = u64 (f.generation + 1) }

abbrev pub drop_reference : PhysicalBlockInfo → PhysicalBlockInfo
drop_reference f = record f {
  ref_count = f.ref_count - 1;
  state = if f.ref_count - 1 == 1 then active else f.state;
}

unfoldable pub release : MemoryAllocator → ℕ → MemoryAllocator
release a i = elim (get_elem? a.infos i) [
  | none ↦ a
  | some f ↦
      if f.ref_count == 0
      then a
      else if f.ref_count - 1 == 0
      then record a { infos = set a.infos i (vacate f); free_list = i ∷ a.free_list }
      else record a { infos = set a.infos i (drop_reference f) }
]

abbrev pub add_reference : PhysicalBlockInfo → PhysicalBlockInfo
add_reference f = record f { ref_count = u32 (f.ref_count + 1); state = shared }

unfoldable pub retain : MemoryAllocator → ℕ → MemoryAllocator
retain a i = elim (get_elem? a.infos i) [
  | none ↦ a
  | some f ↦ if f.ref_count == 0 then a else record a { infos = set a.infos i (add_reference f) }
]

unfoldable pub set_copy_hook : MemoryAllocator → Option BlockCopyHook → MemoryAllocator
set_copy_hook a hook = record a { copy_hook = hook }

copy_bytes :
    List PhysicalBlock → ℕ → Option PhysicalBlock → Option PhysicalBlock → List PhysicalBlock
copy_bytes blocks j none d = blocks
copy_bytes blocks j (some s) none = blocks
copy_bytes blocks j (some s) (some d) =
    let n = if ltb s.size_bytes d.size_bytes then s.size_bytes else d.size_bytes in
    set blocks j (record d { storage = memcpy n d.storage s.storage })

unfoldable pub copy_block : MemoryAllocator → ℕ → ℕ → MemoryAllocator
unfolding copy_bytes block
copy_block a i j = elim a.copy_hook [
  | some hook ↦ record a { blocks = hook i j a.blocks }
  | none ↦ record a { blocks = copy_bytes a.blocks j (block a i) (block a j) }
]

unfoldable pub set_swap_backend : MemoryAllocator → Option HostSwapBackend → MemoryAllocator
set_swap_backend a b = record a { swap_backend = b }

-- Evicts a block whose info is `f` into the backend `b`.
evict : MemoryAllocator → HostSwapBackend → ℕ → PhysicalBlockInfo → MemoryAllocator × Option ℕ
unfolding block
evict a b i f =
    if f.ref_count == 1
    then elim (block a i) [
      | none ↦ (a, none)
      | some frame ↦
          let (b', stored) = store b frame in
          elim stored [
            | none ↦ (record a { swap_backend = some b' }, none)
            | some slot ↦ (
              record a {
                infos = set a.infos i (vacate f);
                free_list = i ∷ a.free_list;
                swap_backend = some b';
              },
              some slot,
            )
          ]
    ]
    else (a, none)

unfoldable pub swap_out : MemoryAllocator → ℕ → MemoryAllocator × Option ℕ
unfolding evict
swap_out a i = elim a.swap_backend [
  | none ↦ (a, none)
  | some b ↦ elim (get_elem? a.infos i) [ none ↦ (a, none) | some f ↦ evict a b i f ]
]

-- Loads the slot into the frame that was allocated for it.
restore : MemoryAllocator → HostSwapBackend → ℕ → ℕ → MemoryAllocator × Option ℕ
unfolding block release
restore a b slot i = elim (block a i) [
  | none ↦ (release a i, none)
  | some frame ↦
      let (frame', loaded) = load b slot frame in
      if loaded
      then (
        record a { blocks = set a.blocks i frame'; swap_backend = some (discard b slot) },
        some i,
      )
      else (release a i, none)
]

unfoldable pub swap_in : MemoryAllocator → ℕ → MemoryAllocator × Option ℕ
unfolding allocate restore
swap_in a slot = elim a.swap_backend [
  | none ↦ (a, none)
  | some b ↦
      let (a', got) = allocate a in elim got [ none ↦ (a', none) | some i ↦ restore a' b slot i ]
]

unfoldable pub discard_swapped : MemoryAllocator → ℕ → MemoryAllocator
discard_swapped a slot = elim a.swap_backend [
  | none ↦ a
  | some b ↦ record a { swap_backend = some (discard b slot) }
]

abbrev pub state_is : BlockState → BlockState → ℕ
state_is free free = 1
state_is active active = 1
state_is shared shared = 1
state_is swapped swapped = 1
state_is _ _ = 0

abbrev pub state_count : BlockState → List PhysicalBlockInfo → ℕ
state_count s [] = 0
state_count s (f ∷ fs) = state_is s f.state + state_count s fs

unfoldable pub stats : MemoryAllocator → AllocatorStats
stats a = record {
  total_blocks = u32 (length a.infos);
  free_blocks = u32 (state_count free a.infos);
  active_blocks = u32 (state_count active a.infos);
  shared_blocks = u32 (state_count shared a.infos);
  swapped_blocks = elim a.swap_backend [ none ↦ 0 | some b ↦ u32 (resident_slots b) ];
  bytes_reserved = a.pool_bytes;
}

unfoldable pub can_allocate : MemoryAllocator → ℕ → Bool
can_allocate a n = leb n (length a.free_list)
