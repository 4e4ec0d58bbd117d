-- ===== src/Tests/Pool.antt =====
-- The allocator at concrete inputs.
use qwen_vl_paged.Prelude.{
  true, ℕ, ◌+◌, ◌-◌, ◌≡◌, refl, some, [], ◌∷◌, arith, find, emplace, leb, ◌==◌, if◌then◌else◌,
  length,
}
use qwen_vl_paged.Block.{PhysicalBlock, byte_size}
use qwen_vl_paged.Swap.{new_backend, store, load}
use qwen_vl_paged.Swap.RoundTrip.{load-store, load-run-store}
use qwen_vl_paged.Swap.Slots.{stores, discards, run, new_backend-IsNumbered}
use qwen_vl_paged.Allocator.Numbered.{IsNumberedPool, Reach-IsNumberedPool}
use qwen_vl_paged.Allocator.RoundTrip.{bytes_at, swap_in-swap_out}
use qwen_vl_paged.Allocator.{
  set_swap_backend, block, block_stride_for, round_up, effective_alignment, MemoryAllocator,
  new_allocator, allocate, release, retain, swap_out, swap_in, stats, can_allocate,
}
use qwen_vl_paged.Allocator.Cases.{refs}
use qwen_vl_paged.Allocator.Invariant.{IsValid}
use qwen_vl_paged.Allocator.Keeps.{allocates, releases, swaps_out, step, step-IsValid}
use qwen_vl_paged.Allocator.Effects.{
  Allocates, allocate-Allocates, refs-release, refs-retain, at_frame, Evicts, swap_out-Evicts,
  Restores, swap_in-Restores,
}
use qwen_vl_paged.Allocator.Init.{
  Reach, here, next, new_allocator-IsValid, Reach-new_allocator-IsValid,
}
use qwen_vl_paged.Allocator.Capacity.{stats_account}
use qwen_vl_paged.Tests.Data.{pool_config, slab, pool, small_shape}

allocate_runs : (allocate pool).1 ≡ some 3
unfolding allocate new_allocator
allocate_runs = refl

one_taken : MemoryAllocator
one_taken = (allocate pool).0

one_taken-IsValid : IsValid one_taken
unfolding one_taken step
one_taken-IsValid = step-IsValid pool allocates (new_allocator-IsValid pool_config slab) tt

step-IsValid_example : IsValid (step one_taken (releases 3))
step-IsValid_example = step-IsValid one_taken (releases 3) one_taken-IsValid tt

Reach-new_allocator-IsValid_example : IsValid (step (step pool allocates) (releases 3))
Reach-new_allocator-IsValid_example =
    Reach-new_allocator-IsValid pool_config slab (step (step pool allocates) (releases 3))
      (next (next here allocates tt refl) (releases 3) tt refl)

stats_account_example :
    ((stats pool).free_blocks + (stats pool).active_blocks + (stats pool).shared_blocks
      ≡ (stats pool).total_blocks)
    × ((stats pool).free_blocks ≡ length pool.free_list)
    × ((n : ℕ) → can_allocate pool n ≡ leb n (stats pool).free_blocks)
unfolding new_allocator
stats_account_example = stats_account pool (new_allocator-IsValid pool_config slab) (omega arith)

allocate-Allocates_example : Allocates pool (allocate pool)
allocate-Allocates_example = allocate-Allocates pool (new_allocator-IsValid pool_config slab)

refs-release_example : refs (release one_taken 3) 3 ≡ refs one_taken 3 - 1
refs-release_example = refs-release one_taken 3 3

refs-retain_example :
    refs (retain one_taken 3) 3
    ≡ (if refs one_taken 3 == 0 then refs one_taken 3 else refs one_taken 3 + at_frame 3 3)
unfolding one_taken allocate new_allocator
refs-retain_example = refs-retain one_taken 3 3 (omega arith)

swap_out-Evicts_example : Evicts one_taken 3 (swap_out one_taken 3)
swap_out-Evicts_example = swap_out-Evicts one_taken 3

swap_in-Restores_example : Restores one_taken (swap_in one_taken 1)
swap_in-Restores_example = swap_in-Restores one_taken 1 one_taken-IsValid

frame : ℕ → PhysicalBlock
frame i = record { id = i; shape = small_shape; storage = slab i; size_bytes = 4 }

-- The pool with room for one evicted frame, and one frame in use.
swapping : MemoryAllocator
swapping = (allocate (set_swap_backend pool (some (new_backend 1)))).0

swapping-IsValid : IsValid swapping
unfolding swapping step set_swap_backend
swapping-IsValid =
    step-IsValid (set_swap_backend pool (some (new_backend 1))) allocates
      (new_allocator-IsValid pool_config slab) tt

backed : MemoryAllocator
backed = set_swap_backend pool (some (new_backend 1))

-- The frame 3 is taken and evicted.
evicting : Reach backed (step (step backed allocates) (swaps_out 3))
evicting = next (next here allocates tt refl) (swaps_out 3) tt refl

Reach-IsNumberedPool_example : IsNumberedPool (step (step backed allocates) (swaps_out 3))
unfolding evicting backed
Reach-IsNumberedPool_example =
    Reach-IsNumberedPool pool_config slab 1 (step (step backed allocates) (swaps_out 3)) evicting
      (omega arith)

swapping-IsNumberedPool : IsNumberedPool swapping
unfolding swapping step
swapping-IsNumberedPool =
    Reach-IsNumberedPool pool_config slab 1 swapping (next here allocates tt refl) (omega arith)

swap_in-swap_out_example :
    ((swap_in (swap_out swapping 3).0 1).1 ≡ some 3)
    × (bytes_at (swap_in (swap_out swapping 3).0 1).0 3 ≡ bytes_at swapping 3)
unfolding swapping frame set_swap_backend new_backend new_allocator allocate swap_out store block
    block_stride_for round_up effective_alignment byte_size
swap_in-swap_out_example =
    swap_in-swap_out swapping 3 1 (frame 3) swapping-IsValid swapping-IsNumberedPool refl refl refl

load-store_example :
    (load (store (new_backend 1) (frame 2)).0 1 (frame 3)
      ≡ (record (frame 3) { storage = (frame 2).storage }, true))
    × (load (store (new_backend 1) (frame 2)).0 5 (frame 3) ≡ load (new_backend 1) 5 (frame 3))
unfolding frame new_backend store
load-store_example =
    load-store (new_backend 1) (frame 2) (frame 3) 1 5 (new_backend-IsNumbered 1) refl refl refl
      refl (omega arith)

-- One more frame is stored, the next is refused, and the second is discarded.
load-run-store_example :
    load
      (run
        (store (new_backend 2) (frame 2)).0
        (stores (frame 1) ∷ stores (frame 0) ∷ discards 2 ∷ []))
      1
      (frame 3)
    ≡ (record (frame 3) { storage = (frame 2).storage }, true)
unfolding frame new_backend store
load-run-store_example =
    load-run-store (new_backend 2) (frame 2) (frame 3) 1
      (stores (frame 1) ∷ stores (frame 0) ∷ discards 2 ∷ []) (new_backend-IsNumbered 2) refl refl
      refl refl (tt, (tt, (omega arith, tt)))

-- Where next_slot_ has come round to a resident slot, a store keeps the bytes that are there.
resident_kept :
    (store (record (new_backend 2) { slots = (1, 7 ∷ []) ∷ [] }) (frame 2)).0.slots
    ≡ ((1, 7 ∷ []) ∷ [])
unfolding store new_backend emplace find
resident_kept = refl
