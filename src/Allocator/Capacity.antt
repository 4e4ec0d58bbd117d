-- ===== src/Allocator/Capacity.antt =====
-- What the statistics and can_allocate promise, and what successive allocations give.
use qwen_vl_paged.Prelude.{
  ℕ, suc, ◌+◌, ◌<◌, ◌≡◌, refl, List, [], ◌∷◌, some, arith, ap, leb, length, get_elem?,
}
use qwen_vl_paged.Block.{free, active, shared}
use qwen_vl_paged.Allocator.{MemoryAllocator, PhysicalBlockInfo, stats, can_allocate, state_count}
use qwen_vl_paged.Allocator.Invariant.{Matches, IsValid}
use qwen_vl_paged.Allocator.Cases.{refs, refs_of}

state_total :
    (fs : List PhysicalBlockInfo)
    → ((i : ℕ) (f : PhysicalBlockInfo) → get_elem? fs i ≡ some f → Matches f.state f.ref_count)
    → state_count free fs + state_count active fs + state_count shared fs ≡ length fs
state_total [] h = refl
state_total (x ∷ fs) h = ground (arith, h 0 x refl, state_total fs (λ i. h (suc i)))

-- In a well-formed pool of fewer than 2 ^ 32 frames the statistics account for every frame: free,
-- active and shared frames add up to the total, the free count is the length of the free list, and
-- can_allocate answers whether that many frames are counted free.
pub stats_account :
    (a : MemoryAllocator)
    → IsValid a
    → length a.infos < 4294967296
    → ((stats a).free_blocks + (stats a).active_blocks + (stats a).shared_blocks
        ≡ (stats a).total_blocks)
      × ((stats a).free_blocks ≡ length a.free_list)
      × ((n : ℕ) → can_allocate a n ≡ leb n (stats a).free_blocks)
unfolding stats can_allocate
stats_account a v small = (
  omega (arith, total),
  omega (arith, total, v.counted),
  λ n. ap (leb n) (omega (arith, total, v.counted)),
)
  where
    total :
        state_count free a.infos + state_count active a.infos + state_count shared a.infos
        ≡ length a.infos
    total = state_total a.infos (λ i f e. (v.fits i f e).0)

unused-free :
    (fs : List PhysicalBlockInfo)
    → ((i : ℕ) (f : PhysicalBlockInfo) → get_elem? fs i ≡ some f → Matches f.state f.ref_count)
    → ((i : ℕ) → refs_of (get_elem? fs i) ≡ 0)
    → state_count free fs ≡ length fs
unused-free [] h z = refl
unused-free (x ∷ fs) h z =
    ground (arith, h 0 x refl, z 0, unused-free fs (λ i. h (suc i)) (λ i. z (suc i)))

-- A pool in which no frame has a reference has every frame on its free list.
pub all_free :
    (a : MemoryAllocator)
    → IsValid a
    → ((i : ℕ) → refs a i ≡ 0)
    → length a.free_list ≡ length a.infos
all_free a v z = omega (arith, v.counted, unused-free a.infos (λ i f e. (v.fits i f e).0) z)
