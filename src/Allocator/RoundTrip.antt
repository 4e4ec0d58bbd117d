-- ===== src/Allocator/RoundTrip.antt =====
-- swap_out and swap_in of src/MemoryAllocator.cpp: the bytes of an evicted frame come back.
use qwen_vl_paged.Prelude.{
  ℕ, ◌≡◌, refl, sym, ap, ◌∙◌, Option, none, some, List, ◌∷◌, arith, length, get_elem?,
  get_elem?-set, find, nat_eq,
}
use mathlib.Core.Option
use mathlib.Core.Path.{subst}
use qwen_vl_paged.Block.{PhysicalBlock}
use qwen_vl_paged.Swap.{HostSwapBackend, store}
use qwen_vl_paged.Swap.Slots.{IsNumbered}
use qwen_vl_paged.Swap.RoundTrip.{IsFull, load_whole, find-store}
use qwen_vl_paged.Allocator.{MemoryAllocator, allocate, block, restore, swap_in, swap_out}
use qwen_vl_paged.Allocator.Invariant.{IsValid}
use qwen_vl_paged.Allocator.Cases.{swap_out_cases}
use qwen_vl_paged.Allocator.Effects.{allocate_cases}
use qwen_vl_paged.Allocator.Numbered.{IsNumberedPool}
use qwen_vl_paged.Allocator.Keeps.{swap_out-IsValid}

-- The bytes of a frame.
abbrev pub bytes_at : MemoryAllocator → ℕ → Option (List ℕ)
bytes_at a i = Option.map (λ (b : PhysicalBlock). b.storage) (get_elem? a.blocks i)

allocate_head :
    (a : MemoryAllocator) (j : ℕ) (rest : List ℕ)
    → IsValid a
    → a.free_list ≡ j ∷ rest
    → ((allocate a).1 ≡ some j) × ((allocate a).0.blocks ≡ a.blocks)
allocate_head a j rest v head =
    allocate_cases (λ res. (res.1 ≡ some j) × (res.0.blocks ≡ a.blocks)) a v
      (λ e. absurd (ground (arith, e, head))) (λ i r f e at z. (ground (arith, e, head), refl))

-- Where a well-formed pool has a free frame of the size of a slot's bytes, swap_in of the slot fills
-- the frame at the head of the free list with those bytes.
pub swap_in_fills :
    (a : MemoryAllocator) (b : HostSwapBackend) (slot j : ℕ) (rest bytes : List ℕ)
    (frame : PhysicalBlock)
    → IsValid a
    → a.swap_backend ≡ some b
    → find slot b.slots ≡ some bytes
    → a.free_list ≡ j ∷ rest
    → block a j ≡ some frame
    → IsFull frame
    → frame.size_bytes ≡ length bytes
    → ((swap_in a slot).1 ≡ some j) × (bytes_at (swap_in a slot).0 j ≡ some bytes)
unfolding swap_in block
swap_in_fills a b slot j rest bytes frame v backend at head here full size =
    let (got, same) = allocate_head a j rest v head in
    let here' : get_elem? (allocate a).0.blocks j ≡ some frame =
      ap (λ bs. get_elem? bs j) same ∙ here in
    let loads = load_whole b slot bytes frame at full size in
    rw (backend, got, here', loads, swap_in, restore)
      (
        refl,
        ground (
          arith,
          get_elem?-set (allocate a).0.blocks j j (record frame { storage = bytes }) here',
        ),
      )

abbrev IsFullIn : Option PhysicalBlock → Type 0
IsFullIn none = Unit {0}
IsFullIn (some frame) = IsFull frame

-- The slot that an eviction gave brings the frame back.
abbrev ComesBack : MemoryAllocator → ℕ → ℕ → MemoryAllocator → Type 0
ComesBack a i k a' = ((swap_in a' k).1 ≡ some i) × (bytes_at (swap_in a' k).0 i ≡ bytes_at a i)

stored-ComesBack :
    (a a' : MemoryAllocator) (i k : ℕ) (b : HostSwapBackend) (frame : PhysicalBlock)
    → IsValid a'
    → a'.swap_backend ≡ some (store b frame).0
    → a'.free_list ≡ i ∷ a.free_list
    → a'.blocks ≡ a.blocks
    → block a i ≡ some frame
    → IsNumbered b
    → IsFull frame
    → (store b frame).1 ≡ some k
    → ComesBack a i k a'
unfolding block
stored-ComesBack a a' i k b frame v backend head same at fresh full s =
    let back =
      swap_in_fills a' (store b frame).0 k i a.free_list frame.storage frame v backend
        (ground (arith, find-store b frame k k fresh full s)) head
        (ap (λ bs. get_elem? bs i) same ∙ at) full (sym full) in
    (back.0, back.1 ∙ ap (Option.map (λ (x : PhysicalBlock). x.storage)) (sym at))

-- Where the backend of a well-formed pool has no resident slot at its next number or above, evicting
-- a full frame and swapping its slot in again succeeds, and gives back the frame with the bytes that
-- it had.
pub swap_in-swap_out :
    (a : MemoryAllocator) (i k : ℕ) (frame : PhysicalBlock)
    → IsValid a
    → IsNumberedPool a
    → block a i ≡ some frame
    → IsFull frame
    → (swap_out a i).1 ≡ some k
    → ((swap_in (swap_out a i).0 k).1 ≡ some i)
      × (bytes_at (swap_in (swap_out a i).0 k).0 i ≡ bytes_at a i)
swap_in-swap_out a i k frame v fresh at full =
    swap_out_cases (λ res. IsValid res.0 → res.1 ≡ some k → ComesBack a i k res.0) a i
      (λ _ h. absurd (ground (arith, h))) (λ _ _ _ _ h. absurd (ground (arith, h)))
      (λ b f frame' k' e u at' one s v' h.
        stored-ComesBack a _ i k b frame' v' refl refl refl at' (fresh b e)
          (subst IsFullIn (sym at ∙ at') full) (s ∙ h))
      (swap_out-IsValid a i v)
