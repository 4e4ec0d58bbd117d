-- ===== src/Allocator/Keeps.antt =====
-- Each operation of the allocator against its bookkeeping's well-formedness.
use qwen_vl_paged.Prelude.{
  ℕ, ◌+◌, ◌≤◌, ◌<◌, ◌≡◌, ◌≢◌, refl, inl, inr, List, [], ◌∷◌, some, arith, get_elem?, set,
  Option-cases,
}
use qwen_vl_paged.Block.{free}
use qwen_vl_paged.Allocator.{
  MemoryAllocator, PhysicalBlockInfo, occupy, vacate, drop_reference, add_reference, allocate,
  take_block, release, retain, swap_out, swap_in, discard_swapped, copy_block,
}
use qwen_vl_paged.Allocator.Cases.{release_cases, retain_cases, swap_out_cases, swap_in_cases}
use qwen_vl_paged.Allocator.Invariant.{IsValidPool, IsValid, IsValidPool-set}

-- The head of the free list is a frame that nothing refers to.
pub free_head :
    (infos : List PhysicalBlockInfo) (i : ℕ) (ids : List ℕ)
    → IsValidPool infos (i ∷ ids)
    → (f : PhysicalBlockInfo) × (get_elem? infos i ≡ some f) × (f.ref_count ≡ 0) × (f.state ≡ free)
free_head infos i ids v = elim (Option-cases (get_elem? infos i)) [
  | inl e ↦ absurd (ground (arith, v.listed i))
  | inr (f, e) ↦ (f, e, ground (arith, v.listed i), ground (arith, v.listed i, v.fits i f e))
]

occupy-IsValid :
    (infos : List PhysicalBlockInfo) (i : ℕ) (ids : List ℕ) (f : PhysicalBlockInfo)
    → IsValidPool infos (i ∷ ids)
    → get_elem? infos i ≡ some f
    → f.ref_count ≡ 0
    → f.state ≡ free
    → IsValidPool (set infos i (occupy f)) ids
occupy-IsValid infos i ids f v e z s =
    IsValidPool-set infos (i ∷ ids) ids i f (occupy f) v e (refl, omega arith)
      (λ j. ground (arith, v.listed i, v.listed j)) (ground arith)

take_block-IsValid :
    (a : MemoryAllocator) (ids : List ℕ)
    → IsValidPool a.infos ids
    → a.free_list ≡ ids
    → IsValid (take_block a ids).0
unfolding take_block
take_block-IsValid a [] v e = rw e v
take_block-IsValid a (i ∷ ids) v e =
    let (f, at, z, s) = free_head a.infos i ids v in
    rw (at, take_block) (occupy-IsValid a.infos i ids f v at z s)

pub allocate-IsValid : (a : MemoryAllocator) → IsValid a → IsValid (allocate a).0
unfolding allocate
allocate-IsValid a v = take_block-IsValid a a.free_list v refl

vacate-IsValid :
    (infos : List PhysicalBlockInfo) (i : ℕ) (ids : List ℕ) (f : PhysicalBlockInfo)
    → IsValidPool infos ids
    → get_elem? infos i ≡ some f
    → f.ref_count ≡ 1
    → IsValidPool (set infos i (vacate f)) (i ∷ ids)
vacate-IsValid infos i ids f v e z =
    IsValidPool-set infos ids (i ∷ ids) i f (vacate f) v e (refl, omega arith)
      (λ j. ground (arith, v.listed i, v.listed j)) (ground (arith, v.fits i f e))

drop_reference-IsValid :
    (infos : List PhysicalBlockInfo) (i : ℕ) (ids : List ℕ) (f : PhysicalBlockInfo)
    → IsValidPool infos ids
    → get_elem? infos i ≡ some f
    → 2 ≤ f.ref_count
    → IsValidPool (set infos i (drop_reference f)) ids
drop_reference-IsValid infos i ids f v e z =
    IsValidPool-set infos ids ids i f (drop_reference f) v e
      (ground (arith, v.fits i f e), omega (arith, (v.fits i f e).1))
      (λ j. ground (arith, v.listed i, v.listed j)) (ground (arith, v.fits i f e))

pub release-IsValid : (a : MemoryAllocator) (i : ℕ) → IsValid a → IsValid (release a i)
release-IsValid a i v =
    release_cases IsValid a i (λ _. v) (λ f e one. vacate-IsValid a.infos i a.free_list f v e one)
      (λ f e more. drop_reference-IsValid a.infos i a.free_list f v e more)

-- The count of a frame can be raised without wrapping round.
abbrev pub HasRoom : MemoryAllocator → ℕ → Type 0
HasRoom a i = (f : PhysicalBlockInfo) → get_elem? a.infos i ≡ some f → f.ref_count + 1 < 4294967296

add_reference-IsValid :
    (infos : List PhysicalBlockInfo) (i : ℕ) (ids : List ℕ) (f : PhysicalBlockInfo)
    → IsValidPool infos ids
    → get_elem? infos i ≡ some f
    → f.ref_count ≢ 0
    → f.ref_count + 1 < 4294967296
    → IsValidPool (set infos i (add_reference f)) ids
add_reference-IsValid infos i ids f v e nz room =
    IsValidPool-set infos ids ids i f (add_reference f) v e (omega arith, omega arith)
      (λ j. ground (arith, v.listed i, v.listed j)) (ground (arith, v.fits i f e))

pub retain-IsValid : (a : MemoryAllocator) (i : ℕ) → IsValid a → HasRoom a i → IsValid (retain a i)
retain-IsValid a i v room =
    retain_cases IsValid a i (λ _. v)
      (λ f e nz. add_reference-IsValid a.infos i a.free_list f v e nz (room f e))

pub swap_out-IsValid : (a : MemoryAllocator) (i : ℕ) → IsValid a → IsValid (swap_out a i).0
swap_out-IsValid a i v =
    swap_out_cases (λ r. IsValid r.0) a i v (λ b frame _. v)
      (λ b f frame k _ e _ one _. vacate-IsValid a.infos i a.free_list f v e one)

pub swap_in-IsValid : (a : MemoryAllocator) (slot : ℕ) → IsValid a → IsValid (swap_in a slot).0
swap_in-IsValid a slot v =
    swap_in_cases (λ r. IsValid r.0) a slot v (λ _. allocate-IsValid a v)
      (λ i _. release-IsValid (allocate a).0 i (allocate-IsValid a v))
      (λ b i frame _ _ _ _. allocate-IsValid a v)

pub copy_block-IsValid : (a : MemoryAllocator) (i j : ℕ) → IsValid a → IsValid (copy_block a i j)
unfolding copy_block
copy_block-IsValid a i j v = elim (Option-cases a.copy_hook) [
  | inl e ↦ rw (e, copy_block) v
  | inr (hook, e) ↦ rw (e, copy_block) v
]

pub discard_swapped-IsValid :
    (a : MemoryAllocator) (slot : ℕ) → IsValid a → IsValid (discard_swapped a slot)
unfolding discard_swapped
discard_swapped-IsValid a slot v = elim (Option-cases a.swap_backend) [
  | inl e ↦ rw (e, discard_swapped) v
  | inr (b, e) ↦ rw (e, discard_swapped) v
]

-- One call of the allocator.
pub data Call : Type 0 where
  allocates : Call
  releases retains swaps_out swaps_in discards : ℕ → Call
  copies : ℕ → ℕ → Call

unfoldable pub step : MemoryAllocator → Call → MemoryAllocator
step a allocates = (allocate a).0
step a (releases i) = release a i
step a (retains i) = retain a i
step a (swaps_out i) = (swap_out a i).0
step a (swaps_in slot) = (swap_in a slot).0
step a (discards slot) = discard_swapped a slot
step a (copies i j) = copy_block a i j

-- What a call asks for: a retained frame must not have 2 ^ 32 - 1 references already.
abbrev pub Permits : MemoryAllocator → Call → Type 0
Permits a (retains i) = HasRoom a i
Permits a _ = Unit {0}

-- From a well-formed pool every call leads to a well-formed one, if a frame that it retains has
-- fewer than 2 ^ 32 - 1 references: each frame's state agrees with its count, the frames of count
-- zero are exactly those of the free list, each once, and as many as are marked free.
pub step-IsValid : (a : MemoryAllocator) (c : Call) → IsValid a → Permits a c → IsValid (step a c)
unfolding step
step-IsValid a allocates v p = allocate-IsValid a v
step-IsValid a (releases i) v p = release-IsValid a i v
step-IsValid a (retains i) v p = retain-IsValid a i v p
step-IsValid a (swaps_out i) v p = swap_out-IsValid a i v
step-IsValid a (swaps_in slot) v p = swap_in-IsValid a slot v
step-IsValid a (discards slot) v p = discard_swapped-IsValid a slot v
step-IsValid a (copies i j) v p = copy_block-IsValid a i j v
