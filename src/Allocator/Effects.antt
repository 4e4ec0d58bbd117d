-- ===== src/Allocator/Effects.antt =====
-- What each operation does to the reference count of every frame.
use qwen_vl_paged.Prelude.{
  ℕ, ◌+◌, ◌-◌, ◌<◌, ◌≡◌, refl, ap, inl, inr, List, [], ◌∷◌, Option, none, some, arith, ◌==◌,
  if◌then◌else◌, length, get_elem?, set, get_elem?-set, Option-cases,
}
use qwen_vl_paged.Allocator.{
  MemoryAllocator, PhysicalBlockInfo, occupy, vacate, drop_reference, add_reference, allocate,
  take_block, release, retain, swap_out, swap_in, copy_block, discard_swapped,
}
use qwen_vl_paged.Allocator.Cases.{release_cases, retain_cases, swap_out_cases, swap_in_cases, refs}
use qwen_vl_paged.Allocator.Invariant.{IsValidPool, IsValid}
use qwen_vl_paged.Allocator.Keeps.{free_head}

-- One where the frame is meant, else zero.
abbrev pub at_frame : ℕ → ℕ → ℕ
at_frame i j = if i == j then 1 else 0

abbrev pub occupied : MemoryAllocator → ℕ → List ℕ → PhysicalBlockInfo → MemoryAllocator
occupied a i ids f = record a { free_list = ids; infos = set a.infos i (occupy f) }

module _ {ℓ} (P : MemoryAllocator × Option ℕ → Type ℓ) where
  take_cases :
      (a : MemoryAllocator) (ids : List ℕ)
      → IsValidPool a.infos ids
      → (ids ≡ [] → P (a, none))
      → ((i : ℕ) (rest : List ℕ) (f : PhysicalBlockInfo)
          → ids ≡ i ∷ rest
          → get_elem? a.infos i ≡ some f
          → f.ref_count ≡ 0
          → P (occupied a i rest f, some i))
      → P (take_block a ids)
  unfolding take_block
  take_cases a [] v full taken = full refl
  take_cases a (i ∷ rest) v full taken =
      let (f, at, z, s) = free_head a.infos i rest v in
      rw (at, take_block) (taken i rest f refl at z)

  pub allocate_cases :
      (a : MemoryAllocator)
      → IsValid a
      → (a.free_list ≡ [] → P (a, none))
      → ((i : ℕ) (rest : List ℕ) (f : PhysicalBlockInfo)
          → a.free_list ≡ i ∷ rest
          → get_elem? a.infos i ≡ some f
          → f.ref_count ≡ 0
          → P (occupied a i rest f, some i))
      → P (allocate a)
  unfolding allocate
  allocate_cases a v full taken = take_cases a a.free_list v full taken

-- What allocate promises of its result.
abbrev pub Allocates : MemoryAllocator → MemoryAllocator × Option ℕ → Type 0
Allocates a (a', none) = (a.free_list ≡ []) × (a' ≡ a)
Allocates a (a', some i) =
    (length a.free_list ≡ length a'.free_list + 1)
    × (refs a i ≡ 0)
    × ((j : ℕ) → refs a' j ≡ refs a j + at_frame i j)

-- In a well-formed pool allocate fails only when the free list is empty, and then changes nothing;
-- otherwise it takes one frame off the free list that nothing refers to, gives it one reference and
-- leaves the count of every other frame as it was.
pub allocate-Allocates : (a : MemoryAllocator) → IsValid a → Allocates a (allocate a)
allocate-Allocates a v =
    allocate_cases (Allocates a) a v (λ e. (e, refl))
      (λ i rest f e at z.
        (ground arith, ground arith, λ j. ground (arith, get_elem?-set a.infos i j (occupy f) at)))

-- Releasing a frame takes one reference from it, if it has one, and none from any other frame.
pub refs-release :
    (a : MemoryAllocator) (i j : ℕ)
    → refs (release a i) j ≡ (if i == j then refs a j - 1 else refs a j)
refs-release a i j =
    release_cases (λ b. refs b j ≡ (if i == j then refs a j - 1 else refs a j)) a i
      (λ z. ground arith) (λ f e one. ground (arith, get_elem?-set a.infos i j (vacate f) e))
      (λ f e more. ground (arith, get_elem?-set a.infos i j (drop_reference f) e))

-- Retaining a frame that is in use, by fewer than 2 ^ 32 - 1 references, adds one reference to it and
-- to no other frame; a frame that nothing refers to, or that is outside the pool, is left alone.
pub refs-retain :
    (a : MemoryAllocator) (i j : ℕ)
    → refs a i + 1 < 4294967296
    → refs (retain a i) j ≡ (if refs a i == 0 then refs a j else refs a j + at_frame i j)
refs-retain a i j room =
    retain_cases (λ b. refs b j ≡ (if refs a i == 0 then refs a j else refs a j + at_frame i j)) a i
      (λ z. ground arith) (λ f e nz. ground (arith, get_elem?-set a.infos i j (add_reference f) e))

-- What swap_out promises: it either changes no count and no free list, or takes the one reference
-- of the frame away.
abbrev pub Evicts : MemoryAllocator → ℕ → MemoryAllocator × Option ℕ → Type 0
Evicts a i (a', none) = ((j : ℕ) → refs a' j ≡ refs a j) × (a'.free_list ≡ a.free_list)
Evicts a i (a', some k) =
    (refs a i ≡ 1)
    × (a'.free_list ≡ i ∷ a.free_list)
    × ((j : ℕ) → refs a j ≡ refs a' j + at_frame i j)

-- swap_out evicts only a frame with exactly one reference: on success it takes that reference away
-- and puts the frame on the free list; otherwise no count and no free list changes. Every other
-- frame keeps its count.
pub swap_out-Evicts : (a : MemoryAllocator) (i : ℕ) → Evicts a i (swap_out a i)
swap_out-Evicts a i =
    swap_out_cases (Evicts a i) a i ((λ j. refl), refl) (λ b frame _. ((λ j. refl), refl))
      (λ b f frame k _ e _ one _.
        (ground arith, refl, λ j. ground (arith, get_elem?-set a.infos i j (vacate f) e)))

-- What swap_in promises: it changes no count, or gives one reference to a frame that had none.
abbrev pub Restores : MemoryAllocator → MemoryAllocator × Option ℕ → Type 0
Restores a (a', none) = (j : ℕ) → refs a' j ≡ refs a j
Restores a (a', some i) = (refs a i ≡ 0) × ((j : ℕ) → refs a' j ≡ refs a j + at_frame i j)

refs_after_allocate :
    (a : MemoryAllocator) (r : MemoryAllocator × Option ℕ) (i : ℕ)
    → Allocates a r
    → r.1 ≡ some i
    → (refs a i ≡ 0) × ((j : ℕ) → refs r.0 j ≡ refs a j + at_frame i j)
refs_after_allocate a (a', none) i h e = absurd (ground arith)
refs_after_allocate a (a', some k) i h e = (ground arith, λ j. ground (arith, h.2 j))

refs_after_failure :
    (a : MemoryAllocator) (r : MemoryAllocator × Option ℕ)
    → Allocates a r
    → r.1 ≡ none
    → (j : ℕ) → refs r.0 j ≡ refs a j
refs_after_failure a (a', none) h e j = ap (λ b. refs b j) h.1
refs_after_failure a (a', some k) h e j = absurd (ground arith)

-- In a well-formed pool swap_in on success gives one reference to the frame that it returns, which
-- nothing referred to, and none to any other; when it fails no reference count has changed, also
-- where a frame was taken and given back.
pub swap_in-Restores : (a : MemoryAllocator) (slot : ℕ) → IsValid a → Restores a (swap_in a slot)
swap_in-Restores a slot v =
    swap_in_cases (Restores a) a slot (λ j. refl)
      (refs_after_failure a (allocate a) (allocate-Allocates a v))
      (λ i e j.
        let (z, up) = refs_after_allocate a (allocate a) i (allocate-Allocates a v) e in
        ground (arith, up j, up i, refs-release (allocate a).0 i j))
      (λ b i frame _ e _ _. refs_after_allocate a (allocate a) i (allocate-Allocates a v) e)

-- Copying bytes and dropping a slot change no reference count.
pub refs-copy_block : (a : MemoryAllocator) (i k j : ℕ) → refs (copy_block a i k) j ≡ refs a j
unfolding copy_block
refs-copy_block a i k j = elim (Option-cases a.copy_hook) [
  | inl e ↦ rw (e, copy_block)
  | inr (hook, e) ↦ rw (e, copy_block)
]

pub refs-discard_swapped :
    (a : MemoryAllocator) (slot j : ℕ) → refs (discard_swapped a slot) j ≡ refs a j
unfolding discard_swapped
refs-discard_swapped a slot j = elim (Option-cases a.swap_backend) [
  | inl e ↦ rw (e, discard_swapped)
  | inr (b, e) ↦ rw (e, discard_swapped)
]
