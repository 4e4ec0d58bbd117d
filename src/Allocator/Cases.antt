-- ===== src/Allocator/Cases.antt =====
-- What each operation of the allocator may leave, case by case.
use qwen_vl_paged.Prelude.{
  ℕ, ◌-◌, ◌≤◌, ◌≡◌, ◌≢◌, refl, inl, inr, true, ◌∷◌, Option, none, some, arith, ◌==◌, if◌then◌else◌,
  get_elem?, set, Bool-cases, Option-cases,
}
use qwen_vl_paged.Block.{PhysicalBlock}
use qwen_vl_paged.Swap.{HostSwapBackend, store, load, discard}
use qwen_vl_paged.Allocator.{
  MemoryAllocator, PhysicalBlockInfo, vacate, drop_reference, add_reference, allocate, release,
  retain, swap_out, swap_in, evict, restore, block,
}

abbrev pub refs_of : Option PhysicalBlockInfo → ℕ
refs_of none = 0
refs_of (some f) = f.ref_count

-- The reference count of a frame, 0 outside the pool.
abbrev pub refs : MemoryAllocator → ℕ → ℕ
refs a i = refs_of (get_elem? a.infos i)

abbrev pub released_last : MemoryAllocator → ℕ → PhysicalBlockInfo → MemoryAllocator
released_last a i f = record a { infos = set a.infos i (vacate f); free_list = i ∷ a.free_list }

abbrev pub released_shared : MemoryAllocator → ℕ → PhysicalBlockInfo → MemoryAllocator
released_shared a i f = record a { infos = set a.infos i (drop_reference f) }

abbrev pub retained : MemoryAllocator → ℕ → PhysicalBlockInfo → MemoryAllocator
retained a i f = record a { infos = set a.infos i (add_reference f) }

module _ {ℓ} (P : MemoryAllocator → Type ℓ) (a : MemoryAllocator) (i : ℕ) where
  release_known :
      (f : PhysicalBlockInfo)
      → (f.ref_count ≡ 0 → P a)
      → (f.ref_count ≡ 1 → P (released_last a i f))
      → (2 ≤ f.ref_count → P (released_shared a i f))
      → P (
          if f.ref_count == 0
          then a
          else if f.ref_count - 1 == 0
          then released_last a i f
          else released_shared a i f)
  release_known f free last shared = elim (Bool-cases (f.ref_count == 0)) [
    | inl z ↦ rw z (free (ground arith))
    | inr nz ↦ rw nz (elim (Bool-cases (f.ref_count - 1 == 0)) [
      | inl one ↦ rw one (last (ground arith))
      | inr more ↦ rw more (shared (ground arith))
    ])
  ]

  pub release_cases :
      (refs a i ≡ 0 → P a)
      → ((f : PhysicalBlockInfo)
          → get_elem? a.infos i ≡ some f
          → f.ref_count ≡ 1
          → P (released_last a i f))
      → ((f : PhysicalBlockInfo)
          → get_elem? a.infos i ≡ some f
          → 2 ≤ f.ref_count
          → P (released_shared a i f))
      → P (release a i)
  unfolding release
  release_cases same last shared = elim (Option-cases (get_elem? a.infos i)) [
    | inl e ↦ rw (e, release) (same (ground arith))
    | inr (f, e) ↦
        rw (e, release) (release_known f (λ z. same (ground arith)) (last f e) (shared f e))
  ]

  retain_known :
      (f : PhysicalBlockInfo)
      → (f.ref_count ≡ 0 → P a)
      → (f.ref_count ≢ 0 → P (retained a i f))
      → P (if f.ref_count == 0 then a else retained a i f)
  retain_known f same more = elim (Bool-cases (f.ref_count == 0)) [
    | inl z ↦ rw z (same (ground arith))
    | inr nz ↦ rw nz (more (ground arith))
  ]

  pub retain_cases :
      (refs a i ≡ 0 → P a)
      → ((f : PhysicalBlockInfo)
          → get_elem? a.infos i ≡ some f
          → f.ref_count ≢ 0
          → P (retained a i f))
      → P (retain a i)
  unfolding retain
  retain_cases same more = elim (Option-cases (get_elem? a.infos i)) [
    | inl e ↦ rw (e, retain) (same (ground arith))
    | inr (f, e) ↦ rw (e, retain) (retain_known f (λ z. same (ground arith)) (more f e))
  ]

-- Where swap_out changes the pool it stores the frame; a store that is refused changes no slot.
module _ {ℓ} (P : MemoryAllocator × Option ℕ → Type ℓ) (a : MemoryAllocator) (i : ℕ) where
  stored_cases :
      (b : HostSwapBackend) (f : PhysicalBlockInfo) (b' : HostSwapBackend) (slot : Option ℕ)
      → P (record a { swap_backend = some b' }, none)
      → ((k : ℕ)
          → slot ≡ some k
          → P (record (released_last a i f) { swap_backend = some b' }, some k))
      → P (elim slot [
        | none ↦ (record a { swap_backend = some b' }, none)
        | some k ↦ (record (released_last a i f) { swap_backend = some b' }, some k)
      ])
  stored_cases b f b' none refused moved = refused
  stored_cases b f b' (some k) refused moved = moved k refl

  evict_cases :
      (b : HostSwapBackend) (f : PhysicalBlockInfo)
      → P (a, none)
      → ((frame : PhysicalBlock)
          → block a i ≡ some frame
          → P (record a { swap_backend = some (store b frame).0 }, none))
      → ((frame : PhysicalBlock) (k : ℕ)
          → block a i ≡ some frame
          → f.ref_count ≡ 1
          → (store b frame).1 ≡ some k
          → P (record (released_last a i f) { swap_backend = some (store b frame).0 }, some k))
      → P (evict a b i f)
  unfolding evict
  evict_cases b f same refused moved = elim (Bool-cases (f.ref_count == 1)) [
    | inr no_match ↦ rw (no_match, evict) same
    | inl one ↦ elim (Option-cases (block a i)) [
      | inl e ↦ rw (one, e, evict) same
      | inr (frame, e) ↦
          rw (one, e, evict)
            (stored_cases b f (store b frame).0 (store b frame).1 (refused frame e)
              (λ k s. moved frame k e (ground arith) s))
    ]
  ]

  pub swap_out_cases :
      P (a, none)
      → ((b : HostSwapBackend) (frame : PhysicalBlock)
          → a.swap_backend ≡ some b
          → P (record a { swap_backend = some (store b frame).0 }, none))
      → ((b : HostSwapBackend) (f : PhysicalBlockInfo) (frame : PhysicalBlock) (k : ℕ)
          → a.swap_backend ≡ some b
          → get_elem? a.infos i ≡ some f
          → block a i ≡ some frame
          → f.ref_count ≡ 1
          → (store b frame).1 ≡ some k
          → P (record (released_last a i f) { swap_backend = some (store b frame).0 }, some k))
      → P (swap_out a i)
  unfolding swap_out
  swap_out_cases same refused moved = elim (Option-cases a.swap_backend) [
    | inl e ↦ rw (e, swap_out) same
    | inr (b, e) ↦ elim (Option-cases (get_elem? a.infos i)) [
      | inl u ↦ rw (e, u, swap_out) same
      | inr (f, u) ↦
          rw (e, u, swap_out)
            (evict_cases b f same (λ frame _. refused b frame e)
              (λ frame k at one s. moved b f frame k e u at one s))
    ]
  ]

-- Where swap_in takes a frame it gives it back, or fills it and drops the slot.
module _ {ℓ} (P : MemoryAllocator × Option ℕ → Type ℓ) (a : MemoryAllocator) (slot : ℕ) where
  restore_cases :
      (b : HostSwapBackend) (i : ℕ)
      → P (release a i, none)
      → ((frame : PhysicalBlock)
          → block a i ≡ some frame
          → (load b slot frame).1 ≡ true
          → P (
            record a {
              blocks = set a.blocks i (load b slot frame).0;
              swap_backend = some (discard b slot);
            },
            some i,
          ))
      → P (restore a b slot i)
  unfolding restore
  restore_cases b i failed filled = elim (Option-cases (block a i)) [
    | inl e ↦ rw (e, restore) failed
    | inr (frame, e) ↦ elim (Bool-cases (load b slot frame).1) [
      | inl l ↦ rw (e, l, restore) (filled frame e l)
      | inr l ↦ rw (e, l, restore) failed
    ]
  ]

module _ {ℓ} (P : MemoryAllocator × Option ℕ → Type ℓ) (a : MemoryAllocator) (slot : ℕ) where
  pub swap_in_cases :
      P (a, none)
      → ((allocate a).1 ≡ none → P ((allocate a).0, none))
      → ((i : ℕ) → (allocate a).1 ≡ some i → P (release (allocate a).0 i, none))
      → ((b : HostSwapBackend) (i : ℕ) (frame : PhysicalBlock)
          → a.swap_backend ≡ some b
          → (allocate a).1 ≡ some i
          → block (allocate a).0 i ≡ some frame
          → (load b slot frame).1 ≡ true
          → P (
            record ((allocate a).0) {
              blocks = set (allocate a).0.blocks i (load b slot frame).0;
              swap_backend = some (discard b slot);
            },
            some i,
          ))
      → P (swap_in a slot)
  unfolding swap_in
  swap_in_cases none_installed full failed filled = elim (Option-cases a.swap_backend) [
    | inl e ↦ rw (e, swap_in) none_installed
    | inr (b, e) ↦ elim (Option-cases (allocate a).1) [
      | inl u ↦ rw (e, u, swap_in) (full u)
      | inr (i, u) ↦
          rw (e, u, swap_in)
            (restore_cases P (allocate a).0 slot b i (failed i u)
              (λ frame at l. filled b i frame e u at l))
    ]
  ]
