-- ===== src/Allocator/Numbered.antt =====
-- The allocator of src/MemoryAllocator.cpp against the slot numbers of the backend that it owns.
use qwen_vl_paged.Prelude.{
  ℕ, ◌+◌, ◌≤◌, ◌<◌, ◌≡◌, refl, ◌∙◌, inl, inr, Option, none, some, List, [], ◌∷◌, arith, get_elem?,
  Option-cases,
}
use mathlib.Core.Path.{subst}
use qwen_vl_paged.Block.{PhysicalBlock}
use qwen_vl_paged.Swap.{HostSwapBackend, new_backend, store, discard}
use qwen_vl_paged.Swap.Slots.{
  IsNumbered, store-IsNumbered, store-next_slot, discard-IsNumbered, new_backend-IsNumbered,
}
use qwen_vl_paged.Allocator.{
  MemoryAllocator, AllocatorConfig, new_allocator, set_swap_backend, allocate, take_block, release,
  retain, swap_out, swap_in, discard_swapped, copy_block,
}
use qwen_vl_paged.Allocator.Cases.{release_cases, retain_cases, swap_out_cases, swap_in_cases}
use qwen_vl_paged.Allocator.Keeps.{
  Call, step, allocates, releases, retains, swaps_out, swaps_in, discards, copies,
}
use qwen_vl_paged.Allocator.Init.{Reach, here, next}

-- No resident slot has the number that the backend gives out next, or one above it.
abbrev pub IsNumberedPool : MemoryAllocator → Type 0
IsNumberedPool a = (b : HostSwapBackend) → a.swap_backend ≡ some b → IsNumbered b

-- That holds of the backend, if there is one, and its next number is `n` at most.
abbrev IsNumberedTo : ℕ → Option HostSwapBackend → Type 0
IsNumberedTo n none = Unit {0}
IsNumberedTo n (some b) = IsNumbered b × (b.next_slot ≤ n)

IsNumberedTo-more : (n : ℕ) (o : Option HostSwapBackend) → IsNumberedTo n o → IsNumberedTo (n + 1) o
IsNumberedTo-more n none h = tt
IsNumberedTo-more n (some b) h = (h.0, omega (arith, h.1))

take_block-swap_backend :
    (a : MemoryAllocator) (ids : List ℕ) → (take_block a ids).0.swap_backend ≡ a.swap_backend
unfolding take_block
take_block-swap_backend a [] = refl
take_block-swap_backend a (i ∷ ids) = elim (Option-cases (get_elem? a.infos i)) [
  | inl e ↦ rw (e, take_block) refl
  | inr (f, e) ↦ rw (e, take_block) refl
]

allocate-swap_backend : (a : MemoryAllocator) → (allocate a).0.swap_backend ≡ a.swap_backend
unfolding allocate
allocate-swap_backend a = take_block-swap_backend a a.free_list

release-swap_backend : (a : MemoryAllocator) (i : ℕ) → (release a i).swap_backend ≡ a.swap_backend
release-swap_backend a i =
    release_cases (λ x. x.swap_backend ≡ a.swap_backend) a i (λ _. refl) (λ _ _ _. refl)
      (λ _ _ _. refl)

retain-swap_backend : (a : MemoryAllocator) (i : ℕ) → (retain a i).swap_backend ≡ a.swap_backend
retain-swap_backend a i =
    retain_cases (λ x. x.swap_backend ≡ a.swap_backend) a i (λ _. refl) (λ _ _ _. refl)

copy_block-swap_backend :
    (a : MemoryAllocator) (i j : ℕ) → (copy_block a i j).swap_backend ≡ a.swap_backend
unfolding copy_block
copy_block-swap_backend a i j = elim (Option-cases a.copy_hook) [
  | inl e ↦ rw (e, copy_block) refl
  | inr (hook, e) ↦ rw (e, copy_block) refl
]

module _ (a : MemoryAllocator) (n : ℕ) (h : IsNumberedTo n a.swap_backend) where
  unchanged :
      (a' : MemoryAllocator)
      → a'.swap_backend ≡ a.swap_backend
      → IsNumberedTo (n + 1) a'.swap_backend
  unchanged a' e = rw e (IsNumberedTo-more n a.swap_backend h)

  of_backend : (b : HostSwapBackend) → a.swap_backend ≡ some b → IsNumberedTo n (some b)
  of_backend b e = subst (IsNumberedTo n) e h

  stored :
      (b : HostSwapBackend) (frame : PhysicalBlock)
      → n + 1 < 18446744073709551616
      → a.swap_backend ≡ some b
      → IsNumberedTo (n + 1) (some (store b frame).0)
  stored b frame small e =
      let (fresh, below) = of_backend b e in
      (
        store-IsNumbered b frame (omega (arith, below, small)) fresh,
        omega (arith, below, store-next_slot b frame (omega (arith, below, small))),
      )

  discarded :
      (b : HostSwapBackend) (slot : ℕ)
      → a.swap_backend ≡ some b
      → IsNumberedTo (n + 1) (some (discard b slot))
  unfolding discard
  discarded b slot e =
      let (fresh, below) = of_backend b e in (discard-IsNumbered b slot fresh, omega (arith, below))

  swap_out-IsNumberedTo :
      (i : ℕ) → n + 1 < 18446744073709551616 → IsNumberedTo (n + 1) (swap_out a i).0.swap_backend
  swap_out-IsNumberedTo i small =
      swap_out_cases (λ res. IsNumberedTo (n + 1) res.0.swap_backend) a i (unchanged a refl)
        (λ b frame e. stored b frame small e) (λ b f frame k e _ _ _ _. stored b frame small e)

  swap_in-IsNumberedTo : (slot : ℕ) → IsNumberedTo (n + 1) (swap_in a slot).0.swap_backend
  swap_in-IsNumberedTo slot =
      swap_in_cases (λ res. IsNumberedTo (n + 1) res.0.swap_backend) a slot (unchanged a refl)
        (λ _. unchanged (allocate a).0 (allocate-swap_backend a))
        (λ i _.
          unchanged (release (allocate a).0 i)
            (release-swap_backend (allocate a).0 i ∙ allocate-swap_backend a))
        (λ b i frame e _ _ _. discarded b slot e)

  discard_swapped-IsNumberedTo :
      (slot : ℕ) → IsNumberedTo (n + 1) (discard_swapped a slot).swap_backend
  unfolding discard_swapped
  discard_swapped-IsNumberedTo slot = elim (Option-cases a.swap_backend) [
    | inl e ↦ rw (e, discard_swapped) (unchanged a refl)
    | inr (b, e) ↦ rw (e, discard_swapped) (discarded b slot e)
  ]

step-IsNumberedTo :
    (a : MemoryAllocator) (n : ℕ) (c : Call)
    → n + 1 < 18446744073709551616
    → IsNumberedTo n a.swap_backend
    → IsNumberedTo (n + 1) (step a c).swap_backend
unfolding step
step-IsNumberedTo a n allocates small h = unchanged a n h (allocate a).0 (allocate-swap_backend a)
step-IsNumberedTo a n (releases i) small h =
    unchanged a n h (release a i) (release-swap_backend a i)
step-IsNumberedTo a n (retains i) small h = unchanged a n h (retain a i) (retain-swap_backend a i)
step-IsNumberedTo a n (swaps_out i) small h = swap_out-IsNumberedTo a n h i small
step-IsNumberedTo a n (swaps_in slot) small h = swap_in-IsNumberedTo a n h slot
step-IsNumberedTo a n (discards slot) small h = discard_swapped-IsNumberedTo a n h slot
step-IsNumberedTo a n (copies i j) small h =
    unchanged a n h (copy_block a i j) (copy_block-swap_backend a i j)

-- How many calls there are.
abbrev pub calls : {a b : MemoryAllocator} → Reach a b → ℕ
calls here = 0
calls (next r c p e) = calls r + 1

Reach-IsNumberedTo :
    {a b : MemoryAllocator} (n : ℕ) (r : Reach a b)
    → n + calls r < 18446744073709551616
    → IsNumberedTo n a.swap_backend
    → IsNumberedTo (n + calls r) b.swap_backend
Reach-IsNumberedTo {a = a} n here small h =
    subst (λ k. IsNumberedTo k a.swap_backend) (omega arith) h
Reach-IsNumberedTo {b = b} n (next {b = d} r c p e) small h =
    subst (λ k. IsNumberedTo k b.swap_backend) (omega arith)
      (rw e at (
        step-IsNumberedTo d (n + calls r) c (omega (arith, small))
          (Reach-IsNumberedTo n r (omega (arith, small)) h)))

-- Take a fresh pool with an empty backend of any capacity. In every pool that fewer than 2 ^ 64 - 1
-- calls of allocate, release, retain, swap_out, swap_in, discard_swapped and copy_block lead to from
-- it, with no frame retained past 2 ^ 32 - 1 references, the number that the backend gives out next
-- and those above it are of no resident slot.
pub Reach-IsNumberedPool :
    (c : AllocatorConfig) (slab : ℕ → List ℕ) (capacity : ℕ) (a : MemoryAllocator)
    (r : Reach (set_swap_backend (new_allocator c slab) (some (new_backend capacity))) a)
    → 1 + calls r < 18446744073709551616
    → IsNumberedPool a
unfolding set_swap_backend new_backend
Reach-IsNumberedPool c slab capacity a r small b e =
    (subst (IsNumberedTo (1 + calls r)) e
      (Reach-IsNumberedTo 1 r small (new_backend-IsNumbered capacity, omega arith))).0
