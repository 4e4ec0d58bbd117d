-- ===== src/Allocator/Invariant.antt =====
-- The well-formedness of the pool's bookkeeping, as a property of the frame infos and the free list.
use qwen_vl_paged.Prelude.{
  ℕ, zero, suc, ◌+◌, ◌≤◌, ◌<◌, ◌≡◌, inl, inr, List, [], ◌∷◌, Option, none, some, arith, ◌==◌,
  if◌then◌else◌, length, get_elem?, set, count, get_elem?-set, Bool-cases,
}
use qwen_vl_paged.Block.{BlockState, free, active, shared, swapped}
use qwen_vl_paged.Allocator.{MemoryAllocator, PhysicalBlockInfo, state_is, state_count}

-- The reference counts that a state stands for. No frame is ever marked swapped.
abbrev pub Matches : BlockState → ℕ → Type 0
Matches free n = n ≡ 0
Matches active n = n ≡ 1
Matches shared n = 2 ≤ n
Matches swapped n = ⊥

abbrev pub free_at : Option PhysicalBlockInfo → ℕ
free_at none = 0
free_at (some f) = if f.ref_count == 0 then 1 else 0

pub record IsValidPool (infos : List PhysicalBlockInfo) (ids : List ℕ) : Type 0 where
  pub fits :
      (i : ℕ) (f : PhysicalBlockInfo)
      → get_elem? infos i ≡ some f
      → Matches f.state f.ref_count × (f.ref_count < 4294967296)
  pub listed : (i : ℕ) → count i ids ≡ free_at (get_elem? infos i)
  pub counted : state_count free infos ≡ length ids

abbrev pub IsValid : MemoryAllocator → Type 0
IsValid a = IsValidPool a.infos a.free_list

state_count-set :
    (s : BlockState) (fs : List PhysicalBlockInfo) (i : ℕ) (f g : PhysicalBlockInfo)
    → get_elem? fs i ≡ some f
    → state_count s (set fs i g) + state_is s f.state ≡ state_count s fs + state_is s g.state
state_count-set s [] i f g h = absurd (ground arith)
state_count-set s (x ∷ fs) zero f g h = ground arith
state_count-set s (x ∷ fs) (suc i) f g h = omega (arith, state_count-set s fs i f g h)

-- A frame's info is replaced, and the free list with it.
module _ (infos : List PhysicalBlockInfo) (ids new_ids : List ℕ) (i : ℕ) (f g : PhysicalBlockInfo)
    (v : IsValidPool infos ids) (at : get_elem? infos i ≡ some f)
    (ok : Matches g.state g.ref_count × (g.ref_count < 4294967296))
    (moves : (j : ℕ) → count j new_ids ≡ (if i == j then free_at (some g) else count j ids))
    (grows : length new_ids + state_is free f.state ≡ length ids + state_is free g.state) where
  fits_after :
      (j : ℕ) (x : PhysicalBlockInfo)
      → get_elem? (set infos i g) j ≡ some x
      → Matches x.state x.ref_count × (x.ref_count < 4294967296)
  fits_after j x h = elim (Bool-cases (i == j)) [
    | inl same ↦ ground (arith, get_elem?-set infos i j g at)
    | inr other ↦ v.fits j x (ground (arith, get_elem?-set infos i j g at))
  ]

  listed_after : (j : ℕ) → count j new_ids ≡ free_at (get_elem? (set infos i g) j)
  listed_after j = ground (arith, get_elem?-set infos i j g at, moves j, v.listed j)

  pub IsValidPool-set : IsValidPool (set infos i g) new_ids
  IsValidPool-set = record {
    fits = fits_after;
    listed = listed_after;
    counted = omega (arith, state_count-set free infos i f g at, v.counted);
  }
