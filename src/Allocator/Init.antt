-- ===== src/Allocator/Init.antt =====
-- The pool as bind_frames leaves it, and all that is reached from it.
use qwen_vl_paged.Prelude.{
  ℕ, zero, suc, ◌+◌, ◌<◌, ◌≡◌, refl, ◌&&◌, List, [], ◌∷◌, some, arith, leb, ltb, if◌then◌else◌,
  length, get_elem?, count,
}
use qwen_vl_paged.Block.{free}
use qwen_vl_paged.Allocator.{
  MemoryAllocator, PhysicalBlockInfo, AllocatorConfig, bind_infos, bind_free, new_allocator,
  state_count,
}
use qwen_vl_paged.Allocator.Invariant.{Matches, free_at, IsValid}
use qwen_vl_paged.Allocator.Cases.{refs, refs_of}
use qwen_vl_paged.Allocator.Keeps.{Call, step, Permits, step-IsValid}

bind_infos_fits :
    (n k i : ℕ) (f : PhysicalBlockInfo)
    → get_elem? (bind_infos n k) i ≡ some f
    → Matches f.state f.ref_count × (f.ref_count < 4294967296)
unfolding bind_infos
bind_infos_fits zero k i f e = absurd (ground arith)
bind_infos_fits (suc n) k zero f e = ground arith
bind_infos_fits (suc n) k (suc i) f e = bind_infos_fits n (k + 1) i f e

bind_infos_free : (n k i : ℕ) → free_at (get_elem? (bind_infos n k) i) ≡ (if ltb i n then 1 else 0)
unfolding bind_infos
bind_infos_free zero k i = ground arith
bind_infos_free (suc n) k zero = ground arith
bind_infos_free (suc n) k (suc i) = ground (arith, bind_infos_free n (k + 1) i)

count-bind_free :
    (n k i : ℕ) (ids : List ℕ)
    → count i (bind_free n k ids) ≡ (if leb k i && ltb i (k + n) then 1 else 0) + count i ids
unfolding bind_free
count-bind_free zero k i ids = ground arith
count-bind_free (suc n) k i ids = ground (arith, count-bind_free n (k + 1) i (k ∷ ids))

length-bind_free : (n k : ℕ) (ids : List ℕ) → length (bind_free n k ids) ≡ n + length ids
unfolding bind_free
length-bind_free zero k ids = omega arith
length-bind_free (suc n) k ids = omega (arith, length-bind_free n (k + 1) (k ∷ ids))

state_count-bind_infos : (n k : ℕ) → state_count free (bind_infos n k) ≡ n
unfolding bind_infos
state_count-bind_infos zero k = refl
state_count-bind_infos (suc n) k = omega (arith, state_count-bind_infos n (k + 1))

pub new_allocator-IsValid :
    (c : AllocatorConfig) (slab : ℕ → List ℕ) → IsValid (new_allocator c slab)
unfolding new_allocator
new_allocator-IsValid c slab = record {
  fits = bind_infos_fits c.max_blocks 0;
  listed =
      λ i. ground (arith, count-bind_free c.max_blocks 0 i [], bind_infos_free c.max_blocks 0 i);
  counted =
      omega (arith, length-bind_free c.max_blocks 0 [], state_count-bind_infos c.max_blocks 0);
}

-- The pools that calls lead to.
pub data Reach (a : MemoryAllocator) : MemoryAllocator → Type 0 where
  here : Reach a a
  next : {b d : MemoryAllocator} → Reach a b → (c : Call) → Permits b c → step b c ≡ d → Reach a d

pub Reach-IsValid : {a b : MemoryAllocator} → IsValid a → Reach a b → IsValid b
Reach-IsValid v here = v
Reach-IsValid v (next {b} r c p e) = rw e at (step-IsValid b c (Reach-IsValid v r) p)

-- A fresh pool is well formed, and so is every pool that calls of the allocator lead to from it, as
-- long as no frame is retained past 2 ^ 32 - 1 references.
pub Reach-new_allocator-IsValid :
    (c : AllocatorConfig) (slab : ℕ → List ℕ) (b : MemoryAllocator)
    → Reach (new_allocator c slab) b
    → IsValid b
Reach-new_allocator-IsValid c slab b r = Reach-IsValid (new_allocator-IsValid c slab) r

refs_bound : (n k i : ℕ) → refs_of (get_elem? (bind_infos n k) i) ≡ 0
unfolding bind_infos
refs_bound zero k i = refl
refs_bound (suc n) k zero = refl
refs_bound (suc n) k (suc i) = refs_bound n (k + 1) i

pub refs-new_allocator :
    (c : AllocatorConfig) (slab : ℕ → List ℕ) (i : ℕ) → refs (new_allocator c slab) i ≡ 0
unfolding new_allocator
refs-new_allocator c slab i = refs_bound c.max_blocks 0 i
