-- ===== src/Manager/Accounts/Evict.antt =====
-- swap_out_sequence: an entry gives up its reference exactly when the pool takes its frame.
use qwen_vl_paged.Prelude.{
  ℕ, suc, ◌+◌, ◌≤◌, ◌<◌, ◌≡◌, ◌≢◌, refl, ap, false, List, [], ◌∷◌, Option, none, some, arith, ◌==◌,
  if◌then◌else◌, has_value, count, Option-cases, inl, inr, Bool-cases, u32,
}
use qwen_vl_paged.Table.{BlockTable, BlockTableEntry, entry, update_entry}
use qwen_vl_paged.Table.Order.{Above}
use qwen_vl_paged.Table.Lookup.{scan, scan_below, entry-eq-scan, entry-update_entry}
use qwen_vl_paged.Table.References.{table_refs-update_entry}
use qwen_vl_paged.Table.Contiguous.{IsContiguous, update_entry-IsContiguous, IsSorted-IsContiguous}
use qwen_vl_paged.Allocator.{MemoryAllocator, swap_out}
use qwen_vl_paged.Allocator.Invariant.{IsValid}
use qwen_vl_paged.Allocator.Keeps.{swap_out-IsValid}
use qwen_vl_paged.Allocator.Effects.{Evicts, swap_out-Evicts}
use qwen_vl_paged.Manager.Swapping.{resident, to_slot, evict_index, evict_indices, evict_tables}
use qwen_vl_paged.Manager.Accounts.Tables.{
  AllContiguous, Balanced, Balanced-trans, AllBalanced, AllBalanced-cons,
}

-- Whether an index holds a resident entry.
abbrev pub resident_at : Option BlockTableEntry → ℕ
resident_at none = 0
resident_at (some e) = if has_value e.swap_slot then 0 else 1

count-resident :
    (i n : ℕ) (es : List BlockTableEntry)
    → Above n es
    → count i (resident es) ≡ resident_at (scan i es)
unfolding resident scan
count-resident i n [] s = refl
count-resident i n (e ∷ es) s = ground (
  arith,
  count-resident i (suc e.logical.index) es s.1,
  scan_below i (suc e.logical.index) es s.1,
)

-- The indices still to do are resident, each once.
abbrev AreResident : List ℕ → BlockTable → Type 0
AreResident is t = (i : ℕ) → count i is ≤ resident_at (entry t i)

resident-AreResident : (t : BlockTable) → IsContiguous t → AreResident (resident t.entries) t
resident-AreResident t c i = omega (
  arith,
  count-resident i 0 t.entries (IsSorted-IsContiguous t c),
  ap resident_at (entry-eq-scan t i (IsSorted-IsContiguous t c)),
)

-- One index is done: the pool and the table balance, and the others are as they were.
record Evicted (i : ℕ) (a : MemoryAllocator) (t : BlockTable) (a' : MemoryAllocator)
    (t' : BlockTable) : Type 0 where
  balanced : Balanced a t a' t'
  others : (j : ℕ) → i ≢ j → entry t' j ≡ entry t j

moved :
    (a a' : MemoryAllocator) (t : BlockTable) (i k : ℕ) (e : BlockTableEntry)
    → IsValid a'
    → IsContiguous t
    → entry t i ≡ some e
    → has_value e.swap_slot ≡ false
    → Evicts a e.physical_id (a', some k)
    → Evicted i a t a' (update_entry t i (to_slot k))
moved a a' t i k e v c at here ev = record {
  balanced = record {
    pool = v;
    shape = update_entry-IsContiguous t i (to_slot k) (λ x. refl) c;
    balance = λ j. ground (arith, ev.2 j, table_refs-update_entry j i t (to_slot k) e at);
  };
  others = λ j ne.
      ground (arith, entry-update_entry t i j (to_slot k) (λ x. refl) (IsSorted-IsContiguous t c));
}

evict_index-Evicted :
    (a : MemoryAllocator) (t : BlockTable) (i : ℕ)
    → IsValid a
    → IsContiguous t
    → 0 < resident_at (entry t i)
    → Evicted i a t (evict_index a t i).0.0 (evict_index a t i).0.1
unfolding evict_index
evict_index-Evicted a t i v c here = elim (Option-cases (entry t i)) [
  | inl u ↦ absurd (ground (arith, u))
  | inr (e, u) ↦
      rw (u, evict_index)
        (step e u (ground (arith, u)) (swap_out a e.physical_id)
          (swap_out-IsValid a e.physical_id v) (swap_out-Evicts a e.physical_id))
]
  where
    goes : MemoryAllocator × Option ℕ → (MemoryAllocator × BlockTable) × ℕ
    goes r = elim r.1 [ none ↦ ((r.0, t), 0) | some k ↦ ((r.0, update_entry t i (to_slot k)), 1) ]

    step :
        (e : BlockTableEntry) (u : entry t i ≡ some e) (h : has_value e.swap_slot ≡ false)
        (r : MemoryAllocator × Option ℕ)
        → IsValid r.0
        → Evicts a e.physical_id r
        → Evicted i a t (goes r).0.0 (goes r).0.1
    step e u h (a', none) v' ev = record {
      balanced = record { pool = v'; shape = c; balance = λ j. omega (arith, ev.0 j) };
      others = λ j ne. refl;
    }
    step e u h (a', some k) v' ev = moved a a' t i k e v' c u h ev

evict_indices-Balanced :
    (is : List ℕ) (a : MemoryAllocator) (t : BlockTable) (n : ℕ)
    → IsValid a
    → IsContiguous t
    → AreResident is t
    → Balanced a t (evict_indices is a t n).0.0 (evict_indices is a t n).0.1
unfolding evict_indices
evict_indices-Balanced [] a t n v c here = record { pool = v; shape = c; balance = λ j. refl }
evict_indices-Balanced (i ∷ is) a t n v c here =
    let first = evict_index-Evicted a t i v c (ground (arith, here i)) in
    Balanced-trans first.balanced (
      evict_indices-Balanced is (evict_index a t i).0.0 (evict_index a t i).0.1
        (u32 (n + (evict_index a t i).1)) first.balanced.pool first.balanced.shape
        (λ j. left j first.others))
  where
    resident_le : (o : Option BlockTableEntry) → resident_at o ≤ 1
    resident_le none = omega arith
    resident_le (some e) = ground arith

    left :
        (j : ℕ)
        → ((k : ℕ) → i ≢ k → entry (evict_index a t i).0.1 k ≡ entry t k)
        → count j is ≤ resident_at (entry (evict_index a t i).0.1 j)
    left j others = elim (Bool-cases (i == j)) [
      | inl same ↦ ground (arith, here j, resident_le (entry t j))
      | inr other ↦
          let kept : entry (evict_index a t i).0.1 j ≡ entry t j = others j (ground arith) in
          rw kept (ground (arith, here j))
    ]

pub evict_tables-AllBalanced :
    (a : MemoryAllocator) (ts : List BlockTable) (n : ℕ)
    → IsValid a
    → AllContiguous ts
    → AllBalanced a ts (evict_tables a ts n).0.0 (evict_tables a ts n).0.1
unfolding evict_tables
evict_tables-AllBalanced a [] n v c = record { pool = v; shape = tt; balance = λ j. refl }
evict_tables-AllBalanced a (t ∷ ts) n v c =
    let r = evict_indices (resident t.entries) a t n in
    let first =
      evict_indices-Balanced (resident t.entries) a t n v c.0 (resident-AreResident t c.0) in
    AllBalanced-cons first (evict_tables-AllBalanced r.0.0 ts r.1 first.pool c.1)
