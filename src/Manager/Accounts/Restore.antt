-- ===== src/Manager/Accounts/Restore.antt =====
-- swap_in_sequence: each entry in a slot gains the reference that its new frame is given.
use qwen_vl_paged.Prelude.{
  ℕ, zero, suc, ◌+◌, ◌≡◌, refl, Bool, true, false, List, [], ◌∷◌, Option, none, some, arith, length,
  has_value, get_elem?, Option-cases, inl, inr, Bool-cases,
}
use qwen_vl_paged.Table.{BlockTable, BlockTableEntry, entry, update_entry}
use qwen_vl_paged.Table.References.{table_refs-update_entry}
use qwen_vl_paged.Table.Contiguous.{IsContiguous, update_entry-IsContiguous}
use qwen_vl_paged.Allocator.{MemoryAllocator, swap_in}
use qwen_vl_paged.Allocator.Invariant.{IsValid}
use qwen_vl_paged.Allocator.Keeps.{swap_in-IsValid}
use qwen_vl_paged.Allocator.Effects.{Restores, swap_in-Restores}
use qwen_vl_paged.Manager.Swapping.{to_frame, restore_index, restore_entries, restore_tables}
use qwen_vl_paged.Manager.Accounts.Tables.{
  AllContiguous, Balanced, Balanced-trans, AllBalanced, AllBalanced-cons, AllBalanced-head,
}

restore_index-Balanced :
    (a : MemoryAllocator) (t : BlockTable) (i : ℕ)
    → IsValid a
    → IsContiguous t
    → Balanced a t (restore_index a t i).0.0 (restore_index a t i).0.1
unfolding restore_index
restore_index-Balanced a t i v c = elim (Option-cases (entry t i)) [
  | inl u ↦ rw (u, restore_index) same
  | inr (e, u) ↦ elim (Option-cases e.swap_slot) [
    | inl here ↦ rw (u, here, restore_index) same
    | inr (slot, gone) ↦
        rw (u, gone, restore_index)
          (step e slot u gone (swap_in a slot) (swap_in-IsValid a slot v)
            (swap_in-Restores a slot v))
  ]
]
  where
    same : Balanced a t a t
    same = record { pool = v; shape = c; balance = λ j. refl }

    goes : MemoryAllocator × Option ℕ → (MemoryAllocator × BlockTable) × Bool
    goes r = elim r.1 [
      | none ↦ ((r.0, t), false)
      | some p ↦ ((r.0, update_entry t i (to_frame p)), true)
    ]

    step :
        (e : BlockTableEntry) (slot : ℕ) (u : entry t i ≡ some e) (gone : e.swap_slot ≡ some slot)
        (r : MemoryAllocator × Option ℕ)
        → IsValid r.0
        → Restores a r
        → Balanced a t (goes r).0.0 (goes r).0.1
    step e slot u gone (a', none) v' re = record {
      pool = v';
      shape = c;
      balance = λ j. omega (arith, re j);
    }
    step e slot u gone (a', some p) v' re = record {
      pool = v';
      shape = update_entry-IsContiguous t i (to_frame p) (λ x. refl) c;
      balance = λ j. ground (arith, gone, re.1 j, table_refs-update_entry j i t (to_frame p) e u);
    }

restore_entries-Balanced :
    (n k : ℕ) (a : MemoryAllocator) (t : BlockTable)
    → IsValid a
    → IsContiguous t
    → Balanced a t (restore_entries n k a t).0.0 (restore_entries n k a t).0.1
unfolding restore_entries
restore_entries-Balanced zero k a t v c = record { pool = v; shape = c; balance = λ j. refl }
restore_entries-Balanced (suc n) k a t v c = elim (Option-cases (get_elem? t.entries k)) [
  | inl u ↦ rw (u, restore_entries) (record { pool = v; shape = c; balance = λ j. refl })
  | inr (e, u) ↦ elim (Bool-cases (has_value e.swap_slot)) [
    | inr here ↦ rw (u, here, restore_entries) (restore_entries-Balanced n (k + 1) a t v c)
    | inl gone ↦
        let r = restore_index a t e.logical.index in
        let first = restore_index-Balanced a t e.logical.index v c in
        elim (Bool-cases r.1) [
          | inl done ↦
              rw (u, gone, done, restore_entries)
                (Balanced-trans first
                  (restore_entries-Balanced n (k + 1) r.0.0 r.0.1 first.pool first.shape))
          | inr failed ↦ rw (u, gone, failed, restore_entries) first
        ]
  ]
]

pub restore_tables-AllBalanced :
    (a : MemoryAllocator) (ts : List BlockTable)
    → IsValid a
    → AllContiguous ts
    → AllBalanced a ts (restore_tables a ts).0.0 (restore_tables a ts).0.1
unfolding restore_tables
restore_tables-AllBalanced a [] v c = record { pool = v; shape = tt; balance = λ j. refl }
restore_tables-AllBalanced a (t ∷ ts) v c =
    let r = restore_entries (length t.entries) 0 a t in
    let first = restore_entries-Balanced (length t.entries) 0 a t v c.0 in
    elim (Bool-cases r.1) [
      | inl done ↦
          rw (done, restore_tables)
            (AllBalanced-cons first (restore_tables-AllBalanced r.0.0 ts first.pool c.1))
      | inr failed ↦ rw (failed, restore_tables) (AllBalanced-head ts c.1 first)
    ]
