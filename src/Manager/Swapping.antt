-- ===== src/Manager/Swapping.antt =====
-- Swapping one sequence out and in, in src/KVCacheManager.cpp.
use qwen_vl_paged.Prelude.{
  ℕ, zero, suc, ◌+◌, none, some, Bool, true, false, not, List, [], ◌∷◌, ◌==◌, if◌then◌else◌, length,
  get_elem?, has_value, u32, nat_eq, find, put,
}
use qwen_vl_paged.Table.{BlockTable, BlockTableEntry, entry, update_entry}
use qwen_vl_paged.Allocator.{MemoryAllocator, swap_out, swap_in, can_allocate}
use qwen_vl_paged.Manager.State.{KvCacheManager}

unfoldable pub resident : List BlockTableEntry → List ℕ
resident [] = []
resident (e ∷ es) = if has_value e.swap_slot then resident es else e.logical.index ∷ resident es

abbrev pub to_slot : ℕ → BlockTableEntry → BlockTableEntry
to_slot slot e = record e { swap_slot = some slot }

-- One resident index: the table's entry goes to a slot if the allocator evicts its frame.
unfoldable pub evict_index : MemoryAllocator → BlockTable → ℕ → (MemoryAllocator × BlockTable) × ℕ
evict_index a t i = elim (entry t i) [
  | none ↦ ((a, t), 0)
  | some e ↦
      let (a', slot) = swap_out a e.physical_id in
      elim slot [ none ↦ ((a', t), 0) | some k ↦ ((a', update_entry t i (to_slot k)), 1) ]
]

unfoldable pub evict_indices :
    List ℕ → MemoryAllocator → BlockTable → ℕ → (MemoryAllocator × BlockTable) × ℕ
unfolding evict_index
evict_indices [] a t swapped = ((a, t), swapped)
evict_indices (i ∷ is) a t swapped =
    let ((a', t'), n) = evict_index a t i in evict_indices is a' t' (u32 (swapped + n))

unfoldable pub evict_tables :
    MemoryAllocator → List BlockTable → ℕ → (MemoryAllocator × List BlockTable) × ℕ
unfolding evict_indices resident
evict_tables a [] swapped = ((a, []), swapped)
evict_tables a (t ∷ ts) swapped =
    let ((a', t'), n) = evict_indices (resident t.entries) a t swapped in
    let ((a'', ts'), n') = evict_tables a' ts n in ((a'', t' ∷ ts'), n')

unfoldable pub swap_out_sequence : KvCacheManager → ℕ → KvCacheManager × ℕ
unfolding evict_tables
swap_out_sequence m seq = elim (find seq m.sequences) [
  | none ↦ (m, 0)
  | some s ↦
      let ((a, ts), swapped) = evict_tables m.allocator s.tables 0 in
      (
        record m { allocator = a; sequences = put seq (record s { tables = ts }) m.sequences },
        swapped,
      )
]

abbrev pub swapped_count : List BlockTableEntry → ℕ
swapped_count [] = 0
swapped_count (e ∷ es) = (if has_value e.swap_slot then 1 else 0) + swapped_count es

abbrev pub swapped_in_tables : List BlockTable → ℕ
swapped_in_tables [] = 0
swapped_in_tables (t ∷ ts) = swapped_count t.entries + swapped_in_tables ts

abbrev pub to_frame : ℕ → BlockTableEntry → BlockTableEntry
to_frame p e = record e { physical_id = p; swap_slot = none }

-- One entry that is met in a slot: the entry that mutable_entry finds at its index is restored.
unfoldable pub restore_index :
    MemoryAllocator → BlockTable → ℕ → (MemoryAllocator × BlockTable) × Bool
restore_index a t i = elim (entry t i) [
  | none ↦ ((a, t), false)
  | some e ↦ elim e.swap_slot [
    | none ↦ ((a, t), false)
    | some slot ↦
        let (a', restored) = swap_in a slot in
        elim restored [
          | none ↦ ((a', t), false)
          | some p ↦ ((a', update_entry t i (to_frame p)), true)
        ]
  ]
]

-- The loop over the entries of a table that it changes: `n` positions left, from position k on.
unfoldable pub restore_entries :
    ℕ → ℕ → MemoryAllocator → BlockTable → (MemoryAllocator × BlockTable) × Bool
unfolding restore_index
restore_entries zero k a t = ((a, t), true)
restore_entries (suc n) k a t = elim (get_elem? t.entries k) [
  | none ↦ ((a, t), true)
  | some e ↦
      let resident_rest = restore_entries n (k + 1) a t in
      let ((a', t'), done) = restore_index a t e.logical.index in
      let rest = restore_entries n (k + 1) a' t' in
      if not (has_value e.swap_slot)
      then resident_rest
      else if done
      then rest
      else ((a', t'), false)
]

unfoldable pub restore_tables :
    MemoryAllocator → List BlockTable → (MemoryAllocator × List BlockTable) × Bool
unfolding restore_entries
restore_tables a [] = ((a, []), true)
restore_tables a (t ∷ ts) =
    let ((a', t'), done) = restore_entries (length t.entries) 0 a t in
    elim done [
      | false ↦ ((a', t' ∷ ts), false)
      | true ↦ let ((a'', ts'), all) = restore_tables a' ts in ((a'', t' ∷ ts'), all)
    ]

unfoldable pub swap_in_sequence : KvCacheManager → ℕ → KvCacheManager × Bool
unfolding restore_tables
swap_in_sequence m seq = elim (find seq m.sequences) [
  | none ↦ (m, false)
  | some s ↦
      if u32 (swapped_in_tables s.tables) == 0
      then (m, true)
      else if not (can_allocate m.allocator (u32 (swapped_in_tables s.tables)))
      then (m, false)
      else let ((a, ts), done) = restore_tables m.allocator s.tables in
        (
          record m { allocator = a; sequences = put seq (record s { tables = ts }) m.sequences },
          done,
        )
]
