-- ===== src/Table.antt =====
-- include/qwenvl_paged/BlockTable.h and src/BlockTable.cpp: the page table of one sequence.
-- `BlockTable::map` is `insert_mapping` here and `BlockTable::lookup` is `lookup`. A pointer to an
-- entry is the entry, and a write through `mutable_entry` is `update_entry`.
pub mod Order
pub mod Lookup
pub mod Contiguous
pub mod References
use qwen_vl_paged.Prelude.{
  ℕ, Option, none, some, Bool, false, List, [], ◌∷◌, ◌++◌, map, ltb, ◌==◌, if◌then◌else◌, length,
  is_empty, has_value,
}
use qwen_vl_paged.Block.{CacheKind, LogicalBlock}

pub record BlockTableEntry : Type 0 where
  pub logical : LogicalBlock
  pub physical_id : ℕ
  pub writable : Bool
  pub swap_slot : Option ℕ

pub record BlockTable : Type 0 where
  pub sequence_id : ℕ
  pub cache_kind : CacheKind
  pub entries : List BlockTableEntry

unfoldable pub new_table : ℕ → CacheKind → BlockTable
new_table seq kind = record { sequence_id = seq; cache_kind = kind; entries = [] }

unfoldable pub size : BlockTable → ℕ
size t = length t.entries

unfoldable pub empty : BlockTable → Bool
empty t = is_empty t.entries

-- What std::lower_bound leaves in front of the position that it returns, and from it on.
unfoldable pub before_bound : List BlockTableEntry → ℕ → List BlockTableEntry
before_bound [] i = []
before_bound (e ∷ es) i = if ltb e.logical.index i then e ∷ before_bound es i else []

unfoldable pub lower_bound_index : List BlockTableEntry → ℕ → List BlockTableEntry
lower_bound_index [] i = []
lower_bound_index (e ∷ es) i = if ltb e.logical.index i then lower_bound_index es i else e ∷ es

mapping : LogicalBlock → ℕ → Bool → BlockTableEntry
mapping b p w = record { logical = b; physical_id = p; writable = w; swap_slot = none }

-- The entries from the bound on: the first is replaced if it has the index, else one is inserted.
insert_at : LogicalBlock → ℕ → Bool → List BlockTableEntry → List BlockTableEntry
unfolding mapping
insert_at b p w [] = mapping b p w ∷ []
insert_at b p w (e ∷ es) =
    if e.logical.index == b.index then mapping b p w ∷ es else mapping b p w ∷ e ∷ es

pub insert_mapping_entries : LogicalBlock → ℕ → Bool → List BlockTableEntry → List BlockTableEntry
unfolding insert_at before_bound lower_bound_index
insert_mapping_entries b p w es =
    before_bound es b.index ++ insert_at b p w (lower_bound_index es b.index)

unfoldable pub insert_mapping : BlockTable → LogicalBlock → ℕ → Bool → BlockTable
unfolding insert_mapping_entries
insert_mapping t b p w = record t { entries = insert_mapping_entries b p w t.entries }

-- The entry at the front of what lower_bound_index returns, if it has the index.
unfoldable pub front_at : ℕ → List BlockTableEntry → Option BlockTableEntry
front_at i [] = none
front_at i (e ∷ es) = if e.logical.index == i then some e else none

-- `BlockTable::entry`, and what `BlockTable::mutable_entry` points to.
unfoldable pub entry : BlockTable → ℕ → Option BlockTableEntry
unfolding front_at lower_bound_index
entry t i = front_at i (lower_bound_index t.entries i)

unfoldable pub update_front :
    ℕ → (BlockTableEntry → BlockTableEntry) → List BlockTableEntry → List BlockTableEntry
update_front i f [] = []
update_front i f (e ∷ es) = if e.logical.index == i then f e ∷ es else e ∷ es

-- A write through the pointer that `BlockTable::mutable_entry` returns.
unfoldable pub update_entry : BlockTable → ℕ → (BlockTableEntry → BlockTableEntry) → BlockTable
unfolding update_front before_bound lower_bound_index
update_entry t i f = record t {
  entries = before_bound t.entries i ++ update_front i f (lower_bound_index t.entries i);
}

unfoldable pub drop_front : List BlockTableEntry → List BlockTableEntry
drop_front [] = []
drop_front (e ∷ es) = es

unfoldable pub unmap : BlockTable → ℕ → BlockTable × Option ℕ
unfolding entry drop_front before_bound
unmap t i = elim (entry t i) [
  | none ↦ (t, none)
  | some e ↦ (
    record t { entries = before_bound t.entries i ++ drop_front (lower_bound_index t.entries i) },
    some e.physical_id,
  )
]

unfoldable pub lookup : BlockTable → ℕ → Option ℕ
unfolding entry
lookup t i = elim (entry t i) [
  | none ↦ none
  | some e ↦ if has_value e.swap_slot then none else some e.physical_id
]

unfoldable pub set_writable : BlockTable → ℕ → Bool → BlockTable
unfolding update_entry
set_writable t i w = update_entry t i (λ e. record e { writable = w })

abbrev pub fork_entry : ℕ → BlockTableEntry → BlockTableEntry
fork_entry child e = record e { writable = false; logical = record l { sequence_id = child } }
  where
    open e use {logical as l}

unfoldable pub fork : BlockTable → ℕ → BlockTable
fork t child = record t { sequence_id = child; entries = map (fork_entry child) t.entries }
