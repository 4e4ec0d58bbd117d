-- ===== src/Table/References.antt =====
-- The references that a table's resident entries hold on frames.
use qwen_vl_paged.Prelude.{
  ℕ, ◌+◌, ◌≡◌, refl, Bool, Option, none, some, List, [], ◌∷◌, ◌++◌, map, arith, ◌==◌, if◌then◌else◌,
  has_value, sum_by,
}
use qwen_vl_paged.Block.{LogicalBlock}
use qwen_vl_paged.Table.{
  BlockTable, BlockTableEntry, before_bound, lower_bound_index, mapping, insert_mapping_entries,
  insert_mapping, front_at, entry, update_front, update_entry, fork_entry, fork,
}

-- A resident entry refers to its frame; the frame of a swapped entry is stale.
abbrev pub entry_refs : ℕ → BlockTableEntry → ℕ
entry_refs i e = if has_value e.swap_slot then 0 else if e.physical_id == i then 1 else 0

abbrev pub table_refs : ℕ → BlockTable → ℕ
table_refs i t = sum_by (entry_refs i) t.entries

abbrev pub refs_at : ℕ → Option BlockTableEntry → ℕ
refs_at i none = 0
refs_at i (some e) = entry_refs i e

insert_refs :
    (i : ℕ) (b : LogicalBlock) (p : ℕ) (w : Bool) (es : List BlockTableEntry)
    → sum_by (entry_refs i) (insert_mapping_entries b p w es)
        + refs_at i (front_at b.index (lower_bound_index es b.index))
      ≡ sum_by (entry_refs i) es + (if p == i then 1 else 0)
unfolding insert_mapping_entries mapping front_at
insert_refs i b p w [] = ground arith
insert_refs i b p w (e ∷ es) = ground (arith, insert_refs i b p w es)

update_refs :
    (i k : ℕ) (f : BlockTableEntry → BlockTableEntry) (e : BlockTableEntry)
    (es : List BlockTableEntry)
    → front_at k (lower_bound_index es k) ≡ some e
    → sum_by (entry_refs i) (before_bound es k ++ update_front k f (lower_bound_index es k))
        + entry_refs i e
      ≡ sum_by (entry_refs i) es + entry_refs i (f e)
unfolding before_bound lower_bound_index update_front front_at
update_refs i k f e [] h = absurd (ground arith)
update_refs i k f e (x ∷ es) h = ground (arith, update_refs i k f e es)

fork_refs :
    (i child : ℕ) (es : List BlockTableEntry)
    → sum_by (entry_refs i) (map (fork_entry child) es) ≡ sum_by (entry_refs i) es
fork_refs i child [] = refl
fork_refs i child (e ∷ es) = ground (arith, fork_refs i child es)

-- Mapping a block moves the index's reference, if it held one, to the new frame.
pub table_refs-insert_mapping :
    (i : ℕ) (t : BlockTable) (b : LogicalBlock) (p : ℕ) (w : Bool)
    → table_refs i (insert_mapping t b p w) + refs_at i (entry t b.index)
      ≡ table_refs i t + (if p == i then 1 else 0)
unfolding insert_mapping entry
table_refs-insert_mapping i t b p w = insert_refs i b p w t.entries

pub table_refs-update_entry :
    (i k : ℕ) (t : BlockTable) (f : BlockTableEntry → BlockTableEntry) (e : BlockTableEntry)
    → entry t k ≡ some e
    → table_refs i (update_entry t k f) + entry_refs i e ≡ table_refs i t + entry_refs i (f e)
unfolding update_entry entry
table_refs-update_entry i k t f e h = update_refs i k f e t.entries h

pub table_refs-fork : (i child : ℕ) (t : BlockTable) → table_refs i (fork t child) ≡ table_refs i t
unfolding fork
table_refs-fork i child t = fork_refs i child t.entries
