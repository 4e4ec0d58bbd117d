-- ===== src/Table/Lookup.antt =====
-- A sorted table is a finite map from logical indices to entries.
use qwen_vl_paged.Prelude.{
  ℕ, suc, ◌<◌, ◌≡◌, refl, Bool, false, Option, none, some, List, [], ◌∷◌, ◌++◌, map, arith, ◌==◌,
  if◌then◌else◌, Option-cases, inl, inr,
}
use mathlib.Core.Option
use qwen_vl_paged.Block.{LogicalBlock}
use qwen_vl_paged.Table.{
  BlockTable, BlockTableEntry, before_bound, lower_bound_index, mapping, insert_mapping_entries,
  insert_mapping, front_at, entry, update_front, update_entry, drop_front, unmap, fork_entry, fork,
}
use qwen_vl_paged.Table.Order.{
  Above, IsSorted, KeepsIndex, drop-Above, insert_mapping-IsSorted, update_entry-IsSorted,
  fork-IsSorted,
}

-- The first entry with the index, by a scan of all entries.
unfoldable pub scan : ℕ → List BlockTableEntry → Option BlockTableEntry
scan i [] = none
scan i (e ∷ es) = if e.logical.index == i then some e else scan i es

pub scan_below : (i n : ℕ) (es : List BlockTableEntry) → Above n es → i < n → scan i es ≡ none
unfolding scan
scan_below i n [] s h = refl
scan_below i n (e ∷ es) s h = ground (arith, scan_below i (suc e.logical.index) es s.1)

front_at-scan :
    (i n : ℕ) (es : List BlockTableEntry)
    → Above n es
    → front_at i (lower_bound_index es i) ≡ scan i es
unfolding front_at lower_bound_index scan
front_at-scan i n [] s = refl
front_at-scan i n (e ∷ es) s =
    ground (
      arith,
      front_at-scan i (suc e.logical.index) es s.1,
      scan_below i (suc e.logical.index) es s.1,
    )

-- In a sorted table the binary search of `entry` finds what a scan of all the entries finds.
pub entry-eq-scan : (t : BlockTable) (i : ℕ) → IsSorted t → entry t i ≡ scan i t.entries
unfolding entry
entry-eq-scan t i s = front_at-scan i 0 t.entries s

scan-insert :
    (b : LogicalBlock) (p : ℕ) (w : Bool) (j n : ℕ) (es : List BlockTableEntry)
    → Above n es
    → scan j (insert_mapping_entries b p w es)
      ≡ (if b.index == j then some (mapping b p w) else scan j es)
unfolding scan insert_mapping_entries mapping
scan-insert b p w j n [] s = refl
scan-insert b p w j n (e ∷ es) s = ground (arith, scan-insert b p w j (suc e.logical.index) es s.1)

scan-drop :
    (i j n : ℕ) (es : List BlockTableEntry)
    → Above n es
    → (x : BlockTableEntry) → front_at i (lower_bound_index es i) ≡ some x
    → scan j (before_bound es i ++ drop_front (lower_bound_index es i))
      ≡ (if i == j then none else scan j es)
unfolding scan before_bound lower_bound_index drop_front front_at
scan-drop i j n [] s x h = ground arith
scan-drop i j n (e ∷ es) s x h =
    ground (
      arith,
      scan-drop i j (suc e.logical.index) es s.1 x,
      scan_below j (suc e.logical.index) es s.1,
    )

scan-update :
    (i j n : ℕ) (f : BlockTableEntry → BlockTableEntry) (es : List BlockTableEntry)
    → KeepsIndex f
    → Above n es
    → scan j (before_bound es i ++ update_front i f (lower_bound_index es i))
      ≡ (if i == j then Option.map f (scan j es) else scan j es)
unfolding scan before_bound lower_bound_index update_front
scan-update i j n f [] k s = ground arith
scan-update i j n f (e ∷ es) k s = ground (
  arith,
  k e,
  scan-update i j (suc e.logical.index) f es k s.1,
  scan_below j (suc e.logical.index) es s.1,
)

scan-fork :
    (child j : ℕ) (es : List BlockTableEntry)
    → scan j (map (fork_entry child) es) ≡ Option.map (fork_entry child) (scan j es)
unfolding scan
scan-fork child j [] = refl
scan-fork child j (e ∷ es) = ground (arith, scan-fork child j es)

-- In a sorted table mapping a block makes its index hold exactly the new mapping, which is resident,
-- and leaves every other index as it was.
pub entry-insert_mapping :
    (t : BlockTable) (b : LogicalBlock) (p : ℕ) (w : Bool) (j : ℕ)
    → IsSorted t
    → entry (insert_mapping t b p w) j ≡ (
        if b.index == j
        then some (record { logical = b; physical_id = p; writable = w; swap_slot = none })
        else entry t j)
unfolding insert_mapping mapping
entry-insert_mapping t b p w j s = simp (
  entry-eq-scan (insert_mapping t b p w) j (insert_mapping-IsSorted t b p w s),
  entry-eq-scan t j s,
  scan-insert b p w j 0 t.entries s,
)

pub entry-update_entry :
    (t : BlockTable) (i j : ℕ) (f : BlockTableEntry → BlockTableEntry)
    → KeepsIndex f
    → IsSorted t
    → entry (update_entry t i f) j ≡ (if i == j then Option.map f (entry t j) else entry t j)
unfolding update_entry
entry-update_entry t i j f k s = simp (
  entry-eq-scan (update_entry t i f) j (update_entry-IsSorted t i f k s),
  entry-eq-scan t j s,
  scan-update i j 0 f t.entries k s,
)

-- The frame that `unmap` gives back is that of the entry, swapped out or not.
abbrev pub frame_of : Option BlockTableEntry → Option ℕ
frame_of none = none
frame_of (some e) = some e.physical_id

abbrev removed : BlockTable → ℕ → BlockTable
removed t i = record t {
  entries = before_bound t.entries i ++ drop_front (lower_bound_index t.entries i);
}

entry-removed :
    (t : BlockTable) (i j : ℕ) (x : BlockTableEntry)
    → IsSorted t
    → entry t i ≡ some x
    → entry (removed t i) j ≡ (if i == j then none else entry t j)
unfolding entry
entry-removed t i j x s e = simp (
  front_at-scan j 0 (removed t i).entries (drop-Above i 0 t.entries s),
  front_at-scan j 0 t.entries s,
  scan-drop i j 0 t.entries s x e,
)

-- In a sorted table `unmap` gives back the frame of the index's entry, removes that entry, and
-- leaves every other index as it was; where the index is not mapped it gives nothing.
pub unmap_lem :
    (t : BlockTable) (i j : ℕ)
    → IsSorted t
    → ((unmap t i).1 ≡ frame_of (entry t i))
      × (entry (unmap t i).0 j ≡ (if i == j then none else entry t j))
unfolding unmap
unmap_lem t i j s = elim (Option-cases (entry t i)) [
  | inl e ↦ (rw (e, unmap), rw (e, unmap) (ground (arith, e)))
  | inr (x, e) ↦ (rw (e, unmap), rw (e, unmap) (entry-removed t i j x s e))
]

-- A fork of a sorted table has the child's id and the parent's kind, and maps the indices that the parent maps and no other:
-- each to the parent's frame and swap slot and for the same tokens, as a block of the child that may
-- not be written in place.
pub entry-fork :
    (t : BlockTable) (child j : ℕ)
    → IsSorted t
    → ((fork t child).sequence_id ≡ child)
      × ((fork t child).cache_kind ≡ t.cache_kind)
      × (entry (fork t child) j
          ≡ Option.map
              (λ (e : BlockTableEntry). record {
                logical = record {
                  sequence_id = child;
                  index = e.logical.index;
                  cache_kind = e.logical.cache_kind;
                  start_token = e.logical.start_token;
                  token_count = e.logical.token_count;
                };
                physical_id = e.physical_id;
                writable = false;
                swap_slot = e.swap_slot;
              })
              (entry t j))
unfolding fork
entry-fork t child j s = (
  refl,
  refl,
  simp (
    entry-eq-scan (fork t child) j (fork-IsSorted t child s),
    entry-eq-scan t j s,
    scan-fork child j t.entries,
  ),
)
