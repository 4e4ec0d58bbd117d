-- ===== src/Tests/Tables.antt =====
-- The page table and the block layout at concrete inputs.
use qwen_vl_paged.Prelude.{ℕ, ◌+◌, ◌*◌, ◌≤◌, ◌≡◌, refl, true, false, [], ◌∷◌, none, some, arith}
use qwen_vl_paged.Table.{lookup, insert_mapping, entry, unmap, fork, BlockTable}
use qwen_vl_paged.Table.Order.{IsSorted, apply, maps, apply-IsSorted}
use qwen_vl_paged.Table.Lookup.{
  scan, entry-eq-scan, entry-insert_mapping, frame_of, unmap_lem, entry-fork,
}
use qwen_vl_paged.Layout.{key, value, element_offset, element_count}
use qwen_vl_paged.Layout.Offsets.{vector_index, element_offset_lem}
use qwen_vl_paged.Layout.Disjoint.{element_offset-disjoint}
use qwen_vl_paged.Block.{frame_layers, per_layer_frames}
use qwen_vl_paged.Allocator.{new_allocator, block}
use qwen_vl_paged.Manager.View.{valid, block_bytes, slot}
use qwen_vl_paged.Manager.View.Bounds.{slot_lem}
use qwen_vl_paged.Tests.Data.{view, small_shape, sparse_table, logical, mapped_to, wide_layout}

entry_runs : entry sparse_table 3 ≡ some (mapped_to 3 30)
unfolding entry
entry_runs = refl

apply-IsSorted_example : IsSorted (apply sparse_table (maps (logical 2) 20 false))
apply-IsSorted_example = apply-IsSorted sparse_table (maps (logical 2) 20 false) (omega arith)

entry-eq-scan_example : entry sparse_table 3 ≡ scan 3 sparse_table.entries
entry-eq-scan_example = entry-eq-scan sparse_table 3 (omega arith)

entry-insert_mapping_example :
    entry (insert_mapping sparse_table (logical 2) 20 false) 2 ≡ some (mapped_to 2 20)
entry-insert_mapping_example =
    entry-insert_mapping sparse_table (logical 2) 20 false 2 (omega arith)

unmap_lem_example :
    ((unmap sparse_table 1).1 ≡ frame_of (entry sparse_table 1))
    × (entry (unmap sparse_table 1).0 1 ≡ none)
unmap_lem_example = unmap_lem sparse_table 1 1 (omega arith)

-- A table whose block may be written in place.
written_table : BlockTable
written_table = record sparse_table { entries = record (mapped_to 3 30) { writable = true } ∷ [] }

entry-fork_example :
    ((fork written_table 8).sequence_id ≡ 8)
    × ((fork written_table 8).cache_kind ≡ sparse_table.cache_kind)
    × (entry (fork written_table 8) 3
        ≡ some (record (mapped_to 3 30) {
          logical = record (logical 3) { sequence_id = 8 };
          writable = false;
        }))
unfolding entry written_table
entry-fork_example = entry-fork written_table 8 3 (omega arith)

element_offset_lem_example :
    (element_offset wide_layout 2 value 3 1 ≡ some (vector_index wide_layout.shape 2 value 3 1 * 8))
    × (vector_index wide_layout.shape 2 value 3 1 * 8 + 8 ≤ element_count wide_layout)
unfolding frame_layers
element_offset_lem_example = element_offset_lem wide_layout 2 value 3 1 (omega arith) (omega arith)

element_offset-disjoint_example :
    (◌≡◌ {A = ℕ} 2 2) × (value ≡ value) × (◌≡◌ {A = ℕ} 3 3) × (◌≡◌ {A = ℕ} 1 1) × (◌≡◌ {A = ℕ} 5 5)
unfolding element_offset frame_layers
element_offset-disjoint_example =
    element_offset-disjoint wide_layout 2 2 value value 3 3 1 1 376 376 5 5 (omega arith) refl refl
      (omega arith) (omega arith) refl

slot_lem_example :
    (◌≡◌ {A = ℕ} 1 1)
    × (block_bytes view 0 0 ≡ some 2)
    × (1 + small_shape.head_dim ≤ element_count (record { shape = small_shape }))
unfolding slot new_allocator valid element_count element_offset frame_layers block_bytes
    per_layer_frames lookup block
slot_lem_example = slot_lem 1 view key 0 1 0 2 1 (omega arith) refl
