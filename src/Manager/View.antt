-- ===== src/Manager/View.antt =====
-- CacheView of include/qwenvl_paged/KVCacheManager.h: what an execution backend reads.
-- A view borrows the sequence's tables and the pool: here it holds them.
pub mod Bounds
use qwen_vl_paged.Prelude.{
  ℕ, ◌/◌, ◌%◌, Option, none, some, Bool, true, ◌&&◌, ◌||◌, not, List, ltb, ◌==◌, if◌then◌else◌,
  length, leb, head?, get_elem?, has_value, nat_eq, find,
}
use qwen_vl_paged.Block.{CacheKind, per_layer_frames}
use qwen_vl_paged.Layout.{KvBlockLayout, KvStream, element_count, element_offset}
use qwen_vl_paged.Table.{BlockTable, lookup}
use qwen_vl_paged.Allocator.{MemoryAllocator, block}
use qwen_vl_paged.Manager.State.{KvCacheManager, pool_shape}

pub record CacheView : Type 0 where
  pub sequence_id : ℕ
  pub cache_kind : CacheKind
  pub block_table : Option BlockTable
  pub layer_tables : Option (List BlockTable)
  pub allocator : Option MemoryAllocator
  pub layout : KvBlockLayout

unfoldable pub valid : CacheView → Bool
valid v = has_value v.block_table && has_value v.allocator && ltb 0 (element_count v.layout)

-- The table that holds a layer's blocks.
table_for : CacheView → ℕ → Option BlockTable
table_for v layer = elim v.layer_tables [
  | none ↦ if layer == 0 then v.block_table else none
  | some ts ↦
      if ltb layer (length ts)
      then get_elem? ts layer
      else if layer == 0
      then v.block_table
      else none
]

-- The frame whose bytes the source returns a pointer to.
unfoldable pub block_bytes : CacheView → ℕ → ℕ → Option ℕ
unfolding table_for
block_bytes v index layer =
    if valid v
    then elim (table_for v layer) [
      | none ↦ none
      | some t ↦ elim (lookup t index) [
        | none ↦ none
        | some p ↦ elim v.allocator [
          | none ↦ none
          | some a ↦ elim (block a p) [ none ↦ none | some b ↦ some p ]
        ]
      ]
    ]
    else none

unfoldable pub no_layer : CacheView → ℕ → Bool
no_layer v layer = elim v.layer_tables [ none ↦ true | some ts ↦ leb (length ts) layer ]

-- The frame and the element offset in it that the source's pointer addresses.
unfoldable pub slot : ℕ → CacheView → KvStream → ℕ → ℕ → ℕ → Option (ℕ × ℕ)
unfolding no_layer
slot element_size v stream layer token kv_head =
    let shape = v.layout.shape in
    let per_layer = per_layer_frames shape in
    let tpb = shape.tokens_per_block in
    if not (valid v) || not (element_size == shape.bytes_per_element)
    then none
    else if per_layer && no_layer v layer
    then none
    else elim (element_offset v.layout (if per_layer then 0 else layer) stream (token % tpb)
        kv_head) [
          | none ↦ none
          | some offset ↦ elim (block_bytes v (token / tpb) (if per_layer then layer else 0)) [
            | none ↦ none
            | some p ↦ some (p, offset)
          ]
        ]

unfoldable pub cache_view : KvCacheManager → ℕ → CacheKind → Option CacheView
cache_view m seq kind = elim (find seq m.sequences) [
  | none ↦ none
  | some s ↦ some (record {
    sequence_id = seq;
    cache_kind = kind;
    block_table = head? s.tables;
    layer_tables = some s.tables;
    allocator = some m.allocator;
    layout = record { shape = pool_shape m };
  })
]
