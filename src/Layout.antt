-- ===== src/Layout.antt =====
-- include/qwenvl_paged/CacheLayout.h and src/CacheLayout.cpp: element addresses inside one block.
pub mod Offsets
pub mod Disjoint
use qwen_vl_paged.Prelude.{ℕ, ◌+◌, ◌*◌, Option, none, some, Bool, ◌||◌, leb, if◌then◌else◌, u64}
use qwen_vl_paged.Block.{BlockShape, frame_layers}

pub data KvStream : Type 0 where
  key value : KvStream

abbrev pub kv_stream_count : ℕ
kv_stream_count = 2

pub record KvBlockLayout : Type 0 where
  pub shape : BlockShape

head_stride : KvBlockLayout → ℕ
head_stride l = l.shape.head_dim

token_stride : KvBlockLayout → ℕ
unfolding head_stride
token_stride l = u64 (l.shape.num_kv_heads * head_stride l)

stream_stride : KvBlockLayout → ℕ
unfolding token_stride
stream_stride l = u64 (l.shape.tokens_per_block * token_stride l)

layer_stride : KvBlockLayout → ℕ
unfolding stream_stride
layer_stride l = u64 (kv_stream_count * stream_stride l)

unfoldable pub element_count : KvBlockLayout → ℕ
unfolding layer_stride
element_count l = u64 (frame_layers l.shape * layer_stride l)

abbrev pub stream_index : KvStream → ℕ
stream_index KvStream.key = 0
stream_index KvStream.value = 1

unfoldable pub element_offset : KvBlockLayout → ℕ → KvStream → ℕ → ℕ → Option ℕ
unfolding layer_stride
element_offset l layer stream token_in_block kv_head =
    if leb (frame_layers l.shape) layer
      || leb l.shape.tokens_per_block token_in_block
      || leb l.shape.num_kv_heads kv_head
    then none
    else some (
        u64 (
          u64 (
            u64 (layer * layer_stride l)
            + u64 (stream_index stream * stream_stride l)
            + u64 (token_in_block * token_stride l))
          + u64 (kv_head * head_stride l)))
