-- ===== src/Block.antt =====
-- include/qwenvl_paged/Block.h and src/Block.cpp: block shapes, logical pages and pool frames.
-- Identifiers and counts are unsigned words, kept as natural numbers with their wrap-around written
-- out where the source computes.
use qwen_vl_paged.Prelude.{ℕ, ◌*◌, Bool, ◌&&◌, List, ltb, ◌==◌, if◌then◌else◌, u64}

pub data CacheKind : Type 0 where
  text_kv vision_kv rope_state auxiliary : CacheKind

pub data BlockState : Type 0 where
  free active shared swapped : BlockState

pub record BlockShape : Type 0 where
  pub tokens_per_block : ℕ
  pub num_layers : ℕ
  pub num_kv_heads : ℕ
  pub head_dim : ℕ
  pub bytes_per_element : ℕ
  pub layers_per_frame : ℕ

-- The value-initialised shape, `BlockShape{}`.
abbrev pub no_shape : BlockShape
no_shape = record {
  tokens_per_block = 0;
  num_layers = 0;
  num_kv_heads = 0;
  head_dim = 0;
  bytes_per_element = 0;
  layers_per_frame = 0;
}

unfoldable pub frame_layers : BlockShape → ℕ
frame_layers s = if s.layers_per_frame == 0 then s.num_layers else s.layers_per_frame

unfoldable pub per_layer_frames : BlockShape → Bool
unfolding frame_layers
per_layer_frames s = frame_layers s == 1 && ltb 1 s.num_layers

unfoldable pub byte_size : BlockShape → ℕ
unfolding frame_layers
byte_size s =
    u64
      (s.tokens_per_block * frame_layers s * s.num_kv_heads * s.head_dim * s.bytes_per_element * 2)

pub record HostMemoryOptions : Type 0 where
  pub alignment_bytes : ℕ
  pub prefer_pinned_memory : Bool

pub record LogicalBlock : Type 0 where
  pub sequence_id : ℕ
  pub index : ℕ
  pub cache_kind : CacheKind
  pub start_token : ℕ
  pub token_count : ℕ

unfoldable pub empty : LogicalBlock → Bool
empty b = b.token_count == 0

-- A frame with the bytes of its slice of the pool.
pub record PhysicalBlock : Type 0 where
  pub id : ℕ
  pub shape : BlockShape
  pub storage : List ℕ
  pub size_bytes : ℕ
