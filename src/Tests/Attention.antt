-- ===== src/Tests/Attention.antt =====
-- Attention over natural numbers: every weight is one, so that a head is the mean of its values.
use qwen_vl_paged.Prelude.{
  ℕ, ◌+◌, ◌-◌, ◌*◌, ◌/◌, ◌<◌, none, ◌≡◌, refl, sym, ap, zero, suc, max, Option, some, true, false,
  [], ◌∷◌, ◌==◌, ltb, if◌then◌else◌, arith,
}
use qwen_vl_paged.Block.{frame_layers, per_layer_frames}
use qwen_vl_paged.Layout.{KvStream, element_count, element_offset}
use qwen_vl_paged.Table.{lookup}
use qwen_vl_paged.Allocator.{block, new_allocator}
use qwen_vl_paged.Manager.View.{CacheView, valid, slot, block_bytes, no_layer}
use qwen_vl_paged.Attention.Vectors.{element, write_head, add_weight}
use qwen_vl_paged.Attention.Floats.{Floats, PagedAttentionParams}
use qwen_vl_paged.Attention.Decode.{paged_attention_decode}
use qwen_vl_paged.Attention.Blocked.{paged_attention_decode_blocked}
use qwen_vl_paged.Attention.Fused.{paged_attention_decode_fused, paged_attention_decode_fast}
use qwen_vl_paged.Attention.Same.{blocked-eq-decode}
use qwen_vl_paged.Attention.Reference.{attention}
use qwen_vl_paged.Attention.Refines.{Stores, read, decode-refines}
use qwen_vl_paged.Attention.Fails.{decode-fails}
use qwen_vl_paged.Tests.Data.{view, small_shape}

abbrev naturals : Floats ℕ ℕ
naturals = record {
  nought = 0;
  one = 1;
  lowest = 0;
  add = λ a b. a + b;
  sub = λ a b. a - b;
  mul = λ a b. a * b;
  quot = λ a b. a / b;
  greater = max;
  exp = λ a. 1;
  same = λ a b. a == b;
  widen = λ t. t;
  narrow = λ a. a;
}

-- A frame holds the keys 4 and 6 and the values 10 and 20.
abbrev memory : ℕ → ℕ → ℕ
memory p k = if ltb k 2 then 4 + 2 * k else 10 * (k - 1)

abbrev params : ℕ → PagedAttentionParams ℕ
params context_len = record { layer = 0; num_query_heads = 1; context_len = context_len; scale = 1 }

abbrev query : Option (ℕ → ℕ)
query = some (λ dim. 3)

decode_lem :
    paged_attention_decode naturals memory 1 view query (params 2) (some (0 ∷ []))
    ≡ (some (15 ∷ []), true)
unfolding paged_attention_decode slot write_head add_weight valid element_count frame_layers
    per_layer_frames element_offset block_bytes lookup block new_allocator
decode_lem = refl

blocked_lem :
    paged_attention_decode_blocked naturals memory 1 view query (params 2) (some (0 ∷ []))
    ≡ (some (15 ∷ []), true)
unfolding paged_attention_decode_blocked write_head add_weight valid element_count frame_layers
    per_layer_frames element_offset block_bytes lookup block new_allocator
blocked_lem = refl

blocked-eq-decode_example :
    paged_attention_decode_blocked naturals memory 1 view query (params 2) (some (0 ∷ []))
    ≡ paged_attention_decode naturals memory 1 view query (params 2) (some (0 ∷ []))
unfolding per_layer_frames no_layer
blocked-eq-decode_example =
    blocked-eq-decode naturals memory 1 view query (params 2) (some (0 ∷ [])) refl (omega arith)

-- The third token is in a block that the table does not map.
decode-fails_example :
    (paged_attention_decode naturals memory 1 view query (params 3) (some (7 ∷ []))).0
    ≡ some (7 ∷ [])
unfolding paged_attention_decode slot valid element_count frame_layers per_layer_frames
    element_offset block_bytes lookup block new_allocator
decode-fails_example = decode-fails naturals memory 1 view query (params 3) (some (7 ∷ [])) refl

-- The keys and the values that the frame holds.
abbrev keys : ℕ → ℕ → ℕ → ℕ
keys head token dim = memory 2 (token + dim)

abbrev values : ℕ → ℕ → ℕ → ℕ
values head token dim = memory 2 (2 + token + dim)

abbrev at : Option (ℕ × ℕ) → ℕ → ℕ
at none dim = 0
at (some p) dim = memory (p.0) (p.1 + dim)

key_stored :
    (head token : ℕ) (p : ℕ × ℕ)
    → head < 1
    → token < 2
    → slot 1 view KvStream.key 0 token head ≡ some p
    → (dim : ℕ) → dim < 1
    → at (some p) dim ≡ keys head token dim
unfolding slot valid element_count frame_layers per_layer_frames element_offset block_bytes lookup
    block new_allocator
key_stored zero zero p first lt e dim small = ap (λ found. at found dim) (sym e)
key_stored zero (suc zero) p first lt e dim small = ap (λ found. at found dim) (sym e)
key_stored zero (suc (suc token)) p first lt e dim small = absurd (omega (arith, lt))
key_stored (suc head) token p first lt e dim small = absurd (omega (arith, first))

value_stored :
    (head token : ℕ) (p : ℕ × ℕ)
    → head < 1
    → token < 2
    → slot 1 view KvStream.value 0 token head ≡ some p
    → (dim : ℕ) → dim < 1
    → at (some p) dim ≡ values head token dim
unfolding slot valid element_count frame_layers per_layer_frames element_offset block_bytes lookup
    block new_allocator
value_stored zero zero p first lt e dim small = ap (λ found. at found dim) (sym e)
value_stored zero (suc zero) p first lt e dim small = ap (λ found. at found dim) (sym e)
value_stored zero (suc (suc token)) p first lt e dim small = absurd (omega (arith, lt))
value_stored (suc head) token p first lt e dim small = absurd (omega (arith, first))

stored : Stores naturals memory 1 view 0 2 keys values
unfolding element
stored = record { key_at = key_stored; value_at = value_stored }

decode-refines_example :
    read ((paged_attention_decode naturals memory 1 view query (params 2) (some (0 ∷ []))).0) 0
    ≡ some (attention naturals 1 2 1 (λ dim. 3) (keys 0) (values 0) 0)
unfolding paged_attention_decode slot valid element_count frame_layers per_layer_frames
    element_offset block_bytes lookup block new_allocator
decode-refines_example =
    decode-refines naturals memory 1 view (params 2) (λ dim. 3) (0 ∷ []) keys values 0 0 stored refl
      (omega arith) (omega arith) (omega arith)

-- A view of one-layer frames that has no tables of its layers: one kernel falls back on the block
-- table, the other does not.
abbrev bare : CacheView
bare = record view {
  layer_tables = none;
  layout = record { shape = record small_shape { num_layers = 2; layers_per_frame = 1 } };
}

bare_decode :
    paged_attention_decode naturals memory 1 bare query (params 2) (some (0 ∷ []))
    ≡ (some (0 ∷ []), false)
unfolding paged_attention_decode slot valid element_count frame_layers per_layer_frames no_layer
bare_decode = refl

bare_blocked :
    paged_attention_decode_blocked naturals memory 1 bare query (params 2) (some (0 ∷ []))
    ≡ (some (15 ∷ []), true)
unfolding paged_attention_decode_blocked write_head add_weight valid element_count frame_layers
    per_layer_frames element_offset block_bytes lookup block new_allocator
bare_blocked = refl

-- The same without division: a head is the sum of its values.
abbrev summing : Floats ℕ ℕ
summing = record naturals { quot = λ a b. a }

fused_lem :
    paged_attention_decode_fused summing memory 1 view query (params 2) (some (0 ∷ []))
    ≡ (some (30 ∷ []), true)
unfolding paged_attention_decode_fused valid element_count frame_layers block_bytes per_layer_frames
    lookup block new_allocator element_offset
fused_lem = refl

fast_lem :
    paged_attention_decode_fast summing memory 1 view query (params 2) (some (0 ∷ []))
    ≡ (some (30 ∷ []), true)
unfolding paged_attention_decode_fast valid element_count frame_layers block_bytes per_layer_frames
    lookup block new_allocator element_offset
fast_lem = refl
