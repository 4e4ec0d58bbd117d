-- ===== src/Layout/Offsets.antt =====
-- The addresses of element_offset: the nested order that the header describes, inside the block, and
-- never two vectors on one element.
use qwen_vl_paged.Prelude.{ℕ, ◌+◌, ◌*◌, ◌≤◌, ◌<◌, ◌≡◌, ap, some, false, ◌||◌, arith, leb, u64}
use native.Mathlib.Nat.{mod-eq_of_lt}
use qwen_vl_paged.Block.{BlockShape, frame_layers}
use qwen_vl_paged.Layout.{
  KvStream, key, value, KvBlockLayout, head_stride, token_stride, stream_stride, layer_stride,
  element_count, stream_index, element_offset,
}

-- Digits below the base are determined by the number.
digits_lt : (n a a' b b' : ℕ) → b < n → a < a' → a * n + b < a' * n + b'
digits_lt n a a' b b' h k = grind arith

pub radix_unique :
    (n a a' b b' : ℕ) → b < n → b' < n → a * n + b ≡ a' * n + b' → (a ≡ a') × (b ≡ b')
radix_unique n a a' b b' h h' e = (same, omega (arith, e, ap (λ (x : ℕ). x * n) same))
  where
    not_below : ¬ (a < a')
    not_below k = omega (arith, digits_lt n a a' b b' h k, e)

    not_above : ¬ (a' < a)
    not_above k = omega (arith, digits_lt n a' a b' b h' k, e)

    same : a ≡ a'
    same = omega (arith, not_below, not_above)

-- The number of elements of a block, without wrap-around.
abbrev pub volume : BlockShape → ℕ
volume s = frame_layers s * (2 * (s.tokens_per_block * (s.num_kv_heads * s.head_dim)))

-- The block's elements can be counted in 64 bits.
abbrev pub Fits : KvBlockLayout → Type 0
Fits l = volume l.shape < 18446744073709551616

-- The position of a vector in the nested order layer, stream, token, head.
abbrev pub vector_index : BlockShape → ℕ → KvStream → ℕ → ℕ → ℕ
vector_index s layer stream token head =
    ((layer * 2 + stream_index stream) * s.tokens_per_block + token) * s.num_kv_heads + head

-- Where a coordinate is inside the shape.
pub record InShape (s : BlockShape) (layer token head : ℕ) : Type 0 where
  pub layer_lt : layer < frame_layers s
  pub token_lt : token < s.tokens_per_block
  pub head_lt : head < s.num_kv_heads

mul_grows : (n x : ℕ) → 0 < n → x ≤ n * x
mul_grows n x h = grind arith

step_fits : (n i x j : ℕ) → i < n → j < x → i * x + j < n * x
step_fits n i x j h k = grind arith

mul_next : (a n d : ℕ) → a < n → a * d + d ≤ n * d
mul_next a n d h = grind arith

module _ (l : KvBlockLayout) (layer : ℕ) (stream : KvStream) (token head : ℕ) (fits : Fits l)
    (inside : InShape l.shape layer token head) where
  stream_lt : stream_index stream < 2
  stream_lt = below stream
    where
      below : (k : KvStream) → stream_index k < 2
      below key = omega arith
      below value = omega arith

  vector_index-lt :
      vector_index l.shape layer stream token head
      < frame_layers l.shape * 2 * l.shape.tokens_per_block * l.shape.num_kv_heads
  vector_index-lt =
      step_fits (frame_layers l.shape * 2 * l.shape.tokens_per_block) _ l.shape.num_kv_heads head
        (step_fits (frame_layers l.shape * 2) _ l.shape.tokens_per_block token
          (step_fits (frame_layers l.shape) layer 2 (stream_index stream) inside.layer_lt stream_lt)
          inside.token_lt)
        inside.head_lt

  vector_end-le :
      vector_index l.shape layer stream token head * l.shape.head_dim + l.shape.head_dim
      ≤ volume l.shape
  vector_end-le = omega (
    arith,
    mul_next (vector_index l.shape layer stream token head)
        (frame_layers l.shape * 2 * l.shape.tokens_per_block * l.shape.num_kv_heads)
        l.shape.head_dim vector_index-lt,
  )

  strides :
      (token_stride l ≡ l.shape.num_kv_heads * l.shape.head_dim)
      × (stream_stride l ≡ l.shape.tokens_per_block * (l.shape.num_kv_heads * l.shape.head_dim))
      × (layer_stride l
          ≡ 2 * (l.shape.tokens_per_block * (l.shape.num_kv_heads * l.shape.head_dim)))
  unfolding layer_stride
  strides = (
    mod-eq_of_lt row_lt,
    rw (mod-eq_of_lt row_lt) (mod-eq_of_lt stream_lt'),
    rw (mod-eq_of_lt row_lt, mod-eq_of_lt stream_lt') (mod-eq_of_lt layer_lt'),
  )
    where
      row : ℕ
      row = l.shape.num_kv_heads * l.shape.head_dim

      layer_lt' : 2 * (l.shape.tokens_per_block * row) < 18446744073709551616
      layer_lt' = omega (
        arith,
        mul_grows (frame_layers l.shape) (2 * (l.shape.tokens_per_block * row))
            (omega (arith, inside.layer_lt)),
      )

      stream_lt' : l.shape.tokens_per_block * row < 18446744073709551616
      stream_lt' = omega (arith, layer_lt')

      row_lt : row < 18446744073709551616
      row_lt = omega (
        arith,
        stream_lt',
        mul_grows l.shape.tokens_per_block row (omega (arith, inside.token_lt)),
      )

  in_range :
      (leb (frame_layers l.shape) layer
        || leb l.shape.tokens_per_block token
        || leb l.shape.num_kv_heads head)
      ≡ false
  in_range = ground (arith, inside.layer_lt, inside.token_lt, inside.head_lt)

  count : element_count l ≡ volume l.shape
  unfolding element_count
  count = rw strides.2 (mod-eq_of_lt fits)

  sum :
      u64 (
        u64 (
          u64 (layer * layer_stride l)
          + u64 (stream_index stream * stream_stride l)
          + u64 (token * token_stride l))
        + u64 (head * head_stride l))
      ≡ vector_index l.shape layer stream token head * l.shape.head_dim
  unfolding head_stride
  sum = rw (strides.0, strides.1, strides.2) (omega (arith, vector_end-le, fits))

  -- Inside the shape, and where the block's elements can be counted in 64 bits, element_offset gives
  -- the vector's place in the order layer, stream, token, head, times the head dimension, and the
  -- whole vector lies inside the block.
  pub element_offset_lem :
      (element_offset l layer stream token head
        ≡ some (vector_index l.shape layer stream token head * l.shape.head_dim))
      × (vector_index l.shape layer stream token head * l.shape.head_dim + l.shape.head_dim
          ≤ element_count l)
  unfolding element_offset
  element_offset_lem = (rw (in_range) (ap some sum), omega (arith, count, vector_end-le))
