-- ===== src/Layout/Disjoint.antt =====
-- No two vectors of a block share an element.
use qwen_vl_paged.Prelude.{ℕ, ◌+◌, ◌*◌, ◌<◌, ◌≡◌, refl, some, arith}
use qwen_vl_paged.Layout.{KvStream, key, value, KvBlockLayout, stream_index, element_offset}
use qwen_vl_paged.Layout.Offsets.{Fits, InShape, vector_index, radix_unique, element_offset_lem}

pub in_shape :
    (l : KvBlockLayout) (layer : ℕ) (stream : KvStream) (token head o : ℕ)
    → element_offset l layer stream token head ≡ some o
    → InShape l.shape layer token head
unfolding element_offset
in_shape l layer stream token head o e = ground arith

offset_value :
    (l : KvBlockLayout) (layer : ℕ) (stream : KvStream) (token head o : ℕ)
    → Fits l
    → element_offset l layer stream token head ≡ some o
    → o ≡ vector_index l.shape layer stream token head * l.shape.head_dim
offset_value l layer stream token head o fits e = ground (
  arith,
  (element_offset_lem l layer stream token head fits (in_shape l layer stream token head o e)).0,
)

stream_lt : (k : KvStream) → stream_index k < 2
stream_lt key = omega arith
stream_lt value = omega arith

stream_unique : (k k' : KvStream) → stream_index k ≡ stream_index k' → k ≡ k'
stream_unique key key e = refl
stream_unique key value e = absurd (omega arith)
stream_unique value key e = absurd (omega arith)
stream_unique value value e = refl

-- Where a block's elements can be counted in 64 bits, an element that lies in two of its vectors, `d`
-- and `d'` elements behind their offsets, has one address only: the layer, the stream, the token, the
-- head and the place in the vector are the same.
pub element_offset-disjoint :
    (l : KvBlockLayout) (layer layer' : ℕ) (stream stream' : KvStream)
    (token token' head head' o o' d d' : ℕ)
    → Fits l
    → element_offset l layer stream token head ≡ some o
    → element_offset l layer' stream' token' head' ≡ some o'
    → d < l.shape.head_dim
    → d' < l.shape.head_dim
    → o + d ≡ o' + d'
    → (layer ≡ layer') × (stream ≡ stream') × (token ≡ token') × (head ≡ head') × (d ≡ d')
element_offset-disjoint l layer layer' stream stream' token token' head head' o o' d d' fits e e' h
      h' same =
    let i = in_shape l layer stream token head o e in
    let i' = in_shape l layer' stream' token' head' o' e' in
    let vector =
      radix_unique l.shape.head_dim (vector_index l.shape layer stream token head)
        (vector_index l.shape layer' stream' token' head') d d' h h'
        (omega (
          arith,
          same,
          offset_value l layer stream token head o fits e,
          offset_value l layer' stream' token' head' o' fits e',
        )) in
    let heads =
      radix_unique l.shape.num_kv_heads
        ((layer * 2 + stream_index stream) * l.shape.tokens_per_block + token)
        ((layer' * 2 + stream_index stream') * l.shape.tokens_per_block + token') head head'
        i.head_lt i'.head_lt vector.0 in
    let tokens =
      radix_unique l.shape.tokens_per_block (layer * 2 + stream_index stream)
        (layer' * 2 + stream_index stream') token token' i.token_lt i'.token_lt heads.0 in
    let layers =
      radix_unique 2 layer layer' (stream_index stream) (stream_index stream') (stream_lt stream)
        (stream_lt stream') tokens.0 in
    (layers.0, stream_unique stream stream' layers.1, tokens.1, heads.1, vector.1)
