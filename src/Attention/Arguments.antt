-- ===== src/Attention/Arguments.antt =====
-- What the checks at the start of the kernels of include/qwenvl_paged/PagedAttention.h ensure.
use qwen_vl_paged.Prelude.{ℕ, ◌*◌, ◌/◌, ◌%◌, ◌<◌, ◌≡◌, true, false, arith, ◌==◌, u64}
use native.Mathlib.Nat.{div-add-mod, div-lt_iff_lt-mul}
use qwen_vl_paged.Block.{frame_layers}
use qwen_vl_paged.Layout.{element_count}
use qwen_vl_paged.Manager.View.{CacheView, valid}
use qwen_vl_paged.Attention.Floats.{Floats, PagedAttentionParams}
use qwen_vl_paged.Attention.Vectors.{refuses}

pub record Consistent {F : Type 0} (size : ℕ) (v : CacheView) (params : PagedAttentionParams F)
    : Type 0 where
  pub checked : valid v ≡ true
  pub sized : (size == v.layout.shape.bytes_per_element) ≡ true
  pub context_pos : 0 < params.context_len
  pub heads_pos : 0 < params.num_query_heads
  pub tokens_pos : 0 < v.layout.shape.tokens_per_block
  pub kv_pos : 0 < v.layout.shape.num_kv_heads
  pub group_pos : 0 < params.num_query_heads / v.layout.shape.num_kv_heads
  pub group_lem :
      v.layout.shape.num_kv_heads * (params.num_query_heads / v.layout.shape.num_kv_heads)
      ≡ params.num_query_heads

-- A view that is valid has a token in its blocks, and a head.
count_pos :
    (fl tpb heads dim : ℕ)
    → 0 < u64 (fl * u64 (2 * u64 (tpb * u64 (heads * dim))))
    → (0 < tpb) × (0 < heads)
count_pos fl tpb heads dim h = grind arith

group_pos :
    (heads kv : ℕ)
    → 0 < heads
    → 0 < kv
    → heads % kv ≡ 0
    → (0 < heads / kv) × (kv * (heads / kv) ≡ heads)
group_pos heads kv h k e = grind (arith, h, k, e, div-add-mod)

pub passed-Consistent :
    {F T : Type 0} (o : Floats F T) (size : ℕ) (v : CacheView) (params : PagedAttentionParams F)
    → refuses o size v params ≡ false
    → Consistent size v params
unfolding refuses valid element_count
passed-Consistent o size v params passed = record {
  checked = ground (arith, passed);
  sized = ground (arith, passed);
  context_pos = ground (arith, passed);
  heads_pos = heads;
  tokens_pos = counts.0;
  kv_pos = counts.1;
  group_pos = groups.0;
  group_lem = groups.1;
}
  where
    heads : 0 < params.num_query_heads
    heads = ground (arith, passed)

    counts : (0 < v.layout.shape.tokens_per_block) × (0 < v.layout.shape.num_kv_heads)
    counts =
        count_pos (frame_layers v.layout.shape) _ _ v.layout.shape.head_dim (ground (arith, passed))

    groups :
        (0 < params.num_query_heads / v.layout.shape.num_kv_heads)
        × (v.layout.shape.num_kv_heads * (params.num_query_heads / v.layout.shape.num_kv_heads)
            ≡ params.num_query_heads)
    groups =
        group_pos params.num_query_heads v.layout.shape.num_kv_heads heads (counts.1)
          (ground (arith, passed))

-- The kv head of a query head.
pub kv_lt :
    {F : Type 0} (size : ℕ) (v : CacheView) (params : PagedAttentionParams F) (h : ℕ)
    → Consistent size v params
    → h < params.num_query_heads
    → h / (params.num_query_heads / v.layout.shape.num_kv_heads) < v.layout.shape.num_kv_heads
kv_lt size v params h c lt = (div-lt_iff_lt-mul c.group_pos).1 (omega (arith, lt, c.group_lem))
