-- ===== src/Attention/Floats.antt =====
-- What the kernels of include/qwenvl_paged/PagedAttention.h do with floating-point numbers.
use qwen_vl_paged.Prelude.{ℕ, Bool}

-- `F` is float and `T` the element type of the cache; the standard library's functions and the
-- machine's arithmetic are operations that the kernels are given.
pub record Floats (F T : Type 0) : Type 0 where
  pub nought : F
  pub one : F
  -- -std::numeric_limits<float>::infinity()
  pub lowest : F
  pub add : F → F → F
  pub sub : F → F → F
  pub mul : F → F → F
  pub quot : F → F → F
  -- std::max and std::exp
  pub greater : F → F → F
  pub exp : F → F
  -- the test a == b
  pub same : F → F → Bool
  -- static_cast<float> and static_cast<T>
  pub widen : T → F
  pub narrow : F → T

-- PagedAttentionParams.
pub record PagedAttentionParams (F : Type 0) : Type 0 where
  pub layer : ℕ
  pub num_query_heads : ℕ
  pub context_len : ℕ
  pub scale : F
