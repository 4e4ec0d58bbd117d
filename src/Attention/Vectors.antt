-- ===== src/Attention/Vectors.antt =====
-- The steps that the kernels of include/qwenvl_paged/PagedAttention.h share: the checks of the
-- arguments, one token's score, one token's weight, and the write of one head.
use qwen_vl_paged.Prelude.{
  ℕ, zero, suc, ◌+◌, ◌%◌, Option, none, some, Bool, false, ◌||◌, not, List, [], ◌∷◌, ◌++◌, leb,
  ◌==◌, if◌then◌else◌, get_elem?, set,
}
use qwen_vl_paged.Manager.View.{CacheView, valid}
use qwen_vl_paged.Attention.Floats.{Floats, PagedAttentionParams}

-- A pointer into the pool: a frame, and the element in it.
abbrev pub Address : Type 0
Address = ℕ × ℕ

module _ {F T : Type 0} (o : Floats F T) where
  -- `sizeof(T)` is `size`.
  unfoldable pub refuses : ℕ → CacheView → PagedAttentionParams F → Bool
  refuses size v params =
      let shape = v.layout.shape in
      not (valid v)
      || not (size == shape.bytes_per_element)
      || params.context_len == 0
      || leb shape.num_layers params.layer
      || params.num_query_heads == 0
      || not (params.num_query_heads % shape.num_kv_heads == 0)

  -- The checks that every kernel starts with; a null pointer is `none`.
  unfoldable pub guarded :
      ℕ
      → CacheView
      → Option (ℕ → T)
      → PagedAttentionParams F
      → Option (List T)
      → ((ℕ → T) → List T → List T × Bool)
      → Option (List T) × Bool
  unfolding refuses
  guarded size v none params out kernel = (out, false)
  guarded size v (some query) params none kernel = (none, false)
  guarded size v (some query) params (some out) kernel =
      if refuses size v params
      then (some out, false)
      else let (out', done) = kernel query out in (some out', done)

  -- detail::dot_head without AVX-512, from dimension `dim` on.
  unfoldable pub dot : ℕ → ℕ → F → (ℕ → T) → (ℕ → T) → F
  dot zero dim sum query key = sum
  dot (suc n) dim sum query key =
      dot n (dim + 1) (o.add sum (o.mul (o.widen (query dim)) (o.widen (key dim)))) query key

  -- detail::axpy_head without AVX-512.
  unfoldable pub axpy : F → (ℕ → T) → ℕ → List F → List F
  axpy weight value dim [] = []
  axpy weight value dim (a ∷ accumulator) =
      o.add a (o.mul weight (o.widen (value dim))) ∷ axpy weight value (dim + 1) accumulator

  unfoldable pub zeros : ℕ → List F
  zeros zero = []
  zeros (suc n) = o.nought ∷ zeros n

  -- scores[token], of the scores that are known so far.
  unfoldable pub score_at : List F → ℕ → F
  score_at scores token = elim (get_elem? scores token) [ none ↦ o.nought | some s ↦ s ]

  -- The elements from an element of the query on.
  abbrev pub query_from : (ℕ → T) → ℕ → ℕ → T
  query_from query start dim = query (start + dim)

  -- The division and the store for one head.
  unfoldable pub write_head : F → ℕ → List F → List T → List T
  write_head denominator start [] out = out
  write_head denominator start (a ∷ accumulator) out =
      write_head denominator (start + 1) accumulator
        (set out start (o.narrow (o.quot a denominator)))

  -- `memory p k` is element `k` of frame `p`, read as a T.
  module _ (memory : ℕ → ℕ → T) where
    unfoldable pub element : Address → ℕ → T
    element (p, k) dim = memory p (k + dim)

    -- One token's score: the scores before it and their maximum, and then with it.
    unfoldable pub add_score : ℕ → F → (ℕ → T) → Address → List F × F → List F × F
    unfolding dot element
    add_score head_dim scale query key (scores, highest) =
        let s = o.mul (dot head_dim 0 o.nought query (element key)) scale in
        (scores ++ s ∷ [], o.greater highest s)

    -- One token's weight: the accumulator and the denominator before it, and then with it.
    unfoldable pub add_weight : F → F → Address → List F × F → List F × F
    unfolding axpy element
    add_weight highest s value (accumulator, denominator) =
        let weight = o.exp (o.sub s highest) in
        (axpy weight (element value) 0 accumulator, o.add denominator weight)
