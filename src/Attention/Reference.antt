-- ===== src/Attention/Reference.antt =====
-- Attention as include/qwenvl_paged/PagedAttention.h describes it, softmax(scale * Q Kᵀ) V, over keys
-- and values that are given token by token: no pages, no heads and no loops that carry state.
use qwen_vl_paged.Prelude.{ℕ, zero, suc}
use qwen_vl_paged.Attention.Floats.{Floats}

module _ {F T : Type 0} (o : Floats F T) where
  -- The sum of the first `n` terms, from the left.
  abbrev pub sum : ℕ → (ℕ → F) → F
  sum zero f = o.nought
  sum (suc n) f = o.add (sum n f) (f n)

  -- The greatest of the first `n` terms.
  abbrev pub greatest : ℕ → (ℕ → F) → F
  greatest zero f = o.lowest
  greatest (suc n) f = o.greater (greatest n f) (f n)

  -- One query vector of `head_dim` dimensions over `n` tokens.
  module _ (head_dim n : ℕ) (scale : F) (query : ℕ → T) (keys values : ℕ → ℕ → T) where
    abbrev pub product : ℕ → ℕ → F
    product token dim = o.mul (o.widen (query dim)) (o.widen (keys token dim))

    unfoldable pub score : ℕ → F
    score token = o.mul (sum head_dim (product token)) scale

    unfoldable pub weight : ℕ → F
    unfolding score
    weight token = o.exp (o.sub (score token) (greatest n score))

    abbrev pub weighted : ℕ → ℕ → F
    weighted dim token = o.mul (weight token) (o.widen (values token dim))

    unfoldable pub attention : ℕ → T
    unfolding weight
    attention dim = o.narrow (o.quot (sum n (weighted dim)) (sum n weight))
