-- ===== src/Attention/Decode.antt =====
-- paged_attention_decode of include/qwenvl_paged/PagedAttention.h.
-- The vectors `keys` and `values` are one row of addresses for each kv head.
use qwen_vl_paged.Prelude.{
  ℕ, zero, suc, ◌+◌, ◌*◌, ◌/◌, Option, none, some, Bool, true, false, List, [], ◌∷◌, get_elem?,
}
use qwen_vl_paged.Layout.{key, value}
use qwen_vl_paged.Manager.View.{CacheView, slot}
use qwen_vl_paged.Attention.Floats.{Floats, PagedAttentionParams}
use qwen_vl_paged.Attention.Vectors.{
  Address, guarded, zeros, score_at, query_from, write_head, add_score, add_weight,
}

-- The addresses of the `n` tokens from `token` on, or none where one is not resident.
unfoldable pub resolve_tokens : ℕ → CacheView → ℕ → ℕ → ℕ → ℕ → Option (List (Address × Address))
resolve_tokens size v layer kv_head zero token = some []
resolve_tokens size v layer kv_head (suc n) token = elim (slot size v key layer token kv_head) [
  | none ↦ none
  | some k ↦ elim (slot size v value layer token kv_head) [
    | none ↦ none
    | some x ↦ elim (resolve_tokens size v layer kv_head n (token + 1)) [
      | none ↦ none
      | some row ↦ some ((k, x) ∷ row)
    ]
  ]
]

unfoldable pub resolve_heads :
    ℕ → CacheView → ℕ → ℕ → ℕ → ℕ → Option (List (List (Address × Address)))
unfolding resolve_tokens
resolve_heads size v layer context_len zero kv_head = some []
resolve_heads size v layer context_len (suc n) kv_head =
    elim (resolve_tokens size v layer kv_head context_len 0) [
      | none ↦ none
      | some row ↦ elim (resolve_heads size v layer context_len n (kv_head + 1)) [
        | none ↦ none
        | some rows ↦ some (row ∷ rows)
      ]
    ]

abbrev pub row_at : List (List (Address × Address)) → ℕ → List (Address × Address)
row_at rows i = elim (get_elem? rows i) [ none ↦ [] | some row ↦ row ]

module _ {F T : Type 0} (o : Floats F T) (memory : ℕ → ℕ → T) where
  unfoldable pub score_tokens : ℕ → F → (ℕ → T) → List (Address × Address) → List F × F → List F × F
  score_tokens head_dim scale query [] state = state
  score_tokens head_dim scale query (r ∷ row) state =
      score_tokens head_dim scale query row (add_score o memory head_dim scale query (r.0) state)

  unfoldable pub weigh_tokens : F → List F → ℕ → List (Address × Address) → List F × F → List F × F
  weigh_tokens highest scores token [] state = state
  weigh_tokens highest scores token (r ∷ row) state =
      weigh_tokens highest scores (token + 1) row
        (add_weight o memory highest (score_at o scores token) (r.1) state)

  -- One query head, over its kv head's row.
  unfoldable pub decode_head : ℕ → F → (ℕ → T) → List (Address × Address) → ℕ → List T → List T
  unfolding score_tokens weigh_tokens zeros
  decode_head head_dim scale query row q_head out =
      let (scores, highest) =
        score_tokens head_dim scale (query_from o query (q_head * head_dim)) row ([], o.lowest) in
      let (accumulator, denominator) =
        weigh_tokens highest scores 0 row (zeros o head_dim, o.nought) in
      write_head o denominator (q_head * head_dim) accumulator out

  unfoldable pub decode_heads :
      ℕ → F → ℕ → (ℕ → T) → List (List (Address × Address)) → ℕ → ℕ → List T → List T
  unfolding decode_head
  decode_heads head_dim scale group_size query rows zero q_head out = out
  decode_heads head_dim scale group_size query rows (suc n) q_head out =
      decode_heads head_dim scale group_size query rows n (q_head + 1)
        (decode_head head_dim scale query (row_at rows (q_head / group_size)) q_head out)

  unfoldable pub decode_kernel :
      ℕ → CacheView → PagedAttentionParams F → (ℕ → T) → List T → List T × Bool
  unfolding resolve_heads decode_heads
  decode_kernel size v params query out =
      let shape = v.layout.shape in
      elim (resolve_heads size v params.layer params.context_len shape.num_kv_heads 0) [
        | none ↦ (out, false)
        | some rows ↦ (
          decode_heads shape.head_dim params.scale (params.num_query_heads / shape.num_kv_heads)
              query rows params.num_query_heads 0 out,
          true,
        )
      ]

  unfoldable pub paged_attention_decode :
      ℕ
      → CacheView
      → Option (ℕ → T)
      → PagedAttentionParams F
      → Option (List T)
      → Option (List T) × Bool
  unfolding decode_kernel guarded
  paged_attention_decode size v query params out =
      guarded o size v query params out (decode_kernel size v params)
