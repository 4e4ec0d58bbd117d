-- ===== src/Attention/Refines.antt =====
-- paged_attention_decode against attention over keys and values that are not paged.
use qwen_vl_paged.Prelude.{
  ℕ, zero, suc, ◌+◌, ◌*◌, ◌/◌, ◌≤◌, ◌<◌, ◌≡◌, refl, sym, ap, ◌∙◌, Option, none, some, true, false,
  List, [], ◌∷◌, length, get_elem?, arith, Bool-cases, Option-cases, inl, inr, ◌==◌, ==_iff,
}
use mathlib.Core.Path.{subst}
use qwen_vl_paged.Layout.{key, value}
use qwen_vl_paged.Manager.View.{CacheView, slot}
use qwen_vl_paged.Attention.Floats.{Floats, PagedAttentionParams}
use qwen_vl_paged.Attention.Vectors.{Address, element, query_from, refuses, guarded}
use qwen_vl_paged.Attention.Decode.{
  resolve_tokens, resolve_heads, row_at, decode_head, decode_heads, decode_kernel,
  paged_attention_decode,
}
use qwen_vl_paged.Attention.Reference.{attention}
use qwen_vl_paged.Attention.Heads.{
  Agree, Holds, decode_head_lem, decode_head_before, length-decode_head,
}
use qwen_vl_paged.Attention.Arguments.{passed-Consistent, kv_lt}
use qwen_vl_paged.Attention.Walk.{next_block}
use qwen_vl_paged.Attention.Found.{Found, tokens-Found, heads_found}

mul_mono : (a b n : ℕ) → a ≤ b → a * n ≤ b * n
mul_mono a b n h = grind (arith, h)

module _ {F T : Type 0} (o : Floats F T) (memory : ℕ → ℕ → T) (size : ℕ) (v : CacheView)
    (layer context_len : ℕ) (keys values : ℕ → ℕ → ℕ → T) where
  -- The pages of a sequence hold the keys and the values of its tokens: wherever the view gives an
  -- address of a head's token, the vector there is that token's.
  pub record Stores : Type 0 where
    pub key_at :
        (head token : ℕ) (p : Address)
        → head < v.layout.shape.num_kv_heads
        → token < context_len
        → slot size v key layer token head ≡ some p
        → Agree v.layout.shape.head_dim (element o memory p) (keys head token)
    pub value_at :
        (head token : ℕ) (p : Address)
        → head < v.layout.shape.num_kv_heads
        → token < context_len
        → slot size v value layer token head ≡ some p
        → Agree v.layout.shape.head_dim (element o memory p) (values head token)

  module _ (stored : Stores) (scale : F) (q : ℕ → T) where
    head_dim : ℕ
    head_dim = v.layout.shape.head_dim

    -- A row that has the addresses of a head's tokens from one on, seen by a query vector.
    Holding : ℕ → ℕ → ℕ → List (Address × Address) → Type 0
    Holding head start =
        Holds o memory v.layout.shape.head_dim context_len scale (query_from o q start) (keys head)
          (values head)

    row_holds :
        (head n token : ℕ) (row : List (Address × Address)) (start : ℕ)
        → head < v.layout.shape.num_kv_heads
        → resolve_tokens size v layer head n token ≡ some row
        → token + n ≤ context_len
        → (length row ≡ n) × Holding head start token row
    unfolding resolve_tokens Holding
    row_holds head zero token [] start lt e fits = (refl, tt)
    row_holds head zero token (r ∷ row) start lt e fits = absurd (ground (arith, e))
    row_holds head (suc n) token row start lt e fits =
        holds (tokens-Found size v layer head n token row e)
          (λ rest found. row_holds head n (token + 1) rest start lt found (omega (arith, fits)))
      where
        holds :
            Found size v layer head n token row
            → ((rest : List (Address × Address))
                → resolve_tokens size v layer head n (token + 1) ≡ some rest
                → (length rest ≡ n) × Holding head start (token + 1) rest)
            → (length row ≡ suc n) × Holding head start token row
        holds (k, (x, (rest, ((at_key, at_value), (found, same))))) others =
            subst (λ z. (length z ≡ suc n) × Holding head start token z) same
              (
                ap suc ((others rest found).0),
                (
                  (
                    stored.key_at head token k lt (omega (arith, fits)) at_key,
                    stored.value_at head token x lt (omega (arith, fits)) at_value,
                  ),
                  (others rest found).1,
                ),
              )

    decode_heads_before :
        (rows : List (List (Address × Address))) (group n q_head : ℕ) (out : List T) (j : ℕ)
        → j < q_head * v.layout.shape.head_dim
        → get_elem?
            (decode_heads o memory v.layout.shape.head_dim scale group q rows n q_head out)
            j
          ≡ get_elem? out j
    unfolding decode_heads
    decode_heads_before rows group zero q_head out j h = refl
    decode_heads_before rows group (suc n) q_head out j h =
        decode_heads_before rows group n (q_head + 1) _ j
          (omega (arith, h, next_block q_head v.layout.shape.head_dim))
        ∙ decode_head_before o memory v.layout.shape.head_dim scale q (row_at rows (q_head / group))
            q_head out j h

    -- The rows of the heads that a query head reads.
    abbrev Ready : List (List (Address × Address)) → ℕ → ℕ → Type 0
    Ready rows group h =
        (length (row_at rows (h / group)) ≡ context_len)
        × Holding (h / group) (h * v.layout.shape.head_dim) 0 (row_at rows (h / group))

    -- An element of an output is that of a head's attention.
    abbrev Shows : ℕ → List T → ℕ → ℕ → Type 0
    Shows group out d h =
        get_elem? out (h * v.layout.shape.head_dim + d)
        ≡ some (
            attention o v.layout.shape.head_dim context_len scale
              (query_from o q (h * v.layout.shape.head_dim)) (keys (h / group)) (values (h / group))
              d)

    decode_heads_lem :
        (rows : List (List (Address × Address))) (group n q_head : ℕ) (out : List T) (h d : ℕ)
        → ((i : ℕ) → i < q_head + n → Ready rows group i)
        → (q_head + n) * v.layout.shape.head_dim ≤ length out
        → q_head ≤ h
        → h < q_head + n
        → d < v.layout.shape.head_dim
        → Shows group
            (decode_heads o memory v.layout.shape.head_dim scale group q rows n q_head out)
            d
            h
    unfolding decode_heads Holding
    decode_heads_lem rows group zero q_head out h d ready fits low high lt =
        absurd (omega (arith, low, high))
    decode_heads_lem rows group (suc n) q_head out h d ready fits low high lt =
        elim (Bool-cases (h == q_head)) [
          | inl now ↦
              subst
                (Shows group
                  (decode_heads o memory v.layout.shape.head_dim scale group q rows n (q_head + 1)
                    written)
                  d)
                (sym ((==_iff h q_head).0 now))
                (decode_heads_before rows group n (q_head + 1) written
                    (q_head * v.layout.shape.head_dim + d)
                    (omega (arith, lt, next_block q_head v.layout.shape.head_dim))
                  ∙ decode_head_lem o memory v.layout.shape.head_dim context_len scale q
                      (keys (q_head / group)) (values (q_head / group))
                      (row_at rows (q_head / group)) q_head out d ((ready q_head (omega arith)).0)
                      ((ready q_head (omega arith)).1) room lt)
          | inr later ↦
              decode_heads_lem rows group n (q_head + 1) written h d
                (λ i less. ready i (omega (arith, less)))
                (omega (
                  arith,
                  fits,
                  length-decode_head o memory v.layout.shape.head_dim scale q
                      (row_at rows (q_head / group)) q_head out,
                  ap (λ z. z * v.layout.shape.head_dim) again,
                ))
                (ground (arith, later, low)) (omega (arith, high)) lt
        ]
      where
        written : List T
        written =
            decode_head o memory v.layout.shape.head_dim scale q (row_at rows (q_head / group))
              q_head out

        again : q_head + 1 + n ≡ q_head + suc n
        again = omega arith

        room : q_head * v.layout.shape.head_dim + v.layout.shape.head_dim ≤ length out
        room = omega (
          arith,
          fits,
          next_block q_head v.layout.shape.head_dim,
          mul_mono (q_head + 1) (q_head + suc n) v.layout.shape.head_dim (omega arith),
        )

-- An element of an output.
abbrev pub read : {T : Type 0} → Option (List T) → ℕ → Option T
read none j = none
read (some out) j = get_elem? out j

module _ {F T : Type 0} (o : Floats F T) (memory : ℕ → ℕ → T) (size : ℕ) (v : CacheView)
    (params : PagedAttentionParams F) (q : ℕ → T) (w : List T) where
  decode_rows : List (List (Address × Address)) → List T
  decode_rows rows =
      decode_heads o memory v.layout.shape.head_dim params.scale
        (params.num_query_heads / v.layout.shape.num_kv_heads) q rows params.num_query_heads 0 w

  -- A call that returns true has passed the checks and found every address.
  decode_runs :
      (paged_attention_decode o memory size v (some q) params (some w)).1 ≡ true
      → (refuses o size v params ≡ false)
        × ((rows : List (List (Address × Address))) × ((resolve_heads size v params.layer
                  params.context_len v.layout.shape.num_kv_heads 0
                ≡ some rows)
              × (paged_attention_decode o memory size v (some q) params (some w)
                  ≡ (some (decode_rows rows), true))))
  unfolding paged_attention_decode decode_kernel guarded decode_rows
  decode_runs done = elim (Bool-cases (refuses o size v params)) [
    | inl refused ↦ absurd (never (rw (refused, guarded) refl))
    | inr passed ↦
        elim (Option-cases
          (resolve_heads size v params.layer params.context_len v.layout.shape.num_kv_heads 0)) [
            | inl missing ↦ absurd (never (rw (passed, missing, guarded, decode_kernel) refl))
            | inr (rows, found) ↦
                (passed, (rows, (found, rw (passed, found, guarded, decode_kernel) refl)))
          ]
  ]
    where
      never : (paged_attention_decode o memory size v (some q) params (some w)).1 ≡ false → ⊥
      never fails = ground (arith, sym fails ∙ done)

-- Where the pages of a sequence hold the keys and the values of its tokens, and the output has room
-- for every head: a call that returns true writes, at each dimension of each query head, the
-- attention of that head's query over the keys and values of its kv head.
pub decode-refines :
    {F T : Type 0} (o : Floats F T) (memory : ℕ → ℕ → T) (size : ℕ) (v : CacheView)
    (params : PagedAttentionParams F) (q : ℕ → T) (w : List T) (keys values : ℕ → ℕ → ℕ → T)
    (h d : ℕ)
    → Stores o memory size v params.layer params.context_len keys values
    → (paged_attention_decode o memory size v (some q) params (some w)).1 ≡ true
    → params.num_query_heads * v.layout.shape.head_dim ≤ length w
    → h < params.num_query_heads
    → d < v.layout.shape.head_dim
    → read
        ((paged_attention_decode o memory size v (some q) params (some w)).0)
        (h * v.layout.shape.head_dim + d)
      ≡ some (
          attention o v.layout.shape.head_dim params.context_len params.scale
            (query_from o q (h * v.layout.shape.head_dim))
            (keys (h / (params.num_query_heads / v.layout.shape.num_kv_heads)))
            (values (h / (params.num_query_heads / v.layout.shape.num_kv_heads)))
            d)
unfolding decode_rows
decode-refines o memory size v params q w keys values h d stored done room lt dim_lt =
    refined (decode_runs o memory size v params q w done)
  where
    group : ℕ
    group = params.num_query_heads / v.layout.shape.num_kv_heads

    refined :
        (refuses o size v params ≡ false)
          × ((rows : List (List (Address × Address))) × ((resolve_heads size v params.layer
                    params.context_len v.layout.shape.num_kv_heads 0
                  ≡ some rows)
                × (paged_attention_decode o memory size v (some q) params (some w)
                    ≡ (some (decode_rows o memory size v params q w rows), true))))
        → read
            ((paged_attention_decode o memory size v (some q) params (some w)).0)
            (h * v.layout.shape.head_dim + d)
          ≡ some (
              attention o v.layout.shape.head_dim params.context_len params.scale
                (query_from o q (h * v.layout.shape.head_dim))
                (keys (h / group))
                (values (h / group))
                d)
    refined (passed, (rows, (found, runs))) =
        ap (λ r. read (r.0) (h * v.layout.shape.head_dim + d)) runs
        ∙ decode_heads_lem o memory size v params.layer params.context_len keys values stored
            params.scale q rows group params.num_query_heads 0 w h d
            (λ i less.
              row_holds o memory size v params.layer params.context_len keys values stored
                params.scale q (i / group) params.context_len 0 _ _
                (kv_lt size v params i (passed-Consistent o size v params passed)
                  (omega (arith, less)))
                (row_at_head i (omega (arith, less))) (omega arith))
            (subst (λ z. z * v.layout.shape.head_dim ≤ length w) {y = 0 + params.num_query_heads}
              (omega arith) room)
            (omega arith) (omega (arith, lt)) dim_lt
      where
        row_at_head :
            (i : ℕ)
            → i < params.num_query_heads
            → resolve_tokens size v params.layer (i / group) params.context_len 0
              ≡ some (row_at rows (i / group))
        row_at_head i less =
            ap (λ z. resolve_tokens size v params.layer z params.context_len 0) {y = 0 + i / group}
              (omega arith)
            ∙ heads_found size v params.layer params.context_len v.layout.shape.num_kv_heads 0 rows
                found (i / group)
                (kv_lt size v params i (passed-Consistent o size v params passed) less)
