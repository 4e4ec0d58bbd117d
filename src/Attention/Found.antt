-- ===== src/Attention/Found.antt =====
-- The addresses that paged_attention_decode of include/qwenvl_paged/PagedAttention.h resolves.
use qwen_vl_paged.Prelude.{
  ℕ, zero, suc, ◌+◌, ◌<◌, ◌≡◌, refl, sym, ap, ◌∙◌, none, some, List, ◌∷◌, arith, Option-cases, inl,
  inr,
}
use mathlib.Core.Path.{subst}
use qwen_vl_paged.Layout.{key, value}
use qwen_vl_paged.Manager.View.{CacheView, slot}
use qwen_vl_paged.Attention.Vectors.{Address}
use qwen_vl_paged.Attention.Decode.{resolve_tokens, resolve_heads, row_at}

-- A walk that finds every token's address finds the first's, and those of the others.
abbrev pub Found : ℕ → CacheView → ℕ → ℕ → ℕ → ℕ → List (Address × Address) → Type 0
Found size v layer head n token row =
    (k : Address) × ((x : Address) × ((rest : List (Address × Address)) × (((slot size v key layer
                token head
              ≡ some k)
            × (slot size v value layer token head ≡ some x))
          × ((resolve_tokens size v layer head n (token + 1) ≡ some rest)
              × ((k, x) ∷ rest ≡ row)))))

pub tokens-Found :
    (size : ℕ) (v : CacheView) (layer head n token : ℕ) (row : List (Address × Address))
    → resolve_tokens size v layer head (suc n) token ≡ some row
    → Found size v layer head n token row
unfolding resolve_tokens
tokens-Found size v layer head n token row e =
    elim (Option-cases (slot size v key layer token head)) [
      | inl no_key ↦ absurd (never (rw (no_key, resolve_tokens) refl))
      | inr (k, at_key) ↦ elim (Option-cases (slot size v value layer token head)) [
        | inl no_value ↦ absurd (never (rw (at_key, no_value, resolve_tokens) refl))
        | inr (x, at_value) ↦ elim (Option-cases (resolve_tokens size v layer head n (token + 1))) [
          | inl no_rest ↦ absurd (never (rw (at_key, at_value, no_rest, resolve_tokens) refl))
          | inr (rest, found) ↦ (
            k,
            (
              x,
              (
                rest,
                (
                  (at_key, at_value),
                  (found, same (rw (at_key, at_value, found, resolve_tokens) refl)),
                ),
              ),
            ),
          )
        ]
      ]
    ]
  where
    never : resolve_tokens size v layer head (suc n) token ≡ none → ⊥
    never stop = ground (arith, sym stop ∙ e)

    same :
        {all : List (Address × Address)}
        → resolve_tokens size v layer head (suc n) token ≡ some all
        → all ≡ row
    same all_found = ground (arith, sym all_found ∙ e)

-- The same for the rows of the heads.
pub heads_found :
    (size : ℕ) (v : CacheView) (layer context_len n head : ℕ)
    (rows : List (List (Address × Address)))
    → resolve_heads size v layer context_len n head ≡ some rows
    → (j : ℕ) → j < n
    → resolve_tokens size v layer (head + j) context_len 0 ≡ some (row_at rows j)
unfolding resolve_heads
heads_found size v layer context_len zero head rows e j h = absurd (omega (arith, h))
heads_found size v layer context_len (suc n) head rows e j h =
    elim (Option-cases (resolve_tokens size v layer head context_len 0)) [
      | inl no_row ↦ absurd (never (rw (no_row, resolve_heads) refl))
      | inr (row, found) ↦
          elim (Option-cases (resolve_heads size v layer context_len n (head + 1))) [
            | inl no_rest ↦ absurd (never (rw (found, no_rest, resolve_heads) refl))
            | inr (rest, others) ↦
                subst
                  (λ z. resolve_tokens size v layer (head + j) context_len 0 ≡ some (row_at z j))
                  (same {all = row ∷ rest} (rw (found, others, resolve_heads) refl))
                  (at j h row rest found
                    (λ i lt. heads_found size v layer context_len n (head + 1) rest others i lt))
          ]
    ]
  where
    never : resolve_heads size v layer context_len (suc n) head ≡ none → ⊥
    never stop = ground (arith, sym stop ∙ e)

    same :
        {all : List (List (Address × Address))}
        → resolve_heads size v layer context_len (suc n) head ≡ some all
        → all ≡ rows
    same all_found = ground (arith, sym all_found ∙ e)

    at :
        (i : ℕ)
        → i < suc n
        → (row : List (Address × Address)) (rest : List (List (Address × Address)))
        → resolve_tokens size v layer head context_len 0 ≡ some row
        → ((i : ℕ)
            → i < n
            → resolve_tokens size v layer (head + 1 + i) context_len 0 ≡ some (row_at rest i))
        → resolve_tokens size v layer (head + i) context_len 0 ≡ some (row_at (row ∷ rest) i)
    at zero lt row rest found others =
        ap (λ z. resolve_tokens size v layer z context_len 0) (omega arith) ∙ found
    at (suc i) lt row rest found others =
        ap (λ z. resolve_tokens size v layer z context_len 0) {y = head + 1 + i} (omega arith)
        ∙ others i (omega (arith, lt))
