-- ===== src/Attention/Fails.antt =====
-- What a call of paged_attention_decode that returns false leaves behind.
use qwen_vl_paged.Prelude.{
  ℕ, ◌≡◌, ◌⊎◌, refl, ap, sym, ◌∙◌, Option, none, some, Bool, true, false, List, Option-cases,
  Bool-cases, inl, inr, arith,
}
use qwen_vl_paged.Manager.View.{CacheView}
use qwen_vl_paged.Attention.Floats.{Floats, PagedAttentionParams}
use qwen_vl_paged.Attention.Vectors.{guarded, refuses}
use qwen_vl_paged.Attention.Decode.{resolve_heads, decode_kernel, paged_attention_decode}

-- A kernel's answer, which is yes or leaves the output.
Settled : {T : Type 0} → List T → List T × Bool → Type 0
Settled out r = (r ≡ (out, false)) ⊎ (r.1 ≡ true)

module _ {F T : Type 0} (o : Floats F T) (size : ℕ) (v : CacheView)
    (params : PagedAttentionParams F) where
  decode_kernel-Settled :
      (memory : ℕ → ℕ → T) (query : ℕ → T) (out : List T)
      → Settled out (decode_kernel o memory size v params query out)
  unfolding decode_kernel Settled
  decode_kernel-Settled memory query out =
      elim (Option-cases
        (resolve_heads size v params.layer params.context_len v.layout.shape.num_kv_heads 0)) [
          | inl e ↦ inl (rw (e, decode_kernel) refl)
          | inr (rows, e) ↦ inr (rw (e, decode_kernel) refl)
        ]

  guarded-fails :
      (query : Option (ℕ → T)) (out : Option (List T)) (kernel : (ℕ → T) → List T → List T × Bool)
      → ((q : ℕ → T) (w : List T) → Settled w (kernel q w))
      → (guarded o size v query params out kernel).1 ≡ false
      → (guarded o size v query params out kernel).0 ≡ out
  unfolding guarded Settled
  guarded-fails none out kernel settled fails = refl
  guarded-fails (some q) none kernel settled fails = refl
  guarded-fails (some q) (some w) kernel settled fails =
      elim (Bool-cases (refuses o size v params)) [
        | inl refused ↦ rw (refused, guarded) refl
        | inr passed ↦ elim (settled q w) [
          | inl e ↦ rw (passed, guarded) (ap (λ r. some (r.0)) e)
          | inr done ↦ absurd (differ (sym done ∙ kept passed ∙ fails))
        ]
      ]
    where
      kept :
          refuses o size v params ≡ false
          → (kernel q w).1 ≡ (guarded o size v (some q) params (some w) kernel).1
      kept passed = rw (passed, guarded) refl

      differ : true ≡ false → ⊥
      differ e = ground (arith, e)

-- A call that returns false leaves the output as it was, whatever its arguments are.
pub decode-fails :
    {F T : Type 0} (o : Floats F T) (memory : ℕ → ℕ → T) (size : ℕ) (v : CacheView)
    (query : Option (ℕ → T)) (params : PagedAttentionParams F) (out : Option (List T))
    → (paged_attention_decode o memory size v query params out).1 ≡ false
    → (paged_attention_decode o memory size v query params out).0 ≡ out
unfolding paged_attention_decode
decode-fails o memory size v query params out =
    guarded-fails o size v params query out (decode_kernel o memory size v params)
      (decode_kernel-Settled o size v params memory)
