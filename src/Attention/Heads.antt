-- ===== src/Attention/Heads.antt =====
-- One query head of paged_attention_decode against attention over the tokens of its row.
use qwen_vl_paged.Prelude.{
  ℕ, suc, ◌+◌, ◌*◌, ◌≤◌, ◌<◌, ◌≡◌, refl, ap, ◌∙◌, some, List, [], ◌∷◌, length, length-append,
  get_elem?, arith, Bool-cases, inl, inr, ltb, ltb→lt,
}
use mathlib.Core.Path.{subst}
use qwen_vl_paged.Attention.Floats.{Floats}
use qwen_vl_paged.Attention.Vectors.{
  Address, dot, zeros, score_at, query_from, element, add_score, add_weight,
}
use qwen_vl_paged.Attention.Decode.{score_tokens, weigh_tokens, decode_head}
use qwen_vl_paged.Attention.Reference.{sum, greatest, product, score, weight, weighted, attention}
use qwen_vl_paged.Attention.Elements.{
  get_elem?-append_left, get_elem?-append_last, dot-sum, length-axpy, get_elem?-axpy,
  get_elem?-zeros, length-zeros, length-write_head, write_head_before, write_head_in,
}

-- Two vectors that are the same in the first dimensions.
abbrev pub Agree : {T : Type 0} → ℕ → (ℕ → T) → (ℕ → T) → Type 0
Agree head_dim x y = (dim : ℕ) → dim < head_dim → x dim ≡ y dim

module _ {F T : Type 0} (o : Floats F T) where
  -- Where the tokens of a row from a token on are kept.
  module _ (memory : ℕ → ℕ → T) (head_dim n : ℕ) (scale : F) (query : ℕ → T)
      (keys values : ℕ → ℕ → T) where
    abbrev pub Holds : ℕ → List (Address × Address) → Type 0
    Holds token [] = Unit {0}
    Holds token (r ∷ row) =
        (Agree head_dim (element o memory (r.0)) (keys token)
          × Agree head_dim (element o memory (r.1)) (values token))
        × Holds (token + 1) row

    abbrev scores_of : ℕ → F
    scores_of = score o head_dim n scale query keys values

    -- The state of the first pass before a token.
    Scored : ℕ → List F × F → Type 0
    Scored token state =
        ((length state.0 ≡ token) × (state.1 ≡ greatest o token scores_of))
        × ((i : ℕ) → i < token → get_elem? state.0 i ≡ some (scores_of i))

    Scored-add_score :
        (token : ℕ) (key : Address) (state : List F × F)
        → Agree head_dim (element o memory key) (keys token)
        → Scored token state
        → Scored (token + 1) (add_score o memory head_dim scale query key state)
    unfolding add_score score Scored
    Scored-add_score token key state agree s = (
      (
        omega (arith, s.0.0, length-append state.0 (this ∷ [])),
        ap (λ x. o.greater x this) (s.0.1)
            ∙ ap (o.greater (greatest o token scores_of)) same
            ∙ ap (λ k. greatest o k scores_of) {x = suc token} (omega arith),
      ),
      λ i h. elim (Bool-cases (ltb i token)) [
        | inl earlier ↦
            get_elem?-append_left o state.0 (this ∷ []) i (ground (arith, earlier, s.0.0))
            ∙ s.1 i (ltb→lt _ _ earlier)
        | inr now ↦
            get_elem?-append_last o state.0 this i (ground (arith, now, h, s.0.0))
            ∙ ap some same
            ∙ ap (λ k. some (scores_of k)) {x = token} (ground (arith, now, h))
      ],
    )
      where
        this : F
        this = o.mul (dot o head_dim 0 o.nought query (element o memory key)) scale

        same : this ≡ scores_of token
        same =
            ap (λ x. o.mul x scale)
              (dot-sum o head_dim 0 query (element o memory key)
                  (product o head_dim n scale query keys values token)
                  (λ i h.
                    ap (λ y. o.mul (o.widen (query i)) (o.widen y)) (agree i (omega (arith, h))))
                ∙ ap (λ k. sum o k (product o head_dim n scale query keys values token))
                    (omega arith))

    Scored-score_tokens :
        (token : ℕ) (row : List (Address × Address)) (state : List F × F)
        → Holds token row
        → Scored token state
        → Scored (token + length row) (score_tokens o memory head_dim scale query row state)
    unfolding score_tokens
    Scored-score_tokens token [] state holds s = subst (λ k. Scored k state) (omega arith) s
    Scored-score_tokens token (r ∷ row) state holds s =
        subst (λ k. Scored k (score_tokens o memory head_dim scale query (r ∷ row) state))
          (omega arith)
          (Scored-score_tokens (token + 1) row _ (holds.1)
            (Scored-add_score token (r.0) state (holds.0.0) s))

    abbrev weight_of : ℕ → F
    weight_of = weight o head_dim n scale query keys values

    -- The state of the second pass before a token.
    Weighed : ℕ → List F × F → Type 0
    Weighed token state =
        ((length state.0 ≡ head_dim) × (state.1 ≡ sum o token weight_of))
        × ((d : ℕ)
            → d < head_dim
            → get_elem? state.0 d
              ≡ some (sum o token (weighted o head_dim n scale query keys values d)))

    Weighed-add_weight :
        (token : ℕ) (place : Address) (state : List F × F) (highest s : F)
        → Agree head_dim (element o memory place) (values token)
        → highest ≡ greatest o n scores_of
        → s ≡ scores_of token
        → Weighed token state
        → Weighed (token + 1) (add_weight o memory highest s place state)
    unfolding add_weight weight Weighed
    Weighed-add_weight token place state highest s agree he se w = (
      (
        length-axpy o this (element o memory place) 0 state.0 ∙ w.0.0,
        ap (λ x. o.add x this) (w.0.1)
            ∙ ap (o.add (sum o token weight_of)) same
            ∙ ap (λ k. sum o k weight_of) {x = suc token} (omega arith),
      ),
      λ d h.
          get_elem?-axpy o this (element o memory place) 0 state.0 d _ (w.1 d h)
          ∙ ap (λ y. some (o.add (sum o token (terms d)) (o.mul this (o.widen y))))
              (ap (element o memory place) (omega arith) ∙ agree d h)
          ∙ ap (λ y. some (o.add (sum o token (terms d)) (o.mul y (o.widen (values token d))))) same
          ∙ ap (λ k. some (sum o k (terms d))) {x = suc token} (omega arith),
    )
      where
        terms : ℕ → ℕ → F
        terms d = weighted o head_dim n scale query keys values d

        this : F
        this = o.exp (o.sub s highest)

        same : this ≡ weight_of token
        same = ap (λ x. o.exp (o.sub x highest)) se ∙ ap (λ x. o.exp (o.sub (scores_of token) x)) he

    Weighed-weigh_tokens :
        (token : ℕ) (row : List (Address × Address)) (highest : F) (scores : List F)
        (state : List F × F)
        → Holds token row
        → token + length row ≤ n
        → highest ≡ greatest o n scores_of
        → ((i : ℕ) → i < n → get_elem? scores i ≡ some (scores_of i))
        → Weighed token state
        → Weighed (token + length row) (weigh_tokens o memory highest scores token row state)
    unfolding weigh_tokens score_at score
    Weighed-weigh_tokens token [] highest scores state holds fits he se w =
        subst (λ k. Weighed k state) (omega arith) w
    Weighed-weigh_tokens token (r ∷ row) highest scores state holds fits he se w =
        subst (λ k. Weighed k (weigh_tokens o memory highest scores token (r ∷ row) state))
          (omega arith)
          (Weighed-weigh_tokens (token + 1) row highest scores _ (holds.1) (omega (arith, fits)) he
            se
            (Weighed-add_weight token (r.1) state highest (score_at o scores token) (holds.0.1) he
              scored w))
      where
        scored : score_at o scores token ≡ scores_of token
        scored = rw (se token (omega (arith, fits)), score_at) refl

  -- One head of the output, whose row holds the tokens of the context.
  pub decode_head_lem :
      (memory : ℕ → ℕ → T) (head_dim n : ℕ) (scale : F) (q : ℕ → T) (keys values : ℕ → ℕ → T)
      (row : List (Address × Address)) (q_head : ℕ) (out : List T) (d : ℕ)
      → length row ≡ n
      → Holds memory head_dim n scale (query_from o q (q_head * head_dim)) keys values 0 row
      → q_head * head_dim + head_dim ≤ length out
      → d < head_dim
      → get_elem? (decode_head o memory head_dim scale q row q_head out) (q_head * head_dim + d)
        ≡ some (attention o head_dim n scale (query_from o q (q_head * head_dim)) keys values d)
  unfolding decode_head attention Scored Weighed
  decode_head_lem memory head_dim n scale q keys values row q_head out d size holds fits lt =
      write_head_in o (second.1) (q_head * head_dim) (second.0) out d _ (weighed.1 d lt)
        (omega (arith, fits, lt))
      ∙ ap (λ k. some (o.narrow (o.quot (sum o k terms) (second.1)))) count
      ∙ ap (λ x. some (o.narrow (o.quot (sum o n terms) x)))
          (weighed.0.1 ∙ ap (λ k. sum o k (weight o head_dim n scale query keys values)) count)
    where
      query : ℕ → T
      query = query_from o q (q_head * head_dim)

      terms : ℕ → F
      terms = weighted o head_dim n scale query keys values d

      count : 0 + length row ≡ n
      count = omega (arith, size)

      first : List F × F
      first = score_tokens o memory head_dim scale query row ([], o.lowest)

      scored : Scored memory head_dim n scale query keys values (0 + length row) first
      scored =
          Scored-score_tokens memory head_dim n scale query keys values 0 row ([], o.lowest) holds
            ((refl, refl), λ i h. absurd (omega (arith, h)))

      second : List F × F
      second = weigh_tokens o memory (first.1) (first.0) 0 row (zeros o head_dim, o.nought)

      weighed : Weighed memory head_dim n scale query keys values (0 + length row) second
      weighed =
          Weighed-weigh_tokens memory head_dim n scale query keys values 0 row (first.1) (first.0)
            (zeros o head_dim, o.nought) holds (omega (arith, size))
            (scored.0.1 ∙ ap (λ k. greatest o k (score o head_dim n scale query keys values)) count)
            (λ i h. scored.1 i (omega (arith, size, h)))
            ((length-zeros o head_dim, refl), λ i h. get_elem?-zeros o head_dim i h)

  pub decode_head_before :
      (memory : ℕ → ℕ → T) (head_dim : ℕ) (scale : F) (q : ℕ → T) (row : List (Address × Address))
      (q_head : ℕ) (out : List T) (j : ℕ)
      → j < q_head * head_dim
      → get_elem? (decode_head o memory head_dim scale q row q_head out) j ≡ get_elem? out j
  unfolding decode_head
  decode_head_before memory head_dim scale q row q_head out j h = write_head_before o _ _ _ out j h

  pub length-decode_head :
      (memory : ℕ → ℕ → T) (head_dim : ℕ) (scale : F) (q : ℕ → T) (row : List (Address × Address))
      (q_head : ℕ) (out : List T)
      → length (decode_head o memory head_dim scale q row q_head out) ≡ length out
  unfolding decode_head
  length-decode_head memory head_dim scale q row q_head out = length-write_head o _ _ _ out
