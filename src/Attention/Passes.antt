-- ===== src/Attention/Passes.antt =====
-- The two passes of paged_attention_decode_blocked over the frames do what those of
-- paged_attention_decode do over the tokens, operation by operation.
use qwen_vl_paged.Prelude.{
  ℕ, zero, suc, ◌+◌, ◌-◌, ◌*◌, ◌≤◌, ◌<◌, ◌≡◌, refl, ap, ◌∙◌, sym, some, true, List, [], ◌∷◌, ◌++◌,
  arith, length,
}
use qwen_vl_paged.Block.{frame_layers}
use qwen_vl_paged.Layout.{KvBlockLayout, key, value}
use qwen_vl_paged.Attention.Floats.{Floats}
use qwen_vl_paged.Attention.Vectors.{Address, score_at, query_from, zeros, add_weight}
use qwen_vl_paged.Attention.Decode.{score_tokens, weigh_tokens, decode_head}
use qwen_vl_paged.Attention.Blocked.{
  first_token, tokens_in, score_frame, score_frames, weigh_frame, weigh_frames, blocked_head,
}
use qwen_vl_paged.Attention.Walk.{
  block_row, walk_row, offset_or, offset_known, tokens_left, next_block,
}

-- Each frame of the list begins before the end of the context.
abbrev pub Listed : ℕ → ℕ → ℕ → List ℕ → Type 0
Listed tpb context_len i [] = Unit {0}
Listed tpb context_len i (p ∷ frames) =
    (i * tpb < context_len) × Listed tpb context_len (i + 1) frames

-- Where a frame is left, `token` is its first.
abbrev Begins : ℕ → ℕ → ℕ → List ℕ → Type 0
Begins tpb token i [] = Unit {0}
Begins tpb token i (p ∷ frames) = token ≡ i * tpb

tokens_in-le : (tpb context_len i : ℕ) → tokens_in tpb context_len i ≤ tpb
tokens_in-le tpb context_len i = omega arith

Begins-next :
    (tpb context_len token i p : ℕ) (frames : List ℕ)
    → context_len + tpb < 4294967296
    → Listed tpb context_len i (p ∷ frames)
    → token ≡ i * tpb
    → Begins tpb (token + tokens_in tpb context_len i) (i + 1) frames
Begins-next tpb context_len token i p [] small listed e = tt
Begins-next tpb context_len token i p (q ∷ frames) small listed e = omega (
  arith,
  e,
  next_block i tpb,
  listed.0,
  listed.1.0,
  tokens_left tpb context_len i (context_len - i * tpb) small (omega (arith, listed.0))
      (omega (arith, listed.0)),
)

Begins-first : (tpb : ℕ) (frames : List ℕ) → Begins tpb 0 0 frames
Begins-first tpb [] = tt
Begins-first tpb (p ∷ frames) = omega arith

length-block_row :
    (l : KvBlockLayout) (layer head p n t : ℕ) → length (block_row l layer head p n t) ≡ n
length-block_row l layer head p zero t = refl
length-block_row l layer head p (suc n) t = ap suc (length-block_row l layer head p n (t + 1))

module _ {F T : Type 0} (o : Floats F T) (memory : ℕ → ℕ → T) where
  score_tokens-append :
      (head_dim : ℕ) (scale : F) (query : ℕ → T) (xs ys : List (Address × Address))
      (state : List F × F)
      → score_tokens o memory head_dim scale query (xs ++ ys) state
        ≡ score_tokens o memory head_dim scale query ys
            (score_tokens o memory head_dim scale query xs state)
  unfolding score_tokens
  score_tokens-append head_dim scale query [] ys state = refl
  score_tokens-append head_dim scale query (x ∷ xs) ys state =
      score_tokens-append head_dim scale query xs ys _

  weigh_tokens-append :
      (highest : F) (scores : List F) (token : ℕ) (xs ys : List (Address × Address))
      (state : List F × F)
      → weigh_tokens o memory highest scores token (xs ++ ys) state
        ≡ weigh_tokens o memory highest scores
            (token + length xs)
            ys
            (weigh_tokens o memory highest scores token xs state)
  unfolding weigh_tokens
  weigh_tokens-append highest scores token [] ys state =
      ap (λ k. weigh_tokens o memory highest scores k ys state) (omega arith)
  weigh_tokens-append highest scores token (x ∷ xs) ys state =
      weigh_tokens-append highest scores (token + 1) xs ys _
      ∙ ap
          (λ k.
            weigh_tokens o memory highest scores k ys
              (weigh_tokens o memory highest scores token (x ∷ xs) state))
          (omega arith)

  -- A kv head of the shape, and a layer that the frames have.
  module _ (l : KvBlockLayout) (layer head : ℕ) (layer_lt : layer < frame_layers l.shape)
      (head_lt : head < l.shape.num_kv_heads) where
    score_frame_lem :
        (scale : F) (query : ℕ → T) (p n t : ℕ) (state : List F × F)
        → t + n ≤ l.shape.tokens_per_block
        → score_frame o memory l layer scale query head p n t state
          ≡ some (
              score_tokens o memory l.shape.head_dim scale query
                (block_row l layer head p n t)
                state)
    unfolding score_frame score_tokens
    score_frame_lem scale query p zero t state fits = refl
    score_frame_lem scale query p (suc n) t state fits =
        rw (offset_known l layer key t head layer_lt (omega arith) head_lt, score_frame)
          (score_frame_lem scale query p n (t + 1) _ (omega arith))

    score_frames_lem :
        (scale : F) (query : ℕ → T) (context_len i : ℕ) (frames : List ℕ) (state : List F × F)
        → score_frames o memory l layer scale query head context_len i frames state
          ≡ some (
              score_tokens o memory l.shape.head_dim scale query
                (walk_row l layer head context_len i frames)
                state)
    unfolding score_frames score_tokens
    score_frames_lem scale query context_len i [] state = refl
    score_frames_lem scale query context_len i (p ∷ frames) state =
        rw
          (
            score_frame_lem scale query p (tokens_in l.shape.tokens_per_block context_len i) 0 state
                (omega (arith, tokens_in-le l.shape.tokens_per_block context_len i)),
            score_frames,
          )
          (score_frames_lem scale query context_len (i + 1) frames _
            ∙ ap some (
                sym (
                  score_tokens-append l.shape.head_dim scale query
                    (block_row l layer head p (tokens_in l.shape.tokens_per_block context_len i) 0)
                    (walk_row l layer head context_len (i + 1) frames) state)))

    weigh_frame_lem :
        (highest : F) (scores : List F) (p begin n t : ℕ) (state : List F × F)
        → t + n ≤ l.shape.tokens_per_block
        → weigh_frame o memory l layer highest scores head p begin n t state
          ≡ some (
              weigh_tokens o memory highest scores (begin + t) (block_row l layer head p n t) state)
    unfolding weigh_frame weigh_tokens
    weigh_frame_lem highest scores p begin zero t state fits = refl
    weigh_frame_lem highest scores p begin (suc n) t state fits =
        rw (offset_known l layer value t head layer_lt (omega arith) head_lt, weigh_frame)
          (weigh_frame_lem highest scores p begin n (t + 1) _ (omega arith)
            ∙ ap
                (λ k. some (
                  weigh_tokens o memory highest scores k (block_row l layer head p n (t + 1)) (
                    add_weight o memory highest (score_at o scores (begin + t))
                      (p, offset_or l layer value t head) state)))
                (omega arith))

    weigh_frames_lem :
        (highest : F) (scores : List F) (context_len token i : ℕ) (frames : List ℕ)
        (state : List F × F)
        → context_len + l.shape.tokens_per_block < 4294967296
        → Listed l.shape.tokens_per_block context_len i frames
        → Begins l.shape.tokens_per_block token i frames
        → weigh_frames o memory l layer highest scores head context_len i frames state
          ≡ some (
              weigh_tokens o memory highest scores token
                (walk_row l layer head context_len i frames)
                state)
    unfolding weigh_frames weigh_tokens
    weigh_frames_lem highest scores context_len token i [] state small listed begins = refl
    weigh_frames_lem highest scores context_len token i (p ∷ frames) state small listed begins =
        rw
          (
            weigh_frame_lem highest scores p (first_token tpb i) m 0 state
                (omega (arith, tokens_in-le tpb context_len i)),
            weigh_frames,
          )
          (weigh_frames_lem highest scores context_len (token + m) (i + 1) frames _ small listed.1
              (Begins-next tpb context_len token i p frames small listed begins)
            ∙ ap some (
                ap (λ k. weigh (token + m) rest (weigh k row state)) begin
                ∙ sym (
                    weigh_tokens-append highest scores token row rest state
                    ∙ ap (λ k. weigh (token + k) rest (weigh token row state))
                        (length-block_row l layer head p m 0))))
      where
        weigh : ℕ → List (Address × Address) → List F × F → List F × F
        weigh = weigh_tokens o memory highest scores

        tpb : ℕ
        tpb = l.shape.tokens_per_block

        m : ℕ
        m = tokens_in tpb context_len i

        row : List (Address × Address)
        row = block_row l layer head p m 0

        rest : List (Address × Address)
        rest = walk_row l layer head context_len (i + 1) frames

        begin : first_token tpb i + 0 ≡ token
        begin = omega (arith, begins, listed.0, small)

    -- One query head.
    pub blocked_head_lem :
        (scale : F) (context_len : ℕ) (query : ℕ → T) (frames : List ℕ) (q_head : ℕ) (out : List T)
        → context_len + l.shape.tokens_per_block < 4294967296
        → Listed l.shape.tokens_per_block context_len 0 frames
        → blocked_head o memory l layer scale context_len query frames head q_head out ≡ (
          decode_head o memory l.shape.head_dim scale query
              (walk_row l layer head context_len 0 frames)
              q_head
              out,
          true,
        )
    unfolding blocked_head decode_head
    blocked_head_lem scale context_len query frames q_head out small listed =
        let start = q_head * l.shape.head_dim in
        let row = walk_row l layer head context_len 0 frames in
        let scored =
          score_tokens o memory l.shape.head_dim scale (query_from o query start) row
            ([], o.lowest) in
        rw
          (
            score_frames_lem scale (query_from o query start) context_len 0 frames ([], o.lowest),
            weigh_frames_lem scored.1 scored.0 context_len 0 0 frames
                (zeros o l.shape.head_dim, o.nought) small listed
                (Begins-first l.shape.tokens_per_block frames),
            blocked_head,
          )
          refl
