-- ===== src/Attention/Blocked.antt =====
-- paged_attention_decode_blocked of include/qwenvl_paged/PagedAttention.h: one frame at a time.
use qwen_vl_paged.Prelude.{
  ℕ, zero, suc, ◌+◌, ◌-◌, ◌*◌, ◌/◌, min, Option, none, some, Bool, true, false, List, [], ◌∷◌,
  if◌then◌else◌, u32,
}
use qwen_vl_paged.Block.{per_layer_frames}
use qwen_vl_paged.Layout.{KvBlockLayout, key, value, element_offset}
use qwen_vl_paged.Manager.View.{CacheView, block_bytes}
use qwen_vl_paged.Attention.Floats.{Floats, PagedAttentionParams}
use qwen_vl_paged.Attention.Vectors.{
  guarded, zeros, score_at, query_from, write_head, add_score, add_weight,
}

-- `block_bytes(logical)` is `block_bytes(logical, 0)`.
unfoldable pub frame_layer : CacheView → ℕ → ℕ
frame_layer v layer = if per_layer_frames v.layout.shape then layer else 0

unfoldable pub offset_layer : CacheView → ℕ → ℕ
offset_layer v layer = if per_layer_frames v.layout.shape then 0 else layer

unfoldable pub resolve_frames : CacheView → ℕ → ℕ → ℕ → Option (List ℕ)
unfolding frame_layer
resolve_frames v layer zero logical = some []
resolve_frames v layer (suc n) logical = elim (block_bytes v logical (frame_layer v layer)) [
  | none ↦ none
  | some p ↦ elim (resolve_frames v layer n (logical + 1)) [
    | none ↦ none
    | some frames ↦ some (p ∷ frames)
  ]
]

unfoldable pub logical_blocks : CacheView → ℕ → ℕ
logical_blocks v context_len =
    let tpb = v.layout.shape.tokens_per_block in u32 (context_len + tpb - 1) / tpb

-- The first token of a block, and how many of its tokens the context has.
abbrev pub first_token : ℕ → ℕ → ℕ
first_token tpb logical = u32 (logical * tpb)

abbrev pub tokens_in : ℕ → ℕ → ℕ → ℕ
tokens_in tpb context_len logical =
    min (u32 (first_token tpb logical + tpb)) context_len - first_token tpb logical

module _ {F T : Type 0} (o : Floats F T) (memory : ℕ → ℕ → T) where
  -- The keys of the `n` tokens of a frame from its token `t` on.
  unfoldable pub score_frame :
      KvBlockLayout → ℕ → F → (ℕ → T) → ℕ → ℕ → ℕ → ℕ → List F × F → Option (List F × F)
  score_frame l layer scale query kv_head frame zero t state = some state
  score_frame l layer scale query kv_head frame (suc n) t state =
      elim (element_offset l layer key t kv_head) [
        | none ↦ none
        | some k ↦
            score_frame l layer scale query kv_head frame n (t + 1)
              (add_score o memory l.shape.head_dim scale query (frame, k) state)
      ]

  unfoldable pub score_frames :
      KvBlockLayout → ℕ → F → (ℕ → T) → ℕ → ℕ → ℕ → List ℕ → List F × F → Option (List F × F)
  unfolding score_frame
  score_frames l layer scale query kv_head context_len logical [] state = some state
  score_frames l layer scale query kv_head context_len logical (p ∷ frames) state =
      elim (score_frame l layer scale query kv_head p
        (tokens_in l.shape.tokens_per_block context_len logical) 0 state) [
          | none ↦ none
          | some state' ↦
              score_frames l layer scale query kv_head context_len (logical + 1) frames state'
        ]

  unfoldable pub weigh_frame :
      KvBlockLayout → ℕ → F → List F → ℕ → ℕ → ℕ → ℕ → ℕ → List F × F → Option (List F × F)
  weigh_frame l layer highest scores kv_head frame begin zero t state = some state
  weigh_frame l layer highest scores kv_head frame begin (suc n) t state =
      elim (element_offset l layer value t kv_head) [
        | none ↦ none
        | some x ↦
            weigh_frame l layer highest scores kv_head frame begin n (t + 1)
              (add_weight o memory highest (score_at o scores (begin + t)) (frame, x) state)
      ]

  unfoldable pub weigh_frames :
      KvBlockLayout → ℕ → F → List F → ℕ → ℕ → ℕ → List ℕ → List F × F → Option (List F × F)
  unfolding weigh_frame
  weigh_frames l layer highest scores kv_head context_len logical [] state = some state
  weigh_frames l layer highest scores kv_head context_len logical (p ∷ frames) state =
      elim (weigh_frame l layer highest scores kv_head p
        (first_token l.shape.tokens_per_block logical)
        (tokens_in l.shape.tokens_per_block context_len logical) 0 state) [
          | none ↦ none
          | some state' ↦
              weigh_frames l layer highest scores kv_head context_len (logical + 1) frames state'
        ]

  -- One query head over the frames; a block without an offset ends the call.
  unfoldable pub blocked_head :
      KvBlockLayout → ℕ → F → ℕ → (ℕ → T) → List ℕ → ℕ → ℕ → List T → List T × Bool
  unfolding score_frames weigh_frames zeros
  blocked_head l layer scale context_len query frames kv_head q_head out =
      let start = q_head * l.shape.head_dim in
      elim (score_frames l layer scale (query_from o query start) kv_head context_len 0 frames
        ([], o.lowest)) [
          | none ↦ (out, false)
          | some (scores, highest) ↦
              elim (weigh_frames l layer highest scores kv_head context_len 0 frames
                (zeros o l.shape.head_dim, o.nought)) [
                  | none ↦ (out, false)
                  | some (accumulator, denominator) ↦
                      (write_head o denominator start accumulator out, true)
                ]
        ]

  unfoldable pub blocked_heads :
      KvBlockLayout → ℕ → F → ℕ → ℕ → (ℕ → T) → List ℕ → ℕ → ℕ → List T → List T × Bool
  unfolding blocked_head
  blocked_heads l layer scale context_len group_size query frames zero q_head out = (out, true)
  blocked_heads l layer scale context_len group_size query frames (suc n) q_head out =
      let (out', done) =
        blocked_head l layer scale context_len query frames (q_head / group_size) q_head out in
      let rest = λ (w : List T).
        blocked_heads l layer scale context_len group_size query frames n (q_head + 1) w in
      if done then rest out' else (out', false)

  unfoldable pub blocked_kernel :
      ℕ → CacheView → PagedAttentionParams F → (ℕ → T) → List T → List T × Bool
  unfolding resolve_frames logical_blocks blocked_heads offset_layer
  blocked_kernel size v params query out =
      elim (resolve_frames v params.layer (logical_blocks v params.context_len) 0) [
        | none ↦ (out, false)
        | some frames ↦
            blocked_heads v.layout (offset_layer v params.layer) params.scale params.context_len
              (params.num_query_heads / v.layout.shape.num_kv_heads) query frames
              params.num_query_heads 0 out
      ]

  unfoldable pub paged_attention_decode_blocked :
      ℕ
      → CacheView
      → Option (ℕ → T)
      → PagedAttentionParams F
      → Option (List T)
      → Option (List T) × Bool
  unfolding blocked_kernel guarded
  paged_attention_decode_blocked size v query params out =
      guarded o size v query params out (blocked_kernel size v params)
