-- ===== src/Attention/Fused.antt =====
-- The variants of paged_attention_decode_opt in include/qwenvl_paged/PagedAttention.h that read each
-- key and value once for all query heads of its kv head: in two passes, which is
-- paged_attention_decode_fused, and in one, which is paged_attention_decode_fast where the loops of
-- detail are compiled without AVX-512 or head_dim is not a multiple of 16.
use qwen_vl_paged.Prelude.{
  ℕ, zero, suc, ◌+◌, ◌*◌, ◌/◌, Option, none, some, Bool, true, false, ◌&&◌, not, List, [], ◌∷◌,
  ◌++◌, set, if◌then◌else◌,
}
use qwen_vl_paged.Layout.{KvBlockLayout, key, value, element_offset}
use qwen_vl_paged.Manager.View.{CacheView}
use qwen_vl_paged.Attention.Floats.{Floats, PagedAttentionParams}
use qwen_vl_paged.Attention.Vectors.{
  Address, guarded, dot, axpy, zeros, score_at, query_from, element, add_weight,
}
use qwen_vl_paged.Attention.Blocked.{
  offset_layer, resolve_frames, logical_blocks, first_token, tokens_in,
}

-- One query head of a group: where its query starts, its scores and their maximum, its accumulator
-- and its denominator.
pub record GroupHead (F : Type 0) : Type 0 where
  pub start : ℕ
  pub scores : List F
  pub max_score : F
  pub accumulator : List F
  pub denom : F

-- The same step for every head of a group.
unfoldable pub each :
    {F : Type 0} → (GroupHead F → GroupHead F) → List (GroupHead F) → List (GroupHead F)
each f [] = []
each f (g ∷ gs) = f g ∷ each f gs

module _ {F T : Type 0} (o : Floats F T) where
  -- The heads of a group before its tokens, from query head `q_head` on.
  unfoldable pub new_group : ℕ → ℕ → ℕ → List (GroupHead F)
  unfolding zeros
  new_group head_dim zero q_head = []
  new_group head_dim (suc n) q_head =
      record {
        start = q_head * head_dim;
        scores = [];
        max_score = o.lowest;
        accumulator = zeros o head_dim;
        denom = o.nought;
      }
      ∷ new_group head_dim n (q_head + 1)

  -- detail::scale_head without AVX-512.
  unfoldable pub scale_head : F → List F → List F
  scale_head factor [] = []
  scale_head factor (a ∷ accumulator) = o.mul a factor ∷ scale_head factor accumulator

  -- The division and the store for one head of a group.
  unfoldable pub store_head : F → ℕ → List F → List T → List T
  store_head inv start [] out = out
  store_head inv start (a ∷ accumulator) out =
      store_head inv (start + 1) accumulator (set out start (o.narrow (o.mul a inv)))

  unfoldable pub store_group : List (GroupHead F) → List T → List T
  unfolding store_head
  store_group [] out = out
  store_group (g ∷ gs) out =
      store_group gs (store_head (o.quot o.one g.denom) g.start g.accumulator out)

  module _ (memory : ℕ → ℕ → T) where
    group_score : ℕ → F → (ℕ → T) → Address → GroupHead F → F
    unfolding dot element
    group_score head_dim scale query k g =
        o.mul scale (dot o head_dim 0 o.nought (query_from o query g.start) (element o memory k))

    -- One token's key, for one head.
    unfoldable pub add_group_score : ℕ → F → (ℕ → T) → Address → GroupHead F → GroupHead F
    unfolding group_score
    add_group_score head_dim scale query k g =
        let s = group_score head_dim scale query k g in
        record g { scores = g.scores ++ s ∷ []; max_score = o.greater g.max_score s }

    -- One token's value, for one head.
    unfoldable pub add_group_weight : ℕ → Address → GroupHead F → GroupHead F
    unfolding add_weight
    add_group_weight token x g =
        let (accumulator', denom') =
          add_weight o memory g.max_score (score_at o g.scores token) x (g.accumulator, g.denom) in
        record g { accumulator = accumulator'; denom = denom' }

    -- One token's key and value, for one head of the single pass.
    unfoldable pub add_online : ℕ → F → (ℕ → T) → Address → Address → GroupHead F → GroupHead F
    unfolding group_score scale_head axpy element
    add_online head_dim scale query k x g =
        let s = group_score head_dim scale query k g in
        let new_max = o.greater g.max_score s in
        let rescale = o.exp (o.sub g.max_score new_max) in
        let weight = o.exp (o.sub s new_max) in
        let scaled =
          if not (o.same g.max_score new_max) && not (o.same g.denom o.nought)
          then scale_head rescale g.accumulator
          else g.accumulator in
        record g {
          accumulator = axpy o weight (element o memory x) 0 scaled;
          denom = o.add (o.mul g.denom rescale) weight;
          max_score = new_max;
        }

    -- The first pass over the `n` tokens of a frame from its token `t` on, and over the frames.
    unfoldable pub score_group :
        KvBlockLayout
        → ℕ
        → F
        → (ℕ → T)
        → ℕ
        → ℕ
        → ℕ
        → ℕ
        → List (GroupHead F)
        → Option (List (GroupHead F))
    unfolding each add_group_score
    score_group l layer scale query kv_head frame zero t gs = some gs
    score_group l layer scale query kv_head frame (suc n) t gs =
        elim (element_offset l layer key t kv_head) [
          | none ↦ none
          | some k ↦
              score_group l layer scale query kv_head frame n (t + 1)
                (each (add_group_score l.shape.head_dim scale query (frame, k)) gs)
        ]

    unfoldable pub score_group_frames :
        KvBlockLayout
        → ℕ
        → F
        → (ℕ → T)
        → ℕ
        → ℕ
        → ℕ
        → List ℕ
        → List (GroupHead F)
        → Option (List (GroupHead F))
    unfolding score_group
    score_group_frames l layer scale query kv_head context_len logical [] gs = some gs
    score_group_frames l layer scale query kv_head context_len logical (p ∷ frames) gs =
        elim (score_group l layer scale query kv_head p
          (tokens_in l.shape.tokens_per_block context_len logical) 0 gs) [
            | none ↦ none
            | some gs' ↦
                score_group_frames l layer scale query kv_head context_len (logical + 1) frames gs'
          ]

    -- The second pass.
    unfoldable pub weigh_group :
        KvBlockLayout → ℕ → ℕ → ℕ → ℕ → ℕ → ℕ → List (GroupHead F) → Option (List (GroupHead F))
    unfolding each add_group_weight
    weigh_group l layer kv_head frame begin zero t gs = some gs
    weigh_group l layer kv_head frame begin (suc n) t gs =
        elim (element_offset l layer value t kv_head) [
          | none ↦ none
          | some x ↦
              weigh_group l layer kv_head frame begin n (t + 1)
                (each (add_group_weight (begin + t) (frame, x)) gs)
        ]

    unfoldable pub weigh_group_frames :
        KvBlockLayout → ℕ → ℕ → ℕ → ℕ → List ℕ → List (GroupHead F) → Option (List (GroupHead F))
    unfolding weigh_group
    weigh_group_frames l layer kv_head context_len logical [] gs = some gs
    weigh_group_frames l layer kv_head context_len logical (p ∷ frames) gs =
        elim (weigh_group l layer kv_head p (first_token l.shape.tokens_per_block logical)
          (tokens_in l.shape.tokens_per_block context_len logical) 0 gs) [
            | none ↦ none
            | some gs' ↦ weigh_group_frames l layer kv_head context_len (logical + 1) frames gs'
          ]

    -- The single pass.
    unfoldable pub online_group :
        KvBlockLayout
        → ℕ
        → F
        → (ℕ → T)
        → ℕ
        → ℕ
        → ℕ
        → ℕ
        → List (GroupHead F)
        → Option (List (GroupHead F))
    unfolding each add_online
    online_group l layer scale query kv_head frame zero t gs = some gs
    online_group l layer scale query kv_head frame (suc n) t gs =
        elim (element_offset l layer key t kv_head) [
          | none ↦ none
          | some k ↦ elim (element_offset l layer value t kv_head) [
            | none ↦ none
            | some x ↦
                online_group l layer scale query kv_head frame n (t + 1)
                  (each (add_online l.shape.head_dim scale query (frame, k) (frame, x)) gs)
          ]
        ]

    unfoldable pub online_group_frames :
        KvBlockLayout
        → ℕ
        → F
        → (ℕ → T)
        → ℕ
        → ℕ
        → ℕ
        → List ℕ
        → List (GroupHead F)
        → Option (List (GroupHead F))
    unfolding online_group
    online_group_frames l layer scale query kv_head context_len logical [] gs = some gs
    online_group_frames l layer scale query kv_head context_len logical (p ∷ frames) gs =
        elim (online_group l layer scale query kv_head p
          (tokens_in l.shape.tokens_per_block context_len logical) 0 gs) [
            | none ↦ none
            | some gs' ↦
                online_group_frames l layer scale query kv_head context_len (logical + 1) frames gs'
          ]

    -- The heads of one kv head, in one pass where `online` and else in two.
    unfoldable pub run_group :
        Bool
        → KvBlockLayout
        → ℕ
        → F
        → ℕ
        → (ℕ → T)
        → List ℕ
        → ℕ
        → List (GroupHead F)
        → Option (List (GroupHead F))
    unfolding online_group_frames score_group_frames weigh_group_frames
    run_group true l layer scale context_len query frames kv_head gs =
        online_group_frames l layer scale query kv_head context_len 0 frames gs
    run_group false l layer scale context_len query frames kv_head gs =
        elim (score_group_frames l layer scale query kv_head context_len 0 frames gs) [
          | none ↦ none
          | some gs' ↦ weigh_group_frames l layer kv_head context_len 0 frames gs'
        ]

    unfoldable pub run_groups :
        Bool → KvBlockLayout → ℕ → F → ℕ → ℕ → (ℕ → T) → List ℕ → ℕ → ℕ → List T → List T × Bool
    unfolding run_group new_group store_group
    run_groups online l layer scale context_len group_size query frames zero kv_head out =
        (out, true)
    run_groups online l layer scale context_len group_size query frames (suc n) kv_head out =
        elim (run_group online l layer scale context_len query frames kv_head
          (new_group l.shape.head_dim group_size (kv_head * group_size))) [
            | none ↦ (out, false)
            | some gs ↦
                run_groups online l layer scale context_len group_size query frames n (kv_head + 1)
                  (store_group gs out)
          ]

    unfoldable pub opt_kernel :
        Bool → ℕ → CacheView → PagedAttentionParams F → (ℕ → T) → List T → List T × Bool
    unfolding resolve_frames logical_blocks run_groups offset_layer
    opt_kernel online size v params query out =
        elim (resolve_frames v params.layer (logical_blocks v params.context_len) 0) [
          | none ↦ (out, false)
          | some frames ↦
              run_groups online v.layout (offset_layer v params.layer) params.scale
                params.context_len (params.num_query_heads / v.layout.shape.num_kv_heads) query
                frames v.layout.shape.num_kv_heads 0 out
        ]

    unfoldable pub paged_attention_decode_fused :
        ℕ
        → CacheView
        → Option (ℕ → T)
        → PagedAttentionParams F
        → Option (List T)
        → Option (List T) × Bool
    unfolding opt_kernel guarded
    paged_attention_decode_fused size v query params out =
        guarded o size v query params out (opt_kernel false size v params)

    unfoldable pub paged_attention_decode_fast :
        ℕ
        → CacheView
        → Option (ℕ → T)
        → PagedAttentionParams F
        → Option (List T)
        → Option (List T) × Bool
    unfolding opt_kernel guarded
    paged_attention_decode_fast size v query params out =
        guarded o size v query params out (opt_kernel true size v params)
