-- ===== src/Attention/Same.antt =====
-- paged_attention_decode_blocked against paged_attention_decode, as whole calls.
use qwen_vl_paged.Prelude.{
  ℕ, zero, suc, ◌+◌, ◌*◌, ◌/◌, ◌≤◌, ◌<◌, ◌≡◌, refl, ap, sym, Option, none, some, Bool, false, ◌&&◌,
  List, [], ◌∷◌, arith, ltb, ltb→lt, if◌then◌else◌, inl, inr, Bool-cases, Option-cases,
}
use mathlib.Core.Path.{subst}
use native.Mathlib.Nat.{mod-eq_of_lt}
use qwen_vl_paged.Block.{frame_layers, per_layer_frames}
use qwen_vl_paged.Manager.View.{CacheView, no_layer}
use qwen_vl_paged.Attention.Floats.{Floats, PagedAttentionParams}
use qwen_vl_paged.Attention.Vectors.{query_from, refuses, guarded}
use qwen_vl_paged.Attention.Decode.{resolve_heads, decode_kernel, paged_attention_decode}
use qwen_vl_paged.Attention.Blocked.{
  offset_layer, resolve_frames, logical_blocks, tokens_in, score_frames, blocked_head,
  blocked_heads, blocked_kernel, paged_attention_decode_blocked,
}
use qwen_vl_paged.Attention.Walk.{Covers, tokens_left}
use qwen_vl_paged.Attention.Arguments.{Consistent, passed-Consistent}
use qwen_vl_paged.Attention.Rows.{
  Covers-div, resolve_frames-ListedIn, ListedIn, heads_lem, heads_known, heads_unknown, heads_off,
  frames_nonempty, score_frame_off,
}

module _ {F T : Type 0} (o : Floats F T) (memory : ℕ → ℕ → T) (size : ℕ) (v : CacheView)
    (params : PagedAttentionParams F) (passed : refuses o size v params ≡ false)
    (wired : (per_layer_frames v.layout.shape && no_layer v params.layer) ≡ false)
    (small : params.context_len + v.layout.shape.tokens_per_block < 4294967296) where
  arguments : Consistent size v params
  arguments = passed-Consistent o size v params passed

  blocks_cover :
      Covers v.layout.shape.tokens_per_block
        (logical_blocks v params.context_len)
        params.context_len
  unfolding logical_blocks
  blocks_cover =
      Covers-div v.layout.shape.tokens_per_block _ params.context_len arguments.tokens_pos
        (ap (λ z. z / v.layout.shape.tokens_per_block) (sym (mod-eq_of_lt (omega (arith, small)))))

  -- The first head's first frame ends the call.
  blocked_off :
      (scale : F) (group_size n : ℕ) (query : ℕ → T) (p : ℕ) (frames : List ℕ) (out : List T)
      → frame_layers v.layout.shape ≤ offset_layer v params.layer
      → 0 < n
      → blocked_heads o memory v.layout
          (offset_layer v params.layer)
          scale
          params.context_len
          group_size
          query
          (p ∷ frames)
          n
          0
          out
        ≡ (out, false)
  unfolding blocked_heads blocked_head score_frames
  blocked_off scale group_size zero query p frames out off some_head =
      absurd (omega (arith, some_head))
  blocked_off scale group_size (suc n) query p frames out off some_head = ap goes head_off
    where
      goes : List T × Bool → List T × Bool
      goes step =
          if step.1
          then blocked_heads o memory v.layout (offset_layer v params.layer) scale
              params.context_len group_size query (p ∷ frames) n 1 (step.0)
          else (step.0, false)

      tokens : 0 < tokens_in v.layout.shape.tokens_per_block params.context_len 0
      tokens = omega (
        arith,
        arguments.tokens_pos,
        arguments.context_pos,
        tokens_left v.layout.shape.tokens_per_block params.context_len 0 params.context_len small
            arguments.context_pos (omega arith),
      )

      scores_off :
          score_frames o memory v.layout
            (offset_layer v params.layer)
            scale
            (query_from o query (0 * v.layout.shape.head_dim))
            (0 / group_size)
            params.context_len
            0
            (p ∷ frames)
            ([], o.lowest)
          ≡ none
      scores_off =
          rw
            (
              score_frame_off o memory v.layout (offset_layer v params.layer) scale
                  (query_from o query (0 * v.layout.shape.head_dim)) (0 / group_size) p
                  (tokens_in v.layout.shape.tokens_per_block params.context_len 0) 0 ([], o.lowest)
                  off tokens,
              score_frames,
            )
            refl

      head_off :
          blocked_head o memory v.layout
            (offset_layer v params.layer)
            scale
            params.context_len
            query
            (p ∷ frames)
            (0 / group_size)
            0
            out
          ≡ (out, false)
      head_off = rw (scores_off, blocked_head) refl

  blocked_beyond :
      (query : ℕ → T) (frames : List ℕ) (out : List T)
      → resolve_frames v params.layer (logical_blocks v params.context_len) 0 ≡ some frames
      → frame_layers v.layout.shape ≤ offset_layer v params.layer
      → blocked_heads o memory v.layout
          (offset_layer v params.layer)
          params.scale
          params.context_len
          (params.num_query_heads / v.layout.shape.num_kv_heads)
          query
          frames
          params.num_query_heads
          0
          out
        ≡ (out, false)
  blocked_beyond query [] out e off = absurd (
      uncovered (logical_blocks v params.context_len)
        (frames_nonempty v params.layer (logical_blocks v params.context_len) 0 e) blocks_cover)
    where
      uncovered : (k : ℕ) → k ≡ 0 → Covers v.layout.shape.tokens_per_block k params.context_len → ⊥
      uncovered zero z c = omega (arith, c, arguments.context_pos)
      uncovered (suc k) z c = omega (arith, z)
  blocked_beyond query (p ∷ frames) out e off =
      blocked_off params.scale _ params.num_query_heads query p frames out off arguments.heads_pos

  kernel_lem :
      (query : ℕ → T) (out : List T)
      → blocked_kernel o memory size v params query out
        ≡ decode_kernel o memory size v params query out
  unfolding blocked_kernel decode_kernel
  kernel_lem query out =
      elim (Bool-cases (ltb (offset_layer v params.layer) (frame_layers v.layout.shape))) [
        | inl within ↦ elim (Option-cases (resolve_frames v params.layer k 0)) [
          | inl e ↦
              rw
                (
                  e,
                  heads_unknown size v params.layer params.context_len k arguments.checked
                      arguments.sized wired (ltb→lt _ _ within) small arguments.tokens_pos
                      blocks_cover v.layout.shape.num_kv_heads arguments.kv_pos e arguments.kv_pos,
                  blocked_kernel,
                  decode_kernel,
                )
                refl
          | inr (frames, e) ↦
              rw
                (
                  e,
                  heads_known size v params.layer params.context_len k arguments.checked
                      arguments.sized wired (ltb→lt _ _ within) small arguments.tokens_pos
                      blocks_cover frames v.layout.shape.num_kv_heads 0 e (omega arith),
                  blocked_kernel,
                  decode_kernel,
                )
                (heads_lem o memory v.layout (offset_layer v params.layer) params.scale
                  params.context_len group query frames params.num_query_heads 0 out
                  (ltb→lt _ _ within) small
                  (subst (ListedIn v.layout.shape.tokens_per_block params.context_len 0) e (
                    resolve_frames-ListedIn v params.layer params.context_len k params.context_len 0
                      blocks_cover (λ _. omega arith)))
                  arguments.group_pos (omega (arith, arguments.group_lem)))
        ]
        | inr beyond ↦ elim (Option-cases (resolve_frames v params.layer k 0)) [
          | inl e ↦ rw (e, none_resolved beyond, blocked_kernel, decode_kernel) refl
          | inr (frames, e) ↦
              rw (e, none_resolved beyond, blocked_kernel, decode_kernel)
                (blocked_beyond query frames out e (ground (arith, beyond)))
        ]
      ]
    where
      k : ℕ
      k = logical_blocks v params.context_len

      group : ℕ
      group = params.num_query_heads / v.layout.shape.num_kv_heads

      none_resolved :
          ltb (offset_layer v params.layer) (frame_layers v.layout.shape) ≡ false
          → resolve_heads size v params.layer params.context_len v.layout.shape.num_kv_heads 0
            ≡ none
      none_resolved beyond =
          heads_off size v params.layer params.context_len v.layout.shape.num_kv_heads
            arguments.checked arguments.sized wired (ground (arith, beyond)) arguments.context_pos
            arguments.kv_pos

-- Guarded calls of kernels that agree where the checks pass.
guarded_lem :
    {F T : Type 0} (o : Floats F T) (size : ℕ) (v : CacheView) (query : Option (ℕ → T))
    (params : PagedAttentionParams F) (out : Option (List T))
    (kernel other : (ℕ → T) → List T → List T × Bool)
    → (refuses o size v params ≡ false → (q : ℕ → T) (w : List T) → kernel q w ≡ other q w)
    → guarded o size v query params out kernel ≡ guarded o size v query params out other
unfolding guarded
guarded_lem o size v none params out kernel other eq = refl
guarded_lem o size v (some q) params none kernel other eq = refl
guarded_lem o size v (some q) params (some w) kernel other eq =
    elim (Bool-cases (refuses o size v params)) [
      | inl refused ↦ rw (refused, guarded) refl
      | inr passed ↦ rw (passed, guarded) (ap (λ r. (some (r.0), r.1)) (eq passed q w))
    ]

-- Of a view whose layer is in its own tables where a frame is one layer, and a context that with
-- one more block does not reach 2^32: the call by frames writes the same output and returns the
-- same answer as the call by tokens, whatever the arguments, the memory and the arithmetic are.
pub blocked-eq-decode :
    {F T : Type 0} (o : Floats F T) (memory : ℕ → ℕ → T) (size : ℕ) (v : CacheView)
    (query : Option (ℕ → T)) (params : PagedAttentionParams F) (out : Option (List T))
    → (per_layer_frames v.layout.shape && no_layer v params.layer) ≡ false
    → params.context_len + v.layout.shape.tokens_per_block < 4294967296
    → paged_attention_decode_blocked o memory size v query params out
      ≡ paged_attention_decode o memory size v query params out
unfolding paged_attention_decode_blocked paged_attention_decode
blocked-eq-decode o memory size v query params out wired small =
    guarded_lem o size v query params out (blocked_kernel o memory size v params)
      (decode_kernel o memory size v params)
      (λ passed. kernel_lem o memory size v params passed wired small)
