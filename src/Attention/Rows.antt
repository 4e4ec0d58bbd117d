-- ===== src/Attention/Rows.antt =====
-- The addresses and the frames that the kernels of include/qwenvl_paged/PagedAttention.h resolve.
use qwen_vl_paged.Prelude.{
  ℕ, zero, suc, ◌+◌, ◌-◌, ◌*◌, ◌/◌, ◌%◌, ◌≤◌, ◌<◌, ◌≡◌, refl, ap, ◌∙◌, sym, min, Option, none, some,
  Bool, true, false, ◌&&◌, List, [], ◌∷◌, arith, ◌==◌, if◌then◌else◌, inl, inr, Option-cases,
}
use mathlib.Core.Option
use native.Mathlib.Nat.{div-lt_iff_lt-mul}
use qwen_vl_paged.Block.{frame_layers, per_layer_frames}
use qwen_vl_paged.Layout.{KvBlockLayout, key}
use qwen_vl_paged.Manager.View.{CacheView, valid, no_layer, block_bytes}
use qwen_vl_paged.Attention.Floats.{Floats}
use qwen_vl_paged.Attention.Vectors.{Address}
use qwen_vl_paged.Attention.Decode.{
  resolve_tokens, resolve_heads, row_at, decode_head, decode_heads,
}
use qwen_vl_paged.Attention.Blocked.{
  frame_layer, offset_layer, resolve_frames, score_frame, blocked_heads,
}
use qwen_vl_paged.Attention.Walk.{
  Covers, walk_row, offset_unknown, slot_value, resolve_stops, resolve_walk, next_block,
  frames_next, frames_stop,
}
use qwen_vl_paged.Attention.Passes.{Listed, blocked_head_lem}

pub Covers-div : (tpb k n : ℕ) → 0 < tpb → (n + tpb - 1) / tpb ≡ k → Covers tpb k n
Covers-div tpb zero n pos e = grind arith
Covers-div tpb (suc k) n pos e = (grind arith, Covers-div tpb k (n - min tpb n) pos (grind arith))

abbrev pub ListedIn : ℕ → ℕ → ℕ → Option (List ℕ) → Type 0
ListedIn tpb context_len i none = Unit {0}
ListedIn tpb context_len i (some frames) = Listed tpb context_len i frames

ListedIn-cons :
    (tpb context_len i p : ℕ) (x : Option (List ℕ))
    → i * tpb < context_len
    → ListedIn tpb context_len (i + 1) x
    → ListedIn tpb context_len i (Option.map (λ frames. p ∷ frames) x)
ListedIn-cons tpb context_len i p none h listed = tt
ListedIn-cons tpb context_len i p (some frames) h listed = (h, listed)

pub resolve_frames-ListedIn :
    (v : CacheView) (layer context_len k n i : ℕ)
    → Covers v.layout.shape.tokens_per_block k n
    → (0 < n → i * v.layout.shape.tokens_per_block + n ≡ context_len)
    → ListedIn v.layout.shape.tokens_per_block context_len i (resolve_frames v layer k i)
unfolding resolve_frames
resolve_frames-ListedIn v layer context_len zero n i covers total = tt
resolve_frames-ListedIn v layer context_len (suc k) n i covers total =
    elim (Option-cases (block_bytes v i (frame_layer v layer))) [
      | inl off ↦ rw (frames_stop v layer k i off) tt
      | inr (p, at) ↦ rw (frames_next v layer k i p at) (
          ListedIn-cons tpb context_len i p (resolve_frames v layer k (i + 1))
            (omega (arith, total covers.0, covers.0))
            (resolve_frames-ListedIn v layer context_len k (n - min tpb n) (i + 1) covers.1
              (λ h. omega (arith, h, next_block i tpb, total covers.0))))
    ]
  where
    tpb : ℕ
    tpb = v.layout.shape.tokens_per_block

-- The rows of the kv heads, where the frames are known.
pub rows_from : KvBlockLayout → ℕ → ℕ → List ℕ → ℕ → ℕ → List (List (Address × Address))
rows_from l layer context_len frames zero head = []
rows_from l layer context_len frames (suc n) head =
    walk_row l layer head context_len 0 frames ∷ rows_from l layer context_len frames n (head + 1)

row_at_rows :
    (l : KvBlockLayout) (layer context_len : ℕ) (frames : List ℕ) (n head j : ℕ)
    → j < n
    → row_at (rows_from l layer context_len frames n head) j
      ≡ walk_row l layer (head + j) context_len 0 frames
unfolding rows_from
row_at_rows l layer context_len frames zero head j h = absurd (omega (arith, h))
row_at_rows l layer context_len frames (suc n) head zero h =
    ap (λ z. walk_row l layer z context_len 0 frames) (omega arith)
row_at_rows l layer context_len frames (suc n) head (suc j) h =
    row_at_rows l layer context_len frames n (head + 1) j (omega (arith, h))
    ∙ ap (λ z. walk_row l layer z context_len 0 frames) (omega arith)

module _ {F T : Type 0} (o : Floats F T) (memory : ℕ → ℕ → T) where
  pub heads_lem :
      (l : KvBlockLayout) (layer : ℕ) (scale : F) (context_len group_size : ℕ) (query : ℕ → T)
      (frames : List ℕ) (n q_head : ℕ) (out : List T)
      → layer < frame_layers l.shape
      → context_len + l.shape.tokens_per_block < 4294967296
      → Listed l.shape.tokens_per_block context_len 0 frames
      → 0 < group_size
      → q_head + n ≤ l.shape.num_kv_heads * group_size
      → blocked_heads o memory l layer scale context_len group_size query frames n q_head out ≡ (
        decode_heads o memory l.shape.head_dim scale group_size query
            (rows_from l layer context_len frames l.shape.num_kv_heads 0)
            n
            q_head
            out,
        true,
      )
  unfolding blocked_heads decode_heads
  heads_lem l layer scale context_len group_size query frames zero q_head out lt small listed pos
        fits =
      refl
  heads_lem l layer scale context_len group_size query frames (suc n) q_head out lt small listed pos
        fits =
      ap goes (
        blocked_head_lem o memory l layer (q_head / group_size) lt kv_lt scale context_len query
          frames q_head out small listed)
      ∙ heads_lem l layer scale context_len group_size query frames n (q_head + 1) _ lt small listed
          pos (omega (arith, fits))
      ∙ ap
          (λ row. (
            decode_heads o memory l.shape.head_dim scale group_size query
                (rows_from l layer context_len frames l.shape.num_kv_heads 0) n (q_head + 1)
                (decode_head o memory l.shape.head_dim scale query row q_head out),
            true,
          ))
          (sym (
            row_at_rows l layer context_len frames l.shape.num_kv_heads 0 (q_head / group_size)
              kv_lt
            ∙ ap (λ z. walk_row l layer z context_len 0 frames) (omega arith)))
    where
      goes : List T × Bool → List T × Bool
      goes step =
          if step.1
          then blocked_heads o memory l layer scale context_len group_size query frames n
              (q_head + 1) (step.0)
          else (step.0, false)

      kv_lt : q_head / group_size < l.shape.num_kv_heads
      kv_lt = (div-lt_iff_lt-mul pos).1 (omega (arith, fits))

heads_next :
    (size : ℕ) (v : CacheView) (layer context_len n head : ℕ) (row : List (Address × Address))
    → resolve_tokens size v layer head context_len 0 ≡ some row
    → resolve_heads size v layer context_len (suc n) head
      ≡ Option.map (λ rows. row ∷ rows) (resolve_heads size v layer context_len n (head + 1))
unfolding resolve_heads
heads_next size v layer context_len n head row e = rw (e, resolve_heads) refl

heads_stop :
    (size : ℕ) (v : CacheView) (layer context_len n head : ℕ)
    → resolve_tokens size v layer head context_len 0 ≡ none
    → resolve_heads size v layer context_len (suc n) head ≡ none
unfolding resolve_heads
heads_stop size v layer context_len n head e = rw (e, resolve_heads) refl

-- The rows of a view whose frames are all resident, or not.
module _ (size : ℕ) (v : CacheView) (layer context_len k : ℕ) (ok : valid v ≡ true)
    (sized : (size == v.layout.shape.bytes_per_element) ≡ true)
    (wired : (per_layer_frames v.layout.shape && no_layer v layer) ≡ false)
    (layer_lt : offset_layer v layer < frame_layers v.layout.shape)
    (small : context_len + v.layout.shape.tokens_per_block < 4294967296)
    (tpb_pos : 0 < v.layout.shape.tokens_per_block)
    (covers : Covers v.layout.shape.tokens_per_block k context_len) where
  row_lem :
      (head : ℕ)
      → head < v.layout.shape.num_kv_heads
      → resolve_tokens size v layer head context_len 0
        ≡ Option.map
            (walk_row v.layout (offset_layer v layer) head context_len 0)
            (resolve_frames v layer k 0)
  row_lem head lt =
      resolve_walk size v layer ok sized wired head lt layer_lt context_len k context_len 0 0 small
        tpb_pos covers (λ _. omega arith) (λ _. omega arith)

  pub heads_known :
      (frames : List ℕ) (n head : ℕ)
      → resolve_frames v layer k 0 ≡ some frames
      → head + n ≤ v.layout.shape.num_kv_heads
      → resolve_heads size v layer context_len n head
        ≡ some (rows_from v.layout (offset_layer v layer) context_len frames n head)
  unfolding resolve_heads rows_from
  heads_known frames zero head e fits = refl
  heads_known frames (suc n) head e fits =
      heads_next size v layer context_len n head _ (
        row_lem head (omega (arith, fits))
        ∙ ap (Option.map (walk_row v.layout (offset_layer v layer) head context_len 0)) e)
      ∙ ap
          (Option.map
            (λ rows. walk_row v.layout (offset_layer v layer) head context_len 0 frames ∷ rows))
          (heads_known frames n (head + 1) e (omega (arith, fits)))

  pub heads_unknown :
      (n : ℕ)
      → 0 < n
      → resolve_frames v layer k 0 ≡ none
      → 0 < v.layout.shape.num_kv_heads
      → resolve_heads size v layer context_len n 0 ≡ none
  heads_unknown zero some_head e pos = absurd (omega (arith, some_head))
  heads_unknown (suc n) some_head e pos =
      heads_stop size v layer context_len n 0 (
        row_lem 0 pos
        ∙ ap (Option.map (walk_row v.layout (offset_layer v layer) 0 context_len 0)) e)

-- Outside the layers of a frame no token has an address.
pub heads_off :
    (size : ℕ) (v : CacheView) (layer context_len n : ℕ)
    → valid v ≡ true
    → (size == v.layout.shape.bytes_per_element) ≡ true
    → (per_layer_frames v.layout.shape && no_layer v layer) ≡ false
    → frame_layers v.layout.shape ≤ offset_layer v layer
    → 0 < context_len
    → 0 < n
    → resolve_heads size v layer context_len n 0 ≡ none
heads_off size v layer zero n ok sized wired off tokens heads = absurd (omega (arith, tokens))
heads_off size v layer (suc c) zero ok sized wired off tokens heads = absurd (omega (arith, heads))
heads_off size v layer (suc c) (suc n) ok sized wired off tokens heads =
    heads_stop size v layer (suc c) n 0 (
      resolve_stops size v layer 0 c 0 (
        slot_value size v layer ok sized wired key 0 0
        ∙ rw
            (offset_unknown v.layout (offset_layer v layer) key
              (0 % v.layout.shape.tokens_per_block) 0 off)
            refl))

pub frames_nonempty : (v : CacheView) (layer k i : ℕ) → resolve_frames v layer k i ≡ some [] → k ≡ 0
unfolding resolve_frames
frames_nonempty v layer zero i e = refl
frames_nonempty v layer (suc k) i e = absurd (ground (arith, e))

pub score_frame_off :
    {F T : Type 0} (o : Floats F T) (memory : ℕ → ℕ → T) (l : KvBlockLayout) (layer : ℕ) (scale : F)
    (query : ℕ → T) (head p n t : ℕ) (state : List F × F)
    → frame_layers l.shape ≤ layer
    → 0 < n
    → score_frame o memory l layer scale query head p n t state ≡ none
unfolding score_frame
score_frame_off o memory l layer scale query head p zero t state off tokens =
    absurd (omega (arith, tokens))
score_frame_off o memory l layer scale query head p (suc n) t state off tokens =
    rw (offset_unknown l layer key t head off, score_frame) refl
