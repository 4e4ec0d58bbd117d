-- ===== src/Attention/Walk.antt =====
-- The walk over the page table: the addresses that paged_attention_decode resolves token by token
-- are those that paged_attention_decode_blocked finds frame by frame.
use qwen_vl_paged.Prelude.{
  ℕ, zero, suc, ◌+◌, ◌-◌, ◌*◌, ◌/◌, ◌%◌, ◌≤◌, ◌<◌, ◌≡◌, refl, ap, ◌∙◌, sym, min, Option, none, some,
  true, false, ◌&&◌, List, [], ◌∷◌, ◌++◌, arith, ◌==◌, u32, Option-cases, inl, inr,
}
use mathlib.Core.Option
use native.Mathlib.Nat.{mod-eq_of_lt}
use qwen_vl_paged.Block.{frame_layers, per_layer_frames}
use qwen_vl_paged.Layout.{KvStream, KvBlockLayout, key, value, element_offset}
use qwen_vl_paged.Manager.View.{CacheView, valid, block_bytes, no_layer, slot}
use qwen_vl_paged.Attention.Vectors.{Address}
use qwen_vl_paged.Attention.Decode.{resolve_tokens}
use qwen_vl_paged.Attention.Blocked.{frame_layer, offset_layer, resolve_frames, tokens_in}

-- The token's block and its place in it.
place_div : (i t n : ℕ) → t < n → (i * n + t) / n ≡ i
place_div i t n h = grind arith

place_mod : (i t n : ℕ) → t < n → (i * n + t) % n ≡ t
place_mod i t n h = grind arith

pub next_block : (i n : ℕ) → (i + 1) * n ≡ i * n + n
next_block i n = grind arith

-- The offset of a vector, 0 outside the shape.
abbrev pub offset_or : KvBlockLayout → ℕ → KvStream → ℕ → ℕ → ℕ
offset_or l layer stream t head = elim (element_offset l layer stream t head) [
  | none ↦ 0
  | some k ↦ k
]

pub offset_known :
    (l : KvBlockLayout) (layer : ℕ) (stream : KvStream) (t head : ℕ)
    → layer < frame_layers l.shape
    → t < l.shape.tokens_per_block
    → head < l.shape.num_kv_heads
    → element_offset l layer stream t head ≡ some (offset_or l layer stream t head)
unfolding element_offset
offset_known l layer stream t head h h' h'' = ground arith

pub offset_unknown :
    (l : KvBlockLayout) (layer : ℕ) (stream : KvStream) (t head : ℕ)
    → frame_layers l.shape ≤ layer
    → element_offset l layer stream t head ≡ none
unfolding element_offset
offset_unknown l layer stream t head h = ground arith

abbrev pub token_row : KvBlockLayout → ℕ → ℕ → ℕ → ℕ → Address × Address
token_row l layer head p t =
    ((p, offset_or l layer key t head), (p, offset_or l layer value t head))

-- The addresses of the keys and values of the `n` tokens of a frame from its token `t` on.
abbrev pub block_row : KvBlockLayout → ℕ → ℕ → ℕ → ℕ → ℕ → List (Address × Address)
block_row l layer head p zero t = []
block_row l layer head p (suc n) t = token_row l layer head p t ∷ block_row l layer head p n (t + 1)

abbrev pub walk_row : KvBlockLayout → ℕ → ℕ → ℕ → ℕ → List ℕ → List (Address × Address)
walk_row l layer head context_len logical [] = []
walk_row l layer head context_len logical (p ∷ frames) =
    block_row l layer head p (tokens_in l.shape.tokens_per_block context_len logical) 0
    ++ walk_row l layer head context_len (logical + 1) frames

-- `n` tokens from block `i` on are left for `k` blocks.
abbrev pub Covers : ℕ → ℕ → ℕ → Type 0
Covers tpb zero n = n ≡ 0
Covers tpb (suc k) n = (0 < n) × Covers tpb k (n - min tpb n)

pub tokens_left :
    (tpb context_len i n : ℕ)
    → context_len + tpb < 4294967296
    → 0 < n
    → i * tpb + n ≡ context_len
    → tokens_in tpb context_len i ≡ min tpb n
tokens_left tpb context_len i n small some_left e =
    let begin : u32 (i * tpb) ≡ i * tpb = mod-eq_of_lt (omega (arith, e)) in
    let stop : u32 (i * tpb + tpb) ≡ i * tpb + tpb = mod-eq_of_lt (omega (arith, e)) in
    rw begin (rw stop (omega (arith, e)))

map_nothing : {A : Type 0} (x : Option (List A)) → x ≡ Option.map (λ xs. [] ++ xs) x
map_nothing none = refl
map_nothing (some xs) = refl

map-map :
    {A B C : Type 0} (f : B → C) (g : A → B) (x : Option A)
    → Option.map f (Option.map g x) ≡ Option.map (λ a. f (g a)) x
map-map f g none = refl
map-map f g (some a) = refl

resolve_next :
    (size : ℕ) (v : CacheView) (layer head n token : ℕ) (k x : Address)
    → slot size v key layer token head ≡ some k
    → slot size v value layer token head ≡ some x
    → resolve_tokens size v layer head (suc n) token
      ≡ Option.map (λ row. (k, x) ∷ row) (resolve_tokens size v layer head n (token + 1))
unfolding resolve_tokens
resolve_next size v layer head n token k x e e' = rw (e, e', resolve_tokens) refl

pub resolve_stops :
    (size : ℕ) (v : CacheView) (layer head n token : ℕ)
    → slot size v key layer token head ≡ none
    → resolve_tokens size v layer head (suc n) token ≡ none
unfolding resolve_tokens
resolve_stops size v layer head n token e = rw (e, resolve_tokens) refl

pub frames_next :
    (v : CacheView) (layer n i p : ℕ)
    → block_bytes v i (frame_layer v layer) ≡ some p
    → resolve_frames v layer (suc n) i
      ≡ Option.map (λ frames. p ∷ frames) (resolve_frames v layer n (i + 1))
unfolding resolve_frames
frames_next v layer n i p e = rw (e, resolve_frames) refl

pub frames_stop :
    (v : CacheView) (layer n i : ℕ)
    → block_bytes v i (frame_layer v layer) ≡ none
    → resolve_frames v layer (suc n) i ≡ none
unfolding resolve_frames
frames_stop v layer n i e = rw (e, resolve_frames) refl

-- A view whose layer has a table of its own where frames are per layer.
module _ (size : ℕ) (v : CacheView) (layer : ℕ) (ok : valid v ≡ true)
    (sized : (size == v.layout.shape.bytes_per_element) ≡ true)
    (wired : (per_layer_frames v.layout.shape && no_layer v layer) ≡ false) where
  pub slot_value :
      (stream : KvStream) (token head : ℕ)
      → slot size v stream layer token head
        ≡ elim (element_offset v.layout
            (offset_layer v layer)
            stream
            (token % v.layout.shape.tokens_per_block)
            head) [
              | none ↦ none
              | some k ↦
                  elim (block_bytes v
                    (token / v.layout.shape.tokens_per_block)
                    (frame_layer v layer)) [ none ↦ none | some p ↦ some (p, k) ]
            ]
  unfolding slot offset_layer frame_layer
  slot_value stream token head = rw (ok, sized, wired, slot) refl

  module _ (head : ℕ) (head_lt : head < v.layout.shape.num_kv_heads)
      (layer_lt : offset_layer v layer < frame_layers v.layout.shape) where
    slot_in_block :
        (stream : KvStream) (i t p : ℕ)
        → t < v.layout.shape.tokens_per_block
        → block_bytes v i (frame_layer v layer) ≡ some p
        → slot size v stream layer (i * v.layout.shape.tokens_per_block + t) head
          ≡ some (p, offset_or v.layout (offset_layer v layer) stream t head)
    slot_in_block stream i t p t_lt at =
        slot_value stream (i * v.layout.shape.tokens_per_block + t) head
        ∙ rw
            (
              place_mod i t v.layout.shape.tokens_per_block t_lt,
              offset_known v.layout (offset_layer v layer) stream t head layer_lt t_lt head_lt,
              place_div i t v.layout.shape.tokens_per_block t_lt,
              at,
            )
            refl

    slot_off_block :
        (stream : KvStream) (i t : ℕ)
        → t < v.layout.shape.tokens_per_block
        → block_bytes v i (frame_layer v layer) ≡ none
        → slot size v stream layer (i * v.layout.shape.tokens_per_block + t) head ≡ none
    slot_off_block stream i t t_lt at =
        slot_value stream (i * v.layout.shape.tokens_per_block + t) head
        ∙ rw
            (
              place_mod i t v.layout.shape.tokens_per_block t_lt,
              offset_known v.layout (offset_layer v layer) stream t head layer_lt t_lt head_lt,
              place_div i t v.layout.shape.tokens_per_block t_lt,
              at,
            )
            refl

    place : ℕ → ℕ → ℕ
    place i t = i * v.layout.shape.tokens_per_block + t

    next_place : (i t : ℕ) → place i t + 1 ≡ place i (t + 1)
    unfolding place
    next_place i t = omega arith

    last_place : (i t m : ℕ) → place i (t + 1) + m ≡ place i t + suc m
    unfolding place
    last_place i t m = omega arith

    -- The tokens of one resident frame.
    resolve_block :
        (m n rest i t p : ℕ)
        → n ≡ m + rest
        → t + m ≤ v.layout.shape.tokens_per_block
        → block_bytes v i (frame_layer v layer) ≡ some p
        → resolve_tokens size v layer head n (i * v.layout.shape.tokens_per_block + t)
          ≡ Option.map
              (λ row. block_row v.layout (offset_layer v layer) head p m t ++ row)
              (resolve_tokens size v layer head rest (i * v.layout.shape.tokens_per_block + t + m))
    unfolding resolve_tokens place
    resolve_block zero n rest i t p e fits at =
        ap (λ k. resolve_tokens size v layer head k (place i t)) (omega (arith, e))
        ∙ ap (resolve_tokens size v layer head rest) (omega arith)
        ∙ map_nothing (resolve_tokens size v layer head rest (place i t + 0))
    resolve_block (suc m) zero rest i t p e fits at = absurd (omega (arith, e))
    resolve_block (suc m) (suc n) rest i t p e fits at =
        resolve_next size v layer head n (place i t) _ _ (slot_in_block key i t p (omega arith) at)
          (slot_in_block value i t p (omega arith) at)
        ∙ ap
            (λ z.
              Option.map (λ row. token_row v.layout (offset_layer v layer) head p t ∷ row)
                (resolve_tokens size v layer head n z))
            (next_place i t)
        ∙ ap (Option.map (λ row. token_row v.layout (offset_layer v layer) head p t ∷ row))
            (resolve_block m n rest i (t + 1) p (omega (arith, e)) (omega arith) at)
        ∙ map-map (λ row. token_row v.layout (offset_layer v layer) head p t ∷ row)
            (λ row. block_row v.layout (offset_layer v layer) head p m (t + 1) ++ row)
            (resolve_tokens size v layer head rest (place i (t + 1) + m))
        ∙ ap
            (λ z.
              Option.map (λ row. block_row v.layout (offset_layer v layer) head p (suc m) t ++ row)
                (resolve_tokens size v layer head rest z))
            (last_place i t m)

    -- All the tokens are resident when the frames are, and then at the frames' addresses.
    pub resolve_walk :
        (context_len k n i token : ℕ)
        → context_len + v.layout.shape.tokens_per_block < 4294967296
        → 0 < v.layout.shape.tokens_per_block
        → Covers v.layout.shape.tokens_per_block k n
        → (0 < n → token ≡ i * v.layout.shape.tokens_per_block)
        → (0 < n → i * v.layout.shape.tokens_per_block + n ≡ context_len)
        → resolve_tokens size v layer head n token
          ≡ Option.map
              (walk_row v.layout (offset_layer v layer) head context_len i)
              (resolve_frames v layer k i)
    unfolding resolve_tokens resolve_frames
    resolve_walk context_len zero n i token small tpb_pos covers start total =
        ap (λ z. resolve_tokens size v layer head z token) covers
    resolve_walk context_len (suc k) zero i token small tpb_pos covers start total =
        absurd (omega (arith, covers.0))
    resolve_walk context_len (suc k) (suc n) i token small tpb_pos covers start total =
        elim (Option-cases (block_bytes v i (frame_layer v layer))) [
          | inl off ↦
              resolve_stops size v layer head n token
                (ap (λ z. slot size v key layer z head) here ∙ slot_off_block key i 0 tpb_pos off)
              ∙ sym (ap (Option.map walk) (frames_stop v layer k i off))
          | inr (p, at) ↦
              ap (resolve_tokens size v layer head (suc n)) here
              ∙ resolve_block m (suc n) (suc n - m) i 0 p (omega arith) (omega arith) at
              ∙ ap (Option.map (λ row. block_row v.layout (offset_layer v layer) head p m 0 ++ row))
                  (resolve_walk context_len k (suc n - m) (i + 1) _ small tpb_pos covers.1
                    (λ h. omega (arith, h, next_block i v.layout.shape.tokens_per_block))
                    (λ h. omega (
                      arith,
                      h,
                      next_block i v.layout.shape.tokens_per_block,
                      total (omega arith),
                    )))
              ∙ map-map (λ row. block_row v.layout (offset_layer v layer) head p m 0 ++ row)
                  (walk_row v.layout (offset_layer v layer) head context_len (i + 1))
                  (resolve_frames v layer k (i + 1))
              ∙ sym (
                  ap (Option.map walk) (frames_next v layer k i p at)
                  ∙ map-map walk (λ frames. p ∷ frames) (resolve_frames v layer k (i + 1))
                  ∙ ap
                      (λ w.
                        Option.map
                          (λ frames.
                            block_row v.layout (offset_layer v layer) head p w 0
                            ++ walk_row v.layout (offset_layer v layer) head context_len (i + 1)
                                frames)
                          (resolve_frames v layer k (i + 1)))
                      (tokens_left v.layout.shape.tokens_per_block context_len i (suc n) small
                        (omega arith) (total (omega arith))))
        ]
      where
        m : ℕ
        m = min v.layout.shape.tokens_per_block (suc n)

        walk : List ℕ → List (Address × Address)
        walk = walk_row v.layout (offset_layer v layer) head context_len i

        here : token ≡ i * v.layout.shape.tokens_per_block + 0
        here = omega (arith, start (omega arith))
