-- ===== src/Manager/View/Bounds.antt =====
-- What an execution backend may rely on when CacheView::slot gives it an address.
use qwen_vl_paged.Prelude.{
  ℕ, ◌+◌, ◌/◌, ◌%◌, ◌≤◌, ◌≡◌, ◌&&◌, ◌||◌, not, Option, some, arith, ◌==◌, if◌then◌else◌, inl, inr,
  Bool-cases, Option-cases,
}
use qwen_vl_paged.Block.{BlockShape, per_layer_frames}
use qwen_vl_paged.Layout.{KvStream, KvBlockLayout, element_offset, element_count}
use qwen_vl_paged.Layout.Offsets.{Fits, element_offset_lem}
use qwen_vl_paged.Layout.Disjoint.{in_shape}
use qwen_vl_paged.Manager.View.{CacheView, valid, block_bytes, no_layer, slot}

-- Where an offset is given, its vector ends inside the block.
vector_end :
    (l : KvBlockLayout) (layer : ℕ) (stream : KvStream) (token head o : ℕ)
    → Fits l
    → element_offset l layer stream token head ≡ some o
    → o + l.shape.head_dim ≤ element_count l
vector_end l layer stream token head o fits e =
    let at =
      element_offset_lem l layer stream token head fits (in_shape l layer stream token head o e) in
    ground (arith, at.0, at.1, e)

-- Where a block's elements can be counted in 64 bits, an address that slot gives is for elements of
-- the shape's size and lies in the frame that block_bytes gives for the token's block, and the whole
-- head vector at it is inside the block.
pub slot_lem :
    (size : ℕ) (v : CacheView) (stream : KvStream) (layer token head p o : ℕ)
    → Fits v.layout
    → slot size v stream layer token head ≡ some (p, o)
    → (size ≡ v.layout.shape.bytes_per_element)
      × (block_bytes v
            (token / v.layout.shape.tokens_per_block)
            (if per_layer_frames v.layout.shape then layer else 0)
          ≡ some p)
      × (o + v.layout.shape.head_dim ≤ element_count v.layout)
unfolding slot
slot_lem size v stream layer token head p o fits e =
    elim (Bool-cases (not (valid v) || not (size == shape.bytes_per_element))) [
      | inl bad ↦ absurd (ground (arith, bad, e))
      | inr good ↦ elim (Bool-cases (per_layer_frames shape && no_layer v layer)) [
        | inl bad ↦ absurd (ground (arith, good, bad, e))
        | inr known ↦ elim (Option-cases offset) [
          | inl u ↦ absurd (ground (arith, good, known, u, e))
          | inr (o', u) ↦ elim (Option-cases frame) [
            | inl w ↦ absurd (ground (arith, good, known, u, w, e))
            | inr (p', w) ↦
                let inside = vector_end v.layout _ stream _ head o' fits u in
                (
                  ground (arith, good),
                  ground (arith, good, known, u, w, e),
                  ground (arith, good, known, u, w, e, inside),
                )
          ]
        ]
      ]
    ]
  where
    shape : BlockShape
    shape = v.layout.shape

    offset : Option ℕ
    offset =
        element_offset v.layout (if per_layer_frames shape then 0 else layer) stream
          (token % shape.tokens_per_block) head

    frame : Option ℕ
    frame =
        block_bytes v (token / shape.tokens_per_block) (if per_layer_frames shape then layer else 0)
