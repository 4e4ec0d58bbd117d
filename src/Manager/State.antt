-- ===== src/Manager/State.antt =====
-- The data of include/qwenvl_paged/KVCacheManager.h, the manager's state and its private helpers.
-- The manager's pointer to the allocator is the allocator itself: the manager is the one owner of
-- the pool's state here, and the scheduler reaches the pool through the manager.
use qwen_vl_paged.Prelude.{
  ℕ, ◌*◌, Option, none, some, Bool, true, false, String, List, [], ◌∷◌, ◌++◌, ◌==◌, if◌then◌else◌,
  is_empty, take, bit_xor, u64, Assoc, nat_eq, find, put, erase,
}
use qwen_vl_paged.Prelude.Int.{ℤ}
use qwen_vl_paged.Block.{BlockShape, PhysicalBlock, no_shape, per_layer_frames}
use qwen_vl_paged.Table.{BlockTable, BlockTableEntry}
use qwen_vl_paged.Allocator.{MemoryAllocator, block}
use qwen_vl_paged.Allocator

pub record MultimodalSpan : Type 0 where
  pub start_token : ℕ
  pub token_count : ℕ
  pub feature_index : ℕ

pub data PositionEncodingKind : Type 0 where
  text_1d image_2d video_3d : PositionEncodingKind

pub record Position3D : Type 0 where
  pub temporal : ℤ
  pub height : ℤ
  pub width : ℤ

pub record PositionalEncodingSpan : Type 0 where
  pub start_token : ℕ
  pub token_count : ℕ
  pub kind : PositionEncodingKind
  pub origin : Position3D
  pub stride : Position3D

pub record PositionalEncodingMetadata : Type 0 where
  pub spans : List PositionalEncodingSpan

pub record SequenceMetadata : Type 0 where
  pub sequence_id : ℕ
  pub request_id : ℕ
  pub multimodal_spans : List MultimodalSpan
  pub positional_encoding : PositionalEncodingMetadata

pub record SequenceState : Type 0 where
  pub metadata : SequenceMetadata
  pub tables : List BlockTable
  pub prefix_key : String
  pub prefix_hash : ℕ

pub record PrefixRecord : Type 0 where
  pub content_hash : ℕ
  pub token_count : ℕ
  pub users : ℕ
  pub physical_ids : List ℕ

pub record KvCacheManager : Type 0 where
  pub allocator : MemoryAllocator
  pub sequences : Assoc ℕ SequenceState
  pub sequences_by_request : Assoc ℕ (List ℕ)
  pub prefix_index : Assoc String (List PrefixRecord)

unfoldable pub new_manager : MemoryAllocator → KvCacheManager
new_manager a = record {
  allocator = a;
  sequences = [];
  sequences_by_request = [];
  prefix_index = [];
}

unfoldable pub pool_shape : KvCacheManager → BlockShape
pool_shape m = elim (block m.allocator 0) [ none ↦ no_shape | some b ↦ b.shape ]

unfoldable pub table_count : KvCacheManager → ℕ
unfolding pool_shape
table_count m = if per_layer_frames (pool_shape m) then (pool_shape m).num_layers else 1

unfoldable pub tokens_per_block : KvCacheManager → ℕ
tokens_per_block m = elim (block m.allocator 0) [ none ↦ 0 | some b ↦ b.shape.tokens_per_block ]

-- `tables.front().empty()`. A sequence always has a table; of none the answer is `true`.
abbrev pub front_empty : List BlockTable → Bool
front_empty [] = true
front_empty (t ∷ ts) = is_empty t.entries

unfoldable pub text_table_empty : SequenceState → Bool
text_table_empty s = front_empty s.tables

ids_of : Option (List ℕ) → List ℕ
ids_of none = []
ids_of (some ids) = ids

unfoldable pub index_sequence : ℕ → ℕ → Assoc ℕ (List ℕ) → Assoc ℕ (List ℕ)
unfolding ids_of
index_sequence request seq m = put request (ids_of (find request m) ++ seq ∷ []) m

remove_id : ℕ → List ℕ → List ℕ
remove_id seq [] = []
remove_id seq (i ∷ ids) = let rest = remove_id seq ids in if i == seq then rest else i ∷ rest

unfoldable pub unindex_sequence : ℕ → ℕ → Assoc ℕ (List ℕ) → Assoc ℕ (List ℕ)
unfolding remove_id
unindex_sequence request seq m = elim (find request m) [
  | none ↦ m
  | some ids ↦
      let left = remove_id seq ids in if is_empty left then erase request m else put request left m
]

unfoldable pub sequences_for : KvCacheManager → ℕ → List ℕ
unfolding ids_of
sequences_for m request = ids_of (find request m.sequences_by_request)

unfoldable pub contains : KvCacheManager → ℕ → Bool
contains m seq = elim (find seq m.sequences) [ none ↦ false | some s ↦ true ]

abbrev pub fnv_offset : ℕ
fnv_offset = 14695981039346656037

abbrev pub fnv_prime : ℕ
fnv_prime = 1099511628211

hash_bytes : ℕ → List ℕ → ℕ
hash_bytes h [] = h
hash_bytes h (x ∷ xs) = hash_bytes (u64 (bit_xor h x * fnv_prime)) xs

hash_frame : ℕ → Option PhysicalBlock → ℕ
unfolding hash_bytes
hash_frame h none = h
hash_frame h (some b) = hash_bytes h (take b.size_bytes b.storage)

hash_entries : MemoryAllocator → ℕ → List BlockTableEntry → ℕ
unfolding hash_frame
hash_entries a h [] = h
hash_entries a h (e ∷ es) =
    hash_entries a
      (elim e.swap_slot [ some slot ↦ h | none ↦ hash_frame h (block a e.physical_id) ]) es

unfoldable pub content_hash_of_table : MemoryAllocator → BlockTable → ℕ
unfolding hash_entries
content_hash_of_table a t = hash_entries a fnv_offset t.entries

hash_tables : MemoryAllocator → ℕ → List BlockTable → ℕ
unfolding content_hash_of_table
hash_tables a h [] = h
hash_tables a h (t ∷ ts) =
    hash_tables a (u64 (bit_xor h (content_hash_of_table a t) * fnv_prime)) ts

unfoldable pub content_hash_of : MemoryAllocator → List BlockTable → ℕ
unfolding hash_tables
content_hash_of a ts = hash_tables a fnv_offset ts

-- One reference to, or from, each frame of a list.
unfoldable pub retain_all : MemoryAllocator → List ℕ → MemoryAllocator
retain_all a [] = a
retain_all a (i ∷ ids) = retain_all (Allocator.retain a i) ids

unfoldable pub release_all : MemoryAllocator → List ℕ → MemoryAllocator
release_all a [] = a
release_all a (i ∷ ids) = release_all (Allocator.release a i) ids
