-- ===== src/Manager/Prefix.antt =====
-- The prefix index of src/KVCacheManager.cpp: publish, attach and drop.
use qwen_vl_paged.Prelude.{
  ℕ, ◌+◌, ◌-◌, ◌*◌, ◌/◌, ◌%◌, Option, none, some, Bool, true, false, ◌||◌, not, String, List, [],
  ◌∷◌, ◌++◌, ltb, ◌==◌, if◌then◌else◌, length, is_empty, take, drop, text_eq, u32, Assoc, nat_eq,
  string_eq, find, put, erase,
}
use qwen_vl_paged.Table.{BlockTable, BlockTableEntry, insert_mapping}
use qwen_vl_paged.Allocator.{MemoryAllocator, retain}
use qwen_vl_paged.Manager.State.{
  SequenceState, PrefixRecord, KvCacheManager, tokens_per_block, text_table_empty, content_hash_of,
  retain_all, release_all,
}

-- std::find_if by the content hash.
unfoldable pub find_record : ℕ → List PrefixRecord → Option PrefixRecord
find_record h [] = none
find_record h (r ∷ rs) = if r.content_hash == h then some r else find_record h rs

-- A write to, or the removal of, the record that find_record returns.
unfoldable pub set_users : ℕ → ℕ → List PrefixRecord → List PrefixRecord
set_users h n [] = []
set_users h n (r ∷ rs) =
    if r.content_hash == h then record r { users = n } ∷ rs else r ∷ set_users h n rs

unfoldable pub remove_record : ℕ → List PrefixRecord → List PrefixRecord
remove_record h [] = []
remove_record h (r ∷ rs) = if r.content_hash == h then rs else r ∷ remove_record h rs

unfoldable pub forget_prefix : SequenceState → SequenceState
forget_prefix s = record s { prefix_key = ""; prefix_hash = 0 }

-- One user fewer of a record that was found under the key.
unfoldable pub drop_record :
    KvCacheManager → String → List PrefixRecord → PrefixRecord → KvCacheManager
drop_record m key records r =
    if ltb 0 (r.users - 1)
    then record m {
      prefix_index = put key (set_users r.content_hash (r.users - 1) records) m.prefix_index;
    }
    else let left = remove_record r.content_hash records in
      record m {
        allocator = release_all m.allocator r.physical_ids;
        prefix_index =
            if is_empty left then erase key m.prefix_index else put key left m.prefix_index;
      }

-- The manager after the state's prefix user is dropped; the state itself forgets its prefix.
unfoldable pub drop_prefix_user : KvCacheManager → SequenceState → KvCacheManager
unfolding drop_record find_record
drop_prefix_user m s =
    if text_eq s.prefix_key "" then m else elim (find s.prefix_key m.prefix_index) [
      | none ↦ m
      | some records ↦ elim (find_record s.prefix_hash records) [
        | none ↦ m
        | some r ↦ drop_record m s.prefix_key records r
      ]
    ]

-- The token count of the one record under a key.
unfoldable pub sole_record : Option (List PrefixRecord) → Option PrefixRecord
sole_record none = none
sole_record (some []) = none
sole_record (some (r ∷ [])) = some r
sole_record (some (r ∷ r' ∷ rs)) = none

unfoldable pub prefix_token_count : KvCacheManager → String → ℕ
unfolding sole_record
prefix_token_count m key =
    if text_eq key ""
    then 0
    else elim (sole_record (find key m.prefix_index)) [ none ↦ 0 | some r ↦ r.token_count ]

-- The frames of the entries in order, or none where one is swapped out.
unfoldable pub entry_ids : List BlockTableEntry → Option (List ℕ)
entry_ids [] = some []
entry_ids (e ∷ es) = elim e.swap_slot [
  | some slot ↦ none
  | none ↦ elim (entry_ids es) [ none ↦ none | some ids ↦ some (e.physical_id ∷ ids) ]
]

unfoldable pub table_ids : List BlockTable → Option (List ℕ)
unfolding entry_ids
table_ids [] = some []
table_ids (t ∷ ts) = elim (entry_ids t.entries) [
  | none ↦ none
  | some ids ↦ elim (table_ids ts) [ none ↦ none | some rest ↦ some (ids ++ rest) ]
]

abbrev pub records_at : String → Assoc String (List PrefixRecord) → List PrefixRecord
records_at key index = elim (find key index) [ none ↦ [] | some rs ↦ rs ]

abbrev pub first_table_size : List BlockTable → ℕ
first_table_size [] = 0
first_table_size (t ∷ ts) = length t.entries

abbrev pub use_prefix : SequenceState → String → ℕ → SequenceState
use_prefix s key h = record s { prefix_key = key; prefix_hash = h }

-- The sequence joins the record with its content hash, or pins a record of its own.
unfoldable pub publish_record :
    KvCacheManager → ℕ → SequenceState → String → PrefixRecord → KvCacheManager
publish_record m seq s key r =
    let records = records_at key m.prefix_index in
    elim (find_record r.content_hash records) [
      | some existing ↦ record m {
        sequences = put seq (use_prefix s key existing.content_hash) m.sequences;
        prefix_index =
            put key (set_users r.content_hash (u32 (existing.users + 1)) records) m.prefix_index;
      }
      | none ↦ record m {
        allocator = retain_all m.allocator r.physical_ids;
        sequences = put seq (use_prefix s key r.content_hash) m.sequences;
        prefix_index = put key (records ++ r ∷ []) m.prefix_index;
      }
    ]

unfoldable pub publish_sequence :
    KvCacheManager → ℕ → SequenceState → String → KvCacheManager × Bool
unfolding publish_record
publish_sequence m seq s key =
    if text_table_empty s
    then (m, false)
    else if text_eq s.prefix_key key
    then (m, true)
    else if tokens_per_block m == 0
    then (m, false)
    else elim (table_ids s.tables) [
      | none ↦ (m, false)
      | some ids ↦ (
        publish_record m seq s key (record {
          content_hash = content_hash_of m.allocator s.tables;
          token_count = u32 (u32 (first_table_size s.tables) * tokens_per_block m);
          users = 1;
          physical_ids = ids;
        }),
        true,
      )
    ]

unfoldable pub publish_prefix : KvCacheManager → ℕ → String → KvCacheManager × Bool
unfolding publish_sequence
publish_prefix m seq key =
    if text_eq key ""
    then (m, false)
    else elim (find seq m.sequences) [ none ↦ (m, false) | some s ↦ publish_sequence m seq s key ]

-- The inner loop of attach_prefix over one table's share of the frames, from block i on.
unfoldable pub attach_frames :
    ℕ → ℕ → ℕ → MemoryAllocator → BlockTable → List ℕ → MemoryAllocator × BlockTable
attach_frames seq tpb i a t [] = (a, t)
attach_frames seq tpb i a t (p ∷ ids) =
    attach_frames seq tpb (i + 1) (retain a p)
      (insert_mapping t
        (record {
          sequence_id = seq;
          index = u32 i;
          cache_kind = t.cache_kind;
          start_token = u32 (i * tpb);
          token_count = tpb;
        })
        p false)
      ids

-- The outer loop: `n` frames for each table.
unfoldable pub attach_tables :
    ℕ → ℕ → ℕ → MemoryAllocator → List BlockTable → List ℕ → MemoryAllocator × List BlockTable
unfolding attach_frames
attach_tables seq tpb n a [] ids = (a, [])
attach_tables seq tpb n a (t ∷ ts) ids =
    let (a', t') = attach_frames seq tpb 0 a t (take n ids) in
    let (a'', ts') = attach_tables seq tpb n a' ts (drop n ids) in (a'', t' ∷ ts')

unfoldable pub attach_record :
    KvCacheManager → ℕ → SequenceState → String → PrefixRecord → KvCacheManager × ℕ
unfolding attach_tables
attach_record m seq s key r =
    if tokens_per_block m == 0 || is_empty r.physical_ids || length s.tables == 0
    then (m, 0)
    else if not (length r.physical_ids % length s.tables == 0)
    then (m, 0)
    else let (a, ts) =
        attach_tables seq (tokens_per_block m) (length r.physical_ids / length s.tables) m.allocator
          s.tables r.physical_ids in
      (
        record m {
          allocator = a;
          sequences =
              put seq (use_prefix (record s { tables = ts }) key r.content_hash) m.sequences;
          prefix_index = put key (record r { users = u32 (r.users + 1) } ∷ []) m.prefix_index;
        },
        r.token_count,
      )

unfoldable pub attach_prefix : KvCacheManager → ℕ → String → KvCacheManager × ℕ
unfolding attach_record sole_record
attach_prefix m seq key = if text_eq key "" then (m, 0) else elim (find seq m.sequences) [
  | none ↦ (m, 0)
  | some s ↦
      if not (text_table_empty s) then (m, 0) else elim (sole_record (find key m.prefix_index)) [
        | none ↦ (m, 0)
        | some r ↦ attach_record m seq s key r
      ]
]
