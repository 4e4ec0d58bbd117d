-- ===== src/Manager/Sequence.antt =====
-- The life of one sequence in src/KVCacheManager.cpp: create, fork, reserve, write, release.
use qwen_vl_paged.Prelude.{
  ℕ, zero, suc, ◌+◌, ◌-◌, ◌*◌, ◌/◌, Option, none, some, Bool, true, false, ◌||◌, not, List, [], ◌∷◌,
  map, leb, ◌==◌, if◌then◌else◌, length, get_elem?, set, has_value, u32, nat_eq, find, put, emplace,
  erase,
}
use qwen_vl_paged.Block.{CacheKind, text_kv}
use qwen_vl_paged.Table.{
  BlockTable, BlockTableEntry, new_table, fork, entry, update_entry, insert_mapping,
}
use qwen_vl_paged.Table
use qwen_vl_paged.Allocator.{
  MemoryAllocator, allocate, release, info, copy_block, can_allocate, discard_swapped,
}
use qwen_vl_paged.Manager.State.{
  SequenceMetadata, SequenceState, KvCacheManager, table_count, tokens_per_block, index_sequence,
  unindex_sequence, retain_all,
}
use qwen_vl_paged.Manager.Prefix.{drop_prefix_user}

unfoldable pub new_tables : ℕ → ℕ → List BlockTable
new_tables zero seq = []
new_tables (suc n) seq = new_table seq text_kv ∷ new_tables n seq

abbrev pub new_state : SequenceMetadata → List BlockTable → SequenceState
new_state metadata tables = record {
  metadata = metadata;
  tables = tables;
  prefix_key = "";
  prefix_hash = 0;
}

unfoldable pub add_sequence : KvCacheManager → SequenceState → KvCacheManager
add_sequence m s = record m {
  sequences = emplace s.metadata.sequence_id s m.sequences;
  sequences_by_request =
      index_sequence s.metadata.request_id s.metadata.sequence_id m.sequences_by_request;
}

unfoldable pub create_sequence : KvCacheManager → SequenceMetadata → KvCacheManager × Bool
unfolding new_tables add_sequence
create_sequence m metadata = elim (find metadata.sequence_id m.sequences) [
  | some s ↦ (m, false)
  | none ↦
      (add_sequence m (new_state metadata (new_tables (table_count m) metadata.sequence_id)), true)
]

unfoldable pub any_swapped : List BlockTableEntry → Bool
any_swapped [] = false
any_swapped (e ∷ es) = has_value e.swap_slot || any_swapped es

unfoldable pub any_table_swapped : List BlockTable → Bool
unfolding any_swapped
any_table_swapped [] = false
any_table_swapped (t ∷ ts) = any_swapped t.entries || any_table_swapped ts

abbrev pub physical_ids : List BlockTableEntry → List ℕ
physical_ids = map (λ e. e.physical_id)

-- Each table is forked and the frames that the forked table maps are retained.
unfoldable pub fork_tables :
    ℕ → MemoryAllocator → List BlockTable → MemoryAllocator × List BlockTable
fork_tables child a [] = (a, [])
fork_tables child a (t ∷ ts) =
    let (a', ts') = fork_tables child (retain_all a (physical_ids (fork t child).entries)) ts in
    (a', fork t child ∷ ts')

unfoldable pub fork_state :
    KvCacheManager → SequenceState → SequenceMetadata → KvCacheManager × Bool
unfolding fork_tables add_sequence
fork_state m parent metadata =
    if any_table_swapped parent.tables
    then (m, false)
    else let (a, ts) = fork_tables metadata.sequence_id m.allocator parent.tables in
      (add_sequence (record m { allocator = a }) (new_state metadata ts), true)

unfoldable pub fork_sequence : KvCacheManager → ℕ → SequenceMetadata → KvCacheManager × Bool
unfolding fork_state
fork_sequence m parent metadata = elim (find parent m.sequences) [
  | none ↦ (m, false)
  | some p ↦ elim (find metadata.sequence_id m.sequences) [
    | some s ↦ (m, false)
    | none ↦ fork_state m p metadata
  ]
]

-- The blocks of one table from `index` on, for the `n` blocks left; `false` when the pool runs out.
unfoldable pub reserve_blocks :
    ℕ → ℕ → ℕ → ℕ → MemoryAllocator → BlockTable → (MemoryAllocator × BlockTable) × Bool
reserve_blocks zero index seq tpb a t = ((a, t), true)
reserve_blocks (suc n) index seq tpb a t =
    let (a', got) = allocate a in
    elim got [
      | none ↦ ((a', t), false)
      | some i ↦ reserve_blocks n (index + 1) seq tpb a' (
          insert_mapping t
            (record {
              sequence_id = seq;
              index = u32 index;
              cache_kind = t.cache_kind;
              start_token = u32 (u32 index * tpb);
              token_count = tpb;
            })
            i true)
    ]

unfoldable pub reserve_tables :
    ℕ → ℕ → ℕ → MemoryAllocator → List BlockTable → (MemoryAllocator × List BlockTable) × Bool
unfolding reserve_blocks
reserve_tables n seq tpb a [] = ((a, []), true)
reserve_tables n seq tpb a (t ∷ ts) =
    let ((a', t'), done) = reserve_blocks n (u32 (Table.size t)) seq tpb a t in
    elim done [
      | false ↦ ((a', t' ∷ ts), false)
      | true ↦ let ((a'', ts'), all) = reserve_tables n seq tpb a' ts in ((a'', t' ∷ ts'), all)
    ]

-- The source's `(token_count + tokens_per_block - 1) / tokens_per_block`.
abbrev pub blocks_needed : ℕ → ℕ → ℕ
blocks_needed token_count tpb = u32 (token_count + tpb - 1) / tpb

unfoldable pub reserve_state : KvCacheManager → ℕ → SequenceState → ℕ → KvCacheManager × Bool
unfolding reserve_tables
reserve_state m seq s n =
    if not (can_allocate m.allocator (u32 (n * u32 (length s.tables))))
    then (m, false)
    else let ((a, ts), done) = reserve_tables n seq (tokens_per_block m) m.allocator s.tables in
      (record m { allocator = a; sequences = put seq (record s { tables = ts }) m.sequences }, done)

unfoldable pub reserve_tokens : KvCacheManager → ℕ → ℕ → KvCacheManager × Bool
unfolding reserve_state
reserve_tokens m seq token_count = elim (find seq m.sequences) [
  | none ↦ (m, false)
  | some s ↦
      if tokens_per_block m == 0
      then (m, false)
      else reserve_state m seq s (blocks_needed token_count (tokens_per_block m))
]

abbrev pub front_tokens : BlockTable → ℕ
front_tokens t = elim t.entries [ [] ↦ 0 | e ∷ es ↦ e.logical.token_count ]

abbrev pub own_frame : ℕ → BlockTableEntry → BlockTableEntry
own_frame p e = record e { physical_id = p; writable = true }

-- The write path for an entry that is resident; the copy goes to a frame of its own.
unfoldable pub write_entry :
    MemoryAllocator → BlockTable → ℕ → BlockTableEntry → (MemoryAllocator × BlockTable) × Option ℕ
write_entry a t index e = elim (info a e.physical_id) [
  | none ↦ ((a, t), none)
  | some f ↦
      if leb f.ref_count 1
      then ((a, update_entry t index (own_frame e.physical_id)), some e.physical_id)
      else let (a', got) = allocate a in
        elim got [
          | none ↦ ((a', t), none)
          | some copy ↦ (
            (
              release (copy_block a' e.physical_id copy) e.physical_id,
              update_entry t index (own_frame copy),
            ),
            some copy,
          )
        ]
]

unfoldable pub write_table :
    MemoryAllocator → BlockTable → ℕ → (MemoryAllocator × BlockTable) × Option ℕ
unfolding write_entry
write_table a t position =
    if front_tokens t == 0
    then ((a, t), none)
    else let index = position / front_tokens t in
      elim (entry t index) [
        | none ↦ ((a, t), none)
        | some e ↦ if has_value e.swap_slot then ((a, t), none) else write_entry a t index e
      ]

unfoldable pub ensure_token_writable :
    KvCacheManager → ℕ → ℕ → CacheKind → ℕ → KvCacheManager × Option ℕ
unfolding write_table
ensure_token_writable m seq position kind layer = elim (find seq m.sequences) [
  | none ↦ (m, none)
  | some s ↦ elim (get_elem? s.tables layer) [
    | none ↦ (m, none)
    | some t ↦
        let ((a, t'), written) = write_table m.allocator t position in
        (
          record m {
            allocator = a;
            sequences = put seq (record s { tables = set s.tables layer t' }) m.sequences;
          },
          written,
        )
  ]
]

abbrev pub release_entry : MemoryAllocator → BlockTableEntry → MemoryAllocator
release_entry a e = elim e.swap_slot [
  | some slot ↦ discard_swapped a slot
  | none ↦ release a e.physical_id
]

unfoldable pub release_entries : MemoryAllocator → List BlockTableEntry → MemoryAllocator
release_entries a [] = a
release_entries a (e ∷ es) = release_entries (release_entry a e) es

unfoldable pub release_tables : MemoryAllocator → List BlockTable → MemoryAllocator
unfolding release_entries
release_tables a [] = a
release_tables a (t ∷ ts) = release_tables (release_entries a t.entries) ts

unfoldable pub release_state : KvCacheManager → ℕ → SequenceState → KvCacheManager
unfolding release_tables
release_state m seq s = record m {
  allocator = release_tables m.allocator s.tables;
  sequences = erase seq m.sequences;
  sequences_by_request = unindex_sequence s.metadata.request_id seq m.sequences_by_request;
}

unfoldable pub release_sequence : KvCacheManager → ℕ → KvCacheManager
unfolding release_state
release_sequence m seq = elim (find seq m.sequences) [
  | none ↦ m
  | some s ↦ release_state (drop_prefix_user m s) seq s
]
