-- ===== src/Tests/Cache.antt =====
-- The cache manager at concrete inputs.
use qwen_vl_paged.Prelude.{
  String, ℕ, erase, find, put, emplace, nat_eq, string_eq, Option, ◌<◌, ◌≢◌, ◌≤◌, ◌≡◌, ◌⊎◌, refl,
  true, false, some, none, [], length, arith,
}
use mathlib.Core.Path.{subst}
use qwen_vl_paged.Table.{new_table, insert_mapping, entry, update_entry, size}
use qwen_vl_paged.Manager.Prefix.{drop_prefix_user, publish_prefix, table_ids}
use qwen_vl_paged.Manager.Publishing.{key_of, publish_prefix_lem}
use qwen_vl_paged.Block.{text_kv, per_layer_frames}
use qwen_vl_paged.Allocator.{new_allocator, allocate, block, info, can_allocate, release}
use qwen_vl_paged.Allocator.Cases.{refs}
use qwen_vl_paged.Manager.Accounts.Reserve.{HasRoomFor}
use qwen_vl_paged.Manager.Accounts.Sequences.{CanReserve}
use qwen_vl_paged.Manager.State.{
  SequenceState, KvCacheManager, new_manager, text_table_empty, tokens_per_block, table_count,
}
use qwen_vl_paged.Manager.Sequence.{
  create_sequence, new_tables, new_state, release_sequence, reserve_tokens, ensure_token_writable,
}
use qwen_vl_paged.Manager.Accounts.Ledger.{Accounts}
use qwen_vl_paged.Manager.Accounts.Calls.{
  creates, reserves, releases, step, step-Accounts, here, next, new_manager-Accounts, Reach-no_leak,
}
use qwen_vl_paged.Manager.Exclusive.{ensure_token_writable_exclusive}
use qwen_vl_paged.Manager.Atomic.{frames_needed, reserve_tokens_atomic}
use qwen_vl_paged.Tests.Data.{pool_config, slab, manager, metadata}

abbrev one_sequence : KvCacheManager
one_sequence = step manager (creates (metadata 7 1))

abbrev reserved : KvCacheManager
reserved = step one_sequence (reserves 7 3)

one_sequence-Accounts : Accounts one_sequence
one_sequence-Accounts =
    step-Accounts manager (creates (metadata 7 1)) (new_manager-Accounts pool_config slab) tt

reserve_runs : length reserved.allocator.free_list ≡ 2
unfolding step create_sequence reserve_tokens new_manager new_allocator tokens_per_block find put
    emplace block can_allocate table_count per_layer_frames allocate
reserve_runs = refl

abbrev HasRoomIn : Option SequenceState → Type 0
HasRoomIn none = Unit {0}
HasRoomIn (some s) = HasRoomFor 2 s.tables

has_room : CanReserve one_sequence 7 3
unfolding step create_sequence new_manager new_allocator tokens_per_block find put emplace block
    table_count per_layer_frames new_table
has_room s e = subst HasRoomIn e (omega arith, tt)

step-Accounts_example : Accounts reserved
step-Accounts_example = step-Accounts one_sequence (reserves 7 3) one_sequence-Accounts has_room

ensure_token_writable_exclusive_example :
    refs (ensure_token_writable reserved 7 1 text_kv 0).0.allocator 3 ≡ 1
unfolding step create_sequence reserve_tokens new_manager new_allocator tokens_per_block find put
    emplace block can_allocate table_count per_layer_frames allocate ensure_token_writable info
    new_table insert_mapping entry update_entry size
ensure_token_writable_exclusive_example =
    ensure_token_writable_exclusive reserved (ensure_token_writable reserved 7 1 text_kv 0).0 7 1
      text_kv 0 3 step-Accounts_example refl

first_state : SequenceState
first_state = new_state (metadata 7 1) (new_tables 1 7)

reserve_tokens_atomic_example :
    ((frames_needed one_sequence first_state 3 ≤ length one_sequence.allocator.free_list)
      × ((reserve_tokens one_sequence 7 3).1 ≡ true))
    ⊎ ((length one_sequence.allocator.free_list < frames_needed one_sequence first_state 3)
        × (reserve_tokens one_sequence 7 3 ≡ (one_sequence, false)))
unfolding step create_sequence new_manager new_allocator tokens_per_block find put emplace block
    table_count per_layer_frames first_state
reserve_tokens_atomic_example =
    reserve_tokens_atomic one_sequence 7 3 first_state one_sequence-Accounts refl (omega arith)
      has_room (omega arith) (omega arith)

released : KvCacheManager
released = step reserved (releases 7)

released_runs : (released.sequences ≡ []) × (released.prefix_index ≡ [])
unfolding released step create_sequence reserve_tokens new_manager new_allocator tokens_per_block
    find put emplace block can_allocate table_count per_layer_frames allocate release_sequence erase
    release drop_prefix_user
released_runs = (refl, refl)

Reach-no_leak_example :
    ((i : ℕ) → refs released.allocator i ≡ 0)
    × (length released.allocator.free_list ≡ length released.allocator.infos)
unfolding released
Reach-no_leak_example =
    Reach-no_leak pool_config slab released
      (next (next (next here (creates (metadata 7 1)) tt refl) (reserves 7 3) has_room refl)
        (releases 7) tt refl)
      released_runs.0 released_runs.1

publish_runs : (publish_prefix reserved 7 "system").1 ≡ true
unfolding step create_sequence reserve_tokens new_manager new_allocator tokens_per_block find put
    emplace block can_allocate table_count per_layer_frames allocate new_table insert_mapping
    publish_prefix text_table_empty size table_ids
publish_runs = refl

other_key : ◌≢◌ {A = String} "user" "system"
other_key e = absurd (ground (arith, string_eq.beq_iff "user" "system", e))

publish_prefix_lem_example :
    (key_of (publish_prefix reserved 7 "system").0 7 ≡ some "system")
    × (find "user" (publish_prefix reserved 7 "system").0.prefix_index
        ≡ find "user" reserved.prefix_index)
publish_prefix_lem_example = publish_prefix_lem reserved 7 "system" "user" publish_runs other_key
