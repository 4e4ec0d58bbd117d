-- ===== src/Manager/Atomic.antt =====
-- reserve_tokens succeeds, or changes nothing.
use qwen_vl_paged.Prelude.{
  ℕ, ◌*◌, ◌≤◌, ◌<◌, ◌≡◌, ◌≢◌, ◌⊎◌, true, false, some, arith, ◌==◌, length, u32, inl, inr,
  Bool-cases, find, nat_eq,
}
use native.Mathlib.Nat.{mod-eq_of_lt}
use qwen_vl_paged.Allocator.{can_allocate}
use qwen_vl_paged.Manager.State.{SequenceState, KvCacheManager, tokens_per_block}
use qwen_vl_paged.Manager.Sequence.{blocks_needed, reserve_state, reserve_tokens}
use qwen_vl_paged.Manager.Accounts.Reserve.{reserve_tables_takes}
use qwen_vl_paged.Manager.Accounts.Ledger.{Accounts, state-AllContiguous}
use qwen_vl_paged.Manager.Accounts.Sequences.{CanReserve}

-- The number of frames that a reservation for a sequence takes.
abbrev pub frames_needed : KvCacheManager → SequenceState → ℕ → ℕ
frames_needed m s token_count = blocks_needed token_count (tokens_per_block m) * length s.tables

-- For a sequence that is known, in a pool whose blocks hold tokens, and where the frames needed and
-- each table's blocks can be counted in 32 bits: either the free list has that many
-- frames and reserve_tokens succeeds, or it has fewer and reserve_tokens fails and changes nothing.
pub reserve_tokens_atomic :
    (m : KvCacheManager) (seq token_count : ℕ) (s : SequenceState)
    → Accounts m
    → find seq m.sequences ≡ some s
    → tokens_per_block m ≢ 0
    → CanReserve m seq token_count
    → length s.tables < 4294967296
    → frames_needed m s token_count < 4294967296
    → ((frames_needed m s token_count ≤ length m.allocator.free_list)
        × ((reserve_tokens m seq token_count).1 ≡ true))
      ⊎ ((length m.allocator.free_list < frames_needed m s token_count)
          × (reserve_tokens m seq token_count ≡ (m, false)))
unfolding reserve_tokens reserve_state can_allocate
reserve_tokens_atomic m seq token_count s acc at tokens can few small =
    elim (Bool-cases (can_allocate m.allocator (u32 (n * u32 (length s.tables))))) [
      | inr no_room ↦
          inr (ground (arith, no_room, exact), rw (at, nonzero, no_room, reserve_tokens))
      | inl room ↦
          let done =
            reserve_tables_takes seq (tokens_per_block m) n m.allocator s.tables acc.pool
              (state-AllContiguous m seq s acc at) (can s at) (ground (arith, room, exact)) in
          inl (ground (arith, room, exact), rw (at, nonzero, room, reserve_tokens) done)
    ]
  where
    n : ℕ
    n = blocks_needed token_count (tokens_per_block m)

    nonzero : (tokens_per_block m == 0) ≡ false
    nonzero = ground arith

    exact : u32 (n * u32 (length s.tables)) ≡ n * length s.tables
    exact = rw (mod-eq_of_lt few) (mod-eq_of_lt small)
