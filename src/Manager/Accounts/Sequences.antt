-- ===== src/Manager/Accounts/Sequences.antt =====
-- The operations on one sequence keep the accounts.
use qwen_vl_paged.Prelude.{
  ℕ, zero, suc, ◌*◌, ◌≡◌, refl, ap, Bool, true, false, not, Option, none, some, arith, ◌==◌,
  if◌then◌else◌, if_cases, length, u32, AllValues-put, nat_eq, find, emplace, value_at,
  sum_values-put,
}
use qwen_vl_paged.Table.{new_table}
use qwen_vl_paged.Allocator.{MemoryAllocator, can_allocate}
use qwen_vl_paged.Manager.State.{
  SequenceMetadata, SequenceState, KvCacheManager, table_count, tokens_per_block,
}
use qwen_vl_paged.Manager.Sequence.{
  new_tables, new_state, add_sequence, create_sequence, any_table_swapped, fork_tables, fork_state,
  fork_sequence, blocks_needed, reserve_tables, reserve_state, reserve_tokens,
}
use qwen_vl_paged.Manager.Accounts.Tables.{tables_refs, AllContiguous}
use qwen_vl_paged.Manager.Accounts.Frames.{
  Gained, fork_tables-Gained, fork_tables_refs, fork_tables-AllContiguous,
}
use qwen_vl_paged.Manager.Accounts.Reserve.{HasRoomFor, reserve_tables-AllBalanced}
use qwen_vl_paged.Manager.Accounts.Ledger.{
  state_refs, HasTables, Accounts, put_state-Accounts, state-AllContiguous,
}
use qwen_vl_paged.Manager.Accounts.Publish.{HasHeadroom, held-CanGain, state-le-held}

-- The motive of a case split on an Option that a method looks up.
abbrev Kept {ℓ} : {R : Type ℓ} → KvCacheManager × R → Type 0
Kept r = Accounts r.0

new_tables_refs : (i n seq : ℕ) → tables_refs i (new_tables n seq) ≡ 0
unfolding new_tables new_table
new_tables_refs i zero seq = refl
new_tables_refs i (suc n) seq = omega (arith, new_tables_refs i n seq)

new_tables-AllContiguous : (n seq : ℕ) → AllContiguous (new_tables n seq)
unfolding new_tables new_table
new_tables-AllContiguous zero seq = tt
new_tables-AllContiguous (suc n) seq = (tt, new_tables-AllContiguous n seq)

-- A sequence under a new id whose tables hold what the pool gained.
add_sequence-Accounts :
    (m : KvCacheManager) (s : SequenceState) (a : MemoryAllocator)
    → Accounts m
    → find s.metadata.sequence_id m.sequences ≡ none
    → AllContiguous s.tables
    → Gained (λ j. state_refs j s) m.allocator a
    → Accounts (add_sequence (record m { allocator = a }) s)
unfolding add_sequence emplace
add_sequence-Accounts m s a acc fresh shape g =
    rw (fresh, emplace, add_sequence)
      (record {
        pool = g.pool;
        tables = AllValues-put HasTables s.metadata.sequence_id s m.sequences shape acc.tables;
        counts = λ i. omega (
          arith,
          acc.counts i,
          g.gain i,
          sum_values-put (state_refs i) s.metadata.sequence_id s m.sequences,
          ap (value_at (state_refs i)) fresh,
        );
      })

pub create_sequence-Accounts :
    (m : KvCacheManager) (d : SequenceMetadata) → Accounts m → Accounts (create_sequence m d).0
unfolding create_sequence
create_sequence-Accounts m d acc = known (find d.sequence_id m.sequences) refl
  where
    fresh_state : SequenceState
    fresh_state = new_state d (new_tables (table_count m) d.sequence_id)

    known :
        (o : Option SequenceState)
        → find d.sequence_id m.sequences ≡ o
        → Accounts
            (elim o as (λ _. KvCacheManager × Bool) [
              | some s ↦ (m, false)
              | none ↦ (add_sequence m fresh_state, true)
            ]).0
    known (some s) at = acc
    known none at =
        add_sequence-Accounts m fresh_state m.allocator acc at
          (new_tables-AllContiguous (table_count m) d.sequence_id)
          (record {
            pool = acc.pool;
            gain = λ j. omega (arith, new_tables_refs j (table_count m) d.sequence_id);
          })

pub fork_sequence-Accounts :
    (m : KvCacheManager) (parent : ℕ) (d : SequenceMetadata)
    → Accounts m
    → HasHeadroom m
    → Accounts (fork_sequence m parent d).0
unfolding fork_sequence
fork_sequence-Accounts m parent d acc head = known (find parent m.sequences) refl
  where
    forked :
        (p : SequenceState)
        → find parent m.sequences ≡ some p
        → find d.sequence_id m.sequences ≡ none
        → Accounts (fork_state m p d).0
    forked p at fresh =
        unfold fork_state in
        if_cases (Kept {R = Bool}) (any_table_swapped p.tables) (λ _. acc)
          (λ here.
            let out = fork_tables d.sequence_id m.allocator p.tables in
            let gained = fork_tables-Gained d.sequence_id m.allocator p.tables acc.pool here (
              held-CanGain m parent p acc at head (λ j. tables_refs j p.tables)
                (λ j. state-le-held m j parent p at)) in
            add_sequence-Accounts m (new_state d out.1) out.0 acc fresh
              (fork_tables-AllContiguous d.sequence_id m.allocator p.tables
                (state-AllContiguous m parent p acc at))
              (record {
                pool = gained.pool;
                gain = λ j.
                    omega
                      (arith, gained.gain j, fork_tables_refs d.sequence_id j m.allocator p.tables);
              }))

    unknown :
        (p : SequenceState) (o : Option SequenceState)
        → find parent m.sequences ≡ some p
        → find d.sequence_id m.sequences ≡ o
        → Accounts
            (elim o as (λ _. KvCacheManager × Bool) [
              | some s ↦ (m, false)
              | none ↦ fork_state m p d
            ]).0
    unknown p (some s) at at' = acc
    unknown p none at at' = forked p at at'

    known :
        (o : Option SequenceState)
        → find parent m.sequences ≡ o
        → Accounts
            (elim o as (λ _. KvCacheManager × Bool) [
              | none ↦ (m, false)
              | some p ↦ elim (find d.sequence_id m.sequences) [
                | some s ↦ (m, false)
                | none ↦ fork_state m p d
              ]
            ]).0
    known none at = acc
    known (some p) at = unknown p (find d.sequence_id m.sequences) at refl

-- The tables of the sequence have room for the blocks that the tokens need.
abbrev pub CanReserve : KvCacheManager → ℕ → ℕ → Type 0
CanReserve m seq token_count =
    (s : SequenceState)
    → find seq m.sequences ≡ some s
    → HasRoomFor (blocks_needed token_count (tokens_per_block m)) s.tables

pub reserve_tokens-Accounts :
    (m : KvCacheManager) (seq token_count : ℕ)
    → Accounts m
    → CanReserve m seq token_count
    → Accounts (reserve_tokens m seq token_count).0
unfolding reserve_tokens
reserve_tokens-Accounts m seq token_count acc can = known (find seq m.sequences) refl
  where
    n : ℕ
    n = blocks_needed token_count (tokens_per_block m)

    reserved :
        (s : SequenceState) → find seq m.sequences ≡ some s → Accounts (reserve_state m seq s n).0
    reserved s at =
        unfold reserve_state in
        if_cases (Kept {R = Bool})
          (not (can_allocate m.allocator (u32 (n * u32 (length s.tables))))) (λ _. acc)
          (λ _.
            let out = reserve_tables n seq (tokens_per_block m) m.allocator s.tables in
            put_state-Accounts m seq s (record s { tables = out.0.1 }) out.0.0 acc at
              (reserve_tables-AllBalanced seq (tokens_per_block m) n m.allocator s.tables acc.pool
                (state-AllContiguous m seq s acc at) (can s at)))

    known :
        (o : Option SequenceState)
        → find seq m.sequences ≡ o
        → Accounts
            (elim o as (λ _. KvCacheManager × Bool) [
              | none ↦ (m, false)
              | some s ↦ if tokens_per_block m == 0 then (m, false) else reserve_state m seq s n
            ]).0
    known none at = acc
    known (some s) at =
        if_cases (Kept {R = Bool}) (tokens_per_block m == 0) (λ _. acc) (λ _. reserved s at)
