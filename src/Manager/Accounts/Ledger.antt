-- ===== src/Manager/Accounts/Ledger.antt =====
-- What the manager's sequences and prefix records hold, against what the allocator counts.
use qwen_vl_paged.Prelude.{
  ℕ, ◌+◌, ◌≡◌, List, some, arith, sum_by, count, AllValues, AllValues-put, AllValues-find, nat_eq,
  string_eq, find, put, sum_values, value_at, sum_values-put, ap,
}
use qwen_vl_paged.Allocator.{MemoryAllocator}
use qwen_vl_paged.Allocator.Cases.{refs}
use qwen_vl_paged.Allocator.Invariant.{IsValid}
use qwen_vl_paged.Manager.State.{SequenceState, PrefixRecord, KvCacheManager}
use qwen_vl_paged.Manager.Accounts.Tables.{tables_refs, AllContiguous, AllBalanced}

abbrev pub state_refs : ℕ → SequenceState → ℕ
state_refs i s = tables_refs i s.tables

abbrev pub record_refs : ℕ → PrefixRecord → ℕ
record_refs i r = count i r.physical_ids

abbrev pub records_refs : ℕ → List PrefixRecord → ℕ
records_refs i rs = sum_by (record_refs i) rs

-- The references that the manager's data holds on a frame.
abbrev pub held : ℕ → KvCacheManager → ℕ
held i m = sum_values (state_refs i) m.sequences + sum_values (records_refs i) m.prefix_index

abbrev pub HasTables : SequenceState → Type 0
HasTables s = AllContiguous s.tables

pub record Accounts (m : KvCacheManager) : Type 0 where
  pub pool : IsValid m.allocator
  pub tables : AllValues HasTables m.sequences
  pub counts : (i : ℕ) → refs m.allocator i ≡ held i m

-- A sequence's state is replaced by one whose tables balance with the pool.
pub put_state-Accounts :
    (m : KvCacheManager) (seq : ℕ) (s s' : SequenceState) (a : MemoryAllocator)
    → Accounts m
    → find seq m.sequences ≡ some s
    → AllBalanced m.allocator s.tables a s'.tables
    → Accounts (record m { allocator = a; sequences = put seq s' m.sequences })
put_state-Accounts m seq s s' a acc at b = record {
  pool = b.pool;
  tables = AllValues-put HasTables seq s' m.sequences b.shape acc.tables;
  counts = λ i. omega (
    arith,
    acc.counts i,
    b.balance i,
    sum_values-put (state_refs i) seq s' m.sequences,
    ap (value_at (state_refs i)) at,
  );
}

pub state-AllContiguous :
    (m : KvCacheManager) (seq : ℕ) (s : SequenceState)
    → Accounts m
    → find seq m.sequences ≡ some s
    → AllContiguous s.tables
state-AllContiguous m seq s acc at = AllValues-find HasTables seq m.sequences s acc.tables at
