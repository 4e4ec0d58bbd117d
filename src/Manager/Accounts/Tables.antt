-- ===== src/Manager/Accounts/Tables.antt =====
-- References and shape of a sequence's tables, and the balance that an operation on them keeps.
use qwen_vl_paged.Prelude.{
  ℕ, zero, suc, ◌+◌, ◌≡◌, List, [], ◌∷◌, some, arith, get_elem?, set, sum_by,
}
use qwen_vl_paged.Table.{BlockTable}
use qwen_vl_paged.Table.References.{table_refs}
use qwen_vl_paged.Table.Contiguous.{IsContiguous}
use qwen_vl_paged.Allocator.{MemoryAllocator}
use qwen_vl_paged.Allocator.Cases.{refs}
use qwen_vl_paged.Allocator.Invariant.{IsValid}

abbrev pub tables_refs : ℕ → List BlockTable → ℕ
tables_refs i ts = sum_by (table_refs i) ts

abbrev pub AllContiguous : List BlockTable → Type 0
AllContiguous [] = Unit {0}
AllContiguous (t ∷ ts) = IsContiguous t × AllContiguous ts

pub AllContiguous-get_elem? :
    (ts : List BlockTable) (k : ℕ) (t : BlockTable)
    → AllContiguous ts
    → get_elem? ts k ≡ some t
    → IsContiguous t
AllContiguous-get_elem? [] k t all h = absurd (ground arith)
AllContiguous-get_elem? (x ∷ ts) zero t all h = let same : x ≡ t = ground arith in rw (← same) all.0
AllContiguous-get_elem? (x ∷ ts) (suc k) t all h = AllContiguous-get_elem? ts k t all.1 h

pub AllContiguous-set :
    (ts : List BlockTable) (k : ℕ) (t : BlockTable)
    → AllContiguous ts
    → IsContiguous t
    → AllContiguous (set ts k t)
AllContiguous-set [] k t all c = tt
AllContiguous-set (x ∷ ts) zero t all c = (c, all.1)
AllContiguous-set (x ∷ ts) (suc k) t all c = (all.0, AllContiguous-set ts k t all.1 c)

-- The pool and a table change together: what the counts gain, the table's entries gain.
pub record Balanced (a : MemoryAllocator) (t : BlockTable) (a' : MemoryAllocator) (t' : BlockTable)
    : Type 0 where
  pub pool : IsValid a'
  pub shape : IsContiguous t'
  pub balance : (i : ℕ) → refs a' i + table_refs i t ≡ refs a i + table_refs i t'

pub Balanced-trans :
    {a b c : MemoryAllocator} {s t u : BlockTable}
    → Balanced a s b t
    → Balanced b t c u
    → Balanced a s c u
Balanced-trans x y = record {
  pool = y.pool;
  shape = y.shape;
  balance = λ i. omega (arith, x.balance i, y.balance i);
}

-- The same for all tables of a sequence.
pub record AllBalanced (a : MemoryAllocator) (ts : List BlockTable) (a' : MemoryAllocator)
    (ts' : List BlockTable) : Type 0 where
  pub pool : IsValid a'
  pub shape : AllContiguous ts'
  pub balance : (i : ℕ) → refs a' i + tables_refs i ts ≡ refs a i + tables_refs i ts'

pub AllBalanced-cons :
    {a b c : MemoryAllocator} {t t' : BlockTable} {ts ts' : List BlockTable}
    → Balanced a t b t'
    → AllBalanced b ts c ts'
    → AllBalanced a (t ∷ ts) c (t' ∷ ts')
AllBalanced-cons x y = record {
  pool = y.pool;
  shape = (x.shape, y.shape);
  balance = λ i. omega (arith, x.balance i, y.balance i);
}

-- The first table changes and the rest are left.
pub AllBalanced-head :
    {a b : MemoryAllocator} {t t' : BlockTable} (ts : List BlockTable)
    → AllContiguous ts
    → Balanced a t b t'
    → AllBalanced a (t ∷ ts) b (t' ∷ ts)
AllBalanced-head ts all x = record {
  pool = x.pool;
  shape = (x.shape, all);
  balance = λ i. omega (arith, x.balance i);
}
