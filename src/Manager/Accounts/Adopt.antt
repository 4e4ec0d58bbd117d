-- ===== src/Manager/Accounts/Adopt.antt =====
-- attach_prefix keeps the accounts.
use qwen_vl_paged.Prelude.{
  ℕ, ◌+◌, ◌/◌, ◌%◌, ◌≤◌, ◌<◌, ◌≡◌, refl, ◌||◌, not, String, List, [], ◌∷◌, Option, none, some,
  arith, ◌==◌, if◌then◌else◌, length, is_empty, u32, text_eq, count, nat_eq, string_eq, find, put,
  value_at, sum_values-put, sum_values-erase, if_cases,
}
use qwen_vl_paged.Table.{BlockTable}
use qwen_vl_paged.Allocator.{MemoryAllocator}
use qwen_vl_paged.Manager.State.{
  SequenceState, PrefixRecord, KvCacheManager, tokens_per_block, text_table_empty,
}
use qwen_vl_paged.Manager.Prefix.{
  sole_record, use_prefix, attach_tables, attach_record, attach_prefix,
}
use qwen_vl_paged.Manager.Accounts.Tables.{AllBalanced}
use qwen_vl_paged.Manager.Accounts.Attach.{AllEmpty, attach_tables-AllBalanced}
use qwen_vl_paged.Manager.Accounts.Ledger.{
  record_refs, records_refs, held, Accounts, put_state-Accounts, state-AllContiguous,
}
use qwen_vl_paged.Manager.Accounts.Publish.{HasHeadroom, held-CanGain}

-- What attach_prefix asks for: the sequence's tables are all empty, and the record has fewer than
-- 2 ^ 32 frames.
pub record CanAttach (s : SequenceState) (r : PrefixRecord) : Type 0 where
  pub vacant : AllEmpty s.tables
  pub short : length r.physical_ids < 4294967296

sole_record-le-held :
    (m : KvCacheManager) (i : ℕ) (key : String) (r : PrefixRecord)
    → sole_record (find key m.prefix_index) ≡ some r
    → (value_at (records_refs i) (find key m.prefix_index) ≡ record_refs i r)
      × (record_refs i r ≤ held i m)
unfolding sole_record
sole_record-le-held m i key r e =
    let (value, _) = shape (find key m.prefix_index) e in
    (value, omega (arith, value, sum_values-erase (records_refs i) key m.prefix_index))
  where
    shape :
        (o : Option (List PrefixRecord))
        → sole_record o ≡ some r
        → (value_at (records_refs i) o ≡ record_refs i r) × Unit {0}
    shape none h = absurd (ground arith)
    shape (some []) h = absurd (ground arith)
    shape (some (x ∷ [])) h = (ground arith, tt)
    shape (some (x ∷ y ∷ xs)) h = absurd (ground arith)

module _ (m : KvCacheManager) (seq : ℕ) (s : SequenceState) (key : String) (r : PrefixRecord)
    (acc : Accounts m) (at : find seq m.sequences ≡ some s) (head : HasHeadroom m)
    (sole : sole_record (find key m.prefix_index) ≡ some r) (can : CanAttach s r) where
  attach_record-Accounts : Accounts (attach_record m seq s key r).0
  unfolding attach_record
  attach_record-Accounts =
      if_cases (λ (x : KvCacheManager × ℕ). Accounts x.0)
        (tokens_per_block m == 0 || is_empty r.physical_ids || length s.tables == 0) (λ _. acc)
        (λ _.
          if_cases (λ (x : KvCacheManager × ℕ). Accounts x.0)
            (not (length r.physical_ids % length s.tables == 0)) (λ _. acc) (λ _. attached))
    where
      n : ℕ
      n = length r.physical_ids / length s.tables

      out : MemoryAllocator × List BlockTable
      out = attach_tables seq (tokens_per_block m) n m.allocator s.tables r.physical_ids

      balanced : AllBalanced m.allocator s.tables out.0 out.1
      balanced =
          attach_tables-AllBalanced seq (tokens_per_block m) n m.allocator s.tables r.physical_ids
            acc.pool (state-AllContiguous m seq s acc at) can.vacant can.short
            (held-CanGain m seq s acc at head (λ j. count j r.physical_ids)
              (λ j. (sole_record-le-held m j key r sole).1))

      s' : SequenceState
      s' = use_prefix (record s { tables = out.1 }) key r.content_hash

      attached : Accounts (record m {
        allocator = out.0;
        sequences = put seq s' m.sequences;
        prefix_index = put key (record r { users = u32 (r.users + 1) } ∷ []) m.prefix_index;
      })
      attached =
          let base = put_state-Accounts m seq s s' out.0 acc at balanced in
          record {
            pool = base.pool;
            tables = base.tables;
            counts = λ i. omega (
              arith,
              base.counts i,
              (sole_record-le-held m i key r sole).0,
              sum_values-put (records_refs i) key (record r { users = u32 (r.users + 1) } ∷ [])
                  m.prefix_index,
            );
          }

pub attach_prefix-Accounts :
    (m : KvCacheManager) (seq : ℕ) (key : String)
    → Accounts m
    → HasHeadroom m
    → ((s : SequenceState) (r : PrefixRecord)
        → find seq m.sequences ≡ some s
        → sole_record (find key m.prefix_index) ≡ some r
        → CanAttach s r)
    → Accounts (attach_prefix m seq key).0
unfolding attach_prefix
attach_prefix-Accounts m seq key acc head can =
    if_cases (λ (r : KvCacheManager × ℕ). Accounts r.0) (text_eq key "") (λ _. acc)
      (λ _. known (find seq m.sequences) refl)
  where
    sole :
        (s : SequenceState) (o : Option PrefixRecord)
        → find seq m.sequences ≡ some s
        → sole_record (find key m.prefix_index) ≡ o
        → Accounts
            (elim o as (λ _. KvCacheManager × ℕ) [
              | none ↦ (m, 0)
              | some r ↦ attach_record m seq s key r
            ]).0
    sole s none at e = acc
    sole s (some r) at e = attach_record-Accounts m seq s key r acc at head e (can s r at e)

    known :
        (o : Option SequenceState)
        → find seq m.sequences ≡ o
        → Accounts
            (elim o as (λ _. KvCacheManager × ℕ) [
              | none ↦ (m, 0)
              | some s ↦
                  if not (text_table_empty s)
                  then (m, 0)
                  else elim (sole_record (find key m.prefix_index)) [
                    | none ↦ (m, 0)
                    | some r ↦ attach_record m seq s key r
                  ]
            ]).0
    known none at = acc
    known (some s) at =
        if_cases (λ (r : KvCacheManager × ℕ). Accounts r.0) (not (text_table_empty s)) (λ _. acc)
          (λ _. sole s (sole_record (find key m.prefix_index)) at refl)
