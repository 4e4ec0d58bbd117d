-- ===== src/Manager/Exclusive.antt =====
-- ensure_token_writable hands out a frame that nothing else refers to.
use qwen_vl_paged.Prelude.{
  ℕ, ◌/◌, ◌≤◌, ◌≡◌, false, Option, none, some, List, [], arith, leb, ◌==◌, has_value, get_elem?,
  sum_by-set, inl, inr, Bool-cases, Option-cases, find, nat_eq,
}
use qwen_vl_paged.Block.{CacheKind}
use qwen_vl_paged.Table.{BlockTable, BlockTableEntry, entry, update_entry}
use qwen_vl_paged.Table.References.{entry_refs, table_refs, table_refs-update_entry}
use qwen_vl_paged.Allocator.{MemoryAllocator, allocate, release, copy_block, info}
use qwen_vl_paged.Allocator.Cases.{refs}
use qwen_vl_paged.Allocator.Invariant.{IsValid}
use qwen_vl_paged.Allocator.Effects.{Allocates, allocate-Allocates, refs-release, refs-copy_block}
use qwen_vl_paged.Manager.State.{KvCacheManager}
use qwen_vl_paged.Manager.Sequence.{
  own_frame, write_entry, write_table, front_tokens, ensure_token_writable,
}
use qwen_vl_paged.Manager.Accounts.Tables.{tables_refs}
use qwen_vl_paged.Manager.Accounts.Ledger.{Accounts}
use qwen_vl_paged.Manager.Accounts.Publish.{state-le-held}

-- The frame that was handed out has one reference in the pool that is left.
abbrev Sole {ℓ} : {R : Type ℓ} → (MemoryAllocator × R) × Option ℕ → Type 0
Sole ((a, t), none) = Unit {0}
Sole ((a, t), some p) = refs a p ≡ 1

entry-le-table :
    (t : BlockTable) (index i : ℕ) (e : BlockTableEntry)
    → entry t index ≡ some e
    → entry_refs i e ≤ table_refs i t
entry-le-table t index i e at =
    ground (arith, table_refs-update_entry i index t (λ x. record x { swap_slot = some 0 }) e at)

table-le-tables :
    (i : ℕ) (ts : List BlockTable) (k : ℕ) (t : BlockTable)
    → get_elem? ts k ≡ some t
    → table_refs i t ≤ tables_refs i ts
table-le-tables i ts k t at =
    omega (arith, sum_by-set (table_refs i) ts k (record t { entries = [] }) t at)

copy_Sole :
    (a a' : MemoryAllocator) (old i : ℕ)
    → Allocates a (a', some i)
    → 2 ≤ refs a old
    → refs (release (copy_block a' old i) old) i ≡ 1
copy_Sole a a' old i al many =
    ground
      (arith, al.1, al.2 i, refs-release (copy_block a' old i) old i, refs-copy_block a' old i i)

module _ (a : MemoryAllocator) (t : BlockTable) (v : IsValid a)
    (counted : (i : ℕ) → table_refs i t ≤ refs a i) where
  write_entry-Sole :
      (index : ℕ) (e : BlockTableEntry)
      → entry t index ≡ some e
      → has_value e.swap_slot ≡ false
      → Sole (write_entry a t index e)
  unfolding write_entry info
  write_entry-Sole index e at here = elim (Option-cases (get_elem? a.infos e.physical_id)) [
    | inl u ↦ rw (u, write_entry) tt
    | inr (f, u) ↦ elim (Bool-cases (leb f.ref_count 1)) [
      | inl few ↦
          rw (u, few, write_entry)
            (ground (
              arith,
              u,
              few,
              here,
              entry-le-table t index e.physical_id e at,
              counted e.physical_id,
            ))
      | inr many ↦
          rw (u, many, write_entry)
            (step (allocate a) (allocate-Allocates a v) (ground (arith, many, u)))
    ]
  ]
    where
      goes : MemoryAllocator × Option ℕ → (MemoryAllocator × BlockTable) × Option ℕ
      goes r = elim r.1 [
        | none ↦ ((r.0, t), none)
        | some copy ↦ (
          (
            release (copy_block r.0 e.physical_id copy) e.physical_id,
            update_entry t index (own_frame copy),
          ),
          some copy,
        )
      ]

      step :
          (r : MemoryAllocator × Option ℕ)
          → Allocates a r
          → 2 ≤ refs a e.physical_id
          → Sole (goes r)
      step (a', none) al many = tt
      step (a', some i) al many = copy_Sole a a' e.physical_id i al many

  write_table-Sole : (position : ℕ) → Sole (write_table a t position)
  unfolding write_table
  write_table-Sole position = elim (Bool-cases (front_tokens t == 0)) [
    | inl z ↦ rw (z, write_table) tt
    | inr nz ↦ elim (Option-cases (entry t (position / front_tokens t))) [
      | inl u ↦ rw (nz, u, write_table) tt
      | inr (e, u) ↦ elim (Bool-cases (has_value e.swap_slot)) [
        | inl gone ↦ rw (nz, u, gone, write_table) tt
        | inr here ↦
            rw (nz, u, here, write_table) (write_entry-Sole (position / front_tokens t) e u here)
      ]
    ]
  ]

-- With the manager's accounts in order, a frame that ensure_token_writable returns has exactly one
-- reference afterwards.
pub ensure_token_writable_exclusive :
    (m m' : KvCacheManager) (seq position : ℕ) (kind : CacheKind) (layer p : ℕ)
    → Accounts m
    → ensure_token_writable m seq position kind layer ≡ (m', some p)
    → refs m'.allocator p ≡ 1
unfolding ensure_token_writable
ensure_token_writable_exclusive m m' seq position kind layer p acc e =
    elim (Option-cases (find seq m.sequences)) [
      | inl u ↦ absurd (ground (arith, u, e))
      | inr (s, u) ↦ elim (Option-cases (get_elem? s.tables layer)) [
        | inl w ↦ absurd (ground (arith, u, w, e))
        | inr (t, w) ↦
            sole (write_table m.allocator t position)
              (write_table-Sole m.allocator t acc.pool
                (λ i. omega (
                  arith,
                  acc.counts i,
                  state-le-held m i seq s u,
                  table-le-tables i s.tables layer t w,
                ))
                position)
              (ground (arith, u, w, e)) (ground (arith, u, w, e))
      ]
    ]
  where
    sole :
        (r : (MemoryAllocator × BlockTable) × Option ℕ)
        → Sole r
        → r.1 ≡ some p
        → r.0.0 ≡ m'.allocator
        → refs m'.allocator p ≡ 1
    sole ((a, t), none) h found at = absurd (ground arith)
    sole ((a, t), some q) h found at = ground (arith, h)
