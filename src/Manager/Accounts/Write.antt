-- ===== src/Manager/Accounts/Write.antt =====
-- ensure_token_writable: a shared frame is copied, and the entry moves its reference to the copy.
use qwen_vl_paged.Prelude.{
  ℕ, ◌+◌, ◌/◌, ◌≤◌, ◌≡◌, refl, ap, false, Option, none, some, arith, leb, ◌==◌, has_value,
  get_elem?, inl, inr, Bool-cases, Option-cases,
}
use qwen_vl_paged.Table.{BlockTable, BlockTableEntry, entry, update_entry}
use qwen_vl_paged.Table.References.{table_refs, table_refs-update_entry}
use qwen_vl_paged.Table.Contiguous.{IsContiguous, update_entry-IsContiguous}
use qwen_vl_paged.Allocator.{MemoryAllocator, allocate, release, copy_block, info}
use qwen_vl_paged.Allocator.Cases.{refs}
use qwen_vl_paged.Allocator.Invariant.{IsValid}
use qwen_vl_paged.Allocator.Keeps.{allocate-IsValid, release-IsValid, copy_block-IsValid}
use qwen_vl_paged.Allocator.Effects.{Allocates, allocate-Allocates, refs-release, refs-copy_block}
use qwen_vl_paged.Manager.Sequence.{own_frame, write_entry, write_table, front_tokens}
use qwen_vl_paged.Manager.Accounts.Tables.{Balanced}

module _ (a : MemoryAllocator) (t : BlockTable) (index : ℕ) (e : BlockTableEntry) (v : IsValid a)
    (c : IsContiguous t) (at : entry t index ≡ some e) (here : has_value e.swap_slot ≡ false) where
  keep_Balanced : Balanced a t a (update_entry t index (own_frame e.physical_id))
  keep_Balanced = record {
    pool = v;
    shape = update_entry-IsContiguous t index (own_frame e.physical_id) (λ x. refl) c;
    balance = λ i. ground (arith, table_refs-update_entry i index t (own_frame e.physical_id) e at);
  }

  copied : MemoryAllocator → ℕ → MemoryAllocator
  copied a' i = release (copy_block a' e.physical_id i) e.physical_id

  copy_Balanced :
      (a' : MemoryAllocator) (i : ℕ)
      → IsValid a'
      → Allocates a (a', some i)
      → 2 ≤ refs a e.physical_id
      → Balanced a t (copied a' i) (update_entry t index (own_frame i))
  unfolding copied
  copy_Balanced a' i v' al many = record {
    pool =
        release-IsValid (copy_block a' e.physical_id i) e.physical_id
          (copy_block-IsValid a' e.physical_id i v');
    shape = update_entry-IsContiguous t index (own_frame i) (λ x. refl) c;
    balance = λ j. ground (
      arith,
      al.1,
      al.2 j,
      refs-release (copy_block a' e.physical_id i) e.physical_id j,
      refs-copy_block a' e.physical_id i j,
      table_refs-update_entry j index t (own_frame i) e at,
    );
  }

  pub write_entry-Balanced :
      Balanced a t (write_entry a t index e).0.0 (write_entry a t index e).0.1
  unfolding write_entry info copied
  write_entry-Balanced = elim (Option-cases (get_elem? a.infos e.physical_id)) [
    | inl u ↦ rw (u, write_entry) (record { pool = v; shape = c; balance = λ i. refl })
    | inr (f, u) ↦ elim (Bool-cases (leb f.ref_count 1)) [
      | inl few ↦ rw (u, few, write_entry) keep_Balanced
      | inr many ↦
          rw (u, many, write_entry)
            (step (allocate a) (allocate-IsValid a v) (allocate-Allocates a v)
              (ground (arith, many, u)))
    ]
  ]
    where
      goes : MemoryAllocator × Option ℕ → (MemoryAllocator × BlockTable) × Option ℕ
      goes r = elim r.1 [
        | none ↦ ((r.0, t), none)
        | some copy ↦ (
          (
            release (copy_block r.0 e.physical_id copy) e.physical_id,
            update_entry t index (own_frame copy),
          ),
          some copy,
        )
      ]

      step :
          (r : MemoryAllocator × Option ℕ)
          → IsValid r.0
          → Allocates a r
          → 2 ≤ refs a e.physical_id
          → Balanced a t (goes r).0.0 (goes r).0.1
      step (a', none) v' al many = record {
        pool = v';
        shape = c;
        balance = λ i. ap (λ b. refs b i + table_refs i t) al.1;
      }
      step (a', some i) v' al many = copy_Balanced a' i v' al many

pub write_table-Balanced :
    (a : MemoryAllocator) (t : BlockTable) (position : ℕ)
    → IsValid a
    → IsContiguous t
    → Balanced a t (write_table a t position).0.0 (write_table a t position).0.1
unfolding write_table
write_table-Balanced a t position v c = elim (Bool-cases (front_tokens t == 0)) [
  | inl z ↦ rw (z, write_table) same
  | inr nz ↦ elim (Option-cases (entry t (position / front_tokens t))) [
    | inl u ↦ rw (nz, u, write_table) same
    | inr (e, u) ↦ elim (Bool-cases (has_value e.swap_slot)) [
      | inl gone ↦ rw (nz, u, gone, write_table) same
      | inr here ↦
          rw (nz, u, here, write_table)
            (write_entry-Balanced a t (position / front_tokens t) e v c u here)
    ]
  ]
]
  where
    same : Balanced a t a t
    same = record { pool = v; shape = c; balance = λ i. refl }
