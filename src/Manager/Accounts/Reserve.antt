-- ===== src/Manager/Accounts/Reserve.antt =====
-- reserve_tokens: the frames that it takes are those that the new entries map.
use qwen_vl_paged.Prelude.{
  ℕ, zero, suc, ◌+◌, ◌*◌, ◌≤◌, ◌<◌, ◌≡◌, refl, Bool, true, false, List, [], ◌∷◌, Option, none, some,
  arith, ap, length, u32,
}
use qwen_vl_paged.Block.{LogicalBlock}
use qwen_vl_paged.Table.{BlockTable, insert_mapping}
use qwen_vl_paged.Table
use qwen_vl_paged.Table.References.{table_refs, table_refs-insert_mapping}
use qwen_vl_paged.Table.Contiguous.{
  IsContiguous, insert_mapping-IsContiguous, length-insert_mapping, entry_end,
}
use qwen_vl_paged.Allocator.{MemoryAllocator, allocate}
use qwen_vl_paged.Allocator.Cases.{refs}
use qwen_vl_paged.Allocator.Invariant.{IsValid}
use qwen_vl_paged.Allocator.Keeps.{allocate-IsValid}
use qwen_vl_paged.Allocator.Effects.{Allocates, allocate-Allocates}
use qwen_vl_paged.Manager.Sequence.{reserve_blocks, reserve_tables}
use qwen_vl_paged.Manager.Accounts.Tables.{
  AllContiguous, Balanced, Balanced-trans, AllBalanced, AllBalanced-cons, AllBalanced-head,
}

abbrev new_block : BlockTable → ℕ → ℕ → ℕ → LogicalBlock
new_block t index seq tpb = record {
  sequence_id = seq;
  index = u32 index;
  cache_kind = t.cache_kind;
  start_token = u32 (u32 index * tpb);
  token_count = tpb;
}

-- A frame that was just allocated is mapped behind the last block.
append_Balanced :
    (a a' : MemoryAllocator) (t : BlockTable) (b : LogicalBlock) (i : ℕ) (w : Bool)
    → IsValid a'
    → Allocates a (a', some i)
    → IsContiguous t
    → b.index ≡ length t.entries
    → Balanced a t a' (insert_mapping t b i w)
append_Balanced a a' t b i w v al c e = record {
  pool = v;
  shape = insert_mapping-IsContiguous t b i w c e;
  balance = λ j. ground (arith, al.2 j, table_refs-insert_mapping j t b i w, entry_end t c, e);
}

-- Every table has room for `n` blocks more.
abbrev pub HasRoomFor : ℕ → List BlockTable → Type 0
HasRoomFor n [] = Unit {0}
HasRoomFor n (t ∷ ts) = (length t.entries + n < 4294967296) × HasRoomFor n ts

module _ (seq tpb : ℕ) where
  pub reserve_blocks-Balanced :
      (n index : ℕ) (a : MemoryAllocator) (t : BlockTable)
      → IsValid a
      → IsContiguous t
      → index ≡ length t.entries
      → index + n < 4294967296
      → Balanced a t
          (reserve_blocks n index seq tpb a t).0.0
          (reserve_blocks n index seq tpb a t).0.1
  unfolding reserve_blocks
  reserve_blocks-Balanced zero index a t v c e small = record {
    pool = v;
    shape = c;
    balance = λ i. refl;
  }
  reserve_blocks-Balanced (suc n) index a t v c e small =
      step (allocate a) (allocate-IsValid a v) (allocate-Allocates a v) (λ i.
        reserve_blocks-Balanced n (index + 1) (allocate a).0
          (insert_mapping t (new_block t index seq tpb) i true))
    where
      goes : MemoryAllocator × Option ℕ → (MemoryAllocator × BlockTable) × Bool
      goes r = elim r.1 [
        | none ↦ ((r.0, t), false)
        | some i ↦
            reserve_blocks n (index + 1) seq tpb r.0
              (insert_mapping t (new_block t index seq tpb) i true)
      ]

      step :
          (r : MemoryAllocator × Option ℕ)
          → IsValid r.0
          → Allocates a r
          → ((i : ℕ)
              → IsValid r.0
              → IsContiguous (insert_mapping t (new_block t index seq tpb) i true)
              → index + 1 ≡ length (insert_mapping t (new_block t index seq tpb) i true).entries
              → index + 1 + n < 4294967296
              → Balanced r.0
                  (insert_mapping t (new_block t index seq tpb) i true)
                  (goes (r.0, some i)).0.0
                  (goes (r.0, some i)).0.1)
          → Balanced a t (goes r).0.0 (goes r).0.1
      step (a', none) v' al ih = record {
        pool = v';
        shape = c;
        balance = λ i. ap (λ b. refs b i + table_refs i t) al.1;
      }
      step (a', some i) v' al ih =
          let at_end : u32 index ≡ length t.entries = omega arith in
          let b = new_block t index seq tpb in
          let grown = length-insert_mapping t b i true c at_end in
          Balanced-trans (append_Balanced a a' t b i true v' al c at_end) (
            ih i v' (insert_mapping-IsContiguous t b i true c at_end) (omega (arith, grown))
              (omega arith))

  -- With enough frames free the loop takes one for each block and does not fail.
  pub reserve_blocks_takes :
      (n index : ℕ) (a : MemoryAllocator) (t : BlockTable)
      → IsValid a
      → n ≤ length a.free_list
      → ((reserve_blocks n index seq tpb a t).1 ≡ true)
        × (length (reserve_blocks n index seq tpb a t).0.0.free_list + n ≡ length a.free_list)
  unfolding reserve_blocks
  reserve_blocks_takes zero index a t v h = (refl, omega arith)
  reserve_blocks_takes (suc n) index a t v h =
      step (allocate a) (allocate-IsValid a v) (allocate-Allocates a v) (λ i.
        reserve_blocks_takes n (index + 1) (allocate a).0
          (insert_mapping t (new_block t index seq tpb) i true))
    where
      goes : MemoryAllocator × Option ℕ → (MemoryAllocator × BlockTable) × Bool
      goes r = elim r.1 [
        | none ↦ ((r.0, t), false)
        | some i ↦
            reserve_blocks n (index + 1) seq tpb r.0
              (insert_mapping t (new_block t index seq tpb) i true)
      ]

      step :
          (r : MemoryAllocator × Option ℕ)
          → IsValid r.0
          → Allocates a r
          → ((i : ℕ)
              → IsValid r.0
              → n ≤ length r.0.free_list
              → ((goes (r.0, some i)).1 ≡ true)
                × (length (goes (r.0, some i)).0.0.free_list + n ≡ length r.0.free_list))
          → ((goes r).1 ≡ true) × (length (goes r).0.0.free_list + suc n ≡ length a.free_list)
      step (a', none) v' al ih = absurd (omega (arith, ap length al.0))
      step (a', some i) v' al ih =
          let rest = ih i v' (omega (arith, al.0)) in (rest.0, omega (arith, al.0, rest.1))

  pub reserve_tables-AllBalanced :
      (n : ℕ) (a : MemoryAllocator) (ts : List BlockTable)
      → IsValid a
      → AllContiguous ts
      → HasRoomFor n ts
      → AllBalanced a ts (reserve_tables n seq tpb a ts).0.0 (reserve_tables n seq tpb a ts).0.1
  unfolding reserve_tables Table.size
  reserve_tables-AllBalanced n a [] v c room = record { pool = v; shape = tt; balance = λ i. refl }
  reserve_tables-AllBalanced n a (t ∷ ts) v c room =
      let first =
        reserve_blocks-Balanced n (u32 (Table.size t)) a t v c.0 (omega arith) (omega arith) in
      ends (reserve_blocks n (u32 (Table.size t)) seq tpb a t) first (
        reserve_tables-AllBalanced n (reserve_blocks n (u32 (Table.size t)) seq tpb a t).0.0 ts
          first.pool c.1 room.1)
    where
      goes : (MemoryAllocator × BlockTable) × Bool → (MemoryAllocator × List BlockTable) × Bool
      goes r = elim r.1 [
        | false ↦ ((r.0.0, r.0.1 ∷ ts), false)
        | true ↦
            let ((a'', ts'), all) = reserve_tables n seq tpb r.0.0 ts in ((a'', r.0.1 ∷ ts'), all)
      ]

      ends :
          (r : (MemoryAllocator × BlockTable) × Bool)
          → Balanced a t r.0.0 r.0.1
          → AllBalanced r.0.0 ts
              (reserve_tables n seq tpb r.0.0 ts).0.0
              (reserve_tables n seq tpb r.0.0 ts).0.1
          → AllBalanced a (t ∷ ts) (goes r).0.0 (goes r).0.1
      ends ((a', t'), false) x y = AllBalanced-head ts c.1 x
      ends ((a', t'), true) x y = AllBalanced-cons x y

  -- With enough frames free for all tables the outer loop does not fail either.
  pub reserve_tables_takes :
      (n : ℕ) (a : MemoryAllocator) (ts : List BlockTable)
      → IsValid a
      → AllContiguous ts
      → HasRoomFor n ts
      → n * length ts ≤ length a.free_list
      → (reserve_tables n seq tpb a ts).1 ≡ true
  unfolding reserve_tables Table.size
  reserve_tables_takes n a [] v c room h = refl
  reserve_tables_takes n a (t ∷ ts) v c room h =
      let index : ℕ = u32 (Table.size t) in
      let first = reserve_blocks-Balanced n index a t v c.0 (omega arith) (omega arith) in
      let (done, took) = reserve_blocks_takes n index a t v (omega arith) in
      rw (done, reserve_tables)
        (reserve_tables_takes n (reserve_blocks n index seq tpb a t).0.0 ts first.pool c.1 room.1
          (omega (arith, took)))
