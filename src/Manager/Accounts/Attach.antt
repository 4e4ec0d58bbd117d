-- ===== src/Manager/Accounts/Attach.antt =====
-- attach_prefix: each frame of the record is retained and mapped behind the last block.
use qwen_vl_paged.Prelude.{
  ℕ, zero, suc, ◌+◌, ◌*◌, ◌<◌, ◌≡◌, refl, false, List, [], ◌∷◌, arith, length, take, drop, count,
  u32, ap,
}
use qwen_vl_paged.Block.{LogicalBlock}
use qwen_vl_paged.Table.{BlockTable, insert_mapping}
use qwen_vl_paged.Table.References.{table_refs-insert_mapping}
use qwen_vl_paged.Table.Contiguous.{
  IsContiguous, insert_mapping-IsContiguous, length-insert_mapping, entry_end,
}
use qwen_vl_paged.Allocator.{MemoryAllocator, retain}
use qwen_vl_paged.Allocator.Invariant.{IsValid}
use qwen_vl_paged.Manager.Prefix.{attach_frames, attach_tables}
use qwen_vl_paged.Manager.Accounts.Tables.{
  AllContiguous, Balanced, Balanced-trans, AllBalanced, AllBalanced-cons,
}
use qwen_vl_paged.Manager.Accounts.Frames.{Gained, CanGain, retain_one}

abbrev prefix_block : ℕ → ℕ → ℕ → BlockTable → LogicalBlock
prefix_block seq tpb i t = record {
  sequence_id = seq;
  index = u32 i;
  cache_kind = t.cache_kind;
  start_token = u32 (i * tpb);
  token_count = tpb;
}

-- The pool and the table after some frames were attached.
record Attached (ids : List ℕ) (a : MemoryAllocator) (t : BlockTable) (a' : MemoryAllocator)
    (t' : BlockTable) : Type 0 where
  balanced : Balanced a t a' t'
  gained : Gained (λ j. count j ids) a a'

abbrev pub AllEmpty : List BlockTable → Type 0
AllEmpty [] = Unit {0}
AllEmpty (t ∷ ts) = (t.entries ≡ []) × AllEmpty ts

count-take-drop :
    (j n : ℕ) (ids : List ℕ) → count j (take n ids) + count j (drop n ids) ≡ count j ids
count-take-drop j zero ids = omega arith
count-take-drop j (suc n) [] = omega arith
count-take-drop j (suc n) (x ∷ ids) = omega (arith, count-take-drop j n ids)

length-take-drop : (n : ℕ) (ids : List ℕ) → length (take n ids) + length (drop n ids) ≡ length ids
length-take-drop zero ids = omega arith
length-take-drop (suc n) [] = omega arith
length-take-drop (suc n) (x ∷ ids) = omega (arith, length-take-drop n ids)

module _ (seq tpb : ℕ) where
  attach_frames-Attached :
      (ids : List ℕ) (i : ℕ) (a : MemoryAllocator) (t : BlockTable)
      → IsValid a
      → IsContiguous t
      → i ≡ length t.entries
      → i + length ids < 4294967296
      → CanGain (λ j. count j ids) a
      → Attached ids a t (attach_frames seq tpb i a t ids).0 (attach_frames seq tpb i a t ids).1
  unfolding attach_frames
  attach_frames-Attached [] i a t v c e small can = record {
    balanced = record { pool = v; shape = c; balance = λ j. refl };
    gained = record { pool = v; gain = λ j. omega arith };
  }
  attach_frames-Attached (p ∷ ids) i a t v c e small can =
      let one = retain_one a p v (can.used p (ground arith)) (ground (arith, can.room p)) in
      let b = prefix_block seq tpb i t in
      let at_end : b.index ≡ length t.entries = omega arith in
      let t' = insert_mapping t b p false in
      let first : Balanced a t (retain a p) t' = record {
        pool = one.pool;
        shape = insert_mapping-IsContiguous t b p false c at_end;
        balance = λ j.
            ground
              (arith, one.gain j, table_refs-insert_mapping j t b p false, entry_end t c, at_end);
      } in
      let rest =
        attach_frames-Attached ids (i + 1) (retain a p) t' one.pool first.shape
          (omega (arith, length-insert_mapping t b p false c at_end)) (omega arith)
          (record {
            used = λ j h. ground (arith, one.gain j, can.used j);
            room = λ j. ground (arith, one.gain j, can.room j);
          }) in
      record {
        balanced = Balanced-trans first rest.balanced;
        gained = record {
          pool = rest.gained.pool;
          gain = λ j. ground (arith, rest.gained.gain j, one.gain j);
        };
      }

  pub attach_tables-AllBalanced :
      (n : ℕ) (a : MemoryAllocator) (ts : List BlockTable) (ids : List ℕ)
      → IsValid a
      → AllContiguous ts
      → AllEmpty ts
      → length ids < 4294967296
      → CanGain (λ j. count j ids) a
      → AllBalanced a ts (attach_tables seq tpb n a ts ids).0 (attach_tables seq tpb n a ts ids).1
  unfolding attach_tables
  attach_tables-AllBalanced n a [] ids v c em small can = record {
    pool = v;
    shape = tt;
    balance = λ j. refl;
  }
  attach_tables-AllBalanced n a (t ∷ ts) ids v c em small can =
      let r = attach_frames seq tpb 0 a t (take n ids) in
      let first =
        attach_frames-Attached (take n ids) 0 a t v c.0 (omega (arith, ap length em.0))
          (omega (arith, length-take-drop n ids))
          (record {
            used = λ j h. can.used j (omega (arith, count-take-drop j n ids));
            room = λ j. omega (arith, count-take-drop j n ids, can.room j);
          }) in
      AllBalanced-cons first.balanced (
        attach_tables-AllBalanced n r.0 ts (drop n ids) first.balanced.pool c.1 em.1
          (omega (arith, length-take-drop n ids))
          (record {
            used = λ j h. omega (
              arith,
              count-take-drop j n ids,
              first.gained.gain j,
              can.used j (omega (arith, count-take-drop j n ids)),
            );
            room = λ j. omega (arith, count-take-drop j n ids, first.gained.gain j, can.room j);
          }))
