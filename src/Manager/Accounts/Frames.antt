-- ===== src/Manager/Accounts/Frames.antt =====
-- Runs of retain and release over lists of frames, and over the entries of tables.
use qwen_vl_paged.Prelude.{
  ℕ, ◌+◌, ◌≤◌, ◌<◌, ◌≡◌, refl, ap, ◌∙◌, false, List, [], ◌∷◌, map, arith, count, sum_by,
  Option-cases, inl, inr,
}
use qwen_vl_paged.Table.{BlockTable, BlockTableEntry, fork, fork_entry}
use qwen_vl_paged.Table.References.{entry_refs, table_refs, table_refs-fork}
use qwen_vl_paged.Table.Contiguous.{fork-IsContiguous}
use qwen_vl_paged.Allocator.{MemoryAllocator, release, retain}
use qwen_vl_paged.Allocator.Cases.{refs}
use qwen_vl_paged.Allocator.Invariant.{IsValid}
use qwen_vl_paged.Allocator.Keeps.{release-IsValid, retain-IsValid, discard_swapped-IsValid}
use qwen_vl_paged.Allocator.Effects.{refs-release, refs-retain, refs-discard_swapped, at_frame}
use qwen_vl_paged.Manager.State.{retain_all, release_all}
use qwen_vl_paged.Manager.Sequence.{
  any_swapped, any_table_swapped, physical_ids, fork_tables, release_entry, release_entries,
  release_tables,
}
use qwen_vl_paged.Manager.Accounts.Tables.{tables_refs, AllContiguous}

-- A pool in which each frame gained, or lost, what `n` counts.
pub record Gained (n : ℕ → ℕ) (a a' : MemoryAllocator) : Type 0 where
  pub pool : IsValid a'
  pub gain : (j : ℕ) → refs a' j ≡ refs a j + n j

pub record Lost (n : ℕ → ℕ) (a a' : MemoryAllocator) : Type 0 where
  pub pool : IsValid a'
  pub loss : (j : ℕ) → refs a' j + n j ≡ refs a j

-- Frames in use, whose counts stay below 2 ^ 32.
pub record CanGain (n : ℕ → ℕ) (a : MemoryAllocator) : Type 0 where
  pub used : (j : ℕ) → 0 < n j → 0 < refs a j
  pub room : (j : ℕ) → refs a j + n j < 4294967296

pub retain_one :
    (a : MemoryAllocator) (i : ℕ)
    → IsValid a
    → 0 < refs a i
    → refs a i + 1 < 4294967296
    → Gained (at_frame i) a (retain a i)
retain_one a i v used room = record {
  pool = retain-IsValid a i v (λ f e. ground arith);
  gain = λ j. ground (arith, refs-retain a i j room);
}

pub retain_all-Gained :
    (a : MemoryAllocator) (ids : List ℕ)
    → IsValid a
    → CanGain (λ j. count j ids) a
    → Gained (λ j. count j ids) a (retain_all a ids)
unfolding retain_all
retain_all-Gained a [] v can = record { pool = v; gain = λ j. omega arith }
retain_all-Gained a (i ∷ ids) v can =
    let first = retain_one a i v (can.used i (ground arith)) (ground (arith, can.room i)) in
    let rest = retain_all-Gained (retain a i) ids first.pool (record {
      used = λ j h. ground (arith, first.gain j, can.used j);
      room = λ j. ground (arith, first.gain j, can.room j);
    }) in
    record { pool = rest.pool; gain = λ j. ground (arith, rest.gain j, first.gain j) }

pub release_all-Lost :
    (a : MemoryAllocator) (ids : List ℕ)
    → IsValid a
    → ((j : ℕ) → count j ids ≤ refs a j)
    → Lost (λ j. count j ids) a (release_all a ids)
unfolding release_all
release_all-Lost a [] v held = record { pool = v; loss = λ j. omega arith }
release_all-Lost a (i ∷ ids) v held =
    let rest =
      release_all-Lost (release a i) ids (release-IsValid a i v)
        (λ j. ground (arith, refs-release a i j, held j)) in
    record { pool = rest.pool; loss = λ j. ground (arith, rest.loss j, refs-release a i j, held j) }

release_entry-Lost :
    (a : MemoryAllocator) (e : BlockTableEntry)
    → IsValid a
    → ((j : ℕ) → entry_refs j e ≤ refs a j)
    → Lost (λ j. entry_refs j e) a (release_entry a e)
release_entry-Lost a e v held = elim (Option-cases e.swap_slot) [
  | inl here ↦ rw here (record {
    pool = release-IsValid a e.physical_id v;
    loss = λ j. ground (arith, refs-release a e.physical_id j, held j, here);
  })
  | inr (slot, gone) ↦ rw gone (record {
    pool = discard_swapped-IsValid a slot v;
    loss = λ j. ground (arith, refs-discard_swapped a slot j);
  })
]

release_entries-Lost :
    (a : MemoryAllocator) (es : List BlockTableEntry)
    → IsValid a
    → ((j : ℕ) → sum_by (entry_refs j) es ≤ refs a j)
    → Lost (λ j. sum_by (entry_refs j) es) a (release_entries a es)
unfolding release_entries
release_entries-Lost a [] v held = record { pool = v; loss = λ j. omega arith }
release_entries-Lost a (e ∷ es) v held =
    let first = release_entry-Lost a e v (λ j. omega (arith, held j)) in
    let rest =
      release_entries-Lost (release_entry a e) es first.pool
        (λ j. omega (arith, first.loss j, held j)) in
    record { pool = rest.pool; loss = λ j. omega (arith, first.loss j, rest.loss j) }

pub release_tables-Lost :
    (a : MemoryAllocator) (ts : List BlockTable)
    → IsValid a
    → ((j : ℕ) → tables_refs j ts ≤ refs a j)
    → Lost (λ j. tables_refs j ts) a (release_tables a ts)
unfolding release_tables
release_tables-Lost a [] v held = record { pool = v; loss = λ j. omega arith }
release_tables-Lost a (t ∷ ts) v held =
    let first = release_entries-Lost a t.entries v (λ j. omega (arith, held j)) in
    let rest =
      release_tables-Lost (release_entries a t.entries) ts first.pool
        (λ j. omega (arith, first.loss j, held j)) in
    record { pool = rest.pool; loss = λ j. omega (arith, first.loss j, rest.loss j) }

count-physical_ids :
    (j : ℕ) (es : List BlockTableEntry)
    → any_swapped es ≡ false
    → count j (physical_ids es) ≡ sum_by (entry_refs j) es
unfolding any_swapped
count-physical_ids j [] h = refl
count-physical_ids j (e ∷ es) h = ground (arith, count-physical_ids j es)

forked_ids :
    (child : ℕ) (es : List BlockTableEntry)
    → physical_ids (map (fork_entry child) es) ≡ physical_ids es
forked_ids child [] = refl
forked_ids child (e ∷ es) = ground (arith, forked_ids child es)

pub fork_tables-Gained :
    (child : ℕ) (a : MemoryAllocator) (ts : List BlockTable)
    → IsValid a
    → any_table_swapped ts ≡ false
    → CanGain (λ j. tables_refs j ts) a
    → Gained (λ j. tables_refs j ts) a (fork_tables child a ts).0
unfolding fork_tables any_table_swapped fork
fork_tables-Gained child a [] v here can = record { pool = v; gain = λ j. omega arith }
fork_tables-Gained child a (t ∷ ts) v here can =
    let counts = λ (j : ℕ). ground_counts j in
    let first = retain_all-Gained a (physical_ids (fork t child).entries) v (record {
      used = λ j h. can.used j (omega (arith, counts j));
      room = λ j. omega (arith, counts j, can.room j);
    }) in
    let rest =
      fork_tables-Gained child (retain_all a (physical_ids (fork t child).entries)) ts first.pool
        (ground arith)
        (record {
          used = λ j h. omega (arith, first.gain j, can.used j (omega arith));
          room = λ j. omega (arith, first.gain j, counts j, can.room j);
        }) in
    record { pool = rest.pool; gain = λ j. omega (arith, rest.gain j, first.gain j, counts j) }
  where
    ground_counts :
        (j : ℕ) → count j (physical_ids (map (fork_entry child) t.entries)) ≡ table_refs j t
    ground_counts j =
        ap (count j) (forked_ids child t.entries) ∙ count-physical_ids j t.entries (ground arith)

pub fork_tables_refs :
    (child j : ℕ) (a : MemoryAllocator) (ts : List BlockTable)
    → tables_refs j (fork_tables child a ts).1 ≡ tables_refs j ts
unfolding fork_tables
fork_tables_refs child j a [] = refl
fork_tables_refs child j a (t ∷ ts) = omega (
  arith,
  table_refs-fork j child t,
  fork_tables_refs child j (retain_all a (physical_ids (fork t child).entries)) ts,
)

pub fork_tables-AllContiguous :
    (child : ℕ) (a : MemoryAllocator) (ts : List BlockTable)
    → AllContiguous ts
    → AllContiguous (fork_tables child a ts).1
unfolding fork_tables
fork_tables-AllContiguous child a [] c = tt
fork_tables-AllContiguous child a (t ∷ ts) c = (
  fork-IsContiguous t child c.0,
  fork_tables-AllContiguous child (retain_all a (physical_ids (fork t child).entries)) ts c.1,
)
