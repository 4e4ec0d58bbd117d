-- ===== src/Table/Order.antt =====
-- The entries of a table stand in the order of their logical indices, each index once.
use qwen_vl_paged.Prelude.{
  ℕ, suc, ◌≤◌, ◌≡◌, refl, Bool, List, [], ◌∷◌, ◌++◌, map, arith, Option-cases, inl, inr,
}
use qwen_vl_paged.Block.{LogicalBlock}
use qwen_vl_paged.Table.{
  BlockTable, BlockTableEntry, before_bound, lower_bound_index, mapping, insert_mapping_entries,
  insert_mapping, entry, update_front, update_entry, drop_front, unmap, set_writable, fork_entry,
  fork,
}

-- Indices rise strictly from at least `n`.
abbrev pub Above : ℕ → List BlockTableEntry → Type 0
Above n [] = Unit {0}
Above n (e ∷ es) = (n ≤ e.logical.index) × Above (suc e.logical.index) es

abbrev pub IsSorted : BlockTable → Type 0
IsSorted t = Above 0 t.entries

pub Above-weaken : {m n : ℕ} (es : List BlockTableEntry) → m ≤ n → Above n es → Above m es
Above-weaken [] h s = tt
Above-weaken (e ∷ es) h s = (omega arith, s.1)

abbrev pub KeepsIndex : (BlockTableEntry → BlockTableEntry) → Type 0
KeepsIndex f = (e : BlockTableEntry) → (f e).logical.index ≡ e.logical.index

insert-Above :
    (b : LogicalBlock) (p : ℕ) (w : Bool) (n : ℕ) (es : List BlockTableEntry)
    → n ≤ b.index
    → Above n es
    → Above n (insert_mapping_entries b p w es)
unfolding insert_mapping_entries mapping
insert-Above b p w n [] h s = (h, tt)
insert-Above b p w n (e ∷ es) h s = ground (arith, insert-Above b p w (suc e.logical.index) es)

update-Above :
    (i : ℕ) (f : BlockTableEntry → BlockTableEntry) (n : ℕ) (es : List BlockTableEntry)
    → KeepsIndex f
    → Above n es
    → Above n (before_bound es i ++ update_front i f (lower_bound_index es i))
unfolding before_bound lower_bound_index update_front
update-Above i f n [] k s = tt
update-Above i f n (e ∷ es) k s = ground (arith, update-Above i f (suc e.logical.index) es k, k e)

pub drop-Above :
    (i n : ℕ) (es : List BlockTableEntry)
    → Above n es
    → Above n (before_bound es i ++ drop_front (lower_bound_index es i))
unfolding before_bound lower_bound_index drop_front
drop-Above i n [] s = tt
drop-Above i n (e ∷ es) s = ground (
  arith,
  drop-Above i (suc e.logical.index) es,
  Above-weaken {m = n} {n = suc e.logical.index} es,
)

fork-Above :
    (child n : ℕ) (es : List BlockTableEntry) → Above n es → Above n (map (fork_entry child) es)
fork-Above child n [] s = tt
fork-Above child n (e ∷ es) s = (s.0, fork-Above child (suc e.logical.index) es s.1)

pub insert_mapping-IsSorted :
    (t : BlockTable) (b : LogicalBlock) (p : ℕ) (w : Bool)
    → IsSorted t
    → IsSorted (insert_mapping t b p w)
unfolding insert_mapping
insert_mapping-IsSorted t b p w s = insert-Above b p w 0 t.entries (omega arith) s

pub update_entry-IsSorted :
    (t : BlockTable) (i : ℕ) (f : BlockTableEntry → BlockTableEntry)
    → KeepsIndex f
    → IsSorted t
    → IsSorted (update_entry t i f)
unfolding update_entry
update_entry-IsSorted t i f k s = update-Above i f 0 t.entries k s

pub unmap-IsSorted : (t : BlockTable) (i : ℕ) → IsSorted t → IsSorted (unmap t i).0
unfolding unmap
unmap-IsSorted t i s = elim (Option-cases (entry t i)) [
  | inl e ↦ rw (e, unmap) s
  | inr (x, e) ↦ rw (e, unmap) (drop-Above i 0 t.entries s)
]

pub fork-IsSorted : (t : BlockTable) (child : ℕ) → IsSorted t → IsSorted (fork t child)
unfolding fork
fork-IsSorted t child s = fork-Above child 0 t.entries s

-- One call that changes a table.
pub data Edit : Type 0 where
  maps : LogicalBlock → ℕ → Bool → Edit
  unmaps : ℕ → Edit
  sets_writable : ℕ → Bool → Edit
  forks : ℕ → Edit

pub apply : BlockTable → Edit → BlockTable
apply t (maps b p w) = insert_mapping t b p w
apply t (unmaps i) = (unmap t i).0
apply t (sets_writable i w) = set_writable t i w
apply t (forks child) = fork t child

-- Mapping, unmapping, marking and forking keep a table's entries in strictly rising index order.
pub apply-IsSorted : (t : BlockTable) (c : Edit) → IsSorted t → IsSorted (apply t c)
unfolding apply set_writable
apply-IsSorted t (maps b p w) s = insert_mapping-IsSorted t b p w s
apply-IsSorted t (unmaps i) s = unmap-IsSorted t i s
apply-IsSorted t (sets_writable i w) s = update_entry-IsSorted t i _ (λ e. refl) s
apply-IsSorted t (forks child) s = fork-IsSorted t child s
