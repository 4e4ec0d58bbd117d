-- ===== src/Table/Contiguous.antt =====
-- Tables whose blocks are 0, 1, 2 and so on: the entry of a block is at its index.
use qwen_vl_paged.Prelude.{
  ℕ, zero, suc, ◌+◌, ◌<◌, ◌≡◌, refl, ap, ◌∙◌, Bool, none, List, [], ◌∷◌, ◌++◌, map, arith, length,
  get_elem?, length-append,
}
use qwen_vl_paged.Block.{LogicalBlock}
use qwen_vl_paged.Table.{
  BlockTable, BlockTableEntry, before_bound, lower_bound_index, mapping, insert_mapping_entries,
  insert_mapping, front_at, entry, update_front, update_entry, fork_entry, fork,
}
use qwen_vl_paged.Table.Order.{Above, KeepsIndex}

-- The indices from `n` on, one after the other.
abbrev pub Runs : ℕ → List BlockTableEntry → Type 0
Runs n [] = Unit {0}
Runs n (e ∷ es) = (e.logical.index ≡ n) × Runs (suc n) es

abbrev pub IsContiguous : BlockTable → Type 0
IsContiguous t = Runs 0 t.entries

front_at_below :
    (i n : ℕ) (es : List BlockTableEntry)
    → Runs n es
    → i < n
    → front_at i (lower_bound_index es i) ≡ none
unfolding front_at lower_bound_index
front_at_below i n [] r h = refl
front_at_below i n (e ∷ es) r h = ground arith

front_at-get_elem? :
    (k n : ℕ) (es : List BlockTableEntry)
    → Runs n es
    → front_at (n + k) (lower_bound_index es (n + k)) ≡ get_elem? es k
unfolding front_at lower_bound_index
front_at-get_elem? k n [] r = refl
front_at-get_elem? zero n (e ∷ es) r = ground arith
front_at-get_elem? (suc k) n (e ∷ es) r =
    let shift : n + suc k ≡ suc n + k = omega arith in
    rw shift (ground (arith, front_at-get_elem? k (suc n) es r.1))

pub entry-eq-get_elem? :
    (t : BlockTable) (k : ℕ) → IsContiguous t → entry t k ≡ get_elem? t.entries k
unfolding entry
entry-eq-get_elem? t k r =
    let shift : k ≡ 0 + k = omega arith in
    ap (λ i. front_at i (lower_bound_index t.entries i)) shift ∙ front_at-get_elem? k 0 t.entries r

-- Mapping the block behind the last appends it.
insert_last :
    (n : ℕ) (es : List BlockTableEntry) (b : LogicalBlock) (p : ℕ) (w : Bool)
    → Runs n es
    → b.index ≡ n + length es
    → insert_mapping_entries b p w es ≡ es ++ mapping b p w ∷ []
unfolding insert_mapping_entries
insert_last n [] b p w r h = refl
insert_last n (e ∷ es) b p w r h = ground (arith, insert_last (suc n) es b p w r.1)

Runs-append :
    (n : ℕ) (es : List BlockTableEntry) (x : BlockTableEntry)
    → Runs n es
    → x.logical.index ≡ n + length es
    → Runs n (es ++ x ∷ [])
Runs-append n [] x r h = (omega arith, tt)
Runs-append n (e ∷ es) x r h = (r.0, Runs-append (suc n) es x r.1 (omega arith))

pub insert_mapping-IsContiguous :
    (t : BlockTable) (b : LogicalBlock) (p : ℕ) (w : Bool)
    → IsContiguous t
    → b.index ≡ length t.entries
    → IsContiguous (insert_mapping t b p w)
unfolding insert_mapping mapping
insert_mapping-IsContiguous t b p w r h =
    rw (insert_last 0 t.entries b p w r (omega arith))
      (Runs-append 0 t.entries (mapping b p w) r (omega arith))

get_elem?_end {ℓ} : {A : Type ℓ} (xs : List A) → get_elem? xs (length xs) ≡ none
get_elem?_end [] = refl
get_elem?_end (x ∷ xs) = get_elem?_end xs

pub entry_end : (t : BlockTable) → IsContiguous t → entry t (length t.entries) ≡ none
entry_end t r = entry-eq-get_elem? t (length t.entries) r ∙ get_elem?_end t.entries

pub length-insert_mapping :
    (t : BlockTable) (b : LogicalBlock) (p : ℕ) (w : Bool)
    → IsContiguous t
    → b.index ≡ length t.entries
    → length (insert_mapping t b p w).entries ≡ length t.entries + 1
unfolding insert_mapping
length-insert_mapping t b p w r h =
    rw (insert_last 0 t.entries b p w r (omega arith)) (length-append t.entries _ ∙ omega arith)

update_front-Runs :
    (i : ℕ) (f : BlockTableEntry → BlockTableEntry) (n : ℕ) (es : List BlockTableEntry)
    → KeepsIndex f
    → Runs n es
    → Runs n (before_bound es i ++ update_front i f (lower_bound_index es i))
unfolding before_bound lower_bound_index update_front
update_front-Runs i f n [] k r = tt
update_front-Runs i f n (e ∷ es) k r = ground (arith, update_front-Runs i f (suc n) es k, k e)

pub update_entry-IsContiguous :
    (t : BlockTable) (i : ℕ) (f : BlockTableEntry → BlockTableEntry)
    → KeepsIndex f
    → IsContiguous t
    → IsContiguous (update_entry t i f)
unfolding update_entry
update_entry-IsContiguous t i f k r = update_front-Runs i f 0 t.entries k r

fork-Runs :
    (child n : ℕ) (es : List BlockTableEntry) → Runs n es → Runs n (map (fork_entry child) es)
fork-Runs child n [] r = tt
fork-Runs child n (e ∷ es) r = (r.0, fork-Runs child (suc n) es r.1)

pub fork-IsContiguous : (t : BlockTable) (child : ℕ) → IsContiguous t → IsContiguous (fork t child)
unfolding fork
fork-IsContiguous t child r = fork-Runs child 0 t.entries r

Above-Runs : (n : ℕ) (es : List BlockTableEntry) → Runs n es → Above n es
Above-Runs n [] r = tt
Above-Runs n (e ∷ es) r = (omega arith, rw r.0 (Above-Runs (suc n) es r.1))

pub IsSorted-IsContiguous : (t : BlockTable) → IsContiguous t → Above 0 t.entries
IsSorted-IsContiguous t r = Above-Runs 0 t.entries r
