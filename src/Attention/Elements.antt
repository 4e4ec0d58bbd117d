-- ===== src/Attention/Elements.antt =====
-- The elements of the vectors that the kernels of include/qwenvl_paged/PagedAttention.h compute.
use qwen_vl_paged.Prelude.{
  ℕ, zero, suc, ◌+◌, ◌<◌, ◌≡◌, refl, ap, ◌∙◌, some, List, [], ◌∷◌, ◌++◌, length, get_elem?, set,
  length-set, arith,
}
use mathlib.Core.Option
use qwen_vl_paged.Attention.Floats.{Floats}
use qwen_vl_paged.Attention.Vectors.{dot, axpy, zeros, write_head}
use qwen_vl_paged.Attention.Reference.{sum}

module _ {F T : Type 0} (o : Floats F T) where
  pub get_elem?-append_left :
      (xs ys : List F) (i : ℕ) → i < length xs → get_elem? (xs ++ ys) i ≡ get_elem? xs i
  get_elem?-append_left [] ys i h = absurd (omega (arith, h))
  get_elem?-append_left (x ∷ xs) ys zero h = refl
  get_elem?-append_left (x ∷ xs) ys (suc i) h = get_elem?-append_left xs ys i (omega (arith, h))

  pub get_elem?-append_last :
      (xs : List F) (y : F) (i : ℕ) → i ≡ length xs → get_elem? (xs ++ y ∷ []) i ≡ some y
  get_elem?-append_last [] y zero e = refl
  get_elem?-append_last [] y (suc i) e = absurd (omega (arith, e))
  get_elem?-append_last (x ∷ xs) y zero e = absurd (omega (arith, e))
  get_elem?-append_last (x ∷ xs) y (suc i) e = get_elem?-append_last xs y i (omega (arith, e))

  pub dot-sum :
      (n dim : ℕ) (query key : ℕ → T) (f : ℕ → F)
      → ((i : ℕ) → i < dim + n → o.mul (o.widen (query i)) (o.widen (key i)) ≡ f i)
      → dot o n dim (sum o dim f) query key ≡ sum o (dim + n) f
  unfolding dot
  dot-sum zero dim query key f eq = ap (λ k. sum o k f) (omega arith)
  dot-sum (suc n) dim query key f eq =
      ap (λ x. dot o n (dim + 1) (o.add (sum o dim f) x) query key) (eq dim (omega arith))
      ∙ ap (λ s. dot o n (dim + 1) s query key) step
      ∙ dot-sum n (dim + 1) query key f (λ i h. eq i (omega (arith, h)))
      ∙ ap (λ k. sum o k f) (omega arith)
    where
      step : o.add (sum o dim f) (f dim) ≡ sum o (dim + 1) f
      step = ap (λ k. sum o k f) {x = suc dim} (omega arith)

  pub length-axpy :
      (w : F) (value : ℕ → T) (dim : ℕ) (acc : List F)
      → length (axpy o w value dim acc) ≡ length acc
  unfolding axpy
  length-axpy w value dim [] = refl
  length-axpy w value dim (a ∷ acc) = ap suc (length-axpy w value (dim + 1) acc)

  pub get_elem?-axpy :
      (w : F) (value : ℕ → T) (dim : ℕ) (acc : List F) (d : ℕ) (a : F)
      → get_elem? acc d ≡ some a
      → get_elem? (axpy o w value dim acc) d ≡ some (o.add a (o.mul w (o.widen (value (dim + d)))))
  unfolding axpy
  get_elem?-axpy w value dim [] d a e = absurd (ground (arith, e))
  get_elem?-axpy w value dim (b ∷ acc) zero a e =
      ap (Option.map (λ x. o.add x (o.mul w (o.widen (value dim))))) e
      ∙ ap (λ k. some (o.add a (o.mul w (o.widen (value k))))) {x = dim} (omega arith)
  get_elem?-axpy w value dim (b ∷ acc) (suc d) a e =
      get_elem?-axpy w value (dim + 1) acc d a e
      ∙ ap (λ k. some (o.add a (o.mul w (o.widen (value k))))) (omega arith)

  pub get_elem?-zeros : (n d : ℕ) → d < n → get_elem? (zeros o n) d ≡ some o.nought
  unfolding zeros
  get_elem?-zeros zero d h = absurd (omega (arith, h))
  get_elem?-zeros (suc n) zero h = refl
  get_elem?-zeros (suc n) (suc d) h = get_elem?-zeros n d (omega (arith, h))

  pub length-zeros : (n : ℕ) → length (zeros o n) ≡ n
  unfolding zeros
  length-zeros zero = refl
  length-zeros (suc n) = ap suc (length-zeros n)

  set_same : (xs : List T) (i : ℕ) (v : T) → i < length xs → get_elem? (set xs i v) i ≡ some v
  set_same [] i v h = absurd (omega (arith, h))
  set_same (x ∷ xs) zero v h = refl
  set_same (x ∷ xs) (suc i) v h = set_same xs i v (omega (arith, h))

  set_other :
      (xs : List T) (i j : ℕ) (v : T) → (i ≡ j → ⊥) → get_elem? (set xs i v) j ≡ get_elem? xs j
  set_other [] i j v h = refl
  set_other (x ∷ xs) zero zero v h = absurd (h refl)
  set_other (x ∷ xs) zero (suc j) v h = refl
  set_other (x ∷ xs) (suc i) zero v h = refl
  set_other (x ∷ xs) (suc i) (suc j) v h = set_other xs i j v (λ e. h (ap suc e))

  pub length-write_head :
      (den : F) (start : ℕ) (acc : List F) (out : List T)
      → length (write_head o den start acc out) ≡ length out
  unfolding write_head
  length-write_head den start [] out = refl
  length-write_head den start (a ∷ acc) out =
      length-write_head den (start + 1) acc _ ∙ length-set out start _

  -- write_head writes its head and nothing else.
  pub write_head_before :
      (den : F) (start : ℕ) (acc : List F) (out : List T) (j : ℕ)
      → j < start
      → get_elem? (write_head o den start acc out) j ≡ get_elem? out j
  unfolding write_head
  write_head_before den start [] out j h = refl
  write_head_before den start (a ∷ acc) out j h =
      write_head_before den (start + 1) acc _ j (omega (arith, h))
      ∙ set_other out start j _ (λ e. omega (arith, e, h))

  pub write_head_in :
      (den : F) (start : ℕ) (acc : List F) (out : List T) (d : ℕ) (a : F)
      → get_elem? acc d ≡ some a
      → start + d < length out
      → get_elem? (write_head o den start acc out) (start + d) ≡ some (o.narrow (o.quot a den))
  unfolding write_head
  write_head_in den start [] out d a e h = absurd (ground (arith, e))
  write_head_in den start (b ∷ acc) out zero a e h =
      ap
        (λ j.
          get_elem? (write_head o den (start + 1) acc (set out start (o.narrow (o.quot b den)))) j)
        {y = start} (omega arith)
      ∙ write_head_before den (start + 1) acc _ start (omega arith)
      ∙ set_same out start _ (omega (arith, h))
      ∙ ap (Option.map (λ x. o.narrow (o.quot x den))) e
  write_head_in den start (b ∷ acc) out (suc d) a e h =
      ap
        (λ j.
          get_elem? (write_head o den (start + 1) acc (set out start (o.narrow (o.quot b den)))) j)
        {y = start + 1 + d} (omega arith)
      ∙ write_head_in den (start + 1) acc _ d a e
          (omega (arith, h, length-set out start (o.narrow (o.quot b den))))
