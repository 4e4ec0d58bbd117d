-- ===== src/Prelude/Maps.antt =====
-- std::unordered_map as an association list. No code iterates over a map, so order is immaterial.
use Prim.Native.Nat.{ℕ, ◌+◌}
use mathlib.Core.Path.{◌≡◌, refl}
use mathlib.Core.List.{List, [], ◌∷◌}
use mathlib.Core.Option.{Option, none, some}
use native.Mathlib.Omega.{arith}
use mathlib.Core.Path.{subst}
use mathlib.Core.Logic.{◌≢◌, inl, inr}
use qwen_vl_paged.Prelude.Tests.{Eq, if◌then◌else◌, Bool-cases, Option-cases}

abbrev pub Assoc {ℓ κ} : Type ℓ → Type κ → Type (ℓ ⊔ κ)
Assoc K V = List (K × V)

-- A sum over the values of a map.
abbrev pub sum_values {ℓ κ} : {K : Type ℓ} {V : Type κ} → (V → ℕ) → Assoc K V → ℕ
sum_values f [] = 0
sum_values f ((j, w) ∷ m) = f w + sum_values f m

abbrev pub value_at {κ} : {V : Type κ} → (V → ℕ) → Option V → ℕ
value_at f none = 0
value_at f (some v) = f v

module _ {ℓ κ} {K : Type ℓ} {V : Type κ} ⦃e : Eq K⦄ where
  unfoldable pub find : K → Assoc K V → Option V
  find k [] = none
  find k ((j, v) ∷ m) = if e.beq j k then some v else find k m

  -- m[k] = v.
  unfoldable pub put : K → V → Assoc K V → Assoc K V
  put k v [] = (k, v) ∷ []
  put k v ((j, w) ∷ m) = if e.beq j k then (j, v) ∷ m else (j, w) ∷ put k v m

  unfoldable pub erase : K → Assoc K V → Assoc K V
  erase k [] = []
  erase k ((j, w) ∷ m) = if e.beq j k then m else (j, w) ∷ erase k m

  -- m.emplace(k, v): a key that is there keeps its value.
  unfoldable pub emplace : K → V → Assoc K V → Assoc K V
  emplace k v m = elim (find k m) [ none ↦ put k v m | some w ↦ m ]

  pub find-put :
      (k j : K) (v : V) (m : Assoc K V)
      → find j (put k v m) ≡ (if e.beq k j then some v else find j m)
  unfolding find put
  find-put k j v [] = refl
  find-put k j v ((i, w) ∷ m) =
      ground (arith, e.beq_iff k j, e.beq_iff i k, e.beq_iff i j, find-put k j v m)

  pub find-put_same : (k : K) (v : V) (m : Assoc K V) → find k (put k v m) ≡ some v
  find-put_same k v m = ground (arith, e.beq_iff k k, find-put k k v m)

  pub find-put_other : (k j : K) (v : V) (m : Assoc K V) → j ≢ k → find j (put k v m) ≡ find j m
  find-put_other k j v m differs = ground (arith, e.beq_iff k j, find-put k j v m)

  pub find-emplace_new :
      (k j : K) (v : V) (m : Assoc K V)
      → find k m ≡ none
      → find j (emplace k v m) ≡ (if e.beq k j then some v else find j m)
  unfolding emplace
  find-emplace_new k j v m new = rw (new, emplace) (find-put k j v m)

  pub find-emplace_kept :
      (k j : K) (v w : V) (m : Assoc K V) → find j m ≡ some w → find j (emplace k v m) ≡ some w
  unfolding emplace
  find-emplace_kept k j v w m here = elim (Option-cases (find k m)) [
    | inl new ↦ rw (new, emplace) (ground (arith, e.beq_iff k j, find-put k j v m))
    | inr (x, found) ↦ rw (found, emplace) here
  ]

  pub find-erase-none : (k j : K) (m : Assoc K V) → find j m ≡ none → find j (erase k m) ≡ none
  unfolding find erase
  find-erase-none k j [] h = refl
  find-erase-none k j ((i, w) ∷ m) h = ground (arith, find-erase-none k j m)

  pub find-erase_other : (k j : K) (m : Assoc K V) → j ≢ k → find j (erase k m) ≡ find j m
  unfolding find erase
  find-erase_other k j [] differs = refl
  find-erase_other k j ((i, w) ∷ m) differs =
      ground (arith, e.beq_iff i k, e.beq_iff i j, find-erase_other k j m differs)

  pub sum_values-put :
      (f : V → ℕ) (k : K) (v : V) (m : Assoc K V)
      → sum_values f (put k v m) + value_at f (find k m) ≡ sum_values f m + f v
  unfolding find put
  sum_values-put f k v [] = omega arith
  sum_values-put f k v ((i, w) ∷ m) = ground (arith, sum_values-put f k v m)

  pub sum_values-erase :
      (f : V → ℕ) (k : K) (m : Assoc K V)
      → sum_values f (erase k m) + value_at f (find k m) ≡ sum_values f m
  unfolding find erase
  sum_values-erase f k [] = omega arith
  sum_values-erase f k ((i, w) ∷ m) = ground (arith, sum_values-erase f k m)

-- A predicate of every value of a map.
abbrev pub AllValues {ℓ κ μ} : {K : Type ℓ} {V : Type κ} → (V → Type μ) → Assoc K V → Type μ
AllValues P [] = Unit
AllValues P ((j, w) ∷ m) = P w × AllValues P m

module _ {ℓ κ μ} {K : Type ℓ} {V : Type κ} ⦃e : Eq K⦄ (P : V → Type μ) where
  pub AllValues-put :
      (k : K) (v : V) (m : Assoc K V) → P v → AllValues P m → AllValues P (put k v m)
  unfolding put
  AllValues-put k v [] p all = (p, tt)
  AllValues-put k v ((j, w) ∷ m) p all = elim (Bool-cases (e.beq j k)) [
    | inl same ↦ rw same (p, all.1)
    | inr other ↦ rw other (all.0, AllValues-put k v m p all.1)
  ]

  pub AllValues-erase : (k : K) (m : Assoc K V) → AllValues P m → AllValues P (erase k m)
  unfolding erase
  AllValues-erase k [] all = tt
  AllValues-erase k ((j, w) ∷ m) all = elim (Bool-cases (e.beq j k)) [
    | inl same ↦ rw same all.1
    | inr other ↦ rw other (all.0, AllValues-erase k m all.1)
  ]

  pub AllValues-find : (k : K) (m : Assoc K V) (v : V) → AllValues P m → find k m ≡ some v → P v
  unfolding find
  AllValues-find k [] v all h = absurd (ground arith)
  AllValues-find k ((j, w) ∷ m) v all h = elim (Bool-cases (e.beq j k)) [
    | inl same ↦ let value : w ≡ v = ground arith in subst P value all.0
    | inr other ↦ AllValues-find k m v all.1 (rw (other, find) at h)
  ]
