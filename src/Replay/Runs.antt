-- ===== src/Replay/Runs.antt =====
-- The runs of free blocks in run_contiguous of tools/trace_replay/TraceReplay.cpp: what first_fit
-- finds and what filling a run does.
use qwen_vl_paged.Prelude.{
  ℕ, zero, suc, ◌+◌, ◌-◌, ◌≤◌, ◌<◌, ◌≡◌, refl, sym, ap, ◌∙◌, Option, none, some, Bool, true, false,
  ◌&&◌, List, [], ◌∷◌, leb, ltb, ◌==◌, if◌then◌else◌, length, length-set, get_elem?, set, sum_by,
  sum_by-set, arith, Bool-cases, inl, inr, leb→le, ==_iff,
}
use mathlib.Core.Path.{subst}
use qwen_vl_paged.Replay.Contiguous.{first_fit, fill, all_free}

abbrev pub is_used : List Bool → ℕ → Bool
is_used [] b = false
is_used (u ∷ used) zero = u
is_used (u ∷ used) (suc b) = is_used used b

abbrev pub bit : Bool → ℕ
bit true = 1
bit false = 0

abbrev pub used_count : List Bool → ℕ
used_count used = sum_by bit used

-- Whether a block is in a run of `n`.
abbrev pub within : ℕ → ℕ → ℕ → Bool
within start n b = leb start b && ltb b (start + n)

-- A run that is in the pool and free.
abbrev pub Fits : List Bool → ℕ → ℕ → Type 0
Fits used n start =
    (start + n ≤ length used) × ((b : ℕ) → start ≤ b → b < start + n → is_used used b ≡ false)

is_used-get :
    (used : List Bool) (b : ℕ) → b < length used → get_elem? used b ≡ some (is_used used b)
is_used-get [] b h = absurd (omega (arith, h))
is_used-get (u ∷ used) zero h = refl
is_used-get (u ∷ used) (suc b) h = is_used-get used b (omega (arith, h))

is_used-set :
    (used : List Bool) (i b : ℕ) (v : Bool)
    → i < length used
    → is_used (set used i v) b ≡ (if i == b then v else is_used used b)
is_used-set [] i b v h = absurd (omega (arith, h))
is_used-set (u ∷ used) zero zero v h = refl
is_used-set (u ∷ used) zero (suc b) v h = ground arith
is_used-set (u ∷ used) (suc i) zero v h = ground arith
is_used-set (u ∷ used) (suc i) (suc b) v h =
    ground (arith, is_used-set used i b v (omega (arith, h)))

pub length-fill :
    (n start : ℕ) (v : Bool) (used : List Bool) → length (fill n start v used) ≡ length used
unfolding fill
length-fill zero start v used = refl
length-fill (suc n) start v used =
    length-fill n (start + 1) v (set used start v) ∙ length-set used start v

-- A run in the pool is filled, and no other block changes.
pub is_used-fill :
    (n start : ℕ) (v : Bool) (used : List Bool) (b : ℕ)
    → start + n ≤ length used
    → is_used (fill n start v used) b ≡ (if within start n b then v else is_used used b)
unfolding fill
is_used-fill zero start v used b h = ground arith
is_used-fill (suc n) start v used b h = ground (
  arith,
  is_used-fill n (start + 1) v (set used start v) b (omega (arith, h, length-set used start v)),
  is_used-set used start b v (omega (arith, h)),
)

used_count-set :
    (used : List Bool) (i : ℕ) (v : Bool)
    → i < length used
    → used_count (set used i v) + bit (is_used used i) ≡ used_count used + bit v
used_count-set used i v h = sum_by-set bit used i v (is_used used i) (is_used-get used i h)

-- Filling a run whose blocks are all `w` with `v`.
pub used_count-fill :
    (n start : ℕ) (v w : Bool) (used : List Bool)
    → start + n ≤ length used
    → ((b : ℕ) → start ≤ b → b < start + n → is_used used b ≡ w)
    → used_count (fill n start v used) + (if w then n else 0)
      ≡ used_count used + (if v then n else 0)
unfolding fill
used_count-fill zero start v w used h run = ground arith
used_count-fill (suc n) start v w used h run = ground (
  arith,
  used_count-fill n (start + 1) v w (set used start v) (omega (arith, h, length-set used start v))
      (λ b low high.
        is_used-set used start b v (omega (arith, h))
        ∙ other b low
        ∙ run b (omega (arith, low)) (omega (arith, high))),
  used_count-set used start v (omega (arith, h)),
  run start (omega arith) (omega arith),
)
  where
    other : (b : ℕ) → start + 1 ≤ b → (if start == b then v else is_used used b) ≡ is_used used b
    other b low = ground (arith, low)

pub is_used-all_free : (n b : ℕ) → is_used (all_free n) b ≡ false
is_used-all_free zero b = refl
is_used-all_free (suc n) zero = refl
is_used-all_free (suc n) (suc b) = is_used-all_free n b

pub length-all_free : (n : ℕ) → length (all_free n) ≡ n
length-all_free zero = refl
length-all_free (suc n) = ap suc (length-all_free n)

pub used_count-all_free : (n : ℕ) → used_count (all_free n) ≡ 0
used_count-all_free zero = refl
used_count-all_free (suc n) = omega (arith, used_count-all_free n)

-- What first_fit answers: the first run that fits, or that none does.
abbrev pub Answers : List Bool → ℕ → Option ℕ → Type 0
Answers used n none = (start : ℕ) → Fits used n start → ⊥
Answers used n (some start) =
    Fits used n start × ((other : ℕ) → other < start → Fits used n other → ⊥)

-- How the scan stands before a block: the `run` blocks before it are free, the one before these is
-- used, and no run ends before it.
record Scanned (used : List Bool) (n block run : ℕ) : Type 0 where
  inside : run ≤ block
  short : run < n
  free : (b : ℕ) → b < block → block ≤ b + run → is_used used b ≡ false
  longest : (b : ℕ) → b + run + 1 ≡ block → is_used used b ≡ true
  none_yet : (start : ℕ) → start + n ≤ block → Fits used n start → ⊥

differ : {b : Bool} → b ≡ true → b ≡ false → ⊥
differ set clear = ground (arith, set, clear)

module _ (used : List Bool) (n block run : ℕ) (s : Scanned used n block run) where
  Scanned-used : is_used used block ≡ true → Scanned used n (block + 1) 0
  Scanned-used taken = record {
    inside = omega arith;
    short = omega (arith, s.short);
    free = λ b low high. absurd (omega (arith, low, high));
    longest = λ b e. subst (λ z. is_used used z ≡ true) (omega (arith, e)) taken;
    none_yet = λ start fits_by fit. elim (Bool-cases (leb (start + n) block)) [
      | inl before ↦ s.none_yet start (leb→le _ _ before) fit
      | inr across ↦
          differ taken
            (fit.1 block (ground (arith, across, fits_by, s.short)) (ground (arith, across)))
    ];
  }

  Scanned-free : is_used used block ≡ false → run + 1 < n → Scanned used n (block + 1) (run + 1)
  Scanned-free untaken longer = record {
    inside = omega (arith, s.inside);
    short = longer;
    free = λ b low high. elim (Bool-cases (b == block)) [
      | inl here ↦ subst (λ z. is_used used z ≡ false) (sym ((==_iff b block).0 here)) untaken
      | inr there ↦ s.free b (ground (arith, there, low)) (omega (arith, high))
    ];
    longest = λ b e. s.longest b (omega (arith, e));
    none_yet = λ start fits_by fit. elim (Bool-cases (leb (start + n) block)) [
      | inl before ↦ s.none_yet start (leb→le _ _ before) fit
      | inr across ↦
          differ (s.longest (block - run - 1) (ground (arith, across, fits_by, longer))) (
            fit.1 (block - run - 1) (ground (arith, across, fits_by, longer))
              (ground (arith, across, fits_by, longer)))
    ];
  }

  found :
      is_used used block ≡ false
      → run + 1 ≡ n
      → block < length used
      → Answers used n (some (block + 1 - n))
  found untaken e lt = (
    (
      omega (arith, e, lt),
      λ b low high. elim (Bool-cases (b == block)) [
        | inl here ↦ subst (λ z. is_used used z ≡ false) (sym ((==_iff b block).0 here)) untaken
        | inr there ↦
            s.free b (ground (arith, there, high, e, s.inside)) (omega (arith, low, e, s.inside))
      ],
    ),
    λ other less fit. s.none_yet other (omega (arith, less, e, s.inside)) fit,
  )

-- The rest of a list from a block on.
Rest : List Bool → ℕ → List Bool → Type 0
Rest used block rest =
    (block + length rest ≡ length used) × ((b : ℕ) → is_used rest b ≡ is_used used (block + b))

Rest-next :
    (used : List Bool) (block : ℕ) (u : Bool) (rest : List Bool)
    → Rest used block (u ∷ rest)
    → Rest used (block + 1) rest
unfolding Rest
Rest-next used block u rest r =
    (omega (arith, r.0), λ b. r.1 (suc b) ∙ ap (is_used used) (omega arith))

first_fit_from :
    (used : List Bool) (n block run : ℕ) (rest : List Bool)
    → Rest used block rest
    → Scanned used n block run
    → Answers used n (first_fit n block run rest)
unfolding first_fit Rest
first_fit_from used n block run [] r s =
    λ start fit. s.none_yet start (omega (arith, r.0, fit.0)) fit
first_fit_from used n block run (true ∷ rest) r s =
    rw (not_zero, first_fit)
      (first_fit_from used n (block + 1) 0 rest (Rest-next used block true rest r)
        (Scanned-used used n block run s (sym (r.1 0 ∙ ap (is_used used) (omega arith)))))
  where
    not_zero : (0 == n) ≡ false
    not_zero = ground (arith, s.short)
first_fit_from used n block run (false ∷ rest) r s = elim (Bool-cases (run + 1 == n)) [
  | inl e ↦
      rw (e, first_fit) (found used n block run s untaken ((==_iff _ _).0 e) (omega (arith, r.0)))
  | inr e ↦
      rw (e, first_fit)
        (first_fit_from used n (block + 1) (run + 1) rest (Rest-next used block false rest r)
          (Scanned-free used n block run s untaken (ground (arith, e, s.short))))
]
  where
    untaken : is_used used block ≡ false
    untaken = sym (r.1 0 ∙ ap (is_used used) (omega arith))

-- For a request that needs blocks, first_fit answers with the first run of as many free blocks in
-- the pool, and fails only where there is none.
pub first_fit_lem : (used : List Bool) (n : ℕ) → 0 < n → Answers used n (first_fit n 0 0 used)
unfolding Rest
first_fit_lem used n pos =
    first_fit_from used n 0 0 used (omega arith, λ b. ap (is_used used) (omega arith))
      (record {
        inside = omega arith;
        short = pos;
        free = λ b low high. absurd (omega (arith, low));
        longest = λ b e. absurd (omega (arith, e));
        none_yet = λ start by fit. absurd (omega (arith, by, pos));
      })

-- A run of no blocks that first_fit finds is in the pool.
first_fit_zero :
    (block run : ℕ) (used : List Bool)
    → (start : ℕ) → first_fit 0 block run used ≡ some start
    → start ≤ block + length used
unfolding first_fit
first_fit_zero block run [] start e = absurd (ground (arith, e))
first_fit_zero block run (true ∷ used) start e = ground (arith, e)
first_fit_zero block run (false ∷ used) start e =
    omega (arith, first_fit_zero (block + 1) (run + 1) used start (sym longer ∙ e))
  where
    not_zero : (run + 1 == 0) ≡ false
    not_zero = ground arith

    longer : first_fit 0 block run (false ∷ used) ≡ first_fit 0 (block + 1) (run + 1) used
    longer = rw (not_zero, first_fit) refl

-- What first_fit finds fits.
pub first_fit-Fits :
    (used : List Bool) (n start : ℕ) → first_fit n 0 0 used ≡ some start → Fits used n start
first_fit-Fits used zero start e = (
  omega (arith, first_fit_zero 0 0 used start e),
  λ b low high. absurd (omega (arith, low, high)),
)
first_fit-Fits used (suc n) start e =
    (subst (Answers used (suc n)) e (first_fit_lem used (suc n) (omega arith))).0
