-- ===== src/Replay/Reserved.antt =====
-- The reservations of run_contiguous in tools/trace_replay/TraceReplay.cpp: which blocks they own.
use qwen_vl_paged.Prelude.{
  ℕ, suc, ◌+◌, ◌-◌, ◌≤◌, ◌<◌, ◌≡◌, refl, ap, ◌∙◌, Bool, true, false, List, [], ◌∷◌, ◌++◌, leb,
  if◌then◌else◌, length, sum_by, sum_by-append, u32, arith,
}
use qwen_vl_paged.Replay.Contiguous.{Reservation, fill, decode_token, last_of, init_of, swap_back}
use qwen_vl_paged.Replay.Runs.{
  is_used, bit, used_count, within, Fits, length-fill, is_used-fill, used_count-fill,
}

abbrev pub owns : ℕ → Reservation → ℕ
owns b v = bit (within v.start_block v.block_count b)

-- How many reservations a block belongs to.
abbrev pub owners : ℕ → List Reservation → ℕ
owners b = sum_by (owns b)

abbrev pub leaves : ℕ → Reservation → ℕ
leaves max_blocks v = if leb (v.start_block + v.block_count) max_blocks then 0 else 1

-- The blocks that are marked used belong to one reservation each, the others to none; all runs are
-- in the pool, and blocks_in_use counts the marks.
pub record Reserved (max_blocks : ℕ) (used : List Bool) (in_use : ℕ) (vs : List Reservation)
    : Type 0 where
  pub sized : length used ≡ max_blocks
  pub counted : in_use ≡ used_count used
  pub owned : (b : ℕ) → owners b vs ≡ bit (is_used used b)
  pub inside : sum_by (leaves max_blocks) vs ≡ 0

used_count-le : (used : List Bool) → used_count used ≤ length used
used_count-le [] = omega arith
used_count-le (true ∷ used) = omega (arith, used_count-le used)
used_count-le (false ∷ used) = omega (arith, used_count-le used)

-- Reservations with the same runs, in another order or further in their decoding.
pub Reserved-same :
    (max_blocks : ℕ) (used : List Bool) (in_use : ℕ) (vs ws : List Reservation)
    → ((f : Reservation → ℕ)
        → ((v : Reservation) → f (decode_token v) ≡ f v)
        → sum_by f ws ≡ sum_by f vs)
    → Reserved max_blocks used in_use vs
    → Reserved max_blocks used in_use ws
Reserved-same max_blocks used in_use vs ws same r = record {
  sized = r.sized;
  counted = r.counted;
  owned = λ b. same (owns b) (λ v. refl) ∙ r.owned b;
  inside = same (leaves max_blocks) (λ v. refl) ∙ r.inside;
}

pub Reserved-reserve :
    (max_blocks : ℕ) (used : List Bool) (in_use : ℕ) (vs : List Reservation) (v : Reservation)
    → max_blocks < 4294967296
    → Fits used v.block_count v.start_block
    → Reserved max_blocks used in_use vs
    → Reserved max_blocks
        (fill v.block_count v.start_block true used)
        (u32 (in_use + v.block_count))
        (vs ++ v ∷ [])
Reserved-reserve max_blocks used in_use vs v small fits r = record {
  sized = length-fill v.block_count v.start_block true used ∙ r.sized;
  counted = omega (
    arith,
    counts,
    used_count-le (fill v.block_count v.start_block true used),
    length-fill v.block_count v.start_block true used,
    r.sized,
    r.counted,
    small,
  );
  owned = λ b. grind (
    arith,
    sum_by-append (owns b) vs (v ∷ []),
    r.owned b,
    is_used-fill v.block_count v.start_block true used b (fits.0),
    fits.1 b,
  );
  inside = ground (arith, sum_by-append (leaves max_blocks) vs (v ∷ []), r.inside, fits.0, r.sized);
}
  where
    counts :
        used_count (fill v.block_count v.start_block true used) ≡ used_count used + v.block_count
    counts =
        omega (arith, used_count-fill v.block_count v.start_block true false used (fits.0) (fits.1))

pub Reserved-finish :
    (max_blocks : ℕ) (used : List Bool) (in_use : ℕ) (vs : List Reservation) (v : Reservation)
    → Reserved max_blocks used in_use (v ∷ vs)
    → Reserved max_blocks (fill v.block_count v.start_block false used) (in_use - v.block_count) vs
Reserved-finish max_blocks used in_use vs v r = record {
  sized = length-fill v.block_count v.start_block false used ∙ r.sized;
  counted =
      omega
        (arith, r.counted, used_count-fill v.block_count v.start_block false true used fits held);
  owned =
      λ b. ground (arith, r.owned b, is_used-fill v.block_count v.start_block false used b fits);
  inside = ground (arith, r.inside);
}
  where
    fits : v.start_block + v.block_count ≤ length used
    fits = ground (arith, r.inside, r.sized)

    held : (b : ℕ) → v.start_block ≤ b → b < v.start_block + v.block_count → is_used used b ≡ true
    held b low high = ground (arith, r.owned b, low, high)

sum_by-swapped :
    (f : Reservation → ℕ) (v : Reservation) (vs : List Reservation)
    → f (last_of v vs) + sum_by f (init_of v vs) ≡ f v + sum_by f vs
sum_by-swapped f v [] = refl
sum_by-swapped f v (w ∷ ws) = omega (arith, sum_by-swapped f w ws)

pub sum_by-swap_back :
    (f : Reservation → ℕ) (vs : List Reservation) → sum_by f (swap_back vs) ≡ sum_by f vs
sum_by-swap_back f [] = refl
sum_by-swap_back f (v ∷ vs) = sum_by-swapped f v vs

pub length-swap_back : (vs : List Reservation) → length (swap_back vs) ≡ length vs
length-swap_back [] = refl
length-swap_back (v ∷ vs) = ap suc (go v vs)
  where
    go : (w : Reservation) (ws : List Reservation) → length (init_of w ws) ≡ length ws
    go w [] = refl
    go w (x ∷ xs) = ap suc (go x xs)
