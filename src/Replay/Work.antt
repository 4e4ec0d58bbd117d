-- ===== src/Replay/Work.antt =====
-- What run_contiguous of tools/trace_replay/TraceReplay.cpp has left to do: a measure that every
-- round lowers.
use qwen_vl_paged.Prelude.{
  ℕ, zero, suc, ◌+◌, ◌-◌, ◌≤◌, ◌<◌, ◌≡◌, refl, max, Bool, true, false, ◌&&◌, List, [], ◌∷◌, ◌++◌,
  leb, ltb, if◌then◌else◌, length, drop, sum_by, sum_by-append, length-append, arith, Bool-cases,
  inl, inr,
}
use qwen_vl_paged.Replay.Trace.{TraceRequest}
use qwen_vl_paged.Replay.Contiguous.{
  Reservation, Baseline, finish, decode_token, count_token, decode_actual_of, swap_back,
  decode_from,
}
use qwen_vl_paged.Replay.Reserved.{sum_by-swap_back, length-swap_back}

-- Every number of tokens is a 32-bit word.
abbrev pub small_decodes : List TraceRequest → Bool
small_decodes [] = true
small_decodes (r ∷ rs) = ltb r.decode_actual 4294967296 && small_decodes rs

pub decode_actual_of-lt :
    (rs : List TraceRequest) (i : ℕ) → small_decodes rs ≡ true → decode_actual_of rs i < 4294967296
decode_actual_of-lt [] i small = omega arith
decode_actual_of-lt (r ∷ rs) zero small = ground (arith, small)
decode_actual_of-lt (r ∷ rs) (suc i) small = decode_actual_of-lt rs i (ground (arith, small))

-- The rounds that a reservation has left.
abbrev pub remaining : List TraceRequest → Reservation → ℕ
remaining rs v = max 1 (decode_actual_of rs v.index - v.decoded)

-- A reservation that should have ended.
abbrev pub overdue : List TraceRequest → Reservation → ℕ
overdue rs v = if ltb v.decoded (max 1 (decode_actual_of rs v.index)) then 0 else 1

abbrev pub ahead : TraceRequest → ℕ
ahead r = r.decode_actual + 1

abbrev pub work : List TraceRequest → Baseline → ℕ
work rs s = sum_by ahead (drop s.next_pending rs) + sum_by (remaining rs) s.active

pub remaining-ge :
    (rs : List TraceRequest) (vs : List Reservation) → length vs ≤ sum_by (remaining rs) vs
remaining-ge rs [] = omega arith
remaining-ge rs (v ∷ vs) = omega (arith, remaining-ge rs vs)

pub ahead-ge : (rs : List TraceRequest) → length rs ≤ sum_by ahead rs
ahead-ge [] = omega arith
ahead-ge (r ∷ rs) = omega (arith, ahead-ge rs)

-- The requests that have ended or are active are those before next_pending, and none is overdue.
pub record Counted (rs : List TraceRequest) (s : Baseline) : Type 0 where
  pub passed : s.completed + length s.active ≡ s.next_pending
  pub bounded : s.next_pending ≤ length rs
  pub due : sum_by (overdue rs) s.active ≡ 0

-- The decode loop: each reservation that it passes has a round less.
pub record Decoded (rs : List TraceRequest) (front rest : List Reservation) (s s' : Baseline)
    : Type 0 where
  pub pending : s'.next_pending ≡ s.next_pending
  pub counted : s'.completed + length s'.active ≡ s.completed + (length front + length rest)
  pub due : sum_by (overdue rs) s'.active ≡ 0
  pub lowered :
      sum_by (remaining rs) s'.active + length rest
      ≤ sum_by (remaining rs) front + sum_by (remaining rs) rest

token_lem :
    (rs : List TraceRequest) (v : Reservation)
    → decode_actual_of rs v.index < 4294967296
    → overdue rs v ≡ 0
    → leb (decode_actual_of rs v.index) ((decode_token v).decoded) ≡ false
    → (overdue rs (decode_token v) ≡ 0) × (remaining rs (decode_token v) + 1 ≤ remaining rs v)
token_lem rs v small due goes = (ground (arith, goes), ground (arith, goes, small, due))

pub decode_from-Decoded :
    (rs : List TraceRequest) (fuel : ℕ) (front rest : List Reservation) (s : Baseline)
    → small_decodes rs ≡ true
    → length rest ≤ fuel
    → sum_by (overdue rs) front ≡ 0
    → sum_by (overdue rs) rest ≡ 0
    → Decoded rs front rest s (decode_from rs fuel front rest s)
unfolding decode_from finish
decode_from-Decoded rs zero front [] s small enough due0 due1 = record {
  pending = refl;
  counted = omega (arith, length-append front []);
  due = omega (arith, sum_by-append (overdue rs) front [], due0);
  lowered = omega (arith, sum_by-append (remaining rs) front []);
}
decode_from-Decoded rs zero front (v ∷ rest) s small enough due0 due1 =
    absurd (omega (arith, enough))
decode_from-Decoded rs (suc fuel) front [] s small enough due0 due1 = record {
  pending = refl;
  counted = omega arith;
  due = due0;
  lowered = omega arith;
}
decode_from-Decoded rs (suc fuel) front (v ∷ rest) s small enough due0 due1 =
    elim (Bool-cases (leb (decode_actual_of rs v.index) ((decode_token v).decoded))) [
      | inl ended ↦
          rw (ended, decode_from)
            (finished (
              decode_from-Decoded rs fuel front (swap_back rest) (finish v (count_token s)) small
                (omega (arith, enough, length-swap_back rest)) due0
                (omega (arith, due1, sum_by-swap_back (overdue rs) rest))))
      | inr goes ↦
          rw (goes, decode_from)
            (kept goes (
              decode_from-Decoded rs fuel (front ++ decode_token v ∷ []) rest (count_token s) small
                (omega (arith, enough))
                (omega (
                  arith,
                  due0,
                  due1,
                  (token_lem rs v actual (omega (arith, due1)) goes).0,
                  sum_by-append (overdue rs) front (decode_token v ∷ []),
                ))
                (omega (arith, due1))))
    ]
  where
    actual : decode_actual_of rs v.index < 4294967296
    actual = decode_actual_of-lt rs v.index small

    finished :
        {s' : Baseline}
        → Decoded rs front (swap_back rest) (finish v (count_token s)) s'
        → Decoded rs front (v ∷ rest) s s'
    finished d = record {
      pending = d.pending;
      counted = omega (arith, d.counted, length-swap_back rest);
      due = d.due;
      lowered =
          omega (arith, d.lowered, length-swap_back rest, sum_by-swap_back (remaining rs) rest);
    }

    kept :
        leb (decode_actual_of rs v.index) ((decode_token v).decoded) ≡ false
        → {s' : Baseline} → Decoded rs (front ++ decode_token v ∷ []) rest (count_token s) s'
        → Decoded rs front (v ∷ rest) s s'
    kept goes d = record {
      pending = d.pending;
      counted = omega (arith, d.counted, length-append front (decode_token v ∷ []));
      due = d.due;
      lowered = omega (
        arith,
        d.lowered,
        sum_by-append (remaining rs) front (decode_token v ∷ []),
        (token_lem rs v actual (omega (arith, due1)) goes).1,
      );
    }
