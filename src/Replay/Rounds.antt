-- ===== src/Replay/Rounds.antt =====
-- The reservations through the loops of run_contiguous in tools/trace_replay/TraceReplay.cpp.
use qwen_vl_paged.Prelude.{
  ℕ, zero, suc, ◌-◌, ◌<◌, refl, sym, ap, Bool, true, false, List, [], ◌∷◌, ◌++◌, leb, ltb, length,
  drop, sum_by-append, arith, Bool-cases, Option-cases, inl, inr,
}
use qwen_vl_paged.Replay.Trace.{TraceRequest, Trace, ReplayConfig}
use qwen_vl_paged.Replay.Contiguous.{
  Reservation, Baseline, request_blocks, servable, first_fit, refuse, reserve, admit_one,
  admit_pending, finish, decode_token, count_token, decode_actual_of, swap_back, decode_from,
  decode_active, observe, round, rounds, new_baseline,
}
use qwen_vl_paged.Replay.Runs.{
  bit, Fits, first_fit-Fits, is_used-all_free, length-all_free, used_count-all_free,
}
use qwen_vl_paged.Replay.Reserved.{
  Reserved, Reserved-same, Reserved-reserve, Reserved-finish, sum_by-swap_back,
}

-- The invariant of the run.
abbrev pub IsReserved : ReplayConfig → Baseline → Type 0
IsReserved c s = Reserved c.max_blocks s.used s.blocks_in_use s.active

refuse-IsReserved :
    (c : ReplayConfig) (needed : ℕ) (s : Baseline)
    → IsReserved c s
    → IsReserved c (refuse c needed s)
unfolding refuse
refuse-IsReserved c needed s r = elim (Bool-cases (leb needed (c.max_blocks - s.blocks_in_use))) [
  | inl fits ↦ rw (fits, refuse) r
  | inr short ↦ rw (short, refuse) r
]

admit_one-IsReserved :
    (c : ReplayConfig) (r : TraceRequest) (s : Baseline)
    → c.max_blocks < 4294967296
    → IsReserved c s
    → IsReserved c ((admit_one c r s).0)
unfolding admit_one reserve
admit_one-IsReserved c r s small held = elim (Bool-cases (servable c r)) [
  | inr unserved ↦ rw (unserved, admit_one) held
  | inl served ↦ elim (Option-cases (first_fit (request_blocks c r) 0 0 s.used)) [
    | inl e ↦ rw (served, e, admit_one) (refuse-IsReserved c (request_blocks c r) s held)
    | inr (start, e) ↦
        rw (served, e, admit_one) (reserve-IsReserved start (first_fit-Fits s.used _ start e))
  ]
]
  where
    reserve-IsReserved :
        (start : ℕ)
        → Fits s.used (request_blocks c r) start
        → IsReserved c (reserve r (request_blocks c r) start s)
    reserve-IsReserved start fits =
        Reserved-reserve c.max_blocks s.used s.blocks_in_use s.active _ small fits held

pub admit_pending-IsReserved :
    (c : ReplayConfig) (rs : List TraceRequest) (s : Baseline) (made : Bool)
    → c.max_blocks < 4294967296
    → IsReserved c s
    → IsReserved c ((admit_pending c rs s made).0)
unfolding admit_pending
admit_pending-IsReserved c [] s made small held = held
admit_pending-IsReserved c (r ∷ rs) s made small held =
    elim (Bool-cases (ltb (length s.active) c.max_active_requests)) [
      | inr full ↦ rw (full, admit_pending) held
      | inl room ↦ elim (Bool-cases ((admit_one c r s).1)) [
        | inr stops ↦ rw (room, stops, admit_pending) (admit_one-IsReserved c r s small held)
        | inl goes ↦
            rw (room, goes, admit_pending)
              (admit_pending-IsReserved c rs ((admit_one c r s).0) true small
                (admit_one-IsReserved c r s small held))
      ]
    ]

decode_from-IsReserved :
    (c : ReplayConfig) (rs : List TraceRequest) (fuel : ℕ) (front rest : List Reservation)
    (s : Baseline)
    → Reserved c.max_blocks s.used s.blocks_in_use (front ++ rest)
    → IsReserved c (decode_from rs fuel front rest s)
unfolding decode_from finish
decode_from-IsReserved c rs zero front rest s held = held
decode_from-IsReserved c rs (suc fuel) front [] s held =
    Reserved-same c.max_blocks s.used s.blocks_in_use (front ++ []) front
      (λ f blind. omega (arith, sum_by-append f front [])) held
decode_from-IsReserved c rs (suc fuel) front (v ∷ rest) s held =
    elim (Bool-cases (leb (decode_actual_of rs v.index) ((decode_token v).decoded))) [
      | inl ended ↦
          rw (ended, decode_from)
            (decode_from-IsReserved c rs fuel front (swap_back rest) _ finished)
      | inr goes ↦
          rw (goes, decode_from)
            (decode_from-IsReserved c rs fuel (front ++ decode_token v ∷ []) rest _ kept)
    ]
  where
    finished :
        Reserved c.max_blocks
          ((finish v (count_token s)).used)
          ((finish v (count_token s)).blocks_in_use)
          (front ++ swap_back rest)
    finished = Reserved-finish c.max_blocks s.used s.blocks_in_use (front ++ swap_back rest) v (
        Reserved-same c.max_blocks s.used s.blocks_in_use (front ++ v ∷ rest)
          (v ∷ (front ++ swap_back rest))
          (λ f blind. omega (
            arith,
            sum_by-append f front (v ∷ rest),
            sum_by-append f front (swap_back rest),
            sum_by-swap_back f rest,
          ))
          held)

    kept : Reserved c.max_blocks s.used s.blocks_in_use ((front ++ decode_token v ∷ []) ++ rest)
    kept =
        Reserved-same c.max_blocks s.used s.blocks_in_use (front ++ v ∷ rest)
          ((front ++ decode_token v ∷ []) ++ rest)
          (λ f blind. omega (
            arith,
            blind v,
            sum_by-append f front (v ∷ rest),
            sum_by-append f (front ++ decode_token v ∷ []) rest,
            sum_by-append f front (decode_token v ∷ []),
          ))
          held

pub round-IsReserved :
    (t : Trace) (c : ReplayConfig) (s : Baseline)
    → c.max_blocks < 4294967296
    → IsReserved c s
    → IsReserved c ((round t c s).0)
unfolding round decode_active observe
round-IsReserved t c s small held =
    decode_from-IsReserved c t.requests _ [] _ _
      (admit_pending-IsReserved c (drop s.next_pending t.requests) _ false small held)

pub rounds-IsReserved :
    (t : Trace) (c : ReplayConfig) (n : ℕ) (s : Baseline)
    → c.max_blocks < 4294967296
    → IsReserved c s
    → IsReserved c (rounds t c n s)
unfolding rounds
rounds-IsReserved t c zero s small held = held
rounds-IsReserved t c (suc n) s small held =
    elim (Bool-cases (ltb s.completed (length t.requests))) [
      | inr done ↦ rw (done, rounds) held
      | inl more ↦ elim (Bool-cases ((round t c s).1)) [
        | inr stops ↦ rw (more, stops, rounds) (round-IsReserved t c s small held)
        | inl goes ↦
            rw (more, goes, rounds)
              (rounds-IsReserved t c n ((round t c s).0) small (round-IsReserved t c s small held))
      ]
    ]

pub new_baseline-IsReserved : (t : Trace) (c : ReplayConfig) → IsReserved c (new_baseline t c)
unfolding new_baseline
new_baseline-IsReserved t c = record {
  sized = length-all_free c.max_blocks;
  counted = sym (used_count-all_free c.max_blocks);
  owned = λ b. sym (ap bit (is_used-all_free c.max_blocks b));
  inside = refl;
}

-- Of a pool of fewer than 2^32 blocks, whatever the trace: after any number of rounds of a run the
-- blocks marked used belong to one active reservation each and the others to none, every run is in
-- the pool, and blocks_in_use is the number of marks.
pub rounds-new_baseline-IsReserved :
    (t : Trace) (c : ReplayConfig) (n : ℕ)
    → c.max_blocks < 4294967296
    → IsReserved c (rounds t c n (new_baseline t c))
rounds-new_baseline-IsReserved t c n small =
    rounds-IsReserved t c n (new_baseline t c) small (new_baseline-IsReserved t c)
