-- ===== src/Replay/Completes.antt =====
-- run_contiguous of tools/trace_replay/TraceReplay.cpp completes: every round lowers what is left.
use qwen_vl_paged.Prelude.{
  ℕ, zero, suc, ◌+◌, ◌-◌, ◌≤◌, ◌<◌, ◌≡◌, refl, ap, ◌∙◌, Bool, true, false, ◌||◌, not, List, [], ◌∷◌,
  ltb, ==_iff, length, is_empty, drop, sum_by, arith, Bool-cases, inl, inr, ltb→lt, u64,
}
use qwen_vl_paged.Replay.Trace.{TraceRequest, Trace, ReplayConfig}
use qwen_vl_paged.Replay.Contiguous.{
  Reservation, Baseline, admit_pending, decode_active, observe, round, rounds, new_baseline,
  run_contiguous,
}
use qwen_vl_paged.Replay.Runs.{is_used, bit, used_count, within}
use qwen_vl_paged.Replay.Rounds.{
  IsReserved, round-IsReserved, rounds-IsReserved, new_baseline-IsReserved,
}
use qwen_vl_paged.Replay.Work.{
  small_decodes, remaining, remaining-ge, ahead, ahead-ge, work, Counted, Decoded,
  decode_from-Decoded,
}
use qwen_vl_paged.Replay.Admits.{
  needs_blocks, needs_blocks-drop, drop-length, Admitted, admit_pending-Admitted,
}
use qwen_vl_paged.Replay.Idle.{Idle, admit_pending-Idle}

length-drop : (n : ℕ) (rs : List TraceRequest) → length (drop n rs) ≡ length rs - n
length-drop zero rs = omega arith
length-drop (suc n) [] = omega arith
length-drop (suc n) (r ∷ rs) = omega (arith, length-drop n rs)

sum_by-empty : (f : Reservation → ℕ) (vs : List Reservation) → length vs ≡ 0 → sum_by f vs ≡ 0
sum_by-empty f [] e = refl
sum_by-empty f (v ∷ vs) e = absurd (omega (arith, e))

not_empty : (vs : List Reservation) → 0 < length vs → is_empty vs ≡ false
not_empty [] h = absurd (omega (arith, h))
not_empty (v ∷ vs) h = refl

-- A round that is not the last one makes progress and lowers the work.
Lowers : List TraceRequest → Baseline → Baseline × Bool → Baseline → Type 0
Lowers rs s a after = ((a.1 || not (is_empty (a.0.active))) ≡ true) × (work rs after < work rs s)

Lowers-Idle :
    (rs : List TraceRequest) (s : Baseline) (a : Baseline × Bool) (after : Baseline)
    → Counted rs s
    → s.completed < length rs
    → Admitted rs s (a.0)
    → Decoded rs [] (a.0.active) (a.0) after
    → length (a.0.active) ≡ 0
    → Idle rs (drop s.next_pending rs) a
    → Lowers rs s a after
unfolding Lowers
Lowers-Idle rs s a after k more admitted d idle i = (
  ground (arith, i.1 pending),
  omega (
    arith,
    nothing,
    sum_by-empty (remaining rs) (a.0.active) idle,
    d.lowered,
    pending,
    ahead-ge (drop s.next_pending rs),
  ),
)
  where
    pending : 0 < length (drop s.next_pending rs)
    pending = omega (arith, length-drop s.next_pending rs, k.passed, admitted.grown, idle, more)

    nothing : sum_by ahead (drop after.next_pending rs) ≡ 0
    nothing =
        ap (λ n. sum_by ahead (drop n rs)) (d.pending ∙ i.0) ∙ ap (sum_by ahead) (drop-length rs)

Lowers-busy :
    (rs : List TraceRequest) (s : Baseline) (a : Baseline × Bool) (after : Baseline)
    → Admitted rs s (a.0)
    → Decoded rs [] (a.0.active) (a.0) after
    → 0 < length (a.0.active)
    → Lowers rs s a after
unfolding Lowers
Lowers-busy rs s a after admitted d busy = (
  ground (arith, not_empty (a.0.active) busy),
  omega (arith, d.lowered, admitted.lowered, busy, ap (λ n. sum_by ahead (drop n rs)) d.pending),
)

Counted-Decoded :
    (rs : List TraceRequest) (s s' : Baseline)
    → Counted rs s
    → Decoded rs [] s.active s s'
    → Counted rs s'
Counted-Decoded rs s s' k d = record {
  passed = omega (arith, k.passed, d.counted, d.pending);
  bounded = omega (arith, k.bounded, d.pending);
  due = d.due;
}

-- A run from a state that the loop can be in, with a pool and a trace of 32-bit numbers.
module _ (t : Trace) (c : ReplayConfig) (small : c.max_blocks < 4294967296)
    (decodes : small_decodes t.requests ≡ true) (pos : 0 < c.max_active_requests)
    (needs : needs_blocks c t.requests ≡ true) where
  -- What the admission loop of a round leaves.
  admitted : Baseline → Baseline × Bool
  admitted s =
      admit_pending c (drop s.next_pending t.requests)
        (record s { metrics = record (s.metrics) { steps = u64 (s.metrics.steps + 1) } }) false

  module _ (s : Baseline) (held : IsReserved c s) (k : Counted t.requests s) where
    admitted-Admitted : Admitted t.requests s ((admitted s).0)
    unfolding admitted
    admitted-Admitted = record { counted = a.counted; lowered = a.lowered; grown = a.grown }
      where
        begun : Baseline
        begun = record s { metrics = record (s.metrics) { steps = u64 (s.metrics.steps + 1) } }

        a : Admitted t.requests begun ((admitted s).0)
        a =
            admit_pending-Admitted c t.requests (drop s.next_pending t.requests) begun false refl
              (record { passed = k.passed; bounded = k.bounded; due = k.due })

    decode_active-Decoded :
        Decoded t.requests []
          ((admitted s).0.active)
          ((admitted s).0)
          (decode_active t.requests ((admitted s).0))
    unfolding decode_active
    decode_active-Decoded =
        decode_from-Decoded t.requests _ [] ((admitted s).0.active) ((admitted s).0) decodes
          (omega arith) refl (admitted-Admitted.counted.due)

    round-Counted : Counted t.requests ((round t c s).0)
    unfolding round observe admitted
    round-Counted = record { passed = after.passed; bounded = after.bounded; due = after.due }
      where
        after : Counted t.requests (decode_active t.requests ((admitted s).0))
        after =
            Counted-Decoded t.requests ((admitted s).0) _ (admitted-Admitted.counted)
              decode_active-Decoded

    round-Lowers :
        s.completed < length t.requests
        → ((round t c s).1 ≡ true) × (work t.requests ((round t c s).0) < work t.requests s)
    unfolding round observe admitted Lowers
    round-Lowers more = elim (Bool-cases (ltb 0 (length ((admitted s).0.active)))) [
      | inl busy ↦
          Lowers-busy t.requests s (admitted s) _ admitted-Admitted decode_active-Decoded
            (ltb→lt _ _ busy)
      | inr idle ↦
          Lowers-Idle t.requests s (admitted s) _ k more admitted-Admitted decode_active-Decoded
            (ground (arith, idle))
            (admit_pending-Idle c t.requests (drop s.next_pending t.requests) _ false pos
              (needs_blocks-drop c s.next_pending t.requests needs) refl
              (record { passed = k.passed; bounded = k.bounded; due = k.due })
              (record {
                sized = held.sized;
                counted = held.counted;
                owned = held.owned;
                inside = held.inside;
              })
              (ground (arith, idle)))
    ]

  -- With as many rounds as there is work, every request completes.
  rounds_complete :
      (n : ℕ) (s : Baseline)
      → IsReserved c s
      → Counted t.requests s
      → work t.requests s ≤ n
      → ((rounds t c n s).completed ≡ length t.requests) × Counted t.requests (rounds t c n s)
  unfolding rounds
  rounds_complete zero s held k enough = (
    omega (
      arith,
      k.passed,
      k.bounded,
      enough,
      length-drop s.next_pending t.requests,
      ahead-ge (drop s.next_pending t.requests),
      remaining-ge t.requests s.active,
    ),
    k,
  )
  rounds_complete (suc n) s held k enough =
      elim (Bool-cases (ltb s.completed (length t.requests))) [
        | inr done ↦ rw (done, rounds) (ground (arith, done, k.passed, k.bounded), k)
        | inl more ↦
            rw (more, (round-Lowers s held k (ltb→lt _ _ more)).0, rounds)
              (rounds_complete n ((round t c s).0) (round-IsReserved t c s small held)
                (round-Counted s held k)
                (omega (arith, enough, (round-Lowers s held k (ltb→lt _ _ more)).1)))
      ]

none_used : (used : List Bool) → ((b : ℕ) → is_used used b ≡ false) → used_count used ≡ 0
none_used [] h = refl
none_used (u ∷ used) h = omega (arith, ap bit (h 0), none_used used (λ b. h (suc b)))

-- A pool in which nothing is reserved has no block in use.
idle_pool :
    (c : ReplayConfig) (s : Baseline) → IsReserved c s → length s.active ≡ 0 → s.blocks_in_use ≡ 0
idle_pool c s held idle =
    held.counted
    ∙ none_used s.used (λ b. ground (
      arith,
      held.owned b,
      sum_by-empty (λ v. bit (within v.start_block v.block_count b)) s.active idle,
    ))

-- A run with at least one active request at a time, for requests that need a block each or cannot
-- be served at all, a pool and outputs counted in 32 bits, and a step for every token to produce
-- and for every request: it completes every request of the trace and leaves no block in use.
pub run_contiguous-completes :
    (t : Trace) (c : ReplayConfig)
    → c.max_blocks < 4294967296
    → small_decodes t.requests ≡ true
    → 0 < c.max_active_requests
    → needs_blocks c t.requests ≡ true
    → sum_by ahead t.requests ≤ c.max_steps
    → ((run_contiguous t c).completed ≡ true) × ((run_contiguous t c).leak_free ≡ true)
unfolding run_contiguous new_baseline
run_contiguous-completes t c small decodes pos needs enough =
    ((==_iff _ _).1 (ended.0), (==_iff _ _).1 (idle_pool c s held idle))
  where
    s : Baseline
    s = rounds t c c.max_steps (new_baseline t c)

    ended : (s.completed ≡ length t.requests) × Counted t.requests s
    ended =
        rounds_complete t c small decodes pos needs c.max_steps (new_baseline t c)
          (new_baseline-IsReserved t c)
          (record { passed = refl; bounded = omega arith; due = refl }) (omega (arith, enough))

    held : IsReserved c s
    held = rounds-IsReserved t c c.max_steps (new_baseline t c) small (new_baseline-IsReserved t c)

    idle : length s.active ≡ 0
    idle = omega (arith, ended.0, ended.1.passed, ended.1.bounded)
