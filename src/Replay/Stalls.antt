-- ===== src/Replay/Stalls.antt =====
-- A request without tokens in run_contiguous of tools/trace_replay/TraceReplay.cpp.
use qwen_vl_paged.Prelude.{
  ℕ, zero, suc, ◌+◌, ◌<◌, ◌≡◌, refl, ap, ◌∙◌, none, true, false, List, [], ◌∷◌, leb, ◌==◌, length,
  arith, ◌-◌, is_empty, Bool-cases, inl, inr,
}
use qwen_vl_paged.Replay.Trace.{TraceRequest, Trace, ReplayConfig}
use qwen_vl_paged.Replay.Contiguous.{
  Baseline, request_blocks, servable, first_fit, refuse, admit_one, admit_pending, decode_active,
  observe, round, new_baseline, all_free, decode_from, Reservation,
}
use qwen_vl_paged.Replay.Admits.{admit_pending-stops}

first_fit-all_free : (n block run : ℕ) → first_fit 0 block run (all_free n) ≡ none
unfolding first_fit
first_fit-all_free zero block run = refl
first_fit-all_free (suc n) block run =
    rw (longer, first_fit) (first_fit-all_free n (block + 1) (run + 1))
  where
    longer : (run + 1 == 0) ≡ false
    longer = ground arith

-- A refusal changes the metrics only.
refuse_lem :
    (c : ReplayConfig) (needed : ℕ) (s : Baseline)
    → ((refuse c needed s).active ≡ s.active) × ((refuse c needed s).completed ≡ s.completed)
unfolding refuse
refuse_lem c needed s = elim (Bool-cases (leb needed (c.max_blocks - s.blocks_in_use))) [
  | inl enough ↦ rw (enough, refuse) (refl, refl)
  | inr short ↦ rw (short, refuse) (refl, refl)
]

admit_one-refuses :
    (c : ReplayConfig) (r : TraceRequest) (s : Baseline)
    → servable c r ≡ true
    → request_blocks c r ≡ 0
    → s.used ≡ all_free c.max_blocks
    → admit_one c r s ≡ (refuse c (request_blocks c r) s, false)
unfolding admit_one
admit_one-refuses c r s served none_needed fresh = rw (served, nowhere, admit_one) refl
  where
    nowhere : first_fit (request_blocks c r) 0 0 s.used ≡ none
    nowhere = rw (none_needed, fresh) (first_fit-all_free c.max_blocks 0 0)

decode_none :
    (rs : List TraceRequest) (s : Baseline) (vs : List Reservation)
    → vs ≡ []
    → (decode_from rs (length vs) [] vs s).completed ≡ s.completed
unfolding decode_from
decode_none rs s [] e = refl
decode_none rs s (v ∷ vs) e = absurd (ground (arith, e))

-- Where the first request of a trace can be served and needs no blocks, the first round of the run
-- makes no progress, which ends the run, and completes no request, however large the pool is.
pub first_round-stalls :
    (t : Trace) (c : ReplayConfig) (r : TraceRequest) (rs : List TraceRequest)
    → t.requests ≡ r ∷ rs
    → servable c r ≡ true
    → request_blocks c r ≡ 0
    → 0 < c.max_active_requests
    → ((round t c (new_baseline t c)).1 ≡ false) × ((round t c (new_baseline t c)).0.completed ≡ 0)
unfolding round new_baseline decode_active observe
first_round-stalls t c r rs e served none_needed pos = (
  ground (arith, ap (λ z. z.1) refused, ap is_empty idle),
  decode_none t.requests _ _ idle ∙ kept,
)
  where
    start : Baseline
    start = record (new_baseline t c) {
      metrics = record ((new_baseline t c).metrics) { steps = 1 };
    }

    refused : admit_pending c t.requests start false ≡ (refuse c (request_blocks c r) start, false)
    refused =
        ap (λ z. admit_pending c z start false) e
        ∙ admit_pending-stops c r rs start false (ground (arith, pos)) _
            (admit_one-refuses c r start served none_needed refl)

    kept : (admit_pending c t.requests start false).0.completed ≡ 0
    kept = ap (λ z. z.0.completed) refused ∙ (refuse_lem c (request_blocks c r) start).1

    idle : (admit_pending c t.requests start false).0.active ≡ []
    idle = ap (λ z. z.0.active) refused ∙ (refuse_lem c (request_blocks c r) start).0
