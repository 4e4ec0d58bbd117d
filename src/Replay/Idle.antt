-- ===== src/Replay/Idle.antt =====
-- When the admission loop of run_contiguous in tools/trace_replay/TraceReplay.cpp leaves nothing
-- active.
use qwen_vl_paged.Prelude.{
  ℕ, ◌+◌, ◌<◌, ◌≡◌, refl, sym, ap, ◌∙◌, none, Bool, true, List, [], ◌∷◌, ltb, length, drop,
  length-append, arith, Bool-cases, inl, inr,
}
use mathlib.Core.Path.{subst}
use qwen_vl_paged.Replay.Trace.{TraceRequest, ReplayConfig}
use qwen_vl_paged.Replay.Contiguous.{
  Reservation, Baseline, request_blocks, servable, first_fit, reserve, skip, admit_one,
  admit_pending,
}
use qwen_vl_paged.Replay.Runs.{Answers, first_fit_lem}
use qwen_vl_paged.Replay.Reserved.{owners}
use qwen_vl_paged.Replay.Rounds.{IsReserved}
use qwen_vl_paged.Replay.Work.{Counted}
use qwen_vl_paged.Replay.Admits.{
  drop_cons, drop_nil, needs_blocks, admit_one_cases, admit_pending-goes, Admitted-skip,
  Admitted-reserve, admit_pending-Admitted,
}

owners-empty : (b : ℕ) (vs : List Reservation) → length vs ≡ 0 → owners b vs ≡ 0
owners-empty b [] e = refl
owners-empty b (v ∷ vs) e = absurd (omega (arith, e))

-- A pool that nothing is reserved in has a run for a request that needs blocks and can be served.
fits-empty :
    (c : ReplayConfig) (r : TraceRequest) (s : Baseline)
    → IsReserved c s
    → length s.active ≡ 0
    → servable c r ≡ true
    → 0 < request_blocks c r
    → first_fit (request_blocks c r) 0 0 s.used ≡ none
    → ⊥
unfolding servable
fits-empty c r s held idle served pos e =
    subst (Answers s.used (request_blocks c r)) e (first_fit_lem s.used (request_blocks c r) pos) 0
      (
        ground (arith, served, held.sized),
        λ b low high. ground (arith, held.owned b, owners-empty b s.active idle),
      )

admit_pending-made :
    (c : ReplayConfig) (rest : List TraceRequest) (s : Baseline)
    → (admit_pending c rest s true).1 ≡ true
unfolding admit_pending
admit_pending-made c [] s = refl
admit_pending-made c (r ∷ rest) s =
    elim (Bool-cases (ltb (length s.active) c.max_active_requests)) [
      | inr full ↦ rw (full, admit_pending) refl
      | inl room ↦ elim (Bool-cases ((admit_one c r s).1)) [
        | inr stops ↦ rw (room, stops, admit_pending) refl
        | inl goes ↦
            rw (room, goes, admit_pending) (admit_pending-made c rest ((admit_one c r s).0))
      ]
    ]

-- What holds where the loop leaves nothing active.
abbrev pub Idle : List TraceRequest → List TraceRequest → Baseline × Bool → Type 0
Idle rs rest result = (result.0.next_pending ≡ length rs) × ((0 < length rest) → result.1 ≡ true)

-- Where nothing is active after the loop, no request is left.
pub admit_pending-Idle :
    (c : ReplayConfig) (rs rest : List TraceRequest) (s : Baseline) (made : Bool)
    → 0 < c.max_active_requests
    → needs_blocks c rest ≡ true
    → drop s.next_pending rs ≡ rest
    → Counted rs s
    → IsReserved c s
    → length ((admit_pending c rest s made).0.active) ≡ 0
    → Idle rs rest (admit_pending c rest s made)
unfolding admit_pending reserve
admit_pending-Idle c rs [] s made pos needs e k held idle =
    (drop_nil s.next_pending rs e k.bounded, λ h. absurd (omega (arith, h)))
admit_pending-Idle c rs (r ∷ rest) s made pos needs e k held idle = elim (admit_one_cases c r s) [
  | inl skipped ↦ subst (Idle rs (r ∷ rest)) (sym (goes skipped)) (
      all (
        admit_pending-Idle c rs rest (skip s) true pos (ground (arith, needs)) next
          ((Admitted-skip rs r rest s e k).counted) held
          (ap (λ z. length (z.0.active)) (sym (goes skipped)) ∙ idle)))
  | inr (inl (start, reserved)) ↦ absurd (
      omega
        (arith, busy start reserved, ap (λ z. length (z.0.active)) (sym (goes reserved)) ∙ idle))
  | inr (inr (unfit, (served, refused))) ↦
      absurd (fits-empty c r s held empty served (ground (arith, needs, served)) unfit)
]
  where
    empty : length s.active ≡ 0
    empty = omega (arith, idle, (admit_pending-Admitted c rs (r ∷ rest) s made e k).grown)

    next : drop (s.next_pending + 1) rs ≡ rest
    next = (drop_cons s.next_pending rs r rest e).0.0

    goes :
        {s' : Baseline}
        → admit_one c r s ≡ (s', true)
        → admit_pending c (r ∷ rest) s made ≡ admit_pending c rest s' true
    goes {s' = s'} step = admit_pending-goes c r rest s made (ground (arith, empty, pos)) s' step

    all :
        Idle rs rest (admit_pending c rest (skip s) true)
        → Idle rs (r ∷ rest) (admit_pending c rest (skip s) true)
    all i = (i.0, λ h. admit_pending-made c rest (skip s))

    busy :
        (start : ℕ)
        → admit_one c r s ≡ (reserve r (request_blocks c r) start s, true)
        → 0 < length ((admit_pending c rest (reserve r (request_blocks c r) start s) true).0.active)
    busy start reserved = omega (
      arith,
      (admit_pending-Admitted c rs rest (reserve r (request_blocks c r) start s) true next
          ((Admitted-reserve rs r rest s (request_blocks c r) start e k).counted)).grown,
      length-append s.active _,
    )
