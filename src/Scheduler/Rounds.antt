-- ===== src/Scheduler/Rounds.antt =====
-- schedule_next over its rounds: every tracked request stays tracked, once, and at most the
-- configured number is active.
use qwen_vl_paged.Prelude.{
  ℕ, ◌+◌, ◌≤◌, ◌≡◌, ap, ◌∙◌, List, [], ◌∷◌, ◌++◌, Option, none, some, arith, ◌==◌, if◌then◌else◌,
  if_cases, length, length-append, sum_by-append,
}
use qwen_vl_paged.Scheduler.State.{Request, BatchPlan, Scheduler}
use qwen_vl_paged.Scheduler.Admission.{schedule_prefill_chunk, try_admit}
use qwen_vl_paged.Scheduler.Step.{must_take_head, skip, scan, take_head, admit_one}
use qwen_vl_paged.Scheduler.Queues.{is_request, count_id, Quiet, Quiet-refl, Quiet-trans}
use qwen_vl_paged.Scheduler.Admits.{Admitted, Admits, try_admit-Admits}

-- How often a request is tracked, over all three queues.
abbrev pub tracked : ℕ → Scheduler → ℕ
tracked i s = count_id i s.pending + (count_id i s.active + count_id i s.preempted)

-- One round: the requests are conserved, and one moved from the pending queue or none became active.
-- The plan stays one that chunks were added to.
pub data Planned (budget : ℕ) (plan : BatchPlan) : BatchPlan → Type 0 where
  same : Planned budget plan plan
  chunk : (r : Request) → Planned budget plan (schedule_prefill_chunk budget r plan)

abbrev pub RoundPlan : Scheduler → Scheduler → BatchPlan → Option BatchPlan → Type 0
RoundPlan s s' plan none =
    (length s'.active ≤ length s.active) × (length s'.pending ≡ length s.pending)
RoundPlan s s' plan (some plan') =
    (length s'.active ≤ length s.active + 1)
    × (length s'.pending + 1 ≡ length s.pending)
    × Planned s.config.max_batch_tokens plan plan'

pub record Round (s : Scheduler) (plan : BatchPlan) (res : Scheduler × Option BatchPlan)
    : Type 0 where
  pub config : res.0.config ≡ s.config
  pub conserved : (i : ℕ) → tracked i res.0 ≡ tracked i s
  pub plans : RoundPlan s res.0 plan res.1

-- The candidate is moved from its place in the pending queue to the back of the active one.
moved :
    (s s' : Scheduler) (plan plan' : BatchPlan) (r r' : Request) (rest : List Request)
    → Quiet s s'
    → Admitted s r plan (some (r', plan'))
    → ((i : ℕ) → count_id i rest + is_request i r ≡ count_id i s.pending)
    → length rest + 1 ≡ length s.pending
    → Round s plan (record s' { active = s'.active ++ r' ∷ []; pending = rest }, some plan')
moved s s' plan plan' r r' rest q a counts len = record {
  config = q.same_config;
  conserved = λ i.
      omega (
        arith,
        counts i,
        q.kept i,
        sum_by-append (is_request i) s'.active (r' ∷ []),
        same_request i,
      );
  plans = (omega (arith, length-append s'.active (r' ∷ []), q.fewer), len, rw a.2 (chunk r'));
}
  where
    same_request : (i : ℕ) → is_request i r' ≡ is_request i r
    same_request i = ap (λ j. if j == i then 1 else 0) a.0

stays : (s s' : Scheduler) (plan : BatchPlan) → Quiet s s' → Round s plan (s', none)
stays s s' plan q = record {
  config = q.same_config;
  conserved = λ i. omega (arith, q.kept i, ap (count_id i) q.same_pending);
  plans = (q.fewer, ap length q.same_pending);
}

take_head-Round :
    (s : Scheduler) (plan : BatchPlan) (r : Request) (rs : List Request)
    → s.pending ≡ r ∷ rs
    → Round s plan (take_head s plan r rs)
unfolding take_head
take_head-Round s plan r rs e =
    step (try_admit s r plan (length plan.prefill_requests))
      (try_admit-Admits s r plan (length plan.prefill_requests))
  where
    goes : Scheduler × Option (Request × BatchPlan) → Scheduler × Option BatchPlan
    goes res = elim res.1 [
      | none ↦ (res.0, none)
      | some (r', plan') ↦
          (record (res.0) { active = res.0.active ++ r' ∷ []; pending = rs }, some plan')
    ]

    step :
        (res : Scheduler × Option (Request × BatchPlan))
        → Admits s r plan res
        → Round s plan (goes res)
    step (s', none) a = stays s s' plan a.quiet
    step (s', some (r', plan')) a =
        moved s s' plan plan' r r' rs a.quiet a.admitted (λ i. omega (arith, ap (count_id i) e))
          (omega (arith, ap length e))

-- A round seen from the scheduler that the scan began with.
later :
    (s t : Scheduler) (plan plan' : BatchPlan) (r r' : Request) (rest : List Request)
    (u : Scheduler)
    → Quiet s t
    → Admits t r plan (u, some (r', plan'))
    → ((i : ℕ) → count_id i rest + is_request i r ≡ count_id i s.pending)
    → length rest + 1 ≡ length s.pending
    → Round s plan (record u { active = u.active ++ r' ∷ []; pending = rest }, some plan')
later s t plan plan' r r' rest u q a counts len =
    moved s u plan plan' r r' rest (Quiet-trans q a.quiet)
      (
        a.admitted.0,
        a.admitted.1,
        a.admitted.2 ∙ ap (λ c. schedule_prefill_chunk c.max_batch_tokens r' plan) q.same_config,
      )
      counts len

scan-Round :
    (s t : Scheduler) (plan : BatchPlan) (passed rs : List Request)
    → Quiet s t
    → ((i : ℕ) → count_id i passed + count_id i rs ≡ count_id i s.pending)
    → length passed + length rs ≡ length s.pending
    → Round s plan (scan t plan passed rs)
unfolding scan
scan-Round s t plan passed [] q counts len = stays s t plan q
scan-Round s t plan passed (r ∷ rs) q counts len =
    step (try_admit t r plan (length plan.prefill_requests))
      (try_admit-Admits t r plan (length plan.prefill_requests))
      (λ q'.
        scan-Round s (try_admit t r plan (length plan.prefill_requests)).0 plan
          (passed ++ skip r ∷ []) rs q'
          (λ i. omega (arith, counts i, sum_by-append (is_request i) passed (skip r ∷ [])))
          (omega (arith, len, length-append passed (skip r ∷ []))))
  where
    goes : Scheduler × Option (Request × BatchPlan) → Scheduler × Option BatchPlan
    goes res = elim res.1 [
      | none ↦ scan res.0 plan (passed ++ skip r ∷ []) rs
      | some (r', plan') ↦
          (record (res.0) { active = res.0.active ++ r' ∷ []; pending = passed ++ rs }, some plan')
    ]

    step :
        (res : Scheduler × Option (Request × BatchPlan))
        → Admits t r plan res
        → (Quiet s res.0 → Round s plan (scan res.0 plan (passed ++ skip r ∷ []) rs))
        → Round s plan (goes res)
    step (u, none) a ih = ih (Quiet-trans q a.quiet)
    step (u, some (r', plan')) a ih =
        later s t plan plan' r r' (passed ++ rs) u q a
          (λ i. omega (arith, counts i, sum_by-append (is_request i) passed rs))
          (omega (arith, len, length-append passed rs))

pub admit_one-Round :
    (s : Scheduler) (plan : BatchPlan) (rs : List Request)
    → s.pending ≡ rs
    → Round s plan (admit_one s plan rs)
unfolding admit_one
admit_one-Round s plan [] e = stays s s plan (Quiet-refl s)
admit_one-Round s plan (r ∷ rs) e =
    if_cases (Round s plan) (must_take_head s r) (λ _. take_head-Round s plan r rs e)
      (λ _.
        scan-Round s s plan [] (r ∷ rs) (Quiet-refl s) (λ i. omega (arith, ap (count_id i) e))
          (omega (arith, ap length e)))
