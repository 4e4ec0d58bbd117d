-- ===== src/Scheduler/Loop.antt =====
-- The admission loop of schedule_next, and schedule_next as a whole.
use qwen_vl_paged.Prelude.{
  ℕ, zero, suc, ◌≤◌, ◌<◌, ◌≡◌, refl, ap, ◌∙◌, Option, none, some, arith, ltb, if_cases, length, max,
  sym,
}
use mathlib.Core.Path.{subst}
use qwen_vl_paged.Scheduler.State.{BatchPlan, Scheduler, empty_plan}
use qwen_vl_paged.Scheduler.Step.{admit_one, admit_from_pending, schedule_next}
use qwen_vl_paged.Scheduler.Rounds.{Round, tracked, admit_one-Round}
use qwen_vl_paged.Scheduler.Plans.{
  IsWithin, Planned-IsWithin, continue_prefill-IsWithin, schedule_decode_tokens-IsWithin,
}

-- What the loop keeps.
pub record Loops (s : Scheduler) (res : Scheduler × BatchPlan) : Type 0 where
  pub config : res.0.config ≡ s.config
  pub conserved : (i : ℕ) → tracked i res.0 ≡ tracked i s
  pub crowd : length res.0.active ≤ max (length s.active) s.config.max_active_requests
  pub within : IsWithin s.config.max_batch_tokens res.1

stop :
    (s : Scheduler) (plan : BatchPlan) → IsWithin s.config.max_batch_tokens plan → Loops s (s, plan)
stop s plan w = record { config = refl; conserved = λ i. refl; crowd = omega arith; within = w }

admit_from_pending-Loops :
    (fuel : ℕ) (s : Scheduler) (plan : BatchPlan)
    → s.config.max_batch_tokens < 4294967296
    → IsWithin s.config.max_batch_tokens plan
    → Loops s (admit_from_pending fuel s plan)
unfolding admit_from_pending
admit_from_pending-Loops zero s plan small w = stop s plan w
admit_from_pending-Loops (suc fuel) s plan small w =
    if_cases (Loops s) (ltb (length s.active) s.config.max_active_requests)
      (λ room.
        step (ground (arith, room)) (admit_one s plan s.pending)
          (admit_one-Round s plan s.pending refl)
          (λ p k w'. admit_from_pending-Loops fuel (admit_one s plan s.pending).0 p k w'))
      (λ _. stop s plan w)
  where
    goes : Scheduler × Option BatchPlan → Scheduler × BatchPlan
    goes res = elim res.1 [
      | none ↦ (res.0, plan)
      | some plan' ↦ admit_from_pending fuel res.0 plan'
    ]

    step :
        length s.active < s.config.max_active_requests
        → (res : Scheduler × Option BatchPlan) → Round s plan res
        → ((p : BatchPlan)
            → res.0.config.max_batch_tokens < 4294967296
            → IsWithin res.0.config.max_batch_tokens p
            → Loops res.0 (admit_from_pending fuel res.0 p))
        → Loops s (goes res)
    step room (s', none) r ih = record {
      config = r.config;
      conserved = r.conserved;
      crowd = omega (arith, r.plans.0);
      within = w;
    }
    step room (s', some plan') r ih =
        let same_budget : s'.config.max_batch_tokens ≡ s.config.max_batch_tokens =
          ap (λ c. c.max_batch_tokens) r.config in
        let same_limit : s'.config.max_active_requests ≡ s.config.max_active_requests =
          ap (λ c. c.max_active_requests) r.config in
        let grown = Planned-IsWithin s.config.max_batch_tokens small w r.plans.2 in
        let rest =
          ih plan' (omega (arith, same_budget))
            (subst (λ b. IsWithin b plan') (sym same_budget) grown) in
        record {
          config = rest.config ∙ r.config;
          conserved = λ i. rest.conserved i ∙ r.conserved i;
          crowd = omega (arith, rest.crowd, same_limit, r.plans.0);
          within =
              subst (λ b. IsWithin b (admit_from_pending fuel s' plan').1) same_budget rest.within;
        }

-- In a step whose token budget is below 2 ^ 32, the plan of schedule_next schedules no more tokens
-- than the budget, its tokens are those of the prefill chunks and one for each decode, and each
-- prefill request has one chunk.
pub schedule_next-IsWithin :
    (s : Scheduler)
    → s.config.max_batch_tokens < 4294967296
    → IsWithin s.config.max_batch_tokens (schedule_next s).1
unfolding schedule_next
schedule_next-IsWithin s small =
    let budget = s.config.max_batch_tokens in
    let out = admit_from_pending (length s.pending) s empty_plan in
    let loop =
      admit_from_pending-Loops (length s.pending) s empty_plan small
        (record { bounded = omega arith; accounted = refl; parallel = refl }) in
    schedule_decode_tokens-IsWithin budget small out.0.active _
      (continue_prefill-IsWithin budget small out.0.active out.1 loop.within)

-- A step whose token budget is below 2 ^ 32 loses no request and duplicates none: each id is tracked
-- as often, over the pending, the active and the preempted queue together, as it was before. Beyond
-- what was active before, it fills the active queue only up to the configured limit.
pub schedule_next-tracked :
    (s : Scheduler) (i : ℕ)
    → s.config.max_batch_tokens < 4294967296
    → (tracked i (schedule_next s).0 ≡ tracked i s)
      × (length (schedule_next s).0.active ≤ max (length s.active) s.config.max_active_requests)
unfolding schedule_next
schedule_next-tracked s i small =
    let loop =
      admit_from_pending-Loops (length s.pending) s empty_plan small
        (record { bounded = omega arith; accounted = refl; parallel = refl }) in
    (loop.conserved i, loop.crowd)
