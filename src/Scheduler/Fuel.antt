-- ===== src/Scheduler/Fuel.antt =====
-- The fuel of the two loops of src/Scheduler.cpp is enough: with more of it they do the same.
use qwen_vl_paged.Prelude.{
  ℕ, zero, suc, ◌≤◌, ◌≡◌, refl, ap, ◌∙◌, sym, true, Option, none, some, List, [], ◌∷◌, arith, ltb,
  leb, if_cases, if◌then◌else◌, length, inl, inr, Bool-cases, Option-cases,
}
use qwen_vl_paged.Scheduler.State.{Request, BatchPlan, Scheduler, free_blocks}
use qwen_vl_paged.Scheduler.Queue.{preempt}
use qwen_vl_paged.Scheduler.Admission.{under_pressure, victim, reclaim}
use qwen_vl_paged.Scheduler.Step.{admit_one, admit_from_pending}
use qwen_vl_paged.Scheduler.Queues.{length-preempt}
use qwen_vl_paged.Scheduler.Rounds.{Round, admit_one-Round}

-- Under pressure some request is active.
pressed-active :
    (s : Scheduler) (needed required admitted : ℕ)
    → under_pressure s needed required admitted ≡ true
    → 1 ≤ length s.active
unfolding under_pressure
pressed-active s needed required admitted h = ground (arith, h)

-- The loop of reclaim_for_admission is not cut short by its fuel: any two amounts of fuel that are
-- not below the number of active requests leave the same scheduler.
pub reclaim_enough :
    (fuel more : ℕ) (s : Scheduler) (needed required admitted : ℕ)
    → length s.active ≤ fuel
    → length s.active ≤ more
    → reclaim fuel s needed required admitted ≡ reclaim more s needed required admitted
unfolding reclaim
reclaim_enough zero zero s needed required admitted h h' = refl
reclaim_enough zero (suc more) s needed required admitted h h' =
    elim (Bool-cases (under_pressure s needed required admitted)) [
      | inr calm ↦ rw (calm, reclaim) refl
      | inl pressed ↦ absurd (omega (arith, pressed-active s needed required admitted pressed))
    ]
reclaim_enough (suc fuel) zero s needed required admitted h h' =
    elim (Bool-cases (under_pressure s needed required admitted)) [
      | inr calm ↦ rw (calm, reclaim) refl
      | inl pressed ↦ absurd (omega (arith, pressed-active s needed required admitted pressed))
    ]
reclaim_enough (suc fuel) (suc more) s needed required admitted h h' =
    elim (Bool-cases (under_pressure s needed required admitted)) [
      | inr calm ↦ rw (calm, reclaim) refl
      | inl pressed ↦ elim (Option-cases (victim s admitted)) [
        | inl u ↦ rw (pressed, u, reclaim) refl
        | inr (r, u) ↦
            let out = preempt s r.request_id "cache pressure watermark" in
            elim (Bool-cases out.1) [
              | inr failed ↦ rw (pressed, u, failed, reclaim) refl
              | inl done ↦
                  let fewer = length-preempt s r.request_id "cache pressure watermark" done in
                  let rest =
                    reclaim_enough fuel more out.0 needed required admitted (omega (arith, fewer))
                      (omega (arith, fewer)) in
                  rw (pressed, u, done, reclaim)
                    (ap
                      (λ (x : Scheduler).
                        if leb (free_blocks out.0) (free_blocks s) then out.0 else x)
                      rest)
            ]
      ]
    ]

none_left : (rs : List Request) → length rs ≤ 0 → rs ≡ []
none_left [] h = refl
none_left (r ∷ rs) h = absurd (omega arith)

none_admitted :
    (s : Scheduler) (plan : BatchPlan)
    → length s.pending ≤ 0
    → admit_one s plan s.pending ≡ (s, none)
unfolding admit_one
none_admitted s plan h = ap (admit_one s plan) (none_left s.pending h)

admit_from_none :
    (fuel : ℕ) (s : Scheduler) (plan : BatchPlan)
    → length s.pending ≤ 0
    → admit_from_pending fuel s plan ≡ (s, plan)
unfolding admit_from_pending
admit_from_none zero s plan h = refl
admit_from_none (suc fuel) s plan h =
    ap goes (none_admitted s plan h)
    ∙ if_cases (λ (x : Scheduler × BatchPlan). x ≡ (s, plan))
        (ltb (length s.active) s.config.max_active_requests) (λ _. refl) (λ _. refl)
  where
    goes : Scheduler × Option BatchPlan → Scheduler × BatchPlan
    goes res =
        if ltb (length s.active) s.config.max_active_requests
        then elim res.1 [ none ↦ (res.0, plan) | some plan' ↦ admit_from_pending fuel res.0 plan' ]
        else (s, plan)

-- The admission loop of schedule_next is not cut short by its fuel: any two amounts of fuel that
-- are not below the number of pending requests give the same scheduler and plan.
pub admit_from_pending_enough :
    (fuel more : ℕ) (s : Scheduler) (plan : BatchPlan)
    → length s.pending ≤ fuel
    → length s.pending ≤ more
    → admit_from_pending fuel s plan ≡ admit_from_pending more s plan
unfolding admit_from_pending
admit_from_pending_enough zero more s plan h h' = sym (admit_from_none more s plan h)
admit_from_pending_enough (suc fuel) zero s plan h h' = admit_from_none (suc fuel) s plan h'
admit_from_pending_enough (suc fuel) (suc more) s plan h h' =
    ap
      (λ (x : Scheduler × BatchPlan).
        if ltb (length s.active) s.config.max_active_requests then x else (s, plan))
      (step (admit_one s plan s.pending) (admit_one-Round s plan s.pending refl)
        (λ p. admit_from_pending_enough fuel more (admit_one s plan s.pending).0 p))
  where
    goes : ℕ → Scheduler × Option BatchPlan → Scheduler × BatchPlan
    goes n res = elim res.1 [ none ↦ (res.0, plan) | some plan' ↦ admit_from_pending n res.0 plan' ]

    step :
        (res : Scheduler × Option BatchPlan)
        → Round s plan res
        → ((p : BatchPlan)
            → length res.0.pending ≤ fuel
            → length res.0.pending ≤ more
            → admit_from_pending fuel res.0 p ≡ admit_from_pending more res.0 p)
        → goes fuel res ≡ goes more res
    step (s', none) r ih = refl
    step (s', some plan') r ih = ih plan' (omega (arith, r.plans.1)) (omega (arith, r.plans.1))
