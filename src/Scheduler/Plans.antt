-- ===== src/Scheduler/Plans.antt =====
-- The batch plan of schedule_next: within its token budget, and its tokens accounted for.
use qwen_vl_paged.Prelude.{
  ℕ, ◌+◌, ◌-◌, ◌≤◌, ◌<◌, ◌≡◌, not, List, [], ◌∷◌, ◌++◌, arith, leb, ◌==◌, if_cases, length,
  length-append, sum_by, sum_by-append, min, u32,
}
use qwen_vl_paged.Scheduler.State.{Request, BatchPlan}
use qwen_vl_paged.Scheduler.Queue.{in_prefill, in_decode}
use qwen_vl_paged.Scheduler.Admission.{schedule_prefill_chunk, schedule_decode_tokens}
use qwen_vl_paged.Scheduler.Step.{planned, continue_prefill}
use qwen_vl_paged.Scheduler.Rounds.{Planned, same, chunk}

abbrev pub tokens_of : List ℕ → ℕ
tokens_of ns = sum_by (λ n. n) ns

-- A plan's tokens are those of its chunks and one for each decode, within the budget.
pub record IsWithin (budget : ℕ) (plan : BatchPlan) : Type 0 where
  pub bounded : plan.scheduled_tokens ≤ budget
  pub accounted :
      plan.scheduled_tokens ≡ tokens_of plan.prefill_tokens + length plan.decode_requests
  pub parallel : length plan.prefill_tokens ≡ length plan.prefill_requests

module _ (budget : ℕ) (small : budget < 4294967296) where
  schedule_prefill_chunk-IsWithin :
      (r : Request) (plan : BatchPlan)
      → IsWithin budget plan
      → IsWithin budget (schedule_prefill_chunk budget r plan)
  unfolding schedule_prefill_chunk
  schedule_prefill_chunk-IsWithin r plan w =
      if_cases (IsWithin budget) (r.remaining_prefill_tokens == 0) (λ _. w)
        (λ _.
          if_cases (IsWithin budget) (leb budget plan.scheduled_tokens) (λ _. w)
            (λ room.
              if_cases (IsWithin budget) (size == 0) (λ _. w)
                (λ _. record {
                  bounded = ground (arith, room, w.bounded);
                  accounted = ground (
                    arith,
                    room,
                    w.accounted,
                    sum_by-append (λ (n : ℕ). n) plan.prefill_tokens (size ∷ []),
                  );
                  parallel = omega (
                    arith,
                    w.parallel,
                    length-append plan.prefill_tokens (size ∷ []),
                    length-append plan.prefill_requests (r.request_id ∷ []),
                  );
                })))
    where
      size : ℕ
      size = min r.remaining_prefill_tokens (budget - plan.scheduled_tokens)

  pub schedule_decode_tokens-IsWithin :
      (rs : List Request) (plan : BatchPlan)
      → IsWithin budget plan
      → IsWithin budget (schedule_decode_tokens budget rs plan)
  unfolding schedule_decode_tokens
  schedule_decode_tokens-IsWithin [] plan w = w
  schedule_decode_tokens-IsWithin (r ∷ rs) plan w =
      if_cases (IsWithin budget) (not (in_decode r.state))
        (λ _. schedule_decode_tokens-IsWithin rs plan w)
        (λ _.
          if_cases (IsWithin budget) (leb budget plan.scheduled_tokens) (λ _. w)
            (λ room.
              schedule_decode_tokens-IsWithin rs
                (record plan {
                  decode_requests = plan.decode_requests ++ r.request_id ∷ [];
                  scheduled_tokens = u32 (plan.scheduled_tokens + 1);
                })
                (record {
                  bounded = ground (arith, room, w.bounded);
                  accounted = ground (
                    arith,
                    room,
                    w.accounted,
                    length-append plan.decode_requests (r.request_id ∷ []),
                  );
                  parallel = w.parallel;
                })))

  pub continue_prefill-IsWithin :
      (rs : List Request) (plan : BatchPlan)
      → IsWithin budget plan
      → IsWithin budget (continue_prefill budget rs plan)
  unfolding continue_prefill
  continue_prefill-IsWithin [] plan w = w
  continue_prefill-IsWithin (r ∷ rs) plan w = continue_prefill-IsWithin rs _ (
      if_cases (IsWithin budget) (not (in_prefill r.state)) (λ _. w)
        (λ _.
          if_cases (IsWithin budget) (planned r.request_id plan.prefill_requests) (λ _. w)
            (λ _. schedule_prefill_chunk-IsWithin r plan w)))

  pub Planned-IsWithin :
      {plan plan' : BatchPlan}
      → IsWithin budget plan
      → Planned budget plan plan'
      → IsWithin budget plan'
  Planned-IsWithin w same = w
  Planned-IsWithin {plan} w (chunk r) = schedule_prefill_chunk-IsWithin r plan w
