-- ===== src/Scheduler/Step.antt =====
-- Scheduler::schedule_next of src/Scheduler.cpp.
use qwen_vl_paged.Prelude.{
  ℕ, zero, suc, ◌+◌, Option, none, some, Bool, true, false, ◌||◌, not, List, [], ◌∷◌, ◌++◌, leb,
  ltb, ◌==◌, if◌then◌else◌, length, u32,
}
use qwen_vl_paged.Scheduler.State.{Request, BatchPlan, Scheduler, empty_plan}
use qwen_vl_paged.Scheduler.Queue.{in_prefill}
use qwen_vl_paged.Scheduler.Admission.{schedule_prefill_chunk, schedule_decode_tokens, try_admit}

abbrev pub must_take_head : Scheduler → Request → Bool
must_take_head s head =
    not s.config.size_aware_admission || leb s.config.admission_skip_limit head.admission_skips

abbrev pub skip : Request → Request
skip r = record r { admission_skips = u32 (r.admission_skips + 1) }

-- The scan of the pending requests for the first that can be admitted. `passed` are those in front,
-- each with one skip more, as they are left once a later one is admitted.
unfoldable pub scan :
    Scheduler → BatchPlan → List Request → List Request → Scheduler × Option BatchPlan
scan s plan passed [] = (s, none)
scan s plan passed (r ∷ rs) =
    let (s', admitted) = try_admit s r plan (length plan.prefill_requests) in
    let rest = scan s' plan (passed ++ skip r ∷ []) rs in
    elim admitted [
      | none ↦ rest
      | some (r', plan') ↦
          (record s' { active = s'.active ++ r' ∷ []; pending = passed ++ rs }, some plan')
    ]

unfoldable pub take_head :
    Scheduler → BatchPlan → Request → List Request → Scheduler × Option BatchPlan
take_head s plan r rs =
    let (s', admitted) = try_admit s r plan (length plan.prefill_requests) in
    elim admitted [
      | none ↦ (s', none)
      | some (r', plan') ↦ (record s' { active = s'.active ++ r' ∷ []; pending = rs }, some plan')
    ]

unfoldable pub admit_one : Scheduler → BatchPlan → List Request → Scheduler × Option BatchPlan
unfolding take_head scan
admit_one s plan [] = (s, none)
admit_one s plan (r ∷ rs) =
    if must_take_head s r then take_head s plan r rs else scan s plan [] (r ∷ rs)

-- The loop of admit_from_pending; each round but the last takes one pending request.
unfoldable pub admit_from_pending : ℕ → Scheduler → BatchPlan → Scheduler × BatchPlan
unfolding admit_one
admit_from_pending zero s plan = (s, plan)
admit_from_pending (suc fuel) s plan =
    let (s', got) = admit_one s plan s.pending in
    let rest = λ (p : BatchPlan). admit_from_pending fuel s' p in
    if ltb (length s.active) s.config.max_active_requests
    then elim got [ none ↦ (s', plan) | some plan' ↦ rest plan' ]
    else (s, plan)

unfoldable pub planned : ℕ → List ℕ → Bool
planned i [] = false
planned i (j ∷ js) = if j == i then true else planned i js

-- The prefill work of requests that were active before.
unfoldable pub continue_prefill : ℕ → List Request → BatchPlan → BatchPlan
unfolding planned
continue_prefill budget [] plan = plan
continue_prefill budget (r ∷ rs) plan = continue_prefill budget rs (
    if not (in_prefill r.state)
    then plan
    else if planned r.request_id plan.prefill_requests
    then plan
    else schedule_prefill_chunk budget r plan)

unfoldable pub schedule_next : Scheduler → Scheduler × BatchPlan
unfolding admit_from_pending continue_prefill
schedule_next s =
    let (s', plan) = admit_from_pending (length s.pending) s empty_plan in
    let budget = s.config.max_batch_tokens in
    (s', schedule_decode_tokens budget s'.active (continue_prefill budget s'.active plan))
