-- ===== src/Tests/Batches.antt =====
-- The scheduler at concrete inputs.
use qwen_vl_paged.Prelude.{refl, ◌+◌, ◌≤◌, ◌≡◌, arith, length}
use qwen_vl_paged.Scheduler.Admission.{reclaim}
use qwen_vl_paged.Scheduler.Fuel.{reclaim_enough, admit_from_pending_enough}
use qwen_vl_paged.Scheduler.State.{RequestState, Scheduler, empty_plan, enqueue, new_scheduler}
use qwen_vl_paged.Scheduler.Step.{schedule_next, admit_from_pending}
use qwen_vl_paged.Scheduler.Rounds.{tracked}
use qwen_vl_paged.Scheduler.Plans.{IsWithin}
use qwen_vl_paged.Scheduler.Loop.{schedule_next-IsWithin, schedule_next-tracked}
use qwen_vl_paged.Scheduler.Queue.{cancel, find_request}
use qwen_vl_paged.Scheduler.Lifetimes.{
  HoldsLifetimes, lifetimes, step, preempts, step-HoldsLifetimes, cancel_preempted_lem,
}
use qwen_vl_paged.Tests.Data.{loaded, request, waiting}

schedule_next-IsWithin_example : IsWithin 8 (schedule_next waiting).1
unfolding enqueue new_scheduler
schedule_next-IsWithin_example = schedule_next-IsWithin waiting (omega arith)

schedule_next-tracked_example :
    (tracked 2 (schedule_next waiting).0 ≡ tracked 2 waiting)
    × (length (schedule_next waiting).0.active ≤ 2)
unfolding enqueue new_scheduler
schedule_next-tracked_example = schedule_next-tracked waiting 2 (omega arith)

busy : Scheduler
busy = (schedule_next waiting).0

-- What the step left active.
busy_active : length busy.active ≤ 2
unfolding busy enqueue new_scheduler
busy_active = (schedule_next-tracked waiting 2 (omega arith)).1

reclaim_enough_example : reclaim 2 busy 1 4 0 ≡ reclaim 5 busy 1 4 0
reclaim_enough_example = reclaim_enough 2 5 busy 1 4 0 busy_active (omega (arith, busy_active))

admit_from_pending_enough_example :
    admit_from_pending 2 waiting empty_plan ≡ admit_from_pending 7 waiting empty_plan
unfolding enqueue new_scheduler
admit_from_pending_enough_example =
    admit_from_pending_enough 2 7 waiting empty_plan (omega arith) (omega arith)

loaded-HoldsLifetimes : HoldsLifetimes loaded
unfolding new_scheduler
loaded-HoldsLifetimes = record { held = refl; idle = refl }

step-HoldsLifetimes_example : HoldsLifetimes (step loaded (preempts 1 "pressure"))
step-HoldsLifetimes_example =
    step-HoldsLifetimes loaded (preempts 1 "pressure") loaded-HoldsLifetimes tt

cancel_preempted_lem_example :
    ((cancel loaded 2).lifetime_held + 3 ≡ lifetimes (cancel loaded 2).active)
    × ((cancel loaded 2).active ≡ loaded.active)
unfolding new_scheduler find_request
cancel_preempted_lem_example =
    cancel_preempted_lem loaded 2
      (record (request 2 2) { state = RequestState.preempted; lifetime_blocks = 3 })
      loaded-HoldsLifetimes refl refl refl (omega arith)
