-- ===== src/Scheduler/Admission.antt =====
-- Admission in src/Scheduler.cpp: reclaiming cache for a candidate, and trying to admit it.
use qwen_vl_paged.Prelude.{
  ℕ, zero, suc, ◌+◌, ◌-◌, Option, none, some, Bool, true, false, ◌&&◌, ◌||◌, not, List, [], ◌∷◌,
  ◌++◌, leb, ltb, ◌==◌, if◌then◌else◌, length, get_elem?, min, u32,
}
use qwen_vl_paged.Manager.Request.{release_request}
use qwen_vl_paged.Manager.Prefix.{attach_prefix}
use qwen_vl_paged.Manager.Sequence.{create_sequence, reserve_tokens}
use qwen_vl_paged.Scheduler.State.{
  prefill, Request, BatchPlan, Scheduler, metadata_from, total_blocks, free_blocks,
  blocks_for_tokens, cached_for, lifetime_blocks_for,
}
use qwen_vl_paged.Scheduler.Queue.{preempt, in_decode}

unfoldable pub schedule_prefill_chunk : ℕ → Request → BatchPlan → BatchPlan
schedule_prefill_chunk budget r plan =
    if r.remaining_prefill_tokens == 0
    then plan
    else if leb budget plan.scheduled_tokens
    then plan
    else let chunk = min r.remaining_prefill_tokens (budget - plan.scheduled_tokens) in
      if chunk == 0 then plan else record plan {
        prefill_requests = plan.prefill_requests ++ r.request_id ∷ [];
        prefill_tokens = plan.prefill_tokens ++ chunk ∷ [];
        scheduled_tokens = u32 (plan.scheduled_tokens + chunk);
      }

unfoldable pub schedule_decode_tokens : ℕ → List Request → BatchPlan → BatchPlan
schedule_decode_tokens budget [] plan = plan
schedule_decode_tokens budget (r ∷ rs) plan =
    let skipped = schedule_decode_tokens budget rs plan in
    let rest = schedule_decode_tokens budget rs (record plan {
      decode_requests = plan.decode_requests ++ r.request_id ∷ [];
      scheduled_tokens = u32 (plan.scheduled_tokens + 1);
    }) in
    if not (in_decode r.state)
    then skipped
    else if leb budget plan.scheduled_tokens
    then plan
    else rest

-- Whether the loop of reclaim_for_admission goes on.
unfoldable pub under_pressure : Scheduler → ℕ → ℕ → ℕ → Bool
under_pressure s needed required admitted =
    ltb admitted (length s.active)
    && (ltb (free_blocks s) required || ltb (total_blocks s) (u32 (s.lifetime_held + needed)))

abbrev pub victim : Scheduler → ℕ → Option Request
victim s admitted = get_elem? s.active (length s.active - admitted - 1)

-- The loop, whose rounds are at most the active requests: each round preempts one.
unfoldable pub reclaim : ℕ → Scheduler → ℕ → ℕ → ℕ → Scheduler
reclaim zero s needed required admitted = s
reclaim (suc fuel) s needed required admitted = elim (under_pressure s needed required admitted) [
  | false ↦ s
  | true ↦ elim (victim s admitted) [
    | none ↦ s
    | some r ↦
        let (s', done) = preempt s r.request_id "cache pressure watermark" in
        let rest = reclaim fuel s' needed required admitted in
        if not done then s' else if leb (free_blocks s') (free_blocks s) then s' else rest
  ]
]

unfoldable pub reclaim_for_admission : Scheduler → ℕ → ℕ → ℕ → Scheduler
unfolding reclaim
reclaim_for_admission s prompt_tokens decode_tokens admitted =
    let needed = blocks_for_tokens s (u32 (prompt_tokens + decode_tokens)) in
    let watermark = s.config.preemption_watermark_blocks in
    if watermark == 0
    then s
    else if needed == 0 || ltb (total_blocks s) needed
    then s
    else reclaim (length s.active) s needed (min (u32 (needed + watermark)) (total_blocks s))
        admitted

-- The candidate as it is admitted.
abbrev pub admit : Request → ℕ → Request
admit r needed = record r {
  lifetime_blocks = needed;
  state = prefill;
  remaining_prefill_tokens =
      if r.remaining_prefill_tokens == 0 then r.prompt_tokens else r.remaining_prefill_tokens;
}

abbrev pub still_needed : Request → ℕ → ℕ
still_needed r attached = if ltb attached r.prompt_tokens then r.prompt_tokens - attached else 0

unfoldable pub abandon : Scheduler → Request → Scheduler × Option (Request × BatchPlan)
abandon s r = (record s { cache = release_request s.cache r.request_id }, none)

-- The prompt's blocks are reserved behind the attached prefix, and the request is admitted.
unfoldable pub reserve_prompt :
    Scheduler → Request → BatchPlan → ℕ → ℕ → Scheduler × Option (Request × BatchPlan)
unfolding abandon schedule_prefill_chunk
reserve_prompt s r plan needed attached =
    let need = still_needed r attached in
    let (cache', reserved) =
      if ltb 0 need then reserve_tokens s.cache r.root_sequence_id need else (s.cache, true) in
    let s' = record s { cache = cache' } in
    if not reserved
    then abandon s' r
    else if ltb 0 r.prompt_tokens && attached == 0 && need == 0
    then abandon s' r
    else (
      record s' { lifetime_held = u32 (s.lifetime_held + needed) },
      some (admit r needed, schedule_prefill_chunk s.config.max_batch_tokens (admit r needed) plan),
    )

-- A published prefix that the prompt covers is attached first.
unfoldable pub attach_and_reserve :
    Scheduler → Request → BatchPlan → ℕ → Scheduler × Option (Request × BatchPlan)
unfolding reserve_prompt
attach_and_reserve s r plan needed =
    let cached = cached_for s r in
    let (cache', attached) =
      if ltb 0 cached && leb cached r.prompt_tokens
      then attach_prefix s.cache r.root_sequence_id r.prefix_key
      else (s.cache, 0) in
    reserve_prompt (record s { cache = cache' }) r plan needed attached

unfoldable pub create_and_reserve :
    Scheduler → Request → BatchPlan → ℕ → Scheduler × Option (Request × BatchPlan)
unfolding attach_and_reserve
create_and_reserve s r plan needed =
    if ltb (total_blocks s) (u32 (s.lifetime_held + needed))
    then (s, none)
    else let (cache', created) = create_sequence s.cache (metadata_from r) in
      if created
      then attach_and_reserve (record s { cache = cache' }) r plan needed
      else (record s { cache = cache' }, none)

-- The admitted request and the plan with its first chunk, or none where the source returns false.
unfoldable pub try_admit :
    Scheduler → Request → BatchPlan → ℕ → Scheduler × Option (Request × BatchPlan)
unfolding create_and_reserve reclaim_for_admission
try_admit s r plan admitted =
    let needed = lifetime_blocks_for s r in
    if leb s.config.max_batch_tokens plan.scheduled_tokens
    then (s, none)
    else if ltb (total_blocks s) needed
    then (s, none)
    else create_and_reserve
        (reclaim_for_admission s r.prompt_tokens r.sampling.max_decode_tokens admitted) r plan
        needed
