-- ===== src/Scheduler/Admits.antt =====
-- try_admit leaves the queues quiet, and on success plans the candidate's first chunk.
use qwen_vl_paged.Prelude.{
  ℕ, ◌+◌, ◌≡◌, refl, ap, Bool, true, ◌&&◌, not, Option, none, some, leb, ltb, ◌==◌, if◌then◌else◌,
  if_cases, u32,
}
use qwen_vl_paged.Manager.State.{KvCacheManager}
use qwen_vl_paged.Manager.Request.{release_request}
use qwen_vl_paged.Manager.Prefix.{attach_prefix}
use qwen_vl_paged.Manager.Sequence.{create_sequence, reserve_tokens}
use qwen_vl_paged.Scheduler.State.{
  prefill, Request, BatchPlan, Scheduler, metadata_from, total_blocks, cached_for,
  lifetime_blocks_for,
}
use qwen_vl_paged.Scheduler.Admission.{
  schedule_prefill_chunk, reclaim_for_admission, admit, still_needed, abandon, reserve_prompt,
  attach_and_reserve, create_and_reserve, try_admit,
}
use qwen_vl_paged.Scheduler.Queues.{Quiet, Quiet-refl, reclaim_for_admission-Quiet}

-- What try_admit says of the candidate and the plan.
abbrev pub Admitted : Scheduler → Request → BatchPlan → Option (Request × BatchPlan) → Type 0
Admitted s r plan none = Unit {0}
Admitted s r plan (some (r', plan')) =
    (r'.request_id ≡ r.request_id)
    × (r'.state ≡ prefill)
    × (plan' ≡ schedule_prefill_chunk s.config.max_batch_tokens r' plan)

pub record Admits (s : Scheduler) (r : Request) (plan : BatchPlan)
    (res : Scheduler × Option (Request × BatchPlan)) : Type 0 where
  pub quiet : Quiet s res.0
  pub admitted : Admitted s r plan res.1

-- The pool and the account of held blocks are no part of the queues.
with_cache :
    (s t : Scheduler) (m : KvCacheManager) (n : ℕ)
    → Quiet s t
    → Quiet s (record t { cache = m; lifetime_held = n })
with_cache s t m n q = record {
  same_config = q.same_config;
  same_pending = q.same_pending;
  kept = q.kept;
  fewer = q.fewer;
}

module _ (s : Scheduler) (r : Request) (plan : BatchPlan) where
  rejected : (t : Scheduler) → Quiet s t → Admits s r plan (t, none)
  rejected t q = record { quiet = q; admitted = tt }

  abandon-Admits : (t : Scheduler) → Quiet s t → Admits s r plan (abandon t r)
  unfolding abandon
  abandon-Admits t q =
      rejected _ (with_cache s t (release_request t.cache r.request_id) t.lifetime_held q)

  reserve_prompt-Admits :
      (t : Scheduler) (needed attached : ℕ)
      → Quiet s t
      → Admits s r plan (reserve_prompt t r plan needed attached)
  unfolding reserve_prompt
  reserve_prompt-Admits t needed attached q =
      if_cases (Admits s r plan) (not out.1) (λ _. abandon-Admits t' q')
        (λ _.
          if_cases (Admits s r plan)
            (ltb 0 r.prompt_tokens && attached == 0 && still_needed r attached == 0)
            (λ _. abandon-Admits t' q')
            (λ _. record {
              quiet = with_cache s t' t'.cache (u32 (t.lifetime_held + needed)) q';
              admitted = (
                refl,
                refl,
                ap (λ c. schedule_prefill_chunk c.max_batch_tokens (admit r needed) plan)
                    q.same_config,
              );
            }))
    where
      out : KvCacheManager × Bool
      out =
          if ltb 0 (still_needed r attached)
          then reserve_tokens t.cache r.root_sequence_id (still_needed r attached)
          else (t.cache, true)

      t' : Scheduler
      t' = record t { cache = out.0 }

      q' : Quiet s t'
      q' = with_cache s t out.0 t.lifetime_held q

  attach_and_reserve-Admits :
      (t : Scheduler) (needed : ℕ)
      → Quiet s t
      → Admits s r plan (attach_and_reserve t r plan needed)
  unfolding attach_and_reserve
  attach_and_reserve-Admits t needed q =
      reserve_prompt-Admits (record t { cache = out.0 }) needed out.1
        (with_cache s t out.0 t.lifetime_held q)
    where
      out : KvCacheManager × ℕ
      out =
          if ltb 0 (cached_for t r) && leb (cached_for t r) r.prompt_tokens
          then attach_prefix t.cache r.root_sequence_id r.prefix_key
          else (t.cache, 0)

  create_and_reserve-Admits :
      (t : Scheduler) (needed : ℕ)
      → Quiet s t
      → Admits s r plan (create_and_reserve t r plan needed)
  unfolding create_and_reserve
  create_and_reserve-Admits t needed q =
      if_cases (Admits s r plan) (ltb (total_blocks t) (u32 (t.lifetime_held + needed)))
        (λ _. rejected t q)
        (λ _.
          if_cases (Admits s r plan) (create_sequence t.cache (metadata_from r)).1
            (λ _.
              attach_and_reserve-Admits
                (record t { cache = (create_sequence t.cache (metadata_from r)).0 }) needed
                (with_cache s t (create_sequence t.cache (metadata_from r)).0 t.lifetime_held q))
            (λ _.
              rejected _
                (with_cache s t (create_sequence t.cache (metadata_from r)).0 t.lifetime_held q)))

  pub try_admit-Admits : (admitted : ℕ) → Admits s r plan (try_admit s r plan admitted)
  unfolding try_admit
  try_admit-Admits admitted =
      if_cases (Admits s r plan) (leb s.config.max_batch_tokens plan.scheduled_tokens)
        (λ _. rejected s (Quiet-refl s))
        (λ _.
          if_cases (Admits s r plan) (ltb (total_blocks s) (lifetime_blocks_for s r))
            (λ _. rejected s (Quiet-refl s))
            (λ _.
              create_and_reserve-Admits
                (reclaim_for_admission s r.prompt_tokens r.sampling.max_decode_tokens admitted)
                (lifetime_blocks_for s r)
                (reclaim_for_admission-Quiet s r.prompt_tokens r.sampling.max_decode_tokens
                  admitted)))
