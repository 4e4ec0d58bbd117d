-- ===== src/Replay/Decoding.antt =====
-- The decode work of a step of run_paged in tools/trace_replay/TraceReplay.cpp, and the recovery
-- when the pool cannot grow.
use qwen_vl_paged.Prelude.{
  ℕ, ◌+◌, Option, none, some, Bool, true, false, ◌||◌, not, List, [], ◌∷◌, ◌++◌, leb, ltb, ◌==◌,
  if◌then◌else◌, length, has_value, u32, u64,
}
use qwen_vl_paged.Scheduler.State.{Scheduler, free_blocks}
use qwen_vl_paged.Scheduler.Queue.{complete_step, cancel, preempt, preemption_info}
use qwen_vl_paged.Replay.Growth.{ensure_all, touch_all}
use qwen_vl_paged.Replay.Progress.{
  RequestProgress, Replay, cache_of, set_cache, progress_of, set_progress, has,
}

abbrev pub is_finished : Replay → ℕ → Bool
is_finished s id = elim (progress_of s id) [ none ↦ false | some p ↦ p.finished ]

-- The newest live request of the plan that can be preempted, and the scheduler afterwards.
unfoldable pub park_newest : Replay → List ℕ → List ℕ → Option Scheduler
park_newest s in_plan [] = none
park_newest s in_plan (id ∷ ids) = elim (park_newest s in_plan ids) [
  | some sch ↦ some sch
  | none ↦
      if is_finished s id || not (has id in_plan)
      then none
      else let (sch, done) = preempt s.scheduler id "decode growth failed" in
        if done then some sch else none
]

-- reclaim_for_decode: whether frames came back.
unfoldable pub reclaim_for_decode : List ℕ → Replay → Replay × Bool
unfolding park_newest
reclaim_for_decode in_plan s = elim (park_newest s in_plan s.live) [
  | none ↦ (s, false)
  | some sch ↦ (record s { scheduler = sch }, ltb (free_blocks s.scheduler) (free_blocks sch))
]

unfoldable pub fail_growth : List ℕ → Replay → Replay
unfolding reclaim_for_decode
fail_growth in_plan s =
    let (s', reclaimed) = reclaim_for_decode in_plan (record s { growth_failed = true }) in
    if reclaimed then record s' { progress_made = true } else s'

abbrev pub first_token : ℕ → RequestProgress → Replay → Replay
first_token scheduled_tokens p s =
    if p.decoded == 1
    then record s { ttfts = s.ttfts ++ u64 (s.token_cost + scheduled_tokens) ∷ [] }
    else s

-- A request that has produced its tokens leaves the scheduler.
unfoldable pub finish_decode : ℕ → RequestProgress → Replay → Replay
finish_decode id p s =
    if leb p.request.decode_actual p.decoded
    then record (set_progress (record s { scheduler = cancel s.scheduler id }) id
        (record p { finished = true; sequences = [] })) { completed = s.completed + 1 }
    else set_progress s id p

-- One token for every sequence of a request that has room for it.
unfoldable pub decode_token : ℕ → ℕ → ℕ → RequestProgress → Replay → Replay
unfolding finish_decode
decode_token tpb scheduled_tokens id p s =
    let (m, metrics') = touch_all (cache_of s) p.sequences p.committed tpb s.metrics in
    let touched = set_cache s m in
    let p' = record p { committed = u32 (p.committed + 1); decoded = u32 (p.decoded + 1) } in
    finish_decode id p' (
      first_token scheduled_tokens p' (record touched {
        metrics = record metrics' {
          tokens_decoded = u64 (metrics'.tokens_decoded + length p.sequences);
        };
        scheduler = complete_step touched.scheduler id 1;
        progress_made = true;
      }))

unfoldable pub decode_request : ℕ → ℕ → List ℕ → ℕ → RequestProgress → Replay → Replay
unfolding decode_token fail_growth
decode_request tpb scheduled_tokens in_plan id p s =
    let (m, grew) = ensure_all (cache_of s) p.sequences p.committed tpb in
    let s' = set_cache s m in
    if has_value (preemption_info s.scheduler id)
    then s
    else if grew
    then decode_token tpb scheduled_tokens id p s'
    else fail_growth in_plan s'

unfoldable pub decode_all : ℕ → ℕ → List ℕ → List ℕ → Replay → Replay
unfolding decode_request
decode_all tpb scheduled_tokens in_plan [] s = s
decode_all tpb scheduled_tokens in_plan (id ∷ ids) s =
    decode_all tpb scheduled_tokens in_plan ids (elim (progress_of s id) [
      | none ↦ s
      | some p ↦ decode_request tpb scheduled_tokens in_plan id p s
    ])
