-- ===== src/Replay/Paged.antt =====
-- run_paged of tools/trace_replay/TraceReplay.cpp: a step, and the loop until the trace completes,
-- stalls, or max_steps is reached.
-- `slab` is what the pool's memory holds at first, and `rank` the index of the 99th percentile
-- among a number of values, which the source computes in double precision.
use qwen_vl_paged.Prelude.{
  ℕ, zero, suc, ◌+◌, ◌-◌, ◌*◌, max, none, some, Bool, true, false, ◌&&◌, not, List, [], ◌∷◌, ◌++◌,
  leb, ltb, ◌==◌, if◌then◌else◌, length, is_empty, get_elem?, u32, u64,
}
use qwen_vl_paged.Block.{byte_size}
use qwen_vl_paged.Allocator.{stats}
use qwen_vl_paged.Scheduler.State.{BatchPlan}
use qwen_vl_paged.Scheduler.Queue.{resume, preemption_info}
use qwen_vl_paged.Scheduler.Step.{schedule_next}
use qwen_vl_paged.Replay.Trace.{Trace, ReplayConfig, ReplayMetrics, block_shape}
use qwen_vl_paged.Replay.Growth.{observe_sequences}
use qwen_vl_paged.Replay.Progress.{Replay, cache_of, progress_of, has, remove, new_replay}
use qwen_vl_paged.Replay.Prefill.{prefill_all}
use qwen_vl_paged.Replay.Decoding.{is_finished, decode_all}

-- A live request that is parked is counted when it enters that state.
unfoldable pub note_parked : ℕ → Replay → Replay
note_parked id s = elim (preemption_info s.scheduler id) [
  | none ↦ record s { preempted_ids = remove id s.preempted_ids }
  | some parked ↦ if has id s.preempted_ids then s else record s {
    preempted_ids = id ∷ s.preempted_ids;
    metrics = record (s.metrics) {
      preemptions = u64 (s.metrics.preemptions + 1);
      swapped_blocks_out = u64 (s.metrics.swapped_blocks_out + parked.swapped_blocks);
    };
  }
]

unfoldable pub note_all : List ℕ → Replay → Replay
unfolding note_parked
note_all [] s = s
note_all (id ∷ ids) s = note_all ids (if is_finished s id then s else note_parked id s)

unfoldable pub resume_parked : ℕ → Replay → Replay
resume_parked id s =
    let (sch, done) = resume s.scheduler id in
    if done
    then record s {
      scheduler = sch;
      preempted_ids = remove id s.preempted_ids;
      metrics = record (s.metrics) { resumes = u64 (s.metrics.resumes + 1) };
    }
    else record s {
      scheduler = sch;
      metrics = record (s.metrics) { failed_resumes = u64 (s.metrics.failed_resumes + 1) };
    }

unfoldable pub resume_all : List ℕ → Replay → Replay
unfolding resume_parked
resume_all [] s = s
resume_all (id ∷ ids) s = resume_all ids (if has id s.preempted_ids then resume_parked id s else s)

-- The live requests that have not finished.
unfoldable pub unfinished : Replay → List ℕ → List ℕ
unfinished s [] = []
unfinished s (id ∷ ids) =
    let rest = unfinished s ids in if is_finished s id then rest else id ∷ rest

-- The committed tokens of the live requests that are not parked.
unfoldable pub observe_live : ℕ → Replay → List ℕ → ReplayMetrics → ReplayMetrics
observe_live tpb s [] metrics = metrics
observe_live tpb s (id ∷ ids) metrics = observe_live tpb s ids (
    if has id s.preempted_ids then metrics else elim (progress_of s id) [
      | none ↦ metrics
      | some p ↦ observe_sequences (cache_of s) p.sequences p.committed tpb metrics
    ])

abbrev pub blocks_in_use : Replay → ℕ
blocks_in_use s =
    (stats (cache_of s).allocator).total_blocks - (stats (cache_of s).allocator).free_blocks

unfoldable pub observe_step : Trace → ReplayConfig → BatchPlan → Replay → Replay
unfolding observe_live
observe_step t c plan s =
    let m = s.metrics in
    let used = blocks_in_use s in
    record s {
      token_cost = u64 (s.token_cost + plan.scheduled_tokens);
      metrics = observe_live c.tokens_per_block s s.live (record m {
        head_of_line_stall_steps =
            if ltb 0 s.waiting && is_empty plan.prefill_requests
            then u64 (m.head_of_line_stall_steps + 1)
            else m.head_of_line_stall_steps;
        peak_active_requests = max m.peak_active_requests (u32 (length plan.decode_requests));
        peak_blocks_in_use = max m.peak_blocks_in_use used;
        peak_bytes_in_use = max m.peak_bytes_in_use (u64 (used * byte_size (block_shape t c)));
        reserved_token_slots = u64 (m.reserved_token_slots + u64 (used * c.tokens_per_block));
      });
    }

abbrev pub recover : Replay → Replay
recover s = if s.growth_failed then s else resume_all s.live s

abbrev pub drop_finished : Replay → Replay
drop_finished s = record s { live = unfinished s s.live }

-- One step, up to the test for a stall.
unfoldable pub step : Trace → ReplayConfig → Replay → Replay
unfolding note_all resume_all unfinished observe_step
step t c s =
    let (sch, plan) = schedule_next s.scheduler in
    let planned = record s {
      scheduler = sch;
      metrics = record (s.metrics) { steps = u64 (s.metrics.steps + 1) };
      progress_made = false;
      growth_failed = false;
    } in
    let prefilled = prefill_all c plan.prefill_requests plan.prefill_tokens planned in
    let decoded =
      decode_all c.tokens_per_block plan.scheduled_tokens
        (plan.prefill_requests ++ plan.decode_requests) plan.decode_requests prefilled in
    observe_step t c plan (drop_finished (recover (note_all decoded.live decoded)))

-- The test for a stall, and whether the loop goes on.
unfoldable pub stall : Replay → Replay × Bool
stall s = if s.progress_made then (record s { no_progress_steps = 0 }, true) else (
  record s { no_progress_steps = u32 (s.no_progress_steps + 1) },
  not (leb 2 (u32 (s.no_progress_steps + 1))),
)

-- The loop, with the steps that max_steps leaves.
unfoldable pub steps : Trace → ReplayConfig → ℕ → Replay → Replay
unfolding step stall
steps t c zero s = s
steps t c (suc n) s = elim (ltb s.completed (length t.requests)) [
  | false ↦ s
  | true ↦ elim ((stall (step t c s)).1) [
    | false ↦ (stall (step t c s)).0
    | true ↦ steps t c n ((stall (step t c s)).0)
  ]
]

-- std::sort.
unfoldable pub insert : ℕ → List ℕ → List ℕ
insert x [] = x ∷ []
insert x (y ∷ ys) = let rest = insert x ys in if leb x y then x ∷ y ∷ ys else y ∷ rest

unfoldable pub sort : List ℕ → List ℕ
unfolding insert
sort [] = []
sort (x ∷ xs) = insert x (sort xs)

unfoldable pub p99_cost : (ℕ → ℕ) → List ℕ → ℕ
unfolding sort
p99_cost rank ttfts = elim (get_elem? (sort ttfts) (rank (length ttfts))) [
  | none ↦ 0
  | some cost ↦ cost
]

unfoldable pub is_leak_free : Replay → Bool
is_leak_free s =
    let final = stats (cache_of s).allocator in
    final.free_blocks == final.total_blocks
    && final.active_blocks == 0
    && final.shared_blocks == 0
    && final.swapped_blocks == 0

unfoldable pub run_paged : Trace → ReplayConfig → (ℕ → List ℕ) → (ℕ → ℕ) → ReplayMetrics
unfolding steps p99_cost is_leak_free new_replay
run_paged t c slab rank =
    let s = steps t c c.max_steps (new_replay t c slab) in
    record (s.metrics) {
      p99_ttft_cost = p99_cost rank s.ttfts;
      requests_completed = u32 s.completed;
      completed = s.completed == length t.requests;
      leak_free = is_leak_free s;
    }
