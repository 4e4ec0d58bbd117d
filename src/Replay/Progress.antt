-- ===== src/Replay/Progress.antt =====
-- The bookkeeping of run_paged in tools/trace_replay/TraceReplay.cpp, and how it begins.
-- `preempted_ids` is a set: a list that is asked only whether a number is in it. An id that
-- `index_of` lacks, at which the source would throw, is passed over: all ids are the trace's.
use qwen_vl_paged.Prelude.{
  ℕ, ◌+◌, max, Option, none, some, Bool, true, false, List, [], ◌∷◌, ◌++◌, ltb, ◌==◌, if◌then◌else◌,
  get_elem?, set, length, u32, u64, Assoc, nat_eq, find, put,
}
use qwen_vl_paged.Swap.{new_backend}
use qwen_vl_paged.Allocator.{
  AllocatorConfig, default_block_alignment_bytes, new_allocator, set_swap_backend, MemoryAllocator,
}
use qwen_vl_paged.Manager.State.{KvCacheManager, new_manager}
use qwen_vl_paged.Scheduler.State.{
  Request, RequestState, SchedulerConfig, Scheduler, new_scheduler, enqueue,
}
use qwen_vl_paged.Replay.Trace.{
  TraceRequest, Trace, ReplayConfig, ReplayMetrics, new_metrics, ceil_div, block_shape,
}

pub record RequestProgress : Type 0 where
  pub request : TraceRequest
  pub sequences : List ℕ
  pub committed : ℕ
  pub decoded : ℕ
  pub shared_prompt_tokens : ℕ
  pub admitted : Bool
  pub finished : Bool

-- The variables of the run; `progress_made` and `growth_failed` are those of the current step.
pub record Replay : Type 0 where
  pub scheduler : Scheduler
  pub metrics : ReplayMetrics
  pub progress : List RequestProgress
  pub index_of : Assoc ℕ ℕ
  pub next_fork_sequence : ℕ
  pub waiting : ℕ
  pub completed : ℕ
  pub live : List ℕ
  pub preempted_ids : List ℕ
  pub no_progress_steps : ℕ
  pub token_cost : ℕ
  pub ttfts : List ℕ
  pub progress_made : Bool
  pub growth_failed : Bool

abbrev pub cache_of : Replay → KvCacheManager
cache_of s = s.scheduler.cache

abbrev pub set_cache : Replay → KvCacheManager → Replay
set_cache s m = record s { scheduler = record (s.scheduler) { cache = m } }

unfoldable pub progress_of : Replay → ℕ → Option RequestProgress
progress_of s id = elim (find id s.index_of) [ none ↦ none | some i ↦ get_elem? s.progress i ]

unfoldable pub set_progress : Replay → ℕ → RequestProgress → Replay
set_progress s id p = elim (find id s.index_of) [
  | none ↦ s
  | some i ↦ record s { progress = set s.progress i p }
]

-- Whether a number is in a set of numbers.
abbrev pub has : ℕ → List ℕ → Bool
has i [] = false
has i (j ∷ js) = if j == i then true else has i js

unfoldable pub remove : ℕ → List ℕ → List ℕ
remove i [] = []
remove i (j ∷ js) = if j == i then remove i js else j ∷ remove i js

-- The pool's configuration, with the default memory options.
abbrev pub allocator_config : Trace → ReplayConfig → AllocatorConfig
allocator_config t c = record {
  block_shape = block_shape t c;
  memory_options = record {
    alignment_bytes = default_block_alignment_bytes;
    prefer_pinned_memory = false;
  };
  max_blocks = c.max_blocks;
}

abbrev pub scheduler_config : ReplayConfig → SchedulerConfig
scheduler_config c = record {
  max_active_requests = c.max_active_requests;
  max_batch_tokens = c.max_batch_tokens;
  preemption_watermark_blocks = c.preemption_watermark_blocks;
  size_aware_admission = c.size_aware_admission;
  admission_skip_limit = c.admission_skip_limit;
}

unfoldable pub new_pool : Trace → ReplayConfig → (ℕ → List ℕ) → MemoryAllocator
new_pool t c slab =
    let a = new_allocator (allocator_config t c) slab in
    if ltb 0 c.swap_slots then set_swap_backend a (some (new_backend c.swap_slots)) else a

abbrev pub new_progress : TraceRequest → RequestProgress
new_progress r = record {
  request = r;
  sequences = [];
  committed = 0;
  decoded = 0;
  shared_prompt_tokens = 0;
  admitted = false;
  finished = false;
}

unfoldable pub scheduled : ReplayConfig → TraceRequest → Request
scheduled c r = record {
  request_id = r.request_id;
  root_sequence_id = r.request_id;
  prompt_tokens = r.prompt_tokens;
  sampling = record {
    num_parallel_samples = r.num_parallel_samples;
    max_decode_tokens = r.decode_budget;
  };
  multimodal_spans = r.multimodal_spans;
  positional_encoding = r.positional_encoding;
  prefix_key = if c.prefix_caching then r.prefix_key else "";
  state = RequestState.pending;
  remaining_prefill_tokens = 0;
  admission_skips = 0;
  lifetime_blocks = 0;
}

abbrev pub count_inadmissible : ReplayConfig → TraceRequest → ReplayMetrics → ReplayMetrics
count_inadmissible c r metrics =
    if ltb c.max_blocks (ceil_div (u32 (r.prompt_tokens + r.decode_budget)) c.tokens_per_block)
    then record metrics { requests_never_admissible = u32 (metrics.requests_never_admissible + 1) }
    else metrics

-- The loop that enqueues the requests, from index `i` on.
unfoldable pub enqueue_all : ReplayConfig → ℕ → List TraceRequest → Replay → Replay
unfolding scheduled
enqueue_all c i [] s = s
enqueue_all c i (r ∷ rs) s = enqueue_all c (i + 1) rs (record s {
  progress = s.progress ++ new_progress r ∷ [];
  index_of = put r.request_id i s.index_of;
  next_fork_sequence = max s.next_fork_sequence (u64 (r.request_id + 1));
  metrics = count_inadmissible c r s.metrics;
  scheduler = enqueue s.scheduler (scheduled c r);
})

unfoldable pub new_replay : Trace → ReplayConfig → (ℕ → List ℕ) → Replay
unfolding enqueue_all new_pool
new_replay t c slab = enqueue_all c 0 t.requests (record {
  scheduler = new_scheduler (scheduler_config c) (new_manager (new_pool t c slab));
  metrics = new_metrics "paged";
  progress = [];
  index_of = [];
  next_fork_sequence = 1;
  waiting = length t.requests;
  completed = 0;
  live = [];
  preempted_ids = [];
  no_progress_steps = 0;
  token_cost = 0;
  ttfts = [];
  progress_made = false;
  growth_failed = false;
})
