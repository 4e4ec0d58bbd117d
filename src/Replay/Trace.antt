-- ===== src/Replay/Trace.antt =====
-- The data of tools/trace_replay/TraceReplay.h, and the pool that its suggested_pool_blocks sizes.
-- `p99_ttft_cost` and the counters of a mode that does not use them are zero.
use qwen_vl_paged.Prelude.{
  ℕ, ◌+◌, ◌-◌, ◌*◌, ◌/◌, max, Bool, false, String, List, [], ◌∷◌, ◌==◌, if◌then◌else◌, u32,
}
use qwen_vl_paged.Block.{BlockShape}
use qwen_vl_paged.Manager.State.{MultimodalSpan, PositionalEncodingMetadata}

pub record TraceHeader : Type 0 where
  pub model : String
  pub mix : String
  pub dimension_source : String
  pub pixel_budget : String
  pub seed : ℕ
  pub num_requests : ℕ
  pub num_layers : ℕ
  pub num_kv_heads : ℕ
  pub head_dim : ℕ
  pub bytes_per_element : ℕ
  pub max_prompt_tokens : ℕ
  pub max_decode_budget : ℕ
  pub visual_tokens_max : ℕ
  pub images_total : ℕ

pub record TraceImage : Type 0 where
  pub grid_t : ℕ
  pub grid_h : ℕ
  pub grid_w : ℕ
  pub visual_tokens : ℕ

pub record TraceRequest : Type 0 where
  pub request_id : ℕ
  pub arrival_us : ℕ
  pub text_tokens : ℕ
  pub prompt_tokens : ℕ
  pub decode_budget : ℕ
  pub decode_actual : ℕ
  pub num_parallel_samples : ℕ
  pub prefix_key : String
  pub images : List TraceImage
  pub multimodal_spans : List MultimodalSpan
  pub positional_encoding : PositionalEncodingMetadata

pub record Trace : Type 0 where
  pub header : TraceHeader
  pub requests : List TraceRequest

pub record ReplayConfig : Type 0 where
  pub tokens_per_block : ℕ
  pub max_blocks : ℕ
  pub max_active_requests : ℕ
  pub max_batch_tokens : ℕ
  pub preemption_watermark_blocks : ℕ
  pub swap_slots : ℕ
  pub size_aware_admission : Bool
  pub admission_skip_limit : ℕ
  pub prefix_caching : Bool
  pub baseline_max_context : ℕ
  pub max_steps : ℕ

pub record ReplayMetrics : Type 0 where
  pub mode : String
  pub steps : ℕ
  pub requests_completed : ℕ
  pub requests_admitted : ℕ
  pub tokens_decoded : ℕ
  pub peak_blocks_in_use : ℕ
  pub peak_bytes_in_use : ℕ
  pub peak_active_requests : ℕ
  pub reserved_token_slots : ℕ
  pub committed_tokens : ℕ
  pub preemptions : ℕ
  pub resumes : ℕ
  pub failed_resumes : ℕ
  pub swapped_blocks_out : ℕ
  pub forks : ℕ
  pub cow_events : ℕ
  pub prefix_hits : ℕ
  pub prefix_blocks_saved : ℕ
  pub p99_ttft_cost : ℕ
  pub head_of_line_stall_steps : ℕ
  pub fragmentation_failures : ℕ
  pub requests_never_admissible : ℕ
  pub max_partial_block_slack : ℕ
  pub completed : Bool
  pub leak_free : Bool

abbrev pub new_metrics : String → ReplayMetrics
new_metrics mode = record {
  mode = mode;
  steps = 0;
  requests_completed = 0;
  requests_admitted = 0;
  tokens_decoded = 0;
  peak_blocks_in_use = 0;
  peak_bytes_in_use = 0;
  peak_active_requests = 0;
  reserved_token_slots = 0;
  committed_tokens = 0;
  preemptions = 0;
  resumes = 0;
  failed_resumes = 0;
  swapped_blocks_out = 0;
  forks = 0;
  cow_events = 0;
  prefix_hits = 0;
  prefix_blocks_saved = 0;
  p99_ttft_cost = 0;
  head_of_line_stall_steps = 0;
  fragmentation_failures = 0;
  requests_never_admissible = 0;
  max_partial_block_slack = 0;
  completed = false;
  leak_free = false;
}

unfoldable pub ceil_div : ℕ → ℕ → ℕ
ceil_div value divisor = if divisor == 0 then 0 else u32 (value + divisor - 1) / divisor

-- The shape of the pool's blocks.
abbrev pub block_shape : Trace → ReplayConfig → BlockShape
block_shape t c = record {
  tokens_per_block = c.tokens_per_block;
  num_layers = t.header.num_layers;
  num_kv_heads = t.header.num_kv_heads;
  head_dim = t.header.head_dim;
  bytes_per_element = t.header.bytes_per_element;
  layers_per_frame = 0;
}

-- The blocks of one request at its worst.
unfoldable pub request_worst : ReplayConfig → TraceRequest → ℕ
unfolding ceil_div
request_worst c r = u32 (
    ceil_div r.prompt_tokens c.tokens_per_block
    + max 1 r.num_parallel_samples * u32 (ceil_div r.decode_budget c.tokens_per_block + 2))

unfoldable pub worst_request_blocks : ReplayConfig → List TraceRequest → ℕ → ℕ
unfolding request_worst
worst_request_blocks c [] worst = worst
worst_request_blocks c (r ∷ rs) worst = worst_request_blocks c rs (max worst (request_worst c r))

unfoldable pub suggested_pool_blocks : Trace → ReplayConfig → ℕ
unfolding worst_request_blocks
suggested_pool_blocks t c = u32 (worst_request_blocks c t.requests 0 * max 1 c.max_active_requests)
