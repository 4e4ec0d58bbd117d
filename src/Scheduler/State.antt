-- ===== src/Scheduler/State.antt =====
-- The data of include/qwenvl_paged/Scheduler.h. A deque's front is the head of its list.
-- The scheduler's cache manager and allocator are one field: the manager holds the pool.
use qwen_vl_paged.Prelude.{
  ℕ, ◌+◌, ◌-◌, ◌*◌, ◌/◌, none, some, Bool, String, List, [], ◌∷◌, ◌++◌, leb, ltb, ◌==◌,
  if◌then◌else◌, text_eq, u32, Assoc,
}
use qwen_vl_paged.Block.{per_layer_frames}
use qwen_vl_paged.Allocator.{block, stats}
use qwen_vl_paged.Manager.State.{
  MultimodalSpan, PositionalEncodingMetadata, SequenceMetadata, KvCacheManager,
}
use qwen_vl_paged.Manager.Prefix.{prefix_token_count}

pub data RequestState : Type 0 where
  pending prefill decode preempted finished cancelled : RequestState

pub record SamplingConfig : Type 0 where
  pub num_parallel_samples : ℕ
  pub max_decode_tokens : ℕ

pub record Request : Type 0 where
  pub request_id : ℕ
  pub root_sequence_id : ℕ
  pub prompt_tokens : ℕ
  pub sampling : SamplingConfig
  pub multimodal_spans : List MultimodalSpan
  pub positional_encoding : PositionalEncodingMetadata
  pub prefix_key : String
  pub state : RequestState
  pub remaining_prefill_tokens : ℕ
  pub admission_skips : ℕ
  pub lifetime_blocks : ℕ

pub record SchedulerConfig : Type 0 where
  pub max_active_requests : ℕ
  pub max_batch_tokens : ℕ
  pub preemption_watermark_blocks : ℕ
  pub size_aware_admission : Bool
  pub admission_skip_limit : ℕ

pub record PreemptionInfo : Type 0 where
  pub reason : String
  pub swapped_blocks : ℕ

pub record BatchPlan : Type 0 where
  pub prefill_requests : List ℕ
  pub prefill_tokens : List ℕ
  pub decode_requests : List ℕ
  pub scheduled_tokens : ℕ

abbrev pub empty_plan : BatchPlan
empty_plan = record {
  prefill_requests = [];
  prefill_tokens = [];
  decode_requests = [];
  scheduled_tokens = 0;
}

pub record Scheduler : Type 0 where
  pub config : SchedulerConfig
  pub cache : KvCacheManager
  pub pending : List Request
  pub active : List Request
  pub preempted : List Request
  pub preemption_info : Assoc ℕ PreemptionInfo
  pub lifetime_held : ℕ

unfoldable pub new_scheduler : SchedulerConfig → KvCacheManager → Scheduler
new_scheduler c m = record {
  config = c;
  cache = m;
  pending = [];
  active = [];
  preempted = [];
  preemption_info = [];
  lifetime_held = 0;
}

unfoldable pub metadata_from : Request → SequenceMetadata
metadata_from r = record {
  sequence_id = r.root_sequence_id;
  request_id = r.request_id;
  multimodal_spans = r.multimodal_spans;
  positional_encoding = r.positional_encoding;
}

unfoldable pub total_blocks : Scheduler → ℕ
total_blocks s = (stats s.cache.allocator).total_blocks

unfoldable pub free_blocks : Scheduler → ℕ
free_blocks s = (stats s.cache.allocator).free_blocks

unfoldable pub blocks_for_tokens : Scheduler → ℕ → ℕ
blocks_for_tokens s n = elim (block s.cache.allocator 0) [
  | none ↦ 0
  | some b ↦
      let tpb = b.shape.tokens_per_block in
      if tpb == 0
      then 0
      else u32
          (u32 (n + tpb - 1) / tpb * (if per_layer_frames b.shape then b.shape.num_layers else 1))
]

abbrev pub cached_for : Scheduler → Request → ℕ
cached_for s r = if text_eq r.prefix_key "" then 0 else prefix_token_count s.cache r.prefix_key

unfoldable pub lifetime_blocks_for : Scheduler → Request → ℕ
unfolding blocks_for_tokens
lifetime_blocks_for s r =
    let cached = cached_for s r in
    let usable = if leb cached r.prompt_tokens then cached else 0 in
    let unique = if ltb usable r.prompt_tokens then r.prompt_tokens - usable else 0 in
    blocks_for_tokens s (u32 (unique + r.sampling.max_decode_tokens))

unfoldable pub enqueue : Scheduler → Request → Scheduler
enqueue s r = record s {
  pending =
      s.pending
      ++ record r {
        state = pending;
        remaining_prefill_tokens = r.prompt_tokens;
        admission_skips = 0;
        lifetime_blocks = 0;
      }
        ∷ [];
}
