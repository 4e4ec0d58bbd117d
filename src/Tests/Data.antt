-- ===== src/Tests/Data.antt =====
-- A pool of four frames of two tokens, a manager over it, and requests.
use qwen_vl_paged.Prelude.{ℕ, false, List, [], ◌∷◌, none, some}
use qwen_vl_paged.Block.{BlockShape, text_kv, LogicalBlock}
use qwen_vl_paged.Table.{BlockTable, BlockTableEntry}
use qwen_vl_paged.Layout.{KvBlockLayout}
use qwen_vl_paged.Allocator.{AllocatorConfig, MemoryAllocator, new_allocator}
use qwen_vl_paged.Manager.State.{SequenceMetadata, KvCacheManager, new_manager}
use qwen_vl_paged.Manager.View.{CacheView}
use qwen_vl_paged.Scheduler.State.{
  Request, SchedulerConfig, Scheduler, RequestState, new_scheduler, enqueue,
}

abbrev pub small_shape : BlockShape
small_shape = record {
  tokens_per_block = 2;
  num_layers = 1;
  num_kv_heads = 1;
  head_dim = 1;
  bytes_per_element = 1;
  layers_per_frame = 0;
}

abbrev pub wide_layout : KvBlockLayout
wide_layout = record {
  shape = record {
    tokens_per_block = 4;
    num_layers = 3;
    num_kv_heads = 2;
    head_dim = 8;
    bytes_per_element = 2;
    layers_per_frame = 0;
  };
}

abbrev pub pool_config : AllocatorConfig
pool_config = record {
  block_shape = small_shape;
  memory_options = record { alignment_bytes = 4; prefer_pinned_memory = false };
  max_blocks = 4;
}

abbrev pub slab : ℕ → List ℕ
slab i = i ∷ i ∷ i ∷ i ∷ []

abbrev pub pool : MemoryAllocator
pool = new_allocator pool_config slab

abbrev pub manager : KvCacheManager
manager = new_manager pool

abbrev pub metadata : ℕ → ℕ → SequenceMetadata
metadata seq request = record {
  sequence_id = seq;
  request_id = request;
  multimodal_spans = [];
  positional_encoding = record { spans = [] };
}

abbrev pub logical : ℕ → LogicalBlock
logical i = record {
  sequence_id = 7;
  index = i;
  cache_kind = text_kv;
  start_token = 0;
  token_count = 2;
}

abbrev pub mapped_to : ℕ → ℕ → BlockTableEntry
mapped_to i p = record { logical = logical i; physical_id = p; writable = false; swap_slot = none }

-- Blocks 1 and 3 of sequence 7.
abbrev pub sparse_table : BlockTable
sparse_table = record {
  sequence_id = 7;
  cache_kind = text_kv;
  entries = mapped_to 1 10 ∷ mapped_to 3 30 ∷ [];
}

abbrev pub request : ℕ → ℕ → Request
request i prompt = record {
  request_id = i;
  root_sequence_id = i;
  prompt_tokens = prompt;
  sampling = record { num_parallel_samples = 1; max_decode_tokens = 2 };
  multimodal_spans = [];
  positional_encoding = record { spans = [] };
  prefix_key = "";
  state = RequestState.pending;
  remaining_prefill_tokens = 0;
  admission_skips = 0;
  lifetime_blocks = 0;
}

abbrev pub batch_config : SchedulerConfig
batch_config = record {
  max_active_requests = 2;
  max_batch_tokens = 8;
  preemption_watermark_blocks = 1;
  size_aware_admission = false;
  admission_skip_limit = 8;
}

abbrev pub waiting : Scheduler
waiting = enqueue (enqueue (new_scheduler batch_config manager) (request 1 3)) (request 2 2)

-- One request that holds five blocks, and one that was preempted with a reservation of three.
abbrev pub loaded : Scheduler
loaded = record (new_scheduler batch_config manager) {
  active = record (request 1 3) { state = RequestState.decode; lifetime_blocks = 5 } ∷ [];
  preempted = record (request 2 2) { state = RequestState.preempted; lifetime_blocks = 3 } ∷ [];
  lifetime_held = 5;
}

-- A view of a sequence whose block 0 is in frame 2.
abbrev pub view : CacheView
view = record {
  sequence_id = 7;
  cache_kind = text_kv;
  block_table = some (record sparse_table { entries = mapped_to 0 2 ∷ [] });
  layer_tables = some (record sparse_table { entries = mapped_to 0 2 ∷ [] } ∷ []);
  allocator = some pool;
  layout = record { shape = small_shape };
}
