-- ===== src/Replay/Growth.antt =====
-- How tools/trace_replay/TraceReplay.cpp drives the cache manager: touch_position, ensure_capacity
-- and reserved_slots, and its loops over the sequences of a request.
use qwen_vl_paged.Prelude.{
  ℕ, zero, suc, ◌+◌, ◌-◌, ◌*◌, ◌/◌, ◌%◌, max, Option, none, some, Bool, true, false, not, List, [],
  ◌∷◌, ltb, ◌==◌, if◌then◌else◌, u32, u64,
}
use qwen_vl_paged.Block.{text_kv}
use qwen_vl_paged.Table.{BlockTable, lookup, size}
use qwen_vl_paged.Manager.State.{KvCacheManager}
use qwen_vl_paged.Manager.View.{cache_view}
use qwen_vl_paged.Manager.Sequence.{reserve_tokens, ensure_token_writable}
use qwen_vl_paged.Replay.Trace.{ReplayMetrics}

-- The block table of a sequence's view.
unfoldable pub view_table : KvCacheManager → ℕ → Option BlockTable
view_table m seq = elim (cache_view m seq text_kv) [ none ↦ none | some v ↦ v.block_table ]

abbrev pub moved : Option ℕ → Option ℕ → Bool
moved (some before) (some after) = not (before == after)
moved _ _ = false

abbrev pub count_copy : Bool → ReplayMetrics → ReplayMetrics
count_copy true metrics = record metrics { cow_events = u64 (metrics.cow_events + 1) }
count_copy false metrics = metrics

unfoldable pub touch_position :
    KvCacheManager → ℕ → ℕ → ℕ → ReplayMetrics → KvCacheManager × ReplayMetrics
unfolding view_table
touch_position m seq position tpb metrics = elim (view_table m seq) [
  | none ↦ (m, metrics)
  | some t ↦
      let (m', after) = ensure_token_writable m seq position text_kv 0 in
      (m', count_copy (moved (lookup t (position / tpb)) after) metrics)
]

unfoldable pub ensure_capacity : KvCacheManager → ℕ → ℕ → ℕ → KvCacheManager × Bool
unfolding view_table
ensure_capacity m seq position tpb = elim (view_table m seq) [
  | none ↦ (m, false)
  | some t ↦ if ltb (position / tpb) (size t) then (m, true) else reserve_tokens m seq 1
]

unfoldable pub reserved_slots : KvCacheManager → ℕ → ℕ → ℕ
unfolding view_table
reserved_slots m seq tpb = elim (view_table m seq) [ none ↦ 0 | some t ↦ u32 (u32 (size t) * tpb) ]

-- The touches of a prefill chunk: one for each block that begins among its `n` tokens.
unfoldable pub touch_chunk :
    ℕ → ℕ → KvCacheManager → ℕ → ℕ → ℕ → ReplayMetrics → KvCacheManager × ReplayMetrics
unfolding touch_position
touch_chunk zero position m seq shared tpb metrics = (m, metrics)
touch_chunk (suc n) position m seq shared tpb metrics =
    let (m', metrics') =
      if ltb position shared
      then (m, metrics)
      else if position % tpb == 0
      then touch_position m seq position tpb metrics
      else (m, metrics) in
    touch_chunk n (u32 (position + 1)) m' seq shared tpb metrics'

-- Room for a position in every sequence, up to the first that cannot grow.
unfoldable pub ensure_all : KvCacheManager → List ℕ → ℕ → ℕ → KvCacheManager × Bool
unfolding ensure_capacity
ensure_all m [] position tpb = (m, true)
ensure_all m (seq ∷ seqs) position tpb =
    let (m', grew) = ensure_capacity m seq position tpb in
    elim grew [ false ↦ (m', false) | true ↦ ensure_all m' seqs position tpb ]

unfoldable pub touch_all :
    KvCacheManager → List ℕ → ℕ → ℕ → ReplayMetrics → KvCacheManager × ReplayMetrics
unfolding touch_position
touch_all m [] position tpb metrics = (m, metrics)
touch_all m (seq ∷ seqs) position tpb metrics =
    let (m', metrics') = touch_position m seq position tpb metrics in
    touch_all m' seqs position tpb metrics'

-- What the sequences of one request add to the metrics of a step.
unfoldable pub observe_sequences : KvCacheManager → List ℕ → ℕ → ℕ → ReplayMetrics → ReplayMetrics
unfolding reserved_slots
observe_sequences m [] committed tpb metrics = metrics
observe_sequences m (seq ∷ seqs) committed tpb metrics =
    let reserved = reserved_slots m seq tpb in
    observe_sequences m seqs committed tpb (record metrics {
      committed_tokens = u64 (metrics.committed_tokens + committed);
      max_partial_block_slack =
          if ltb committed reserved
          then max metrics.max_partial_block_slack (reserved - committed)
          else metrics.max_partial_block_slack;
    })
