-- ===== src/Replay/Prefill.antt =====
-- The prefill work of a step of run_paged in tools/trace_replay/TraceReplay.cpp.
use qwen_vl_paged.Prelude.{
  ℕ, zero, suc, ◌+◌, ◌-◌, ◌/◌, none, some, Bool, true, false, ◌&&◌, not, List, [], ◌∷◌, ◌++◌, ltb,
  if◌then◌else◌, text_eq, u32, u64,
}
use qwen_vl_paged.Manager.State.{SequenceMetadata}
use qwen_vl_paged.Manager.Prefix.{prefix_token_count, publish_prefix}
use qwen_vl_paged.Manager.Sequence.{fork_sequence}
use qwen_vl_paged.Scheduler.Queue.{in_decode, complete_step, request_state}
use qwen_vl_paged.Replay.Trace.{TraceRequest, ReplayConfig}
use qwen_vl_paged.Replay.Growth.{touch_chunk}
use qwen_vl_paged.Replay.Progress.{
  RequestProgress, Replay, cache_of, set_cache, progress_of, set_progress,
}

-- A hit in the prefix cache.
unfoldable pub share_prefix : ReplayConfig → ℕ → RequestProgress → Replay → Replay × RequestProgress
share_prefix c cached p s =
    if ltb 0 cached
    then (
      record s {
        metrics = record (s.metrics) {
          prefix_hits = u64 (s.metrics.prefix_hits + 1);
          prefix_blocks_saved = u64 (s.metrics.prefix_blocks_saved + cached / c.tokens_per_block);
        };
      },
      record p { shared_prompt_tokens = cached },
    )
    else (s, p)

-- What is done the first time a request is in a plan.
unfoldable pub begin_request :
    ReplayConfig → ℕ → RequestProgress → Replay → Replay × RequestProgress
unfolding share_prefix
begin_request c id p s =
    let s' = record s {
      metrics = record (s.metrics) { requests_admitted = u32 (s.metrics.requests_admitted + 1) };
      waiting = s.waiting - 1;
      live = s.live ++ id ∷ [];
    } in
    let p' = record p { admitted = true; sequences = p.sequences ++ p.request.request_id ∷ [] } in
    if c.prefix_caching && not (text_eq p.request.prefix_key "")
    then share_prefix c (prefix_token_count (cache_of s') p.request.prefix_key) p' s'
    else (s', p')

-- A fork that was made is one of the request's sequences.
unfoldable pub adopt_branch : ℕ → Bool → RequestProgress → Replay → Replay × RequestProgress
adopt_branch child false p s = (s, p)
adopt_branch child true p s = (
  record s { metrics = record (s.metrics) { forks = u64 (s.metrics.forks + 1) } },
  record p { sequences = p.sequences ++ child ∷ [] },
)

abbrev pub branch_metadata : ℕ → TraceRequest → SequenceMetadata
branch_metadata child r = record {
  sequence_id = child;
  request_id = r.request_id;
  multimodal_spans = r.multimodal_spans;
  positional_encoding = r.positional_encoding;
}

-- One parallel sample, which takes the next sequence id.
unfoldable pub fork_branch : RequestProgress → Replay → Replay × RequestProgress
unfolding adopt_branch
fork_branch p s =
    let child = s.next_fork_sequence in
    let (m, forked) =
      fork_sequence (cache_of s) p.request.request_id (branch_metadata child p.request) in
    adopt_branch child forked p (record (set_cache s m) { next_fork_sequence = u64 (child + 1) })

-- The parallel samples of a request, one fork for each of the `n` branches left.
unfoldable pub fork_branches : ℕ → RequestProgress → Replay → Replay × RequestProgress
unfolding fork_branch
fork_branches zero p s = (s, p)
fork_branches (suc n) p s = let (s', p') = fork_branch p s in fork_branches n p' s'

-- What is done once the prompt is in the cache.
unfoldable pub end_prefill : ReplayConfig → RequestProgress → Replay → Replay × RequestProgress
unfolding fork_branches
end_prefill c p s =
    let r = p.request in
    let published =
      if c.prefix_caching && not (text_eq r.prefix_key "")
      then set_cache s ((publish_prefix (cache_of s) r.request_id r.prefix_key).0)
      else s in
    fork_branches (r.num_parallel_samples - 1) p published

abbrev pub decodes : Replay → ℕ → Bool
decodes s id = elim (request_state s.scheduler id) [ none ↦ false | some st ↦ in_decode st ]

-- One request of the plan and its chunk.
unfoldable pub prefill_request : ReplayConfig → ℕ → ℕ → RequestProgress → Replay → Replay
unfolding begin_request end_prefill
prefill_request c id chunk p s =
    let (begun, q) = if p.admitted then (s, p) else begin_request c id p s in
    let (m, metrics') =
      touch_chunk chunk q.committed (cache_of begun) q.request.request_id q.shared_prompt_tokens
        c.tokens_per_block begun.metrics in
    let touched = record (set_cache begun m) { metrics = metrics' } in
    let q' = record q { committed = u32 (q.committed + chunk) } in
    let stepped = record touched {
      scheduler = complete_step touched.scheduler id chunk;
      progress_made = true;
    } in
    let (ended, q'') = if decodes stepped id then end_prefill c q' stepped else (stepped, q') in
    set_progress ended id q''

-- The requests of the plan with their chunks, which are as many.
unfoldable pub prefill_all : ReplayConfig → List ℕ → List ℕ → Replay → Replay
unfolding prefill_request
prefill_all c [] chunks s = s
prefill_all c (id ∷ ids) [] s = s
prefill_all c (id ∷ ids) (chunk ∷ chunks) s =
    prefill_all c ids chunks
      (elim (progress_of s id) [ none ↦ s | some p ↦ prefill_request c id chunk p s ])
