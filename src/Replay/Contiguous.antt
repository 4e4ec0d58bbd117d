-- ===== src/Replay/Contiguous.antt =====
-- run_contiguous of tools/trace_replay/TraceReplay.cpp: the baseline, which reserves one contiguous
-- run of blocks for each request. A reservation's index is always that of a request of the trace.
use qwen_vl_paged.Prelude.{
  ℕ, zero, suc, ◌+◌, ◌-◌, ◌*◌, min, max, Option, none, some, Bool, true, false, ◌||◌, not, List, [],
  ◌∷◌, ◌++◌, leb, ltb, ◌==◌, if◌then◌else◌, length, is_empty, get_elem?, set, drop, u32, u64,
}
use qwen_vl_paged.Block.{byte_size}
use qwen_vl_paged.Replay.Trace.{
  TraceRequest, Trace, ReplayConfig, ReplayMetrics, new_metrics, ceil_div, block_shape,
}

pub record Reservation : Type 0 where
  pub index : ℕ
  pub start_block : ℕ
  pub block_count : ℕ
  pub committed : ℕ
  pub decoded : ℕ

-- The variables of the run.
pub record Baseline : Type 0 where
  pub metrics : ReplayMetrics
  pub used : List Bool
  pub blocks_in_use : ℕ
  pub active : List Reservation
  pub next_pending : ℕ
  pub completed : ℕ

unfoldable pub request_blocks : ReplayConfig → TraceRequest → ℕ
unfolding ceil_div
request_blocks c r =
    ceil_div (min c.baseline_max_context (u32 (r.prompt_tokens + r.decode_budget)))
      c.tokens_per_block

unfoldable pub servable : ReplayConfig → TraceRequest → Bool
unfolding request_blocks
servable c r = not (
    ltb c.baseline_max_context (u32 (r.prompt_tokens + r.decode_budget))
    || ltb c.max_blocks (request_blocks c r))

unfoldable pub never_admissible : ReplayConfig → List TraceRequest → ℕ → ℕ
unfolding servable
never_admissible c [] n = n
never_admissible c (r ∷ rs) n = never_admissible c rs (if servable c r then n else u32 (n + 1))

-- The scan from a block on, behind `run` free blocks in a row.
unfoldable pub first_fit : ℕ → ℕ → ℕ → List Bool → Option ℕ
first_fit needed block run [] = none
first_fit needed block run (u ∷ used) =
    let run' = if u then 0 else run + 1 in
    let rest = first_fit needed (block + 1) run' used in
    if run' == needed then some (block + 1 - needed) else rest

-- used[start + block] for the `n` blocks of a run.
unfoldable pub fill : ℕ → ℕ → Bool → List Bool → List Bool
fill zero start b used = used
fill (suc n) start b used = fill n (start + 1) b (set used start b)

abbrev pub skip : Baseline → Baseline
skip s = record s { next_pending = s.next_pending + 1; completed = s.completed + 1 }

unfoldable pub refuse : ReplayConfig → ℕ → Baseline → Baseline
refuse c needed s =
    if leb needed (c.max_blocks - s.blocks_in_use)
    then record s {
      metrics = record (s.metrics) {
        fragmentation_failures = u64 (s.metrics.fragmentation_failures + 1);
      };
    }
    else s

unfoldable pub reserve : TraceRequest → ℕ → ℕ → Baseline → Baseline
unfolding fill
reserve r needed start s = record s {
  used = fill needed start true s.used;
  blocks_in_use = u32 (s.blocks_in_use + needed);
  active =
      s.active
      ++ record {
        index = s.next_pending;
        start_block = start;
        block_count = needed;
        committed = r.prompt_tokens;
        decoded = 0;
      }
        ∷ [];
  metrics = record (s.metrics) { requests_admitted = u32 (s.metrics.requests_admitted + 1) };
  next_pending = s.next_pending + 1;
}

-- One round of the admission loop, and whether it goes on.
unfoldable pub admit_one : ReplayConfig → TraceRequest → Baseline → Baseline × Bool
unfolding servable first_fit refuse reserve
admit_one c r s =
    if servable c r
    then elim (first_fit (request_blocks c r) 0 0 s.used) [
      | none ↦ (refuse c (request_blocks c r) s, false)
      | some start ↦ (reserve r (request_blocks c r) start s, true)
    ]
    else (skip s, true)

-- The admission loop over the requests from next_pending on, and whether it made progress.
unfoldable pub admit_pending : ReplayConfig → List TraceRequest → Baseline → Bool → Baseline × Bool
unfolding admit_one
admit_pending c [] s made = (s, made)
admit_pending c (r ∷ rs) s made = elim (ltb (length s.active) c.max_active_requests) [
  | false ↦ (s, made)
  | true ↦ elim ((admit_one c r s).1) [
    | false ↦ ((admit_one c r s).0, made)
    | true ↦ admit_pending c rs ((admit_one c r s).0) true
  ]
]

abbrev pub decode_actual_of : List TraceRequest → ℕ → ℕ
decode_actual_of rs i = elim (get_elem? rs i) [ none ↦ 0 | some r ↦ r.decode_actual ]

abbrev pub decode_token : Reservation → Reservation
decode_token v = record v { committed = u32 (v.committed + 1); decoded = u32 (v.decoded + 1) }

abbrev pub count_token : Baseline → Baseline
count_token s = record s {
  metrics = record (s.metrics) { tokens_decoded = u64 (s.metrics.tokens_decoded + 1) };
}

-- A request that has ended gives its run back.
unfoldable pub finish : Reservation → Baseline → Baseline
unfolding fill
finish v s = record s {
  used = fill v.block_count v.start_block false s.used;
  blocks_in_use = s.blocks_in_use - v.block_count;
  completed = s.completed + 1;
}

abbrev pub last_of : Reservation → List Reservation → Reservation
last_of v [] = v
last_of v (w ∷ ws) = last_of w ws

abbrev pub init_of : Reservation → List Reservation → List Reservation
init_of v [] = []
init_of v (w ∷ ws) = v ∷ init_of w ws

-- `active[i] = active.back(); active.pop_back();`, of the reservations behind the one at i.
abbrev pub swap_back : List Reservation → List Reservation
swap_back [] = []
swap_back (v ∷ vs) = last_of v vs ∷ init_of v vs

-- The loop over `active`: `front` stands before i, and the list from i on. Each round leaves one
-- reservation fewer from i on.
unfoldable pub decode_from :
    List TraceRequest → ℕ → List Reservation → List Reservation → Baseline → Baseline
unfolding finish
decode_from rs zero front rest s = record s { active = front ++ rest }
decode_from rs (suc fuel) front [] s = record s { active = front }
decode_from rs (suc fuel) front (v ∷ rest) s =
    elim (leb (decode_actual_of rs v.index) ((decode_token v).decoded)) [
      | true ↦ decode_from rs fuel front (swap_back rest) (finish v (count_token s))
      | false ↦ decode_from rs fuel (front ++ decode_token v ∷ []) rest (count_token s)
    ]

unfoldable pub decode_active : List TraceRequest → Baseline → Baseline
unfolding decode_from
decode_active rs s = decode_from rs (length s.active) [] s.active s

-- What one reservation adds to the metrics.
unfoldable pub observe_active : ℕ → List Reservation → ReplayMetrics → ReplayMetrics
observe_active tpb [] m = m
observe_active tpb (v ∷ vs) m = observe_active tpb vs (record m {
  committed_tokens = u64 (m.committed_tokens + v.committed);
  max_partial_block_slack =
      if ltb v.committed (u32 (v.block_count * tpb))
      then max m.max_partial_block_slack (u32 (v.block_count * tpb) - v.committed)
      else m.max_partial_block_slack;
})

unfoldable pub observe : Trace → ReplayConfig → ℕ → Baseline → Baseline
unfolding observe_active
observe t c admitted_before s =
    let m = s.metrics in
    let stalled = ltb s.next_pending (length t.requests) in
    record s {
      metrics = observe_active c.tokens_per_block s.active (record m {
        head_of_line_stall_steps =
            if stalled
            then if admitted_before == s.next_pending
              then u64 (m.head_of_line_stall_steps + 1)
              else m.head_of_line_stall_steps
            else m.head_of_line_stall_steps;
        peak_active_requests = max m.peak_active_requests (u32 (length s.active));
        peak_blocks_in_use = max m.peak_blocks_in_use s.blocks_in_use;
        peak_bytes_in_use =
            max m.peak_bytes_in_use (u64 (s.blocks_in_use * byte_size (block_shape t c)));
        reserved_token_slots =
            u64 (m.reserved_token_slots + u64 (s.blocks_in_use * c.tokens_per_block));
      });
    }

-- One round of the outer loop, and whether it made progress.
unfoldable pub round : Trace → ReplayConfig → Baseline → Baseline × Bool
unfolding admit_pending decode_active observe
round t c s =
    let begun = record s { metrics = record (s.metrics) { steps = u64 (s.metrics.steps + 1) } } in
    let (admitted, made) = admit_pending c (drop s.next_pending t.requests) begun false in
    (
      observe t c s.next_pending (decode_active t.requests admitted),
      made || not (is_empty admitted.active),
    )

-- The outer loop, with the steps that max_steps leaves.
unfoldable pub rounds : Trace → ReplayConfig → ℕ → Baseline → Baseline
unfolding round
rounds t c zero s = s
rounds t c (suc n) s = elim (ltb s.completed (length t.requests)) [
  | false ↦ s
  | true ↦ elim ((round t c s).1) [
    | false ↦ (round t c s).0
    | true ↦ rounds t c n ((round t c s).0)
  ]
]

abbrev pub all_free : ℕ → List Bool
all_free zero = []
all_free (suc n) = false ∷ all_free n

unfoldable pub new_baseline : Trace → ReplayConfig → Baseline
unfolding never_admissible
new_baseline t c = record {
  metrics = record (new_metrics "contiguous") {
    requests_never_admissible = never_admissible c t.requests 0;
  };
  used = all_free c.max_blocks;
  blocks_in_use = 0;
  active = [];
  next_pending = 0;
  completed = 0;
}

unfoldable pub run_contiguous : Trace → ReplayConfig → ReplayMetrics
unfolding rounds new_baseline
run_contiguous t c =
    let s = rounds t c c.max_steps (new_baseline t c) in
    record (s.metrics) {
      requests_completed = u32 s.completed;
      completed = s.completed == length t.requests;
      leak_free = s.blocks_in_use == 0;
    }
