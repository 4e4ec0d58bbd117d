-- ===== src/Tests/Traces.antt =====
-- Traces of a few requests, replayed on pools of a few blocks of two tokens.
use qwen_vl_paged.Prelude.{ℕ, ◌≡◌, refl, true, false, List, [], ◌∷◌, some, arith, length}
use qwen_vl_paged.Replay.Trace.{TraceRequest, Trace, ReplayConfig, ceil_div}
use qwen_vl_paged.Replay.Contiguous.{
  run_contiguous, request_blocks, servable, first_fit, round, rounds, new_baseline,
}
use qwen_vl_paged.Replay.Runs.{Answers, first_fit_lem}
use qwen_vl_paged.Replay.Rounds.{IsReserved, rounds-new_baseline-IsReserved}
use qwen_vl_paged.Replay.Completes.{run_contiguous-completes}
use qwen_vl_paged.Replay.Stalls.{first_round-stalls}

abbrev ask : ℕ → ℕ → ℕ → ℕ → TraceRequest
ask i prompt budget actual = record {
  request_id = i;
  arrival_us = 0;
  text_tokens = prompt;
  prompt_tokens = prompt;
  decode_budget = budget;
  decode_actual = actual;
  num_parallel_samples = 1;
  prefix_key = "";
  images = [];
  multimodal_spans = [];
  positional_encoding = record { spans = [] };
}

abbrev trace : List TraceRequest → Trace
trace requests = record {
  header = record {
    model = "";
    mix = "";
    dimension_source = "";
    pixel_budget = "";
    seed = 0;
    num_requests = length requests;
    num_layers = 1;
    num_kv_heads = 1;
    head_dim = 1;
    bytes_per_element = 1;
    max_prompt_tokens = 8;
    max_decode_budget = 8;
    visual_tokens_max = 0;
    images_total = 0;
  };
  requests = requests;
}

abbrev config : ReplayConfig
config = record {
  tokens_per_block = 2;
  max_blocks = 4;
  max_active_requests = 2;
  max_batch_tokens = 8;
  preemption_watermark_blocks = 0;
  swap_slots = 0;
  size_aware_admission = false;
  admission_skip_limit = 8;
  prefix_caching = false;
  baseline_max_context = 16;
  max_steps = 20;
}

-- Three requests: the first two fit together, the third waits, and a fourth cannot be served.
abbrev mixed : Trace
mixed = trace (ask 1 2 2 1 ∷ ask 2 3 1 2 ∷ ask 3 4 4 3 ∷ ask 4 9 9 1 ∷ [])

abbrev served : Trace
served = trace (ask 1 2 2 1 ∷ ask 2 3 1 2 ∷ [])

first_fit_lem_example : Answers (true ∷ false ∷ true ∷ false ∷ false ∷ []) 2 (some 3)
unfolding first_fit
first_fit_lem_example = first_fit_lem (true ∷ false ∷ true ∷ false ∷ false ∷ []) 2 (omega arith)

rounds-new_baseline-IsReserved_example :
    IsReserved config (rounds mixed config 1 (new_baseline mixed config))
rounds-new_baseline-IsReserved_example = rounds-new_baseline-IsReserved mixed config 1 (omega arith)

run_contiguous-completes_example :
    ((run_contiguous mixed config).completed ≡ true)
    × ((run_contiguous mixed config).leak_free ≡ true)
unfolding request_blocks servable ceil_div
run_contiguous-completes_example =
    run_contiguous-completes mixed config (omega arith) refl (omega arith) refl (omega arith)

contiguous_lem : (run_contiguous mixed config).steps ≡ 5
unfolding run_contiguous
contiguous_lem = refl

first_round-stalls_example :
    ((round (trace (ask 1 0 0 0 ∷ [])) config (new_baseline (trace (ask 1 0 0 0 ∷ [])) config)).1
      ≡ false)
    × ((round
          (trace (ask 1 0 0 0 ∷ []))
          config
          (new_baseline (trace (ask 1 0 0 0 ∷ [])) config)).0.completed
        ≡ 0)
unfolding request_blocks servable ceil_div
first_round-stalls_example =
    first_round-stalls (trace (ask 1 0 0 0 ∷ [])) config (ask 1 0 0 0) [] refl refl refl
      (omega arith)
