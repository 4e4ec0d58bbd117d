-- ===== src/Tests/Files.antt =====
-- A file of one header and one request, over values that are texts.
use qwen_vl_paged.Prelude.{
  ◌≡◌, refl, String, List, [], ◌∷◌, ◌++◌, some, none, if◌then◌else◌, text_eq,
}
use qwen_vl_paged.Prelude.Int.{pos}
use qwen_vl_paged.Replay.Trace.{TraceHeader, TraceRequest}
use qwen_vl_paged.Replay.Json.{Json, raised, returned, and_then}
use qwen_vl_paged.Replay.Records.{header_from_json, request_from_json}
use qwen_vl_paged.Replay.Loading.{malformed, failed, load_trace}
use qwen_vl_paged.Replay.Reads.{requests_of, header_of, load_trace-requests_of, load_trace-fails}

-- A line is a record of the kind that it names; its fields are texts and ones.
abbrev texts : Json String
texts = record {
  parse = λ line. if text_eq line "{" then raised "syntax" else returned line;
  member = λ j name. returned name;
  item = λ j i. returned j;
  value = λ j name default. returned j;
  items = λ j. [];
  get_string = λ j. returned j;
  get_uint32 = λ j. returned 1;
  get_uint64 = λ j. returned 7;
  get_int64 = λ j. returned (pos 0);
  get_int = λ j. returned (pos 1);
}

abbrev header : TraceHeader
header = record {
  model = "model";
  mix = "mix";
  dimension_source = "dimension_source";
  pixel_budget = "pixel_budget";
  seed = 7;
  num_requests = 1;
  num_layers = 1;
  num_kv_heads = 1;
  head_dim = 1;
  bytes_per_element = 1;
  max_prompt_tokens = 1;
  max_decode_budget = 1;
  visual_tokens_max = 1;
  images_total = 1;
}

abbrev request : TraceRequest
request = record {
  request_id = 7;
  arrival_us = 7;
  text_tokens = 1;
  prompt_tokens = 1;
  decode_budget = 1;
  decode_actual = 1;
  num_parallel_samples = 1;
  prefix_key = "prefix_key";
  images = [];
  multimodal_spans = [];
  positional_encoding = record { spans = [] };
}

abbrev lines : List String
lines = "header" ∷ "" ∷ "request" ∷ []

load_trace-requests_of_example :
    (request ∷ [] ≡ requests_of texts lines) × (header_of texts lines none ≡ some header)
unfolding load_trace and_then header_from_json request_from_json
load_trace-requests_of_example =
    load_trace-requests_of texts lines (record { header = header; requests = request ∷ [] }) refl

load_trace-fails_example :
    load_trace texts (some (lines ++ "{" ∷ "request" ∷ [])) ≡ failed (malformed 4 "syntax")
unfolding load_trace and_then header_from_json request_from_json
load_trace-fails_example =
    load_trace-fails texts lines "{" ("request" ∷ [])
      (record { header = some header; requests = request ∷ [] }) (malformed 4 "syntax") refl refl
