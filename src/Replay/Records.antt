-- ===== src/Replay/Records.antt =====
-- The readers of one record in tools/trace_replay/TraceReplay.cpp: kind_from_string,
-- position_from_json, header_from_json and request_from_json.
use qwen_vl_paged.Prelude.{ℕ, ◌+◌, Bool, String, List, [], ◌∷◌, ◌++◌, if◌then◌else◌, text_eq, u32}
use qwen_vl_paged.Manager.State.{
  MultimodalSpan, PositionEncodingKind, text_1d, image_2d, video_3d, Position3D,
  PositionalEncodingSpan,
}
use qwen_vl_paged.Replay.Trace.{TraceHeader, TraceImage, TraceRequest}
use qwen_vl_paged.Replay.Json.{Json, Result, returned, and_then}

unfoldable pub kind_from_string : String → PositionEncodingKind
kind_from_string name =
    if text_eq name "image" then image_2d else if text_eq name "video" then video_3d else text_1d

-- The spans of visual tokens, with their features counted.
abbrev pub Spans : Type 0
Spans = List PositionalEncodingSpan × List MultimodalSpan

abbrev pub is_text : PositionEncodingKind → Bool
is_text text_1d = Bool.true
is_text _ = Bool.false

-- A span, and its feature where it is not text; `index` is feature_index.
unfoldable pub add_span : PositionalEncodingSpan → ℕ → Spans → Spans
add_span span index (spans, features) = (
  spans ++ span ∷ [],
  if is_text span.kind
      then features
      else features
        ++ record {
          start_token = span.start_token;
          token_count = span.token_count;
          feature_index = index;
        }
          ∷ [],
)

abbrev pub next_feature : PositionalEncodingSpan → ℕ → ℕ
next_feature span index = if is_text span.kind then index else u32 (index + 1)

module _ {J : Type 0} (json : Json J) where
  abbrev pub uint32 : J → String → Result ℕ
  uint32 j name = and_then (json.member j name) json.get_uint32

  abbrev pub uint64 : J → String → Result ℕ
  uint64 j name = and_then (json.member j name) json.get_uint64

  abbrev pub text : J → String → Result String
  text j name = and_then (json.member j name) json.get_string

  unfoldable pub position_from_json : J → Result Position3D
  position_from_json j = and_then (and_then (json.item j 0) json.get_int64) (λ temporal.
      and_then (and_then (json.item j 1) json.get_int64) (λ height.
        and_then (and_then (json.item j 2) json.get_int64)
          (λ width. returned (record { temporal = temporal; height = height; width = width }))))

  unfoldable pub header_from_json : J → Result TraceHeader
  header_from_json j = and_then (text j "model") (λ model. and_then (text j "mix") (λ mix.
      and_then (text j "dimension_source") (λ dimension_source.
        and_then (text j "pixel_budget") (λ pixel_budget. and_then (uint64 j "seed") (λ seed.
          and_then (uint32 j "num_requests") (λ num_requests.
            and_then (uint32 j "num_layers") (λ num_layers.
              and_then (uint32 j "num_kv_heads") (λ num_kv_heads.
                and_then (uint32 j "head_dim") (λ head_dim.
                  and_then (uint32 j "bytes_per_element") (λ bytes_per_element.
                    and_then (uint32 j "max_prompt_tokens") (λ max_prompt_tokens.
                      and_then (uint32 j "max_decode_budget") (λ max_decode_budget.
                        and_then (uint32 j "visual_tokens_max") (λ visual_tokens_max.
                          and_then (uint32 j "images_total") (λ images_total. returned (record {
                            model = model;
                            mix = mix;
                            dimension_source = dimension_source;
                            pixel_budget = pixel_budget;
                            seed = seed;
                            num_requests = num_requests;
                            num_layers = num_layers;
                            num_kv_heads = num_kv_heads;
                            head_dim = head_dim;
                            bytes_per_element = bytes_per_element;
                            max_prompt_tokens = max_prompt_tokens;
                            max_decode_budget = max_decode_budget;
                            visual_tokens_max = visual_tokens_max;
                            images_total = images_total;
                          })))))))))))))))

  unfoldable pub image_from_json : J → Result TraceImage
  image_from_json j = and_then (uint32 j "grid_t") (λ grid_t.
      and_then (uint32 j "grid_h") (λ grid_h. and_then (uint32 j "grid_w") (λ grid_w.
        and_then (uint32 j "visual_tokens") (λ visual_tokens. returned (record {
          grid_t = grid_t;
          grid_h = grid_h;
          grid_w = grid_w;
          visual_tokens = visual_tokens;
        })))))

  unfoldable pub images_from : List J → Result (List TraceImage)
  unfolding image_from_json
  images_from [] = returned []
  images_from (j ∷ js) =
      and_then (image_from_json j)
        (λ image. and_then (images_from js) (λ images. returned (image ∷ images)))

  unfoldable pub span_from_json : J → Result PositionalEncodingSpan
  unfolding position_from_json kind_from_string
  span_from_json j = and_then (uint32 j "start_token") (λ start_token.
      and_then (uint32 j "token_count") (λ token_count. and_then (text j "kind") (λ kind.
        and_then (and_then (json.member j "origin") position_from_json) (λ origin.
          and_then (and_then (json.member j "stride") position_from_json) (λ stride.
            returned (record {
              start_token = start_token;
              token_count = token_count;
              kind = kind_from_string kind;
              origin = origin;
              stride = stride;
            }))))))

  unfoldable pub spans_from : ℕ → List J → Spans → Result Spans
  unfolding span_from_json add_span
  spans_from index [] spans = returned spans
  spans_from index (j ∷ js) spans =
      and_then (span_from_json j)
        (λ span. spans_from (next_feature span index) js (add_span span index spans))

  unfoldable pub request_from_json : J → Result TraceRequest
  unfolding images_from spans_from
  request_from_json j = and_then (uint64 j "request_id") (λ request_id.
      and_then (uint64 j "arrival_us") (λ arrival_us.
        and_then (uint32 j "text_tokens") (λ text_tokens.
          and_then (uint32 j "prompt_tokens") (λ prompt_tokens.
            and_then (uint32 j "decode_budget") (λ decode_budget.
              and_then (uint32 j "decode_actual") (λ decode_actual.
                and_then (uint32 j "num_parallel_samples") (λ num_parallel_samples.
                  and_then (text j "prefix_key") (λ prefix_key.
                    and_then (and_then (json.member j "images") (λ a. images_from (json.items a)))
                      (λ images.
                        and_then
                          (and_then (json.member j "mrope_spans")
                            (λ a. spans_from 0 (json.items a) ([], [])))
                          (λ spans. returned (record {
                            request_id = request_id;
                            arrival_us = arrival_us;
                            text_tokens = text_tokens;
                            prompt_tokens = prompt_tokens;
                            decode_budget = decode_budget;
                            decode_actual = decode_actual;
                            num_parallel_samples = num_parallel_samples;
                            prefix_key = prefix_key;
                            images = images;
                            multimodal_spans = spans.1;
                            positional_encoding = record { spans = spans.0 };
                          })))))))))))
