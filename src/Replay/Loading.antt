-- ===== src/Replay/Loading.antt =====
-- load_trace of tools/trace_replay/TraceReplay.cpp. The lines of the file are given, or none where it
-- cannot be opened; an error is told by its kind and its line, of which the source makes a text.
use qwen_vl_paged.Prelude.{
  ℕ, ◌+◌, Option, none, some, Bool, false, String, List, [], ◌∷◌, ◌++◌, if◌then◌else◌, text_eq,
  ◌==◌,
}
use qwen_vl_paged.Prelude.Int.{ℤ, pos, negsuc}
use qwen_vl_paged.Replay.Trace.{TraceHeader, TraceRequest, Trace}
use qwen_vl_paged.Replay.Json.{Json, Result, raised, returned, and_then}
use qwen_vl_paged.Replay.Records.{header_from_json, request_from_json}

pub data LoadError : Type 0 where
  cannot_open : LoadError
  malformed : ℕ → String → LoadError
  bad_field : ℕ → String → LoadError
  unsupported_version : ℤ → LoadError
  unknown_record : ℕ → String → LoadError
  missing_header : LoadError

pub data Loaded (A : Type 0) : Type 0 where
  failed : LoadError → Loaded A
  loaded : A → Loaded A

abbrev pub is_supported : ℤ → Bool
is_supported (pos n) = n == 1
is_supported (negsuc n) = false

-- What a record is: a header, a request, or neither.
pub data Entry : Type 0 where
  header_entry : TraceHeader → Entry
  wrong_version : ℤ → Entry
  request_entry : TraceRequest → Entry
  unknown_entry : String → Entry

-- The trace read so far, with its header once there was one.
pub record Reading : Type 0 where
  pub header : Option TraceHeader
  pub requests : List TraceRequest

module _ {J : Type 0} (json : Json J) where
  unfoldable pub header_record : J → Result Entry
  header_record j = and_then (and_then (json.member j "schema_version") json.get_int) (λ version.
      if is_supported version
      then and_then (header_from_json json j) (λ header. returned (header_entry header))
      else returned (wrong_version version))

  unfoldable pub entry_from_json : J → Result Entry
  unfolding header_record
  entry_from_json j = and_then (json.value j "record" "") (λ kind.
      if text_eq kind "header"
      then header_record j
      else if text_eq kind "request"
      then and_then (request_from_json json j) (λ r. returned (request_entry r))
      else returned (unknown_entry kind))

  unfoldable pub add_entry : ℕ → Reading → Entry → Loaded Reading
  add_entry n t (header_entry header) = loaded (record t { header = some header })
  add_entry n t (wrong_version version) = failed (unsupported_version version)
  add_entry n t (request_entry r) = loaded (record t { requests = t.requests ++ r ∷ [] })
  add_entry n t (unknown_entry kind) = failed (unknown_record n kind)

  -- Line number `n`.
  unfoldable pub load_line : ℕ → Reading → String → Loaded Reading
  unfolding entry_from_json add_entry
  load_line n t line = if text_eq line "" then loaded t else elim (json.parse line) [
    | raised what ↦ failed (malformed n what)
    | returned j ↦ elim (entry_from_json j) [
      | raised what ↦ failed (bad_field n what)
      | returned entry ↦ add_entry n t entry
    ]
  ]

  -- The lines after the first `n`.
  unfoldable pub load_lines : ℕ → Reading → List String → Loaded Reading
  unfolding load_line
  load_lines n t [] = loaded t
  load_lines n t (line ∷ lines) = elim (load_line (n + 1) t line) [
    | failed error ↦ failed error
    | loaded t' ↦ load_lines (n + 1) t' lines
  ]

  unfoldable pub finish_trace : Reading → Loaded Trace
  finish_trace t = elim t.header [
    | none ↦ failed missing_header
    | some header ↦ loaded (record { header = header; requests = t.requests })
  ]

  unfoldable pub load_trace : Option (List String) → Loaded Trace
  unfolding load_lines finish_trace
  load_trace none = failed cannot_open
  load_trace (some lines) = elim (load_lines 0 (record { header = none; requests = [] }) lines) [
    | failed error ↦ failed error
    | loaded t ↦ finish_trace t
  ]
