-- ===== src/Replay/Json.antt =====
-- What tools/trace_replay/TraceReplay.cpp uses of nlohmann::json. `J` is its value type; a call
-- that throws has its exception's text instead of a result.
use qwen_vl_paged.Prelude.{ℕ, String, List}
use qwen_vl_paged.Prelude.Int.{ℤ}

pub data Result (A : Type 0) : Type 0 where
  raised : String → Result A
  returned : A → Result A

-- What is done with a result; an exception goes on to the caller.
unfoldable pub and_then : {A B : Type 0} → Result A → (A → Result B) → Result B
and_then (raised what) f = raised what
and_then (returned a) f = f a

pub record Json (J : Type 0) : Type 0 where
  -- json::parse
  pub parse : String → Result J
  -- at with a key, and at with an index
  pub member : J → String → Result J
  pub item : J → ℕ → Result J
  -- value with a key and a default text
  pub value : J → String → String → Result String
  -- the elements that a range-based for visits
  pub items : J → List J
  -- get at the types that the reader asks for
  pub get_string : J → Result String
  pub get_uint32 : J → Result ℕ
  pub get_uint64 : J → Result ℕ
  pub get_int64 : J → Result ℤ
  pub get_int : J → Result ℤ
