-- ===== src/Replay/Reads.antt =====
-- What load_trace of tools/trace_replay/TraceReplay.cpp makes of the lines of a file.
use qwen_vl_paged.Prelude.{
  ℕ, ◌+◌, ◌≡◌, ◌⊎◌, refl, sym, ap, ◌∙◌, Option, none, some, String, List, [], ◌∷◌, ◌++◌,
  if◌then◌else◌, text_eq, length, arith, Bool-cases, Option-cases, inl, inr,
}
use mathlib.Core.Path.{subst}
use qwen_vl_paged.Replay.Trace.{TraceHeader, TraceRequest, Trace}
use qwen_vl_paged.Replay.Json.{Json, Result, raised, returned}
use qwen_vl_paged.Replay.Loading.{
  LoadError, malformed, bad_field, missing_header, Loaded, failed, loaded, Entry, header_entry,
  wrong_version, request_entry, unknown_entry, Reading, entry_from_json, add_entry, load_line,
  load_lines, finish_trace, load_trace,
}

-- The entry of a line, if it has one.
abbrev pub entry_of : Result Entry → Option Entry
entry_of (raised what) = none
entry_of (returned entry) = some entry

abbrev pub requests_with : Option Entry → List TraceRequest → List TraceRequest
requests_with (some (request_entry r)) rs = r ∷ rs
requests_with _ rs = rs

abbrev pub header_with : Option Entry → Option TraceHeader → Option TraceHeader
header_with (some (header_entry h)) before = some h
header_with _ before = before

Result-cases :
    {A : Type 0} (r : Result A)
    → ((what : String) × (r ≡ raised what)) ⊎ ((a : A) × (r ≡ returned a))
Result-cases (raised what) = inl (what, refl)
Result-cases (returned a) = inr (a, refl)

Loaded-cases :
    {A : Type 0} (r : Loaded A)
    → ((error : LoadError) × (r ≡ failed error)) ⊎ ((a : A) × (r ≡ loaded a))
Loaded-cases (failed error) = inl (error, refl)
Loaded-cases (loaded a) = inr (a, refl)

loaded_same : {A : Type 0} (x : A) {a b : A} → loaded a ≡ loaded b → a ≡ b
loaded_same x e = ap (λ r. elim r [ failed error ↦ x | loaded y ↦ y ]) e

failed_not : {A : Type 0} {error : LoadError} {a : A} → failed error ≡ loaded a → ⊥
failed_not e = ground (arith, e)

append_assoc : {A : Type 0} (xs ys zs : List A) → (xs ++ ys) ++ zs ≡ xs ++ (ys ++ zs)
append_assoc [] ys zs = refl
append_assoc (x ∷ xs) ys zs = ap (λ l. x ∷ l) (append_assoc xs ys zs)

append_nil : {A : Type 0} (xs : List A) → xs ++ [] ≡ xs
append_nil [] = refl
append_nil (x ∷ xs) = ap (λ l. x ∷ l) (append_nil xs)

module _ {J : Type 0} (json : Json J) where
  unfoldable pub line_entry : String → Option Entry
  line_entry line = if text_eq line "" then none else elim (json.parse line) [
    | raised what ↦ none
    | returned j ↦ entry_of (entry_from_json json j)
  ]

  -- The requests of the lines, in their order, and the last header, or the one before them.
  unfoldable pub requests_of : List String → List TraceRequest
  requests_of [] = []
  requests_of (line ∷ lines) = requests_with (line_entry line) (requests_of lines)

  unfoldable pub header_of : List String → Option TraceHeader → Option TraceHeader
  header_of [] before = before
  header_of (line ∷ lines) before = header_of lines (header_with (line_entry line) before)

  -- A line that is read adds its entry.
  Adds : Reading → Option Entry → Reading → Type 0
  Adds t entry t' =
      ((rs : List TraceRequest) → t'.requests ++ rs ≡ t.requests ++ requests_with entry rs)
      × (t'.header ≡ header_with entry t.header)

  add_entry-Adds :
      (n : ℕ) (t : Reading) (entry : Entry) (t' : Reading)
      → add_entry json n t entry ≡ loaded t'
      → Adds t (some entry) t'
  unfolding add_entry Adds
  add_entry-Adds n t (header_entry h) t' e =
      subst (λ z. Adds t (some (header_entry h)) z) (loaded_same t e) (λ rs. refl, refl)
  add_entry-Adds n t (wrong_version version) t' e = absurd (failed_not e)
  add_entry-Adds n t (request_entry r) t' e =
      subst (λ z. Adds t (some (request_entry r)) z) (loaded_same t e)
        (λ rs. append_assoc t.requests (r ∷ []) rs, refl)
  add_entry-Adds n t (unknown_entry kind) t' e = absurd (failed_not e)

  -- What a line is, and what load_line makes of it.
  abbrev Outcome : ℕ → Reading → String → Type 0
  Outcome n t line =
      ((load_line json n t line ≡ loaded t) × (line_entry line ≡ none))
      ⊎ ((((error : LoadError) × (load_line json n t line ≡ failed error)))
          ⊎ ((entry : Entry) × ((load_line json n t line ≡ add_entry json n t entry)
                × (line_entry line ≡ some entry))))

  load_line_cases : (n : ℕ) (t : Reading) (line : String) → Outcome n t line
  unfolding load_line line_entry
  load_line_cases n t line = elim (Bool-cases (text_eq line "")) [
    | inl blank ↦ inl (rw (blank, load_line) refl, rw (blank, line_entry) refl)
    | inr full ↦ elim (Result-cases (json.parse line)) [
      | inl (what, e) ↦ inr (inl (malformed n what, rw (full, e, load_line) refl))
      | inr (j, e) ↦ elim (Result-cases (entry_from_json json j)) [
        | inl (what, e') ↦ inr (inl (bad_field n what, rw (full, e, e', load_line) refl))
        | inr (entry, e') ↦
            inr (inr (entry, (rw (full, e, e', load_line) refl, rw (full, e, e', line_entry) refl)))
      ]
    ]
  ]

  load_line-Adds :
      (n : ℕ) (t : Reading) (line : String) (t' : Reading)
      → load_line json n t line ≡ loaded t'
      → Adds t (line_entry line) t'
  unfolding Adds
  load_line-Adds n t line t' e = elim (load_line_cases n t line) [
    | inl (keeps, entry) ↦
        subst (λ z. Adds t z t') (sym entry)
          (subst (λ z. Adds t none z) (loaded_same t (sym keeps ∙ e)) (λ rs. refl, refl))
    | inr (inl (error, fails)) ↦ absurd (failed_not (sym fails ∙ e))
    | inr (inr (found, (adds, entry))) ↦
        subst (λ z. Adds t z t') (sym entry) (add_entry-Adds n t found t' (sym adds ∙ e))
  ]

  lines_next :
      (n : ℕ) (t : Reading) (line : String) (lines : List String) (t' : Reading)
      → load_line json (n + 1) t line ≡ loaded t'
      → load_lines json n t (line ∷ lines) ≡ load_lines json (n + 1) t' lines
  unfolding load_lines
  lines_next n t line lines t' e = rw (e, load_lines) refl

  pub lines_stop :
      (n : ℕ) (t : Reading) (line : String) (lines : List String) (error : LoadError)
      → load_line json (n + 1) t line ≡ failed error
      → load_lines json n t (line ∷ lines) ≡ failed error
  unfolding load_lines
  lines_stop n t line lines error e = rw (e, load_lines) refl

  load_lines_lem :
      (lines : List String) (n : ℕ) (t t' : Reading)
      → load_lines json n t lines ≡ loaded t'
      → (t'.requests ≡ t.requests ++ requests_of lines) × (t'.header ≡ header_of lines t.header)
  unfolding load_lines requests_of header_of Adds
  load_lines_lem [] n t t' e = (
    sym (append_nil t'.requests) ∙ ap (λ z. z.requests ++ []) (sym same),
    ap (λ z. z.header) (sym same),
  )
    where
      same : t ≡ t'
      same = loaded_same t e
  load_lines_lem (line ∷ lines) n t t' e = elim (Loaded-cases (load_line json (n + 1) t line)) [
    | inl (error, fails) ↦ absurd (failed_not (sym (lines_stop n t line lines error fails) ∙ e))
    | inr (t1, adds) ↦
        further t1 (load_line-Adds (n + 1) t line t1 adds)
          (load_lines_lem lines (n + 1) t1 t' (sym (lines_next n t line lines t1 adds) ∙ e))
  ]
    where
      further :
          (t1 : Reading)
          → Adds t (line_entry line) t1
          → (t'.requests ≡ t1.requests ++ requests_of lines)
            × (t'.header ≡ header_of lines t1.header)
          → (t'.requests ≡ t.requests ++ requests_of (line ∷ lines))
            × (t'.header ≡ header_of (line ∷ lines) t.header)
      further t1 a rest = (rest.0 ∙ a.0 (requests_of lines), rest.1 ∙ ap (header_of lines) a.1)

  no_lines : Reading
  no_lines = record { header = none; requests = [] }

  trace_of :
      (lines : List String) (trace : Trace)
      → load_trace json (some lines) ≡ loaded trace
      → (t : Reading) × ((load_lines json 0 no_lines lines ≡ loaded t)
          × (finish_trace json t ≡ loaded trace))
  unfolding load_trace no_lines
  trace_of lines trace e = elim (Loaded-cases (load_lines json 0 no_lines lines)) [
    | inl (error, fails) ↦ absurd (failed_not (sym (stops error fails) ∙ e))
    | inr (t, reads) ↦ (t, (reads, sym (finishes t reads) ∙ e))
  ]
    where
      stops :
          (error : LoadError)
          → load_lines json 0 no_lines lines ≡ failed error
          → load_trace json (some lines) ≡ failed error
      stops error fails = rw (fails, load_trace) refl

      finishes :
          (t : Reading)
          → load_lines json 0 no_lines lines ≡ loaded t
          → load_trace json (some lines) ≡ finish_trace json t
      finishes t reads = rw (reads, load_trace) refl

  finish_trace_lem :
      (t : Reading) (trace : Trace)
      → finish_trace json t ≡ loaded trace
      → (trace.requests ≡ t.requests) × (some trace.header ≡ t.header)
  unfolding finish_trace
  finish_trace_lem t trace e = elim (Option-cases t.header) [
    | inl missing ↦ absurd (failed_not (sym (stops missing) ∙ e))
    | inr (header, there) ↦ (
      ap (λ z. z.requests) (sym (same header there)),
      ap (λ z. some (z.header)) (sym (same header there)) ∙ sym there,
    )
  ]
    where
      stops : t.header ≡ none → finish_trace json t ≡ failed missing_header
      stops missing = rw (missing, finish_trace) refl

      ends :
          (header : TraceHeader)
          → t.header ≡ some header
          → finish_trace json t ≡ loaded (record { header = header; requests = t.requests })
      ends header there = rw (there, finish_trace) refl

      same :
          (header : TraceHeader)
          → t.header ≡ some header
          → record { header = header; requests = t.requests } ≡ trace
      same header there = loaded_same trace (sym (ends header there) ∙ e)

  load_lines-stop :
      (xs : List String) (n : ℕ) (before t : Reading) (line : String) (ys : List String)
      (error : LoadError)
      → load_lines json n before xs ≡ loaded t
      → load_line json (n + length xs + 1) t line ≡ failed error
      → load_lines json n before (xs ++ line ∷ ys) ≡ failed error
  unfolding load_lines
  load_lines-stop [] n before t line ys error reads fails = lines_stop n before line ys error (
      subst (λ z. load_line json (n + 1) z line ≡ failed error) (sym (loaded_same t reads))
        (subst (λ z. load_line json z t line ≡ failed error) (omega arith) fails))
  load_lines-stop (x ∷ xs) n before t line ys error reads fails =
      elim (Loaded-cases (load_line json (n + 1) before x)) [
        | inl (error', stops) ↦
            absurd (failed_not (sym (lines_stop n before x xs error' stops) ∙ reads))
        | inr (next, adds) ↦
            lines_next n before x (xs ++ line ∷ ys) next adds
            ∙ load_lines-stop xs (n + 1) next t line ys error
                (sym (lines_next n before x xs next adds) ∙ reads)
                (subst (λ z. load_line json z t line ≡ failed error) (omega arith) fails)
      ]

-- A file that is read gives the requests of its request lines, in their order, and the last of its
-- headers, of which it has one.
pub load_trace-requests_of :
    {J : Type 0} (json : Json J) (lines : List String) (trace : Trace)
    → load_trace json (some lines) ≡ loaded trace
    → (trace.requests ≡ requests_of json lines) × (header_of json lines none ≡ some trace.header)
unfolding no_lines
load_trace-requests_of json lines trace e = read (trace_of json lines trace e)
  where
    read :
        ((t : Reading) × ((load_lines json 0 (no_lines json) lines ≡ loaded t)
            × (finish_trace json t ≡ loaded trace)))
        → (trace.requests ≡ requests_of json lines)
          × (header_of json lines none ≡ some trace.header)
    read (t, (reads, ends)) =
        let all = load_lines_lem json lines 0 (no_lines json) t reads in
        let last = finish_trace_lem json t trace ends in (last.0 ∙ all.0, sym (last.1 ∙ all.1))

-- A line that cannot be read ends the reading: where the lines `xs` before it are read, and whatever
-- the lines `ys` after it are, the file gives that line's error and no trace.
pub load_trace-fails :
    {J : Type 0} (json : Json J) (xs : List String) (line : String) (ys : List String) (t : Reading)
    (error : LoadError)
    → load_lines json 0 (record { header = none; requests = [] }) xs ≡ loaded t
    → load_line json (length xs + 1) t line ≡ failed error
    → load_trace json (some (xs ++ line ∷ ys)) ≡ failed error
unfolding load_trace
load_trace-fails json xs line ys t error reads fails =
    rw
      (
        load_lines-stop json xs 0 (record { header = none; requests = [] }) t line ys error reads
            (subst (λ z. load_line json z t line ≡ failed error) (omega arith) fails),
        load_trace,
      )
      refl
