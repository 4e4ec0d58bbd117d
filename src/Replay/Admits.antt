-- ===== src/Replay/Admits.antt =====
-- The admission loop of run_contiguous in tools/trace_replay/TraceReplay.cpp: what it counts, and
-- that it stops with nothing active only when no request is left.
use qwen_vl_paged.Prelude.{
  ℕ, zero, suc, ◌+◌, ◌-◌, ◌≤◌, ◌≡◌, ◌⊎◌, refl, sym, ap, ◌∙◌, none, some, Bool, true, false, ◌&&◌,
  ◌||◌, not, List, [], ◌∷◌, leb, ltb, length, drop, head?, get_elem?, sum_by, sum_by-append,
  length-append, arith, Bool-cases, Option-cases, inl, inr,
}
use mathlib.Core.Path.{subst}
use qwen_vl_paged.Replay.Trace.{TraceRequest, ReplayConfig, ReplayMetrics}
use qwen_vl_paged.Replay.Contiguous.{
  Reservation, Baseline, request_blocks, servable, first_fit, reserve, refuse, skip, admit_one,
  admit_pending, decode_actual_of,
}
use qwen_vl_paged.Replay.Work.{remaining, overdue, ahead, work, Counted}

-- Every request that can be served needs a block.
abbrev pub needs_blocks : ReplayConfig → List TraceRequest → Bool
needs_blocks c [] = true
needs_blocks c (r ∷ rs) = (not (servable c r) || ltb 0 (request_blocks c r)) && needs_blocks c rs

pub needs_blocks-drop :
    (c : ReplayConfig) (n : ℕ) (rs : List TraceRequest)
    → needs_blocks c rs ≡ true
    → needs_blocks c (drop n rs) ≡ true
needs_blocks-drop c zero rs h = h
needs_blocks-drop c (suc n) [] h = refl
needs_blocks-drop c (suc n) (r ∷ rs) h = needs_blocks-drop c n rs (ground (arith, h))

-- A list from an index on that has a first element.
pub drop_cons :
    (n : ℕ) (rs : List TraceRequest) (r : TraceRequest) (rest : List TraceRequest)
    → drop n rs ≡ r ∷ rest
    → ((drop (n + 1) rs ≡ rest) × (n + 1 ≤ length rs)) × (get_elem? rs n ≡ some r)
drop_cons zero [] r rest e = absurd (ground (arith, e))
drop_cons zero (q ∷ rs) r rest e = ((ap (drop 1) e, omega arith), ap head? e)
drop_cons (suc n) [] r rest e = absurd (ground (arith, e))
drop_cons (suc n) (q ∷ rs) r rest e = further (drop_cons n rs r rest e)
  where
    shift : suc n + 1 ≡ suc (n + 1)
    shift = omega arith

    further :
        ((drop (n + 1) rs ≡ rest) × (n + 1 ≤ length rs)) × (get_elem? rs n ≡ some r)
        → ((drop (suc n + 1) (q ∷ rs) ≡ rest) × (suc n + 1 ≤ length (q ∷ rs)))
          × (get_elem? (q ∷ rs) (suc n) ≡ some r)
    further rec = ((ap (λ z. drop z (q ∷ rs)) shift ∙ rec.0.0, omega (arith, rec.0.1)), rec.1)

pub drop_nil : (n : ℕ) (rs : List TraceRequest) → drop n rs ≡ [] → n ≤ length rs → n ≡ length rs
drop_nil zero [] e le = refl
drop_nil zero (r ∷ rs) e le = absurd (ground (arith, e))
drop_nil (suc n) [] e le = absurd (omega (arith, le))
drop_nil (suc n) (r ∷ rs) e le = ap suc (drop_nil n rs e (omega (arith, le)))

pub drop-length : (rs : List TraceRequest) → drop (length rs) rs ≡ []
drop-length [] = refl
drop-length (r ∷ rs) = drop-length rs

-- What one round of the loop can do.
abbrev pub Outcome : ReplayConfig → TraceRequest → Baseline → Baseline × Bool → Type 0
Outcome c r s result =
    (result ≡ (skip s, true))
    ⊎ ((((start : ℕ) × (result ≡ (reserve r (request_blocks c r) start s, true))))
        ⊎ ((first_fit (request_blocks c r) 0 0 s.used ≡ none)
            × ((servable c r ≡ true) × (result ≡ (refuse c (request_blocks c r) s, false)))))

pub admit_one_cases :
    (c : ReplayConfig) (r : TraceRequest) (s : Baseline) → Outcome c r s (admit_one c r s)
unfolding admit_one
admit_one_cases c r s = elim (Bool-cases (servable c r)) [
  | inr unserved ↦ inl (rw (unserved, admit_one) refl)
  | inl served ↦ elim (Option-cases (first_fit (request_blocks c r) 0 0 s.used)) [
    | inl e ↦ inr (inr (e, (served, rw (served, e, admit_one) refl)))
    | inr (start, e) ↦ inr (inl (start, rw (served, e, admit_one) refl))
  ]
]

-- The loop goes on with a request that it skips or reserves for, and stops at one that it refuses.
module _ (c : ReplayConfig) (r : TraceRequest) (rest : List TraceRequest) (s : Baseline)
    (made : Bool) (room : ltb (length s.active) c.max_active_requests ≡ true) where
  pub admit_pending-goes :
      (s' : Baseline)
      → admit_one c r s ≡ (s', true)
      → admit_pending c (r ∷ rest) s made ≡ admit_pending c rest s' true
  unfolding admit_pending
  admit_pending-goes s' e =
      rw (room, ap (λ z. z.1) e, admit_pending) (ap (λ z. admit_pending c rest (z.0) true) e)

  pub admit_pending-stops :
      (s' : Baseline)
      → admit_one c r s ≡ (s', false)
      → admit_pending c (r ∷ rest) s made ≡ (s', made)
  unfolding admit_pending
  admit_pending-stops s' e = rw (room, ap (λ z. z.1) e, admit_pending) (ap (λ z. (z.0, made)) e)

pub admit_pending-full :
    (c : ReplayConfig) (r : TraceRequest) (rest : List TraceRequest) (s : Baseline) (made : Bool)
    → ltb (length s.active) c.max_active_requests ≡ false
    → admit_pending c (r ∷ rest) s made ≡ (s, made)
unfolding admit_pending
admit_pending-full c r rest s made full = rw (full, admit_pending) refl

-- What a stretch of the loop keeps and lowers.
pub record Admitted (rs : List TraceRequest) (s s' : Baseline) : Type 0 where
  pub counted : Counted rs s'
  pub lowered : work rs s' ≤ work rs s
  pub grown : length s.active ≤ length s'.active

Admitted-refl : (rs : List TraceRequest) (s : Baseline) → Counted rs s → Admitted rs s s
Admitted-refl rs s k = record { counted = k; lowered = omega arith; grown = omega arith }

pub Admitted-skip :
    (rs : List TraceRequest) (r : TraceRequest) (rest : List TraceRequest) (s : Baseline)
    → drop s.next_pending rs ≡ r ∷ rest
    → Counted rs s
    → Admitted rs s (skip s)
Admitted-skip rs r rest s e k = record {
  counted = record {
    passed = omega (arith, k.passed);
    bounded = (drop_cons s.next_pending rs r rest e).0.1;
    due = k.due;
  };
  lowered =
      omega (
        arith,
        ap (sum_by ahead) e,
        ap (sum_by ahead) ((drop_cons s.next_pending rs r rest e).0.0),
      );
  grown = omega arith;
}

pub Admitted-reserve :
    (rs : List TraceRequest) (r : TraceRequest) (rest : List TraceRequest) (s : Baseline)
    (needed start : ℕ)
    → drop s.next_pending rs ≡ r ∷ rest
    → Counted rs s
    → Admitted rs s (reserve r needed start s)
unfolding reserve
Admitted-reserve rs r rest s needed start e k = record {
  counted = record {
    passed = omega (arith, k.passed, length-append s.active (v ∷ []));
    bounded = (drop_cons s.next_pending rs r rest e).0.1;
    due = ground (arith, k.due, sum_by-append (overdue rs) s.active (v ∷ []));
  };
  lowered = omega (
    arith,
    actual,
    sum_by-append (remaining rs) s.active (v ∷ []),
    ap (sum_by ahead) e,
    ap (sum_by ahead) ((drop_cons s.next_pending rs r rest e).0.0),
  );
  grown = omega (arith, length-append s.active (v ∷ []));
}
  where
    v : Reservation
    v = record {
      index = s.next_pending;
      start_block = start;
      block_count = needed;
      committed = r.prompt_tokens;
      decoded = 0;
    }

    actual : decode_actual_of rs s.next_pending ≡ r.decode_actual
    actual = rw ((drop_cons s.next_pending rs r rest e).1, decode_actual_of) refl

Admitted-refuse :
    (c : ReplayConfig) (rs : List TraceRequest) (s : Baseline) (needed : ℕ)
    → Counted rs s
    → Admitted rs s (refuse c needed s)
unfolding refuse
Admitted-refuse c rs s needed k = elim (Bool-cases (leb needed (c.max_blocks - s.blocks_in_use))) [
  | inl enough ↦
      rw (enough, refuse) (record { counted = kept; lowered = omega arith; grown = omega arith })
  | inr short ↦ rw (short, refuse) (Admitted-refl rs s k)
]
  where
    kept : {m : ReplayMetrics} → Counted rs (record s { metrics = m })
    kept = record { passed = k.passed; bounded = k.bounded; due = k.due }

Admitted-trans :
    (rs : List TraceRequest) (s s' s'' : Baseline)
    → Admitted rs s s'
    → Admitted rs s' s''
    → Admitted rs s s''
Admitted-trans rs s s' s'' a b = record {
  counted = b.counted;
  lowered = omega (arith, a.lowered, b.lowered);
  grown = omega (arith, a.grown, b.grown);
}

pub admit_pending-Admitted :
    (c : ReplayConfig) (rs rest : List TraceRequest) (s : Baseline) (made : Bool)
    → drop s.next_pending rs ≡ rest
    → Counted rs s
    → Admitted rs s ((admit_pending c rest s made).0)
unfolding admit_pending reserve
admit_pending-Admitted c rs [] s made e k = Admitted-refl rs s k
admit_pending-Admitted c rs (r ∷ rest) s made e k =
    elim (Bool-cases (ltb (length s.active) c.max_active_requests)) [
      | inr full ↦
          subst (λ z. Admitted rs s (z.0)) (sym (admit_pending-full c r rest s made full))
            (Admitted-refl rs s k)
      | inl room ↦ elim (admit_one_cases c r s) [
        | inl skipped ↦
            subst (λ z. Admitted rs s (z.0))
              (sym (admit_pending-goes c r rest s made room (skip s) skipped))
              (onward (Admitted-skip rs r rest s e k)
                (λ k'. admit_pending-Admitted c rs rest (skip s) true next k'))
        | inr (inl (start, reserved)) ↦
            subst (λ z. Admitted rs s (z.0))
              (sym (admit_pending-goes c r rest s made room _ reserved))
              (onward (Admitted-reserve rs r rest s (request_blocks c r) start e k)
                (λ k'. admit_pending-Admitted c rs rest _ true next k'))
        | inr (inr (unfit, (served, refused))) ↦
            subst (λ z. Admitted rs s (z.0))
              (sym (admit_pending-stops c r rest s made room _ refused))
              (Admitted-refuse c rs s (request_blocks c r) k)
      ]
    ]
  where
    next : drop (s.next_pending + 1) rs ≡ rest
    next = (drop_cons s.next_pending rs r rest e).0.0

    onward :
        {s' s'' : Baseline}
        → Admitted rs s s'
        → (Counted rs s' → Admitted rs s' s'')
        → Admitted rs s s''
    onward a more = Admitted-trans rs s _ _ a (more a.counted)
