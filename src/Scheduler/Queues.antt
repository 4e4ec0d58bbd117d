-- ===== src/Scheduler/Queues.antt =====
-- What admission and preemption do to the three queues, seen as counts of request ids.
use qwen_vl_paged.Prelude.{
  ℕ, zero, suc, ◌+◌, ◌≤◌, ◌≡◌, refl, ◌∙◌, true, ◌||◌, not, String, List, [], ◌∷◌, some, arith, leb,
  ltb, ◌==◌, if◌then◌else◌, if_cases, length, sum_by, sum_by-append, u32, inl, inr, Bool-cases,
  Option-cases,
}
use qwen_vl_paged.Scheduler.State.{
  preempted, Request, Scheduler, total_blocks, free_blocks, blocks_for_tokens,
}
use qwen_vl_paged.Scheduler.Queue.{find_request, erase_request, preempt}
use qwen_vl_paged.Scheduler.Admission.{under_pressure, victim, reclaim, reclaim_for_admission}

abbrev pub is_request : ℕ → Request → ℕ
is_request i r = if r.request_id == i then 1 else 0

-- How often a request id stands in a queue.
abbrev pub count_id : ℕ → List Request → ℕ
count_id i rs = sum_by (is_request i) rs

pub count_id-erase_request :
    (i j : ℕ) (rs : List Request) (r : Request)
    → find_request j rs ≡ some r
    → count_id i (erase_request j rs) + is_request i r ≡ count_id i rs
unfolding find_request erase_request
count_id-erase_request i j [] r e = absurd (ground arith)
count_id-erase_request i j (x ∷ rs) r e = ground (arith, count_id-erase_request i j rs r)

pub length-erase_request :
    (j : ℕ) (rs : List Request) (r : Request)
    → find_request j rs ≡ some r
    → length (erase_request j rs) + 1 ≡ length rs
unfolding find_request erase_request
length-erase_request j [] r e = absurd (ground arith)
length-erase_request j (x ∷ rs) r e = ground (arith, length-erase_request j rs r)

-- Requests move between the active and the preempted queue only, and none becomes active.
pub record Quiet (s s' : Scheduler) : Type 0 where
  pub same_config : s'.config ≡ s.config
  pub same_pending : s'.pending ≡ s.pending
  pub kept :
      (i : ℕ)
      → count_id i s'.active + count_id i s'.preempted
        ≡ count_id i s.active + count_id i s.preempted
  pub fewer : length s'.active ≤ length s.active

pub Quiet-refl : (s : Scheduler) → Quiet s s
Quiet-refl s = record {
  same_config = refl;
  same_pending = refl;
  kept = λ i. refl;
  fewer = omega arith;
}

pub Quiet-trans : {s t u : Scheduler} → Quiet s t → Quiet t u → Quiet s u
Quiet-trans x y = record {
  same_config = y.same_config ∙ x.same_config;
  same_pending = y.same_pending ∙ x.same_pending;
  kept = λ i. y.kept i ∙ x.kept i;
  fewer = omega (arith, x.fewer, y.fewer);
}

pub preempt-Quiet : (s : Scheduler) (j : ℕ) (reason : String) → Quiet s (preempt s j reason).0
unfolding preempt
preempt-Quiet s j reason = elim (Option-cases (find_request j s.active)) [
  | inl u ↦ rw (u, preempt) (Quiet-refl s)
  | inr (r, u) ↦
      rw (u, preempt)
        (record {
          same_config = refl;
          same_pending = refl;
          kept = λ i. omega (
            arith,
            count_id-erase_request i j s.active r u,
            sum_by-append (is_request i) s.preempted (record r { state = preempted } ∷ []),
          );
          fewer = omega (arith, length-erase_request j s.active r u);
        })
]

-- A successful preemption takes one request from the active queue.
pub length-preempt :
    (s : Scheduler) (j : ℕ) (reason : String)
    → (preempt s j reason).1 ≡ true
    → length (preempt s j reason).0.active + 1 ≡ length s.active
unfolding preempt
length-preempt s j reason h = elim (Option-cases (find_request j s.active)) [
  | inl u ↦ absurd (ground (arith, u, h))
  | inr (r, u) ↦ rw (u, preempt) (length-erase_request j s.active r u)
]

pub reclaim-Quiet :
    (fuel : ℕ) (s : Scheduler) (needed required admitted : ℕ)
    → Quiet s (reclaim fuel s needed required admitted)
unfolding reclaim
reclaim-Quiet zero s needed required admitted = Quiet-refl s
reclaim-Quiet (suc fuel) s needed required admitted =
    elim (Bool-cases (under_pressure s needed required admitted)) [
      | inr calm ↦ rw (calm, reclaim) (Quiet-refl s)
      | inl pressed ↦ elim (Option-cases (victim s admitted)) [
        | inl u ↦ rw (pressed, u, reclaim) (Quiet-refl s)
        | inr (r, u) ↦
            let s' = (preempt s r.request_id "cache pressure watermark").0 in
            let first = preempt-Quiet s r.request_id "cache pressure watermark" in
            rw (pressed, u, reclaim)
              (if_cases (Quiet s) (not (preempt s r.request_id "cache pressure watermark").1)
                (λ _. first)
                (λ _.
                  if_cases (Quiet s) (leb (free_blocks s') (free_blocks s)) (λ _. first)
                    (λ _. Quiet-trans first (reclaim-Quiet fuel s' needed required admitted))))
      ]
    ]

pub reclaim_for_admission-Quiet :
    (s : Scheduler) (p d admitted : ℕ) → Quiet s (reclaim_for_admission s p d admitted)
unfolding reclaim_for_admission
reclaim_for_admission-Quiet s p d admitted =
    if_cases (Quiet s) (s.config.preemption_watermark_blocks == 0) (λ _. Quiet-refl s)
      (λ _.
        if_cases (Quiet s)
          (blocks_for_tokens s (u32 (p + d)) == 0
            || ltb (total_blocks s) (blocks_for_tokens s (u32 (p + d))))
          (λ _. Quiet-refl s) (λ _. reclaim-Quiet (length s.active) s _ _ admitted))
