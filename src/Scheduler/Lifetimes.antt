-- ===== src/Scheduler/Lifetimes.antt =====
-- lifetime_held_ of src/Scheduler.cpp against the active requests, over the calls that move one
-- request between the queues.
use qwen_vl_paged.Prelude.{
  ℕ, ◌+◌, ◌-◌, ◌≤◌, ◌<◌, ◌≡◌, refl, ◌∙◌, String, none, some, List, [], ◌∷◌, arith, sum_by,
  sum_by-append, u32, inl, inr, Bool-cases, Option-cases,
}
use native.Mathlib.Nat.{mod-eq_of_lt}
use qwen_vl_paged.Manager.Request.{swap_in_request}
use qwen_vl_paged.Scheduler.State.{Request, Scheduler, enqueue}
use qwen_vl_paged.Scheduler.Queue.{
  find_request, erase_request, update_request, progress, complete_step, give_back, cancel, preempt,
  resume, resumed_state,
}

-- The blocks that the requests of a queue reserve for their lifetime.
abbrev pub lifetimes : List Request → ℕ
lifetimes rs = sum_by (λ r. r.lifetime_blocks) rs

-- The scheduler holds what its active requests reserve, and pending requests reserve nothing.
pub record HoldsLifetimes (s : Scheduler) : Type 0 where
  pub held : s.lifetime_held ≡ lifetimes s.active
  pub idle : lifetimes s.pending ≡ 0

lifetimes-erase_request :
    (i : ℕ) (rs : List Request) (r : Request)
    → find_request i rs ≡ some r
    → lifetimes (erase_request i rs) + r.lifetime_blocks ≡ lifetimes rs
unfolding find_request erase_request
lifetimes-erase_request i [] r e = absurd (ground arith)
lifetimes-erase_request i (x ∷ rs) r e = ground (arith, lifetimes-erase_request i rs r)

lifetime-progress : (n : ℕ) (r : Request) → (progress n r).lifetime_blocks ≡ r.lifetime_blocks
unfolding progress
lifetime-progress n r = ground arith

lifetimes-update_request :
    (i n : ℕ) (rs : List Request) → lifetimes (update_request i (progress n) rs) ≡ lifetimes rs
unfolding update_request
lifetimes-update_request i n [] = refl
lifetimes-update_request i n (x ∷ rs) =
    ground (arith, lifetime-progress n x, lifetimes-update_request i n rs)

give_back_lem :
    (n : ℕ) (r : Request) → r.lifetime_blocks ≤ n → give_back n r ≡ n - r.lifetime_blocks
unfolding give_back
give_back_lem n r h = ground arith

pub enqueue-HoldsLifetimes :
    (s : Scheduler) (r : Request) → HoldsLifetimes s → HoldsLifetimes (enqueue s r)
unfolding enqueue
enqueue-HoldsLifetimes s r h = record {
  held = h.held;
  idle = sum_by-append (λ x. x.lifetime_blocks) s.pending _ ∙ omega (arith, h.idle);
}

pub complete_step-HoldsLifetimes :
    (s : Scheduler) (i n : ℕ) → HoldsLifetimes s → HoldsLifetimes (complete_step s i n)
unfolding complete_step
complete_step-HoldsLifetimes s i n h = record {
  held = omega (arith, h.held, lifetimes-update_request i n s.active);
  idle = h.idle;
}

pub preempt-HoldsLifetimes :
    (s : Scheduler) (i : ℕ) (reason : String)
    → HoldsLifetimes s
    → HoldsLifetimes (preempt s i reason).0
unfolding preempt
preempt-HoldsLifetimes s i reason h = elim (Option-cases (find_request i s.active)) [
  | inl u ↦ rw (u, preempt) h
  | inr (r, u) ↦
      let left = lifetimes-erase_request i s.active r u in
      rw (u, preempt)
        (record {
          held =
              omega (
                arith,
                h.held,
                left,
                give_back_lem s.lifetime_held r (omega (arith, h.held, left)),
              );
          idle = h.idle;
        })
]

pub resume-HoldsLifetimes :
    (s : Scheduler) (i : ℕ)
    → HoldsLifetimes s
    → s.lifetime_held + lifetimes s.preempted < 4294967296
    → HoldsLifetimes (resume s i).0
unfolding resume
resume-HoldsLifetimes s i h room = elim (Option-cases (find_request i s.preempted)) [
  | inl u ↦ rw (u, resume) h
  | inr (r, u) ↦
      let left = lifetimes-erase_request i s.preempted r u in
      let sum : u32 (s.lifetime_held + r.lifetime_blocks) ≡ s.lifetime_held + r.lifetime_blocks =
        mod-eq_of_lt (omega (arith, left, room)) in
      elim (Bool-cases (swap_in_request s.cache r.request_id).1) [
        | inr failed ↦ rw (u, failed, resume) (record { held = h.held; idle = h.idle })
        | inl done ↦
            rw (u, done, resume)
              (record {
                held = omega (
                  arith,
                  h.held,
                  sum,
                  sum_by-append (λ x. x.lifetime_blocks) s.active
                      (record r { state = resumed_state r } ∷ []),
                );
                idle = h.idle;
              })
      ]
]

pub cancel-HoldsLifetimes :
    (s : Scheduler) (i : ℕ)
    → HoldsLifetimes s
    → find_request i s.preempted ≡ none
    → HoldsLifetimes (cancel s i)
unfolding cancel
cancel-HoldsLifetimes s i h away = elim (Option-cases (find_request i s.pending)) [
  | inr (r, u) ↦
      let left = lifetimes-erase_request i s.pending r u in
      rw (u, cancel)
        (record {
          held = omega (
            arith,
            h.held,
            h.idle,
            left,
            give_back_lem s.lifetime_held r (omega (arith, h.idle, left)),
          );
          idle = omega (arith, h.idle, left);
        })
  | inl u ↦ elim (Option-cases (find_request i s.active)) [
    | inr (r, w) ↦
        let left = lifetimes-erase_request i s.active r w in
        rw (u, w, cancel)
          (record {
            held = omega (
              arith,
              h.held,
              left,
              give_back_lem s.lifetime_held r (omega (arith, h.held, left)),
            );
            idle = h.idle;
          })
    | inl w ↦ rw (u, w, away, cancel) h
  ]
]

-- One call on the queues.
pub data Call : Type 0 where
  enqueues : Request → Call
  completes : ℕ → ℕ → Call
  preempts : ℕ → String → Call
  resumes cancels : ℕ → Call

unfoldable pub step : Scheduler → Call → Scheduler
step s (enqueues r) = enqueue s r
step s (completes i n) = complete_step s i n
step s (preempts i reason) = (preempt s i reason).0
step s (resumes i) = (resume s i).0
step s (cancels i) = cancel s i

abbrev pub Permits : Scheduler → Call → Type 0
Permits s (resumes i) = s.lifetime_held + lifetimes s.preempted < 4294967296
Permits s (cancels i) = find_request i s.preempted ≡ none
Permits s _ = Unit {0}

-- Enqueuing, completing, preempting, resuming and cancelling a request keep lifetime_held equal to
-- what the active requests reserve, and pending requests without a reservation. A resume asks that
-- the sum with the preempted requests' reservations stays below 2 ^ 32, and a cancel that its request
-- is not preempted.
pub step-HoldsLifetimes :
    (s : Scheduler) (c : Call) → HoldsLifetimes s → Permits s c → HoldsLifetimes (step s c)
unfolding step
step-HoldsLifetimes s (enqueues r) h p = enqueue-HoldsLifetimes s r h
step-HoldsLifetimes s (completes i n) h p = complete_step-HoldsLifetimes s i n h
step-HoldsLifetimes s (preempts i reason) h p = preempt-HoldsLifetimes s i reason h
step-HoldsLifetimes s (resumes i) h p = resume-HoldsLifetimes s i h p
step-HoldsLifetimes s (cancels i) h p = cancel-HoldsLifetimes s i h p

-- Cancelling a request that is preempted, whose reservation is not above what is held, gives its
-- reservation back a second time: lifetime_held is then lower by it than what the active requests
-- reserve, which are the same as before.
pub cancel_preempted_lem :
    (s : Scheduler) (i : ℕ) (r : Request)
    → HoldsLifetimes s
    → find_request i s.pending ≡ none
    → find_request i s.active ≡ none
    → find_request i s.preempted ≡ some r
    → r.lifetime_blocks ≤ s.lifetime_held
    → ((cancel s i).lifetime_held + r.lifetime_blocks ≡ lifetimes (cancel s i).active)
      × ((cancel s i).active ≡ s.active)
unfolding cancel
cancel_preempted_lem s i r h waiting running at small =
    rw (waiting, running, at, cancel)
      (omega (arith, h.held, give_back_lem s.lifetime_held r small), refl)
