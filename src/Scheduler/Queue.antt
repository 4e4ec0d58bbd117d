-- ===== src/Scheduler/Queue.antt =====
-- The requests' life after admission in src/Scheduler.cpp: complete, cancel, preempt, resume.
use qwen_vl_paged.Prelude.{
  ℕ, ◌+◌, ◌-◌, Option, none, some, Bool, true, false, ◌&&◌, String, List, [], ◌∷◌, ◌++◌, leb, ltb,
  ◌==◌, if◌then◌else◌, length, u32, nat_eq, find, put, erase,
}
use qwen_vl_paged.Manager.Request.{swap_out_request, swap_in_request, release_request}
use qwen_vl_paged.Scheduler.State.{
  RequestState, prefill, decode, preempted, Request, PreemptionInfo, Scheduler,
}

unfoldable pub find_request : ℕ → List Request → Option Request
find_request i [] = none
find_request i (r ∷ rs) = if r.request_id == i then some r else find_request i rs

-- queue.erase at the iterator that find_request returns.
unfoldable pub erase_request : ℕ → List Request → List Request
erase_request i [] = []
erase_request i (r ∷ rs) = if r.request_id == i then rs else r ∷ erase_request i rs

-- A write through that iterator.
unfoldable pub update_request : ℕ → (Request → Request) → List Request → List Request
update_request i f [] = []
update_request i f (r ∷ rs) = if r.request_id == i then f r ∷ rs else r ∷ update_request i f rs

abbrev pub in_prefill : RequestState → Bool
in_prefill prefill = true
in_prefill _ = false

abbrev pub in_decode : RequestState → Bool
in_decode decode = true
in_decode _ = false

unfoldable pub progress : ℕ → Request → Request
progress produced r =
    if in_prefill r.state
    then if leb r.remaining_prefill_tokens produced
      then record r { remaining_prefill_tokens = 0; state = decode }
      else record r { remaining_prefill_tokens = r.remaining_prefill_tokens - produced }
    else r

unfoldable pub complete_step : Scheduler → ℕ → ℕ → Scheduler
unfolding update_request progress
complete_step s i produced = record s { active = update_request i (progress produced) s.active }

-- What is held once the request's share is given back.
unfoldable pub give_back : ℕ → Request → ℕ
give_back held r =
    if ltb 0 r.lifetime_blocks && leb r.lifetime_blocks held then held - r.lifetime_blocks else held

unfoldable pub forget_request : Scheduler → Request → Scheduler
unfolding give_back
forget_request s r = record s {
  cache = release_request s.cache r.request_id;
  lifetime_held = give_back s.lifetime_held r;
}

unfoldable pub cancel : Scheduler → ℕ → Scheduler
unfolding forget_request
cancel s i = elim (find_request i s.pending) [
  | some r ↦ record (forget_request s r) {
    pending = erase_request i s.pending;
    preemption_info = erase i s.preemption_info;
  }
  | none ↦ elim (find_request i s.active) [
    | some r ↦ record (forget_request s r) {
      active = erase_request i s.active;
      preemption_info = erase i s.preemption_info;
    }
    | none ↦ elim (find_request i s.preempted) [
      | some r ↦ record (forget_request s r) {
        preempted = erase_request i s.preempted;
        preemption_info = erase i s.preemption_info;
      }
      | none ↦ s
    ]
  ]
]

unfoldable pub preempt : Scheduler → ℕ → String → Scheduler × Bool
unfolding give_back
preempt s i reason = elim (find_request i s.active) [
  | none ↦ (s, false)
  | some r ↦
      let (cache', swapped) = swap_out_request s.cache r.request_id in
      (
        record s {
          cache = cache';
          active = erase_request i s.active;
          preempted = s.preempted ++ record r { state = preempted } ∷ [];
          preemption_info =
              put r.request_id (record { reason = reason; swapped_blocks = swapped })
                s.preemption_info;
          lifetime_held = give_back s.lifetime_held r;
        },
        true,
      )
]

abbrev pub resumed_state : Request → RequestState
resumed_state r = if ltb 0 r.remaining_prefill_tokens then prefill else decode

unfoldable pub resume : Scheduler → ℕ → Scheduler × Bool
resume s i = elim (find_request i s.preempted) [
  | none ↦ (s, false)
  | some r ↦
      let (cache', done) = swap_in_request s.cache r.request_id in
      if done
      then (
        record s {
          cache = cache';
          preempted = erase_request i s.preempted;
          lifetime_held = u32 (s.lifetime_held + r.lifetime_blocks);
          preemption_info = erase i s.preemption_info;
          active = s.active ++ record r { state = resumed_state r } ∷ [];
        },
        true,
      )
      else (record s { cache = cache' }, false)
]

unfoldable pub preemption_info : Scheduler → ℕ → Option PreemptionInfo
preemption_info s i = find i s.preemption_info

unfoldable pub request_state : Scheduler → ℕ → Option RequestState
request_state s i = elim (find_request i s.pending) [
  | some r ↦ some r.state
  | none ↦ elim (find_request i s.active) [
    | some r ↦ some r.state
    | none ↦ elim (find_request i s.preempted) [ some r ↦ some r.state | none ↦ none ]
  ]
]

unfoldable pub active_size : Scheduler → ℕ
active_size s = length s.active
