-- ===== src/Swap/Slots.antt =====
-- The slot numbers of src/SwapBackend.cpp: next_slot_ against the slots that are resident.
use qwen_vl_paged.Prelude.{
  ℕ, ◌+◌, ◌≤◌, ◌<◌, ◌≡◌, ◌≢◌, refl, ◌∙◌, Option, none, some, List, [], ◌∷◌, arith, leb, u64, take,
  inl, inr, Bool-cases, nat_eq, find, emplace, find-emplace_new, find-emplace_kept, find-erase-none,
  find-erase_other,
}
use qwen_vl_paged.Block.{PhysicalBlock}
use qwen_vl_paged.Swap.{HostSwapBackend, new_backend, store, discard, resident_slots}

-- The number that the next store gives out is of no resident slot, and neither is a later one.
abbrev pub IsNumbered : HostSwapBackend → Type 0
IsNumbered b = (slot : ℕ) → b.next_slot ≤ slot → find slot b.slots ≡ none

-- The calls that change a backend.
pub data Call : Type 0 where
  stores : PhysicalBlock → Call
  discards : ℕ → Call

unfoldable pub call : HostSwapBackend → Call → HostSwapBackend
call b (stores frame) = (store b frame).0
call b (discards slot) = discard b slot

unfoldable pub run : HostSwapBackend → List Call → HostSwapBackend
run b [] = b
run b (c ∷ cs) = run (call b c) cs

-- A backend after a store that was accepted.
abbrev pub filled : HostSwapBackend → PhysicalBlock → HostSwapBackend
filled b frame = record b {
  next_slot = u64 (b.next_slot + 1);
  slots = emplace b.next_slot (take frame.size_bytes frame.storage) b.slots;
}

pub store_cases {ℓ} :
    (P : HostSwapBackend × Option ℕ → Type ℓ) (b : HostSwapBackend) (frame : PhysicalBlock)
    → P (b, none)
    → P (filled b frame, some b.next_slot)
    → P (store b frame)
unfolding store
store_cases P b frame refused accepted = elim (Bool-cases (leb b.max_slots (resident_slots b))) [
  | inl no_room ↦ rw (no_room, store) refused
  | inr room ↦ rw (room, store) accepted
]

pub store-IsNumbered :
    (b : HostSwapBackend) (frame : PhysicalBlock)
    → b.next_slot + 1 < 18446744073709551616
    → IsNumbered b
    → IsNumbered (store b frame).0
store-IsNumbered b frame small fresh =
    store_cases (λ res. IsNumbered res.0) b frame fresh
      (λ slot above. ground (
        arith,
        fresh slot,
        find-emplace_new b.next_slot slot (take frame.size_bytes frame.storage) b.slots
            (fresh b.next_slot (omega arith)),
      ))

-- A store moves next_slot_ by one at most.
pub store-next_slot :
    (b : HostSwapBackend) (frame : PhysicalBlock)
    → b.next_slot + 1 < 18446744073709551616
    → (store b frame).0.next_slot ≤ b.next_slot + 1
store-next_slot b frame small =
    store_cases (λ res. res.0.next_slot ≤ b.next_slot + 1) b frame (omega arith) (omega arith)

pub discard-IsNumbered :
    (b : HostSwapBackend) (slot : ℕ) → IsNumbered b → IsNumbered (discard b slot)
unfolding discard
discard-IsNumbered b slot fresh other above = find-erase-none slot other b.slots (fresh other above)

pub new_backend-IsNumbered : (n : ℕ) → IsNumbered (new_backend n)
unfolding new_backend find
new_backend-IsNumbered n slot above = refl

-- The calls that keep a slot: all stores, and the discards of other slots.
abbrev pub Keeps : ℕ → Call → Type 0
Keeps slot (stores frame) = Unit
Keeps slot (discards other) = slot ≢ other

abbrev pub AllKeep : ℕ → List Call → Type 0
AllKeep slot [] = Unit
AllKeep slot (c ∷ cs) = Keeps slot c × AllKeep slot cs

find-call :
    (b : HostSwapBackend) (c : Call) (slot : ℕ) (bytes : List ℕ)
    → Keeps slot c
    → find slot b.slots ≡ some bytes
    → find slot (call b c).slots ≡ some bytes
unfolding call discard
find-call b (stores frame) slot bytes keeps here =
    store_cases (λ res. find slot res.0.slots ≡ some bytes) b frame here
      (find-emplace_kept b.next_slot slot (take frame.size_bytes frame.storage) bytes b.slots here)
find-call b (discards other) slot bytes keeps here =
    find-erase_other other slot b.slots keeps ∙ here

pub find-run :
    (b : HostSwapBackend) (cs : List Call) (slot : ℕ) (bytes : List ℕ)
    → AllKeep slot cs
    → find slot b.slots ≡ some bytes
    → find slot (run b cs).slots ≡ some bytes
unfolding run
find-run b [] slot bytes keep here = here
find-run b (c ∷ cs) slot bytes keep here =
    find-run (call b c) cs slot bytes keep.1 (find-call b c slot bytes keep.0 here)
