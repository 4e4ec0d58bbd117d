-- ===== src/Swap.antt =====
-- include/qwenvl_paged/SwapBackend.h and src/SwapBackend.cpp: host memory for evicted blocks.
-- `HostSwapBackend` is the program's only SwapBackend; a slot's bytes are a list of numbers.
pub mod RoundTrip
pub mod Slots
use qwen_vl_paged.Prelude.{
  ℕ, ◌+◌, Option, none, some, Bool, true, false, List, [], ◌++◌, leb, ltb, if◌then◌else◌, length,
  take, drop, u64, Assoc, nat_eq, find, emplace, erase,
}
use qwen_vl_paged.Block.{PhysicalBlock}

pub record HostSwapBackend : Type 0 where
  pub max_slots : ℕ
  pub next_slot : ℕ
  pub slots : Assoc ℕ (List ℕ)

unfoldable pub new_backend : ℕ → HostSwapBackend
new_backend n = record { max_slots = n; next_slot = 1; slots = [] }

unfoldable pub resident_slots : HostSwapBackend → ℕ
resident_slots b = length b.slots

unfoldable pub capacity_slots : HostSwapBackend → ℕ
capacity_slots b = b.max_slots

-- std::memcpy of `n` bytes over the front of `dst`.
abbrev pub memcpy : ℕ → List ℕ → List ℕ → List ℕ
memcpy n dst src = take n src ++ drop n dst

unfoldable pub store : HostSwapBackend → PhysicalBlock → HostSwapBackend × Option ℕ
unfolding resident_slots
store b block = if leb b.max_slots (resident_slots b) then (b, none) else (
  record b {
    next_slot = u64 (b.next_slot + 1);
    slots = emplace b.next_slot (take block.size_bytes block.storage) b.slots;
  },
  some b.next_slot,
)

unfoldable pub load : HostSwapBackend → ℕ → PhysicalBlock → PhysicalBlock × Bool
load b slot block = elim (find slot b.slots) [
  | none ↦ (block, false)
  | some bytes ↦
      if ltb block.size_bytes (length bytes)
      then (block, false)
      else (record block { storage = memcpy (length bytes) block.storage bytes }, true)
]

unfoldable pub discard : HostSwapBackend → ℕ → HostSwapBackend
discard b slot = record b { slots = erase slot b.slots }
