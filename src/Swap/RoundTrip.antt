-- ===== src/Swap/RoundTrip.antt =====
-- What src/SwapBackend.cpp stores is what it loads.
use qwen_vl_paged.Prelude.{
  ℕ, ◌≡◌, ◌≢◌, refl, sym, ap, ◌∙◌, true, false, some, List, [], ◌∷◌, ◌++◌, arith, ltb, ◌==◌,
  if◌then◌else◌, length, take, drop, find, find-emplace_new, nat_eq,
}
use qwen_vl_paged.Block.{PhysicalBlock}
use qwen_vl_paged.Swap.{HostSwapBackend, store, load}
use qwen_vl_paged.Swap.Slots.{IsNumbered, Call, AllKeep, run, store_cases, find-run}

-- A frame whose storage has the size that it is said to have.
abbrev pub IsFull : PhysicalBlock → Type 0
IsFull frame = length frame.storage ≡ frame.size_bytes

module _ {ℓ} {A : Type ℓ} where
  take_all : (xs : List A) → take (length xs) xs ≡ xs
  take_all [] = refl
  take_all (x ∷ xs) = ap (λ ys. x ∷ ys) (take_all xs)

  -- Copying over a list of the same length replaces it.
  take-drop_all :
      (xs ys : List A) → length xs ≡ length ys → take (length xs) xs ++ drop (length xs) ys ≡ xs
  take-drop_all [] [] h = refl
  take-drop_all [] (y ∷ ys) h = absurd (omega arith)
  take-drop_all (x ∷ xs) [] h = absurd (omega arith)
  take-drop_all (x ∷ xs) (y ∷ ys) h = ap (λ zs. x ∷ zs) (take-drop_all xs ys (omega arith))

-- A slot that holds as many bytes as the frame has is loaded whole.
pub load_whole :
    (b : HostSwapBackend) (slot : ℕ) (bytes : List ℕ) (target : PhysicalBlock)
    → find slot b.slots ≡ some bytes
    → IsFull target
    → target.size_bytes ≡ length bytes
    → load b slot target ≡ (record target { storage = bytes }, true)
unfolding load
load_whole b slot bytes target e full size =
    rw (e, fits, load)
      (ap (λ (x : List ℕ). (record target { storage = x }, true))
        (take-drop_all bytes target.storage (omega arith)))
  where
    fits : ltb target.size_bytes (length bytes) ≡ false
    fits = ground arith

-- The slots after a store that was accepted.
pub find-store :
    (b : HostSwapBackend) (frame : PhysicalBlock) (slot other : ℕ)
    → IsNumbered b
    → IsFull frame
    → (store b frame).1 ≡ some slot
    → find other (store b frame).0.slots
      ≡ (if slot == other then some frame.storage else find other b.slots)
find-store b frame slot other fresh full =
    store_cases
      (λ res.
        res.1 ≡ some slot
        → find other res.0.slots
          ≡ (if slot == other then some frame.storage else find other b.slots))
      b frame (λ h. absurd (ground (arith, h)))
      (λ h.
        let same : slot ≡ b.next_slot = ground (arith, h) in
        rw (whole, same)
          (find-emplace_new b.next_slot other frame.storage b.slots
            (fresh b.next_slot (omega arith))))
  where
    whole : take frame.size_bytes frame.storage ≡ frame.storage
    whole = ap (λ n. take n frame.storage) (sym full) ∙ take_all frame.storage

-- In a backend whose next number and those above it are of no resident slot, storing a full frame and
-- loading the slot gives its bytes to any full frame of the same size, and every other slot loads as
-- it did before.
pub load-store :
    (b : HostSwapBackend) (frame target : PhysicalBlock) (slot other : ℕ)
    → IsNumbered b
    → IsFull frame
    → IsFull target
    → target.size_bytes ≡ frame.size_bytes
    → (store b frame).1 ≡ some slot
    → other ≢ slot
    → (load (store b frame).0 slot target ≡ (record target { storage = frame.storage }, true))
      × (load (store b frame).0 other target ≡ load b other target)
unfolding load
load-store b frame target slot other fresh full full' size h differs = (
  load_whole (store b frame).0 slot frame.storage target
      (ground (arith, find-store b frame slot slot fresh full h)) full' (omega arith),
  rw (kept, load) refl,
)
  where
    kept : find other (store b frame).0.slots ≡ find other b.slots
    kept = ground (arith, find-store b frame slot other fresh full h)

-- In a backend whose next number and those above it are of no resident slot, the slot of a stored
-- full frame gives its bytes to any full frame of the same size after any further stores, accepted
-- or not, and any discards of other slots.
pub load-run-store :
    (b : HostSwapBackend) (frame target : PhysicalBlock) (slot : ℕ) (cs : List Call)
    → IsNumbered b
    → IsFull frame
    → IsFull target
    → target.size_bytes ≡ frame.size_bytes
    → (store b frame).1 ≡ some slot
    → AllKeep slot cs
    → load (run (store b frame).0 cs) slot target
      ≡ (record target { storage = frame.storage }, true)
load-run-store b frame target slot cs fresh full full' size h keep =
    load_whole (run (store b frame).0 cs) slot frame.storage target
      (find-run (store b frame).0 cs slot frame.storage keep
        (ground (arith, find-store b frame slot slot fresh full h)))
      full' (omega arith)
