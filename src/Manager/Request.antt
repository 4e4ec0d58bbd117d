-- ===== src/Manager/Request.antt =====
-- The operations of src/KVCacheManager.cpp on every sequence of a request.
use qwen_vl_paged.Prelude.{
  ℕ, ◌+◌, none, some, Bool, true, false, ◌&&◌, not, List, [], ◌∷◌, ltb, if◌then◌else◌, u32, nat_eq,
  find,
}
use qwen_vl_paged.Allocator.{can_allocate}
use qwen_vl_paged.Manager.State.{KvCacheManager, sequences_for}
use qwen_vl_paged.Manager.Sequence.{release_sequence}
use qwen_vl_paged.Manager.Swapping.{swap_out_sequence, swap_in_sequence, swapped_in_tables}

unfoldable pub swap_out_each : KvCacheManager → List ℕ → ℕ → KvCacheManager × ℕ
swap_out_each m [] swapped = (m, swapped)
swap_out_each m (seq ∷ seqs) swapped =
    let (m', n) = swap_out_sequence m seq in swap_out_each m' seqs (u32 (swapped + n))

unfoldable pub swap_out_request : KvCacheManager → ℕ → KvCacheManager × ℕ
unfolding swap_out_each
swap_out_request m request = swap_out_each m (sequences_for m request) 0

unfoldable pub needed_for : KvCacheManager → List ℕ → ℕ
needed_for m [] = 0
needed_for m (seq ∷ seqs) =
    elim (find seq m.sequences) [ none ↦ 0 | some s ↦ swapped_in_tables s.tables ]
    + needed_for m seqs

unfoldable pub swap_in_each : KvCacheManager → List ℕ → KvCacheManager × Bool
swap_in_each m [] = (m, true)
swap_in_each m (seq ∷ seqs) =
    let (m', done) = swap_in_sequence m seq in
    let rest = swap_in_each m' seqs in if done then rest else (m', false)

unfoldable pub swap_in_request : KvCacheManager → ℕ → KvCacheManager × Bool
unfolding swap_in_each needed_for
swap_in_request m request =
    let seqs = sequences_for m request in
    let needed = u32 (needed_for m seqs) in
    if ltb 0 needed && not (can_allocate m.allocator needed)
    then (m, false)
    else swap_in_each m seqs

unfoldable pub release_each : KvCacheManager → List ℕ → KvCacheManager
release_each m [] = m
release_each m (seq ∷ seqs) = release_each (release_sequence m seq) seqs

unfoldable pub release_request : KvCacheManager → ℕ → KvCacheManager
unfolding release_each
release_request m request = release_each m (sequences_for m request)
