-- ===== src/Manager/Accounts/Calls.antt =====
-- Every method of the manager against its accounts, and what the accounts give.
use qwen_vl_paged.Prelude.{
  ℕ, ◌≡◌, ◌∙◌, String, List, [], some, arith, length, find, nat_eq, string_eq,
}
use qwen_vl_paged.Block.{CacheKind}
use qwen_vl_paged.Allocator.{AllocatorConfig, new_allocator}
use qwen_vl_paged.Allocator.Cases.{refs}
use qwen_vl_paged.Allocator.Init.{new_allocator-IsValid, refs-new_allocator}
use qwen_vl_paged.Allocator.Capacity.{all_free}
use qwen_vl_paged.Manager.State.{
  SequenceMetadata, SequenceState, PrefixRecord, KvCacheManager, new_manager,
}
use qwen_vl_paged.Manager.Prefix.{publish_prefix, attach_prefix, sole_record}
use qwen_vl_paged.Manager.Sequence.{
  create_sequence, fork_sequence, reserve_tokens, ensure_token_writable, release_sequence,
}
use qwen_vl_paged.Manager.Swapping.{swap_out_sequence, swap_in_sequence}
use qwen_vl_paged.Manager.Request.{swap_out_request, swap_in_request, release_request}
use qwen_vl_paged.Manager.Accounts.Ledger.{Accounts}
use qwen_vl_paged.Manager.Accounts.Publish.{HasHeadroom, publish_prefix-Accounts}
use qwen_vl_paged.Manager.Accounts.Adopt.{CanAttach, attach_prefix-Accounts}
use qwen_vl_paged.Manager.Accounts.Sequences.{
  CanReserve, create_sequence-Accounts, fork_sequence-Accounts, reserve_tokens-Accounts,
}
use qwen_vl_paged.Manager.Accounts.Changes.{
  ensure_token_writable-Accounts, swap_out_sequence-Accounts, swap_in_sequence-Accounts,
  release_sequence-Accounts, swap_out_request-Accounts, swap_in_request-Accounts,
  release_request-Accounts,
}

-- One call of the manager.
pub data Call : Type 0 where
  creates : SequenceMetadata → Call
  forks : ℕ → SequenceMetadata → Call
  reserves : ℕ → ℕ → Call
  writes : ℕ → ℕ → CacheKind → ℕ → Call
  swaps_out swaps_in releases : ℕ → Call
  swaps_out_request swaps_in_request releases_request : ℕ → Call
  publishes attaches : ℕ → String → Call

unfoldable pub step : KvCacheManager → Call → KvCacheManager
step m (creates d) = (create_sequence m d).0
step m (forks parent d) = (fork_sequence m parent d).0
step m (reserves seq n) = (reserve_tokens m seq n).0
step m (writes seq position kind layer) = (ensure_token_writable m seq position kind layer).0
step m (swaps_out seq) = (swap_out_sequence m seq).0
step m (swaps_in seq) = (swap_in_sequence m seq).0
step m (releases seq) = release_sequence m seq
step m (swaps_out_request r) = (swap_out_request m r).0
step m (swaps_in_request r) = (swap_in_request m r).0
step m (releases_request r) = release_request m r
step m (publishes seq key) = (publish_prefix m seq key).0
step m (attaches seq key) = (attach_prefix m seq key).0

abbrev pub Permits : KvCacheManager → Call → Type 0
Permits m (forks parent d) = HasHeadroom m
Permits m (reserves seq n) = CanReserve m seq n
Permits m (publishes seq key) = HasHeadroom m
Permits m (attaches seq key) =
    HasHeadroom m
    × ((s : SequenceState) (r : PrefixRecord)
        → find seq m.sequences ≡ some s
        → sole_record (find key m.prefix_index) ≡ some r
        → CanAttach s r)
Permits m _ = Unit {0}

-- Every call of the manager keeps its accounts: the pool stays well formed, the tables stay
-- contiguous from block 0, and each frame's reference count is exactly the number of resident table
-- entries and prefix records that hold it. A fork, a publish and an attach ask that every frame has
-- fewer than 2 ^ 31 references, a reservation that its tables stay below 2 ^ 32 blocks, and an
-- attach that all the tables of its sequence are empty and the record has fewer than 2 ^ 32 frames.
pub step-Accounts : (m : KvCacheManager) (c : Call) → Accounts m → Permits m c → Accounts (step m c)
unfolding step
step-Accounts m (creates d) acc p = create_sequence-Accounts m d acc
step-Accounts m (forks parent d) acc p = fork_sequence-Accounts m parent d acc p
step-Accounts m (reserves seq n) acc p = reserve_tokens-Accounts m seq n acc p
step-Accounts m (writes seq position kind layer) acc p =
    ensure_token_writable-Accounts m seq position kind layer acc
step-Accounts m (swaps_out seq) acc p = swap_out_sequence-Accounts m seq acc
step-Accounts m (swaps_in seq) acc p = swap_in_sequence-Accounts m seq acc
step-Accounts m (releases seq) acc p = release_sequence-Accounts m seq acc
step-Accounts m (swaps_out_request r) acc p = swap_out_request-Accounts m r acc
step-Accounts m (swaps_in_request r) acc p = swap_in_request-Accounts m r acc
step-Accounts m (releases_request r) acc p = release_request-Accounts m r acc
step-Accounts m (publishes seq key) acc p = publish_prefix-Accounts m seq key acc p
step-Accounts m (attaches seq key) acc p = attach_prefix-Accounts m seq key acc p.0 p.1

-- The managers that calls lead to.
pub data Reach (m : KvCacheManager) : KvCacheManager → Type 0 where
  here : Reach m m
  next : {b d : KvCacheManager} → Reach m b → (c : Call) → Permits b c → step b c ≡ d → Reach m d

pub new_manager-Accounts :
    (c : AllocatorConfig) (slab : ℕ → List ℕ) → Accounts (new_manager (new_allocator c slab))
unfolding new_manager
new_manager-Accounts c slab = record {
  pool = new_allocator-IsValid c slab;
  tables = tt;
  counts = λ i. refs-new_allocator c slab i ∙ omega arith;
}

pub Reach-Accounts : {m b : KvCacheManager} → Accounts m → Reach m b → Accounts b
Reach-Accounts acc here = acc
Reach-Accounts acc (next {b} r c p e) = rw e at (step-Accounts b c (Reach-Accounts acc r) p)

-- From a fresh pool, whatever permitted calls were made: once no sequence and no prefix record is
-- left, no frame has a reference and every frame is on the free list.
pub Reach-no_leak :
    (c : AllocatorConfig) (slab : ℕ → List ℕ) (m : KvCacheManager)
    → Reach (new_manager (new_allocator c slab)) m
    → m.sequences ≡ []
    → m.prefix_index ≡ []
    → ((i : ℕ) → refs m.allocator i ≡ 0) × (length m.allocator.free_list ≡ length m.allocator.infos)
Reach-no_leak c slab m r no_sequences no_records =
    let acc = Reach-Accounts (new_manager-Accounts c slab) r in
    let none_held : (i : ℕ) → refs m.allocator i ≡ 0 =
      λ i. acc.counts i ∙ ground (arith, no_sequences, no_records) in
    (none_held, all_free m.allocator acc.pool none_held)
