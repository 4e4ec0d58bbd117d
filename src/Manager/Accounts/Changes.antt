-- ===== src/Manager/Accounts/Changes.antt =====
-- Writing, swapping and releasing a sequence, and the same for a request, keep the accounts.
use qwen_vl_paged.Prelude.{
  ℕ, ◌+◌, ◌≡◌, refl, ap, ◌∙◌, Bool, ◌&&◌, not, List, [], ◌∷◌, Option, none, some, arith, ltb, ◌==◌,
  if_cases, get_elem?, set, sum_by-set, u32, AllValues-erase, nat_eq, string_eq, find, put,
  value_at, sum_values-erase, Option-cases, inl, inr,
}
use qwen_vl_paged.Block.{CacheKind}
use qwen_vl_paged.Table.{BlockTable}
use qwen_vl_paged.Table.References.{table_refs}
use qwen_vl_paged.Allocator.{can_allocate}
use qwen_vl_paged.Manager.State.{SequenceState, KvCacheManager, sequences_for}
use qwen_vl_paged.Manager.Prefix.{drop_prefix_user, drop_record}
use qwen_vl_paged.Manager.Sequence.{
  write_table, ensure_token_writable, release_state, release_sequence,
}
use qwen_vl_paged.Manager.Swapping.{
  evict_tables, swap_out_sequence, swapped_in_tables, restore_tables, swap_in_sequence,
}
use qwen_vl_paged.Manager.Request.{
  swap_out_each, swap_out_request, needed_for, swap_in_each, swap_in_request, release_each,
  release_request,
}
use qwen_vl_paged.Manager.Accounts.Tables.{AllContiguous-get_elem?, AllContiguous-set}
use qwen_vl_paged.Manager.Accounts.Frames.{release_tables-Lost}
use qwen_vl_paged.Manager.Accounts.Write.{write_table-Balanced}
use qwen_vl_paged.Manager.Accounts.Evict.{evict_tables-AllBalanced}
use qwen_vl_paged.Manager.Accounts.Restore.{restore_tables-AllBalanced}
use qwen_vl_paged.Manager.Accounts.Ledger.{
  state_refs, HasTables, Accounts, put_state-Accounts, state-AllContiguous,
}
use qwen_vl_paged.Manager.Accounts.Prefixes.{drop_prefix_user-Accounts}
use qwen_vl_paged.Manager.Accounts.Publish.{state-le-held}

pub ensure_token_writable-Accounts :
    (m : KvCacheManager) (seq position : ℕ) (kind : CacheKind) (layer : ℕ)
    → Accounts m
    → Accounts (ensure_token_writable m seq position kind layer).0
unfolding ensure_token_writable
ensure_token_writable-Accounts m seq position kind layer acc = known (find seq m.sequences) refl
  where
    written : SequenceState → BlockTable → KvCacheManager × Option ℕ
    written s t =
        let ((a, t'), w) = write_table m.allocator t position in
        (
          record m {
            allocator = a;
            sequences = put seq (record s { tables = set s.tables layer t' }) m.sequences;
          },
          w,
        )

    table :
        (s : SequenceState) (o : Option BlockTable)
        → find seq m.sequences ≡ some s
        → get_elem? s.tables layer ≡ o
        → Accounts
            (elim o as (λ _. KvCacheManager × Option ℕ) [
              | none ↦ (m, none)
              | some t ↦ written s t
            ]).0
    table s none at h = acc
    table s (some t) at h =
        let shapes = state-AllContiguous m seq s acc at in
        let out = write_table m.allocator t position in
        let b =
          write_table-Balanced m.allocator t position acc.pool
            (AllContiguous-get_elem? s.tables layer t shapes h) in
        put_state-Accounts m seq s (record s { tables = set s.tables layer out.0.1 }) out.0.0 acc at
          (record {
            pool = b.pool;
            shape = AllContiguous-set s.tables layer out.0.1 shapes b.shape;
            balance = λ i.
                omega (arith, b.balance i, sum_by-set (table_refs i) s.tables layer out.0.1 t h);
          })

    known :
        (o : Option SequenceState)
        → find seq m.sequences ≡ o
        → Accounts
            (elim o as (λ _. KvCacheManager × Option ℕ) [
              | none ↦ (m, none)
              | some s ↦ elim (get_elem? s.tables layer) [ none ↦ (m, none) | some t ↦ written s t ]
            ]).0
    known none at = acc
    known (some s) at = table s (get_elem? s.tables layer) at refl

pub swap_out_sequence-Accounts :
    (m : KvCacheManager) (seq : ℕ) → Accounts m → Accounts (swap_out_sequence m seq).0
unfolding swap_out_sequence
swap_out_sequence-Accounts m seq acc = elim (Option-cases (find seq m.sequences)) [
  | inl u ↦ rw (u, swap_out_sequence) acc
  | inr (s, u) ↦
      let out = evict_tables m.allocator s.tables 0 in
      rw (u, swap_out_sequence)
        (put_state-Accounts m seq s (record s { tables = out.0.1 }) out.0.0 acc u
          (evict_tables-AllBalanced m.allocator s.tables 0 acc.pool
            (state-AllContiguous m seq s acc u)))
]

pub swap_in_sequence-Accounts :
    (m : KvCacheManager) (seq : ℕ) → Accounts m → Accounts (swap_in_sequence m seq).0
unfolding swap_in_sequence
swap_in_sequence-Accounts m seq acc = elim (Option-cases (find seq m.sequences)) [
  | inl u ↦ rw (u, swap_in_sequence) acc
  | inr (s, u) ↦
      let out = restore_tables m.allocator s.tables in
      rw (u, swap_in_sequence)
        (if_cases (λ (r : KvCacheManager × Bool). Accounts r.0)
          (u32 (swapped_in_tables s.tables) == 0) (λ _. acc)
          (λ _.
            if_cases (λ (r : KvCacheManager × Bool). Accounts r.0)
              (not (can_allocate m.allocator (u32 (swapped_in_tables s.tables)))) (λ _. acc)
              (λ _.
                put_state-Accounts m seq s (record s { tables = out.0.1 }) out.0.0 acc u
                  (restore_tables-AllBalanced m.allocator s.tables acc.pool
                    (state-AllContiguous m seq s acc u)))))
]

sequences-drop_prefix_user :
    (m : KvCacheManager) (s : SequenceState) → (drop_prefix_user m s).sequences ≡ m.sequences
unfolding drop_prefix_user drop_record
sequences-drop_prefix_user m s = ground arith

release_state-Accounts :
    (m : KvCacheManager) (seq : ℕ) (s : SequenceState)
    → Accounts m
    → find seq m.sequences ≡ some s
    → Accounts (release_state m seq s)
unfolding release_state
release_state-Accounts m seq s acc at =
    let lost =
      release_tables-Lost m.allocator s.tables acc.pool
        (λ j. omega (arith, acc.counts j, state-le-held m j seq s at)) in
    record {
      pool = lost.pool;
      tables = AllValues-erase HasTables seq m.sequences acc.tables;
      counts = λ i. omega (
        arith,
        acc.counts i,
        lost.loss i,
        sum_values-erase (state_refs i) seq m.sequences,
        ap (value_at (state_refs i)) at,
      );
    }

pub release_sequence-Accounts :
    (m : KvCacheManager) (seq : ℕ) → Accounts m → Accounts (release_sequence m seq)
unfolding release_sequence
release_sequence-Accounts m seq acc = elim (Option-cases (find seq m.sequences)) [
  | inl u ↦ rw (u, release_sequence) acc
  | inr (s, u) ↦
      rw (u, release_sequence)
        (release_state-Accounts (drop_prefix_user m s) seq s (drop_prefix_user-Accounts m s acc)
          (ap (find seq) (sequences-drop_prefix_user m s) ∙ u))
]

swap_out_each-Accounts :
    (seqs : List ℕ) (m : KvCacheManager) (n : ℕ) → Accounts m → Accounts (swap_out_each m seqs n).0
unfolding swap_out_each
swap_out_each-Accounts [] m n acc = acc
swap_out_each-Accounts (seq ∷ seqs) m n acc =
    swap_out_each-Accounts seqs (swap_out_sequence m seq).0 (u32 (n + (swap_out_sequence m seq).1))
      (swap_out_sequence-Accounts m seq acc)

pub swap_out_request-Accounts :
    (m : KvCacheManager) (request : ℕ) → Accounts m → Accounts (swap_out_request m request).0
unfolding swap_out_request
swap_out_request-Accounts m request acc = swap_out_each-Accounts (sequences_for m request) m 0 acc

swap_in_each-Accounts :
    (seqs : List ℕ) (m : KvCacheManager) → Accounts m → Accounts (swap_in_each m seqs).0
unfolding swap_in_each
swap_in_each-Accounts [] m acc = acc
swap_in_each-Accounts (seq ∷ seqs) m acc =
    let next = swap_in_sequence-Accounts m seq acc in
    if_cases (λ (r : KvCacheManager × Bool). Accounts r.0) (swap_in_sequence m seq).1
      (λ _. swap_in_each-Accounts seqs (swap_in_sequence m seq).0 next) (λ _. next)

pub swap_in_request-Accounts :
    (m : KvCacheManager) (request : ℕ) → Accounts m → Accounts (swap_in_request m request).0
unfolding swap_in_request
swap_in_request-Accounts m request acc =
    if_cases (λ (r : KvCacheManager × Bool). Accounts r.0)
      (ltb 0 (u32 (needed_for m (sequences_for m request)))
        && not (can_allocate m.allocator (u32 (needed_for m (sequences_for m request)))))
      (λ _. acc) (λ _. swap_in_each-Accounts (sequences_for m request) m acc)

release_each-Accounts :
    (seqs : List ℕ) (m : KvCacheManager) → Accounts m → Accounts (release_each m seqs)
unfolding release_each
release_each-Accounts [] m acc = acc
release_each-Accounts (seq ∷ seqs) m acc =
    release_each-Accounts seqs (release_sequence m seq) (release_sequence-Accounts m seq acc)

pub release_request-Accounts :
    (m : KvCacheManager) (request : ℕ) → Accounts m → Accounts (release_request m request)
unfolding release_request
release_request-Accounts m request acc = release_each-Accounts (sequences_for m request) m acc
