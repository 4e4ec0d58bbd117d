-- ===== src/Manager/Accounts/Publish.antt =====
-- publish_prefix and attach_prefix keep the accounts.
use qwen_vl_paged.Prelude.{
  ℕ, ◌+◌, ◌≤◌, ◌<◌, ◌≡◌, refl, ap, Bool, true, false, String, List, [], ◌∷◌, ◌++◌, Option, none,
  some, arith, ◌==◌, u32, text_eq, sum_by, sum_by-append, count, count-append, Assoc, nat_eq,
  string_eq, find, value_at, sum_values-put, sum_values-erase, AllValues-put, inl, inr,
  Option-cases, if_cases, ◌*◌,
}
use qwen_vl_paged.Table.{BlockTable, BlockTableEntry}
use qwen_vl_paged.Table.References.{entry_refs}
use qwen_vl_paged.Allocator.Cases.{refs}
use qwen_vl_paged.Manager.State.{
  SequenceState, PrefixRecord, KvCacheManager, tokens_per_block, text_table_empty, content_hash_of,
}
use qwen_vl_paged.Manager.Prefix.{
  find_record, set_users, entry_ids, table_ids, records_at, use_prefix, publish_record,
  publish_sequence, publish_prefix, first_table_size,
}
use qwen_vl_paged.Manager.Accounts.Tables.{tables_refs}
use qwen_vl_paged.Manager.Accounts.Frames.{CanGain, retain_all-Gained}
use qwen_vl_paged.Manager.Accounts.Ledger.{
  state_refs, record_refs, records_refs, held, HasTables, Accounts, state-AllContiguous,
}
use qwen_vl_paged.Manager.Accounts.Prefixes.{records_refs-set_users}

-- Every frame has fewer than 2 ^ 31 references, so that its count can double.
abbrev pub HasHeadroom : KvCacheManager → Type 0
HasHeadroom m = (j : ℕ) → refs m.allocator j + refs m.allocator j < 4294967296

entry_ids_refs :
    (j : ℕ) (es : List BlockTableEntry) (ids : List ℕ)
    → entry_ids es ≡ some ids
    → count j ids ≡ sum_by (entry_refs j) es
unfolding entry_ids
entry_ids_refs j [] ids h = ground arith
entry_ids_refs j (e ∷ es) ids h = elim (Option-cases (entry_ids es)) [
  | inl u ↦ absurd (ground arith)
  | inr (xs, u) ↦ ground (arith, entry_ids_refs j es xs u)
]

table_ids_refs :
    (j : ℕ) (ts : List BlockTable) (ids : List ℕ)
    → table_ids ts ≡ some ids
    → count j ids ≡ tables_refs j ts
unfolding table_ids
table_ids_refs j [] ids h = ground arith
table_ids_refs j (t ∷ ts) ids h = elim (Option-cases (entry_ids t.entries)) [
  | inl u ↦ absurd (ground arith)
  | inr (xs, u) ↦ elim (Option-cases (table_ids ts)) [
    | inl w ↦ absurd (ground arith)
    | inr (ys, w) ↦
        ground
          (arith, entry_ids_refs j t.entries xs u, table_ids_refs j ts ys w, count-append j xs ys)
  ]
]

records_at_refs :
    (i : ℕ) (key : String) (index : Assoc String (List PrefixRecord))
    → value_at (records_refs i) (find key index) ≡ records_refs i (records_at key index)
records_at_refs i key index = ground arith

-- What a sequence holds is a part of what the manager holds.
pub state-le-held :
    (m : KvCacheManager) (i seq : ℕ) (s : SequenceState)
    → find seq m.sequences ≡ some s
    → state_refs i s ≤ held i m
state-le-held m i seq s e =
    omega (arith, sum_values-erase (state_refs i) seq m.sequences, ap (value_at (state_refs i)) e)

module _ (m : KvCacheManager) (seq : ℕ) (s : SequenceState) (acc : Accounts m)
    (at : find seq m.sequences ≡ some s) (head : HasHeadroom m) where
  -- Frames that a part of the manager's data holds can be held once more.
  pub held-CanGain : (n : ℕ → ℕ) → ((j : ℕ) → n j ≤ held j m) → CanGain n m.allocator
  held-CanGain n le = record {
    used = λ j h. omega (arith, acc.counts j, le j);
    room = λ j. omega (arith, acc.counts j, le j, head j);
  }

  publish_record-Accounts :
      (key : String) (r : PrefixRecord)
      → ((j : ℕ) → record_refs j r ≤ held j m)
      → Accounts (publish_record m seq s key r)
  unfolding publish_record
  publish_record-Accounts key r le =
      elim (Option-cases (find_record r.content_hash (records_at key m.prefix_index))) [
        | inr (x, u) ↦
            rw (u, publish_record)
              (record {
                pool = acc.pool;
                tables =
                    AllValues-put HasTables seq (use_prefix s key x.content_hash) m.sequences
                      (state-AllContiguous m seq s acc at) acc.tables;
                counts = λ i. omega (
                  arith,
                  acc.counts i,
                  sum_values-put (state_refs i) seq (use_prefix s key x.content_hash) m.sequences,
                  ap (value_at (state_refs i)) at,
                  records_refs-set_users i r.content_hash (u32 (x.users + 1))
                      (records_at key m.prefix_index),
                  sum_values-put (records_refs i) key
                      (set_users r.content_hash (u32 (x.users + 1)) (records_at key m.prefix_index))
                      m.prefix_index,
                  records_at_refs i key m.prefix_index,
                );
              })
        | inl u ↦
            let pinned =
              retain_all-Gained m.allocator r.physical_ids acc.pool
                (held-CanGain (λ j. record_refs j r) le) in
            rw (u, publish_record)
              (record {
                pool = pinned.pool;
                tables =
                    AllValues-put HasTables seq (use_prefix s key r.content_hash) m.sequences
                      (state-AllContiguous m seq s acc at) acc.tables;
                counts = λ i. omega (
                  arith,
                  acc.counts i,
                  pinned.gain i,
                  sum_values-put (state_refs i) seq (use_prefix s key r.content_hash) m.sequences,
                  ap (value_at (state_refs i)) at,
                  sum_by-append (record_refs i) (records_at key m.prefix_index) (r ∷ []),
                  sum_values-put (records_refs i) key (records_at key m.prefix_index ++ r ∷ [])
                      m.prefix_index,
                  records_at_refs i key m.prefix_index,
                );
              })
      ]

  publish_ids-Accounts :
      (key : String) (o : Option (List ℕ))
      → table_ids s.tables ≡ o
      → Accounts
          (elim o as (λ _. KvCacheManager × Bool) [
            | none ↦ (m, false)
            | some ids ↦ (
              publish_record m seq s key (record {
                content_hash = content_hash_of m.allocator s.tables;
                token_count = u32 (u32 (first_table_size s.tables) * tokens_per_block m);
                users = 1;
                physical_ids = ids;
              }),
              true,
            )
          ]).0
  publish_ids-Accounts key none h = acc
  publish_ids-Accounts key (some ids) h =
      publish_record-Accounts key _
        (λ j. omega (arith, table_ids_refs j s.tables ids h, state-le-held m j seq s at))

  publish_sequence-Accounts : (key : String) → Accounts (publish_sequence m seq s key).0
  unfolding publish_sequence
  publish_sequence-Accounts key =
      if_cases (λ (r : KvCacheManager × Bool). Accounts r.0) (text_table_empty s) (λ _. acc)
        (λ _.
          if_cases (λ (r : KvCacheManager × Bool). Accounts r.0) (text_eq s.prefix_key key)
            (λ _. acc)
            (λ _.
              if_cases (λ (r : KvCacheManager × Bool). Accounts r.0) (tokens_per_block m == 0)
                (λ _. acc) (λ _. publish_ids-Accounts key (table_ids s.tables) refl)))

pub publish_prefix-Accounts :
    (m : KvCacheManager) (seq : ℕ) (key : String)
    → Accounts m
    → HasHeadroom m
    → Accounts (publish_prefix m seq key).0
unfolding publish_prefix
publish_prefix-Accounts m seq key acc head =
    if_cases (λ (r : KvCacheManager × Bool). Accounts r.0) (text_eq key "") (λ _. acc)
      (λ _. known (find seq m.sequences) refl)
  where
    known :
        (o : Option SequenceState)
        → find seq m.sequences ≡ o
        → Accounts
            (elim o as (λ _. KvCacheManager × Bool) [
              | none ↦ (m, false)
              | some s ↦ publish_sequence m seq s key
            ]).0
    known none at = acc
    known (some s) at = publish_sequence-Accounts m seq s acc at head key
