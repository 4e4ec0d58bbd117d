-- ===== src/Manager/Accounts/Prefixes.antt =====
-- publish_prefix, attach_prefix and drop_prefix_user keep the accounts.
use qwen_vl_paged.Prelude.{
  ℕ, ◌+◌, ◌-◌, ◌≤◌, ◌≡◌, refl, ap, ◌∙◌, true, String, List, [], ◌∷◌, some, arith, ltb, is_empty,
  text_eq, nat_eq, string_eq, find, value_at, sum_values-put, sum_values-erase, inl, inr,
  Bool-cases, Option-cases,
}
use qwen_vl_paged.Manager.State.{SequenceState, PrefixRecord, KvCacheManager, release_all}
use qwen_vl_paged.Manager.Prefix.{
  find_record, set_users, remove_record, drop_record, drop_prefix_user,
}
use qwen_vl_paged.Manager.Accounts.Frames.{Lost, release_all-Lost}
use qwen_vl_paged.Manager.Accounts.Ledger.{record_refs, records_refs, held, Accounts}

pub records_refs-set_users :
    (i h n : ℕ) (rs : List PrefixRecord) → records_refs i (set_users h n rs) ≡ records_refs i rs
unfolding set_users
records_refs-set_users i h n [] = refl
records_refs-set_users i h n (r ∷ rs) = ground (arith, records_refs-set_users i h n rs)

records_refs-remove_record :
    (i h : ℕ) (rs : List PrefixRecord) (r : PrefixRecord)
    → find_record h rs ≡ some r
    → records_refs i (remove_record h rs) + record_refs i r ≡ records_refs i rs
unfolding find_record remove_record
records_refs-remove_record i h [] r e = absurd (ground arith)
records_refs-remove_record i h (x ∷ rs) r e = ground (arith, records_refs-remove_record i h rs r)

pub find_record-own_hash :
    (h : ℕ) (rs : List PrefixRecord) (r : PrefixRecord)
    → find_record h rs ≡ some r
    → r.content_hash ≡ h
unfolding find_record
find_record-own_hash h [] r e = absurd (ground arith)
find_record-own_hash h (x ∷ rs) r e = ground (arith, find_record-own_hash h rs r)

-- What the records under a key hold is a part of what the manager holds.
pub records-le-held :
    (m : KvCacheManager) (i : ℕ) (key : String) (rs : List PrefixRecord)
    → find key m.prefix_index ≡ some rs
    → records_refs i rs ≤ held i m
records-le-held m i key rs e =
    omega (
      arith,
      sum_values-erase (records_refs i) key m.prefix_index,
      ap (value_at (records_refs i)) e,
    )

is_empty_list : (rs : List PrefixRecord) → is_empty rs ≡ true → rs ≡ []
is_empty_list [] e = refl
is_empty_list (r ∷ rs) e = ground arith

module _ (m : KvCacheManager) (key : String) (rs : List PrefixRecord) (r : PrefixRecord)
    (acc : Accounts m) (at : find key m.prefix_index ≡ some rs)
    (found : find_record r.content_hash rs ≡ some r) where
  freed : Lost (λ j. record_refs j r) m.allocator (release_all m.allocator r.physical_ids)
  freed = release_all-Lost m.allocator r.physical_ids acc.pool (λ j. omega (
    arith,
    acc.counts j,
    records-le-held m j key rs at,
    records_refs-remove_record j r.content_hash rs r found,
  ))

  drop_record-Accounts : Accounts (drop_record m key rs r)
  unfolding drop_record
  drop_record-Accounts = elim (Bool-cases (ltb 0 (r.users - 1))) [
    | inl more ↦
        rw (more, drop_record)
          (record {
            pool = acc.pool;
            tables = acc.tables;
            counts = λ i. omega (
              arith,
              acc.counts i,
              records_refs-set_users i r.content_hash (r.users - 1) rs,
              sum_values-put (records_refs i) key (set_users r.content_hash (r.users - 1) rs)
                  m.prefix_index,
              ap (value_at (records_refs i)) at,
            );
          })
    | inr last ↦ elim (Bool-cases (is_empty (remove_record r.content_hash rs))) [
      | inl none_left ↦
          rw (last, none_left, drop_record)
            (record {
              pool = freed.pool;
              tables = acc.tables;
              counts = λ i. omega (
                arith,
                acc.counts i,
                freed.loss i,
                records_refs-remove_record i r.content_hash rs r found,
                ap (records_refs i) (is_empty_list (remove_record r.content_hash rs) none_left),
                sum_values-erase (records_refs i) key m.prefix_index,
                ap (value_at (records_refs i)) at,
              );
            })
      | inr some_left ↦
          rw (last, some_left, drop_record)
            (record {
              pool = freed.pool;
              tables = acc.tables;
              counts = λ i. omega (
                arith,
                acc.counts i,
                freed.loss i,
                records_refs-remove_record i r.content_hash rs r found,
                sum_values-put (records_refs i) key (remove_record r.content_hash rs)
                    m.prefix_index,
                ap (value_at (records_refs i)) at,
              );
            })
    ]
  ]

pub drop_prefix_user-Accounts :
    (m : KvCacheManager) (s : SequenceState) → Accounts m → Accounts (drop_prefix_user m s)
unfolding drop_prefix_user
drop_prefix_user-Accounts m s acc = elim (Bool-cases (text_eq s.prefix_key "")) [
  | inl no_key ↦ rw (no_key, drop_prefix_user) acc
  | inr key ↦ elim (Option-cases (find s.prefix_key m.prefix_index)) [
    | inl u ↦ rw (key, u, drop_prefix_user) acc
    | inr (rs, u) ↦ elim (Option-cases (find_record s.prefix_hash rs)) [
      | inl w ↦ rw (key, u, w, drop_prefix_user) acc
      | inr (r, w) ↦
          let own : find_record r.content_hash rs ≡ some r =
            ap (λ h. find_record h rs) (find_record-own_hash s.prefix_hash rs r w) ∙ w in
          rw (key, u, w, drop_prefix_user) (drop_record-Accounts m s.prefix_key rs r acc u own)
    ]
  ]
]
