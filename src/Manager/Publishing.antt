-- ===== src/Manager/Publishing.antt =====
-- What publish_prefix of src/KVCacheManager.cpp does to the prefix index and to its sequence.
use qwen_vl_paged.Prelude.{
  ℕ, ◌≡◌, ◌≢◌, refl, ap, ◌∙◌, Bool, true, false, String, Option, some, List, arith, ◌==◌, if_cases,
  text_eq, inl, inr, Option-cases, find, put, find-put_same, find-put_other, nat_eq, string_eq,
}
use mathlib.Core.Option
use qwen_vl_paged.Manager.State.{
  SequenceState, PrefixRecord, KvCacheManager, tokens_per_block, text_table_empty,
}
use qwen_vl_paged.Manager.Prefix.{
  find_record, table_ids, records_at, use_prefix, publish_record, publish_sequence, publish_prefix,
}

abbrev pub key_of : KvCacheManager → ℕ → Option String
key_of m seq = Option.map (λ (s : SequenceState). s.prefix_key) (find seq m.sequences)

-- Other keys keep their records, and a publish that succeeds has the sequence use the key.
pub record Publishes (m : KvCacheManager) (seq : ℕ) (key : String) (res : KvCacheManager × Bool)
    : Type 0 where
  pub others :
      (other : String) → other ≢ key → find other res.0.prefix_index ≡ find other m.prefix_index
  pub uses : res.1 ≡ true → key_of res.0 seq ≡ some key

refused : (m : KvCacheManager) (seq : ℕ) (key : String) → Publishes m seq key (m, false)
refused m seq key = record { others = λ _ _. refl; uses = λ h. absurd (ground arith) }

put_record-Publishes :
    (m m' : KvCacheManager) (seq : ℕ) (s : SequenceState) (key : String) (h : ℕ)
    (rs : List PrefixRecord)
    → m'.sequences ≡ put seq (use_prefix s key h) m.sequences
    → m'.prefix_index ≡ put key rs m.prefix_index
    → Publishes m seq key (m', true)
put_record-Publishes m m' seq s key h rs e e' = record {
  others = λ other differs. ap (find other) e' ∙ find-put_other key other rs m.prefix_index differs;
  uses = λ _.
      ap (λ ss. Option.map (λ (x : SequenceState). x.prefix_key) (find seq ss)) e
      ∙ ap (Option.map (λ (x : SequenceState). x.prefix_key))
          (find-put_same seq (use_prefix s key h) m.sequences);
}

publish_record-Publishes :
    (m : KvCacheManager) (seq : ℕ) (s : SequenceState) (key : String) (r : PrefixRecord)
    → Publishes m seq key (publish_record m seq s key r, true)
unfolding publish_record
publish_record-Publishes m seq s key r =
    elim (Option-cases (find_record r.content_hash (records_at key m.prefix_index))) [
      | inr (x, u) ↦ rw (u, publish_record) (put_record-Publishes m _ seq s key _ _ refl refl)
      | inl u ↦ rw (u, publish_record) (put_record-Publishes m _ seq s key _ _ refl refl)
    ]

publish_sequence-Publishes :
    (m : KvCacheManager) (seq : ℕ) (s : SequenceState) (key : String)
    → find seq m.sequences ≡ some s
    → Publishes m seq key (publish_sequence m seq s key)
unfolding publish_sequence
publish_sequence-Publishes m seq s key at =
    if_cases (Publishes m seq key) (text_table_empty s) (λ _. refused m seq key)
      (λ _.
        if_cases (Publishes m seq key) (text_eq s.prefix_key key)
          (λ same. record {
            others = λ _ _. refl;
            uses = λ _.
                ap (Option.map (λ (x : SequenceState). x.prefix_key)) at
                ∙ ground (arith, string_eq.beq_iff s.prefix_key key, same);
          })
          (λ _.
            if_cases (Publishes m seq key) (tokens_per_block m == 0) (λ _. refused m seq key)
              (λ _. elim (Option-cases (table_ids s.tables)) [
                | inl u ↦ rw u (refused m seq key)
                | inr (ids, u) ↦ rw u (publish_record-Publishes m seq s key _)
              ])))

publish_prefix-Publishes :
    (m : KvCacheManager) (seq : ℕ) (key : String) → Publishes m seq key (publish_prefix m seq key)
unfolding publish_prefix
publish_prefix-Publishes m seq key =
    if_cases (Publishes m seq key) (text_eq key "") (λ _. refused m seq key)
      (λ _. elim (Option-cases (find seq m.sequences)) [
        | inl u ↦ rw u (refused m seq key)
        | inr (s, u) ↦ rw u (publish_sequence-Publishes m seq s key u)
      ])

-- A publish that succeeds has its sequence use the key and no other, and leaves the records under
-- every other key as they are, those that the sequence used before included.
pub publish_prefix_lem :
    (m : KvCacheManager) (seq : ℕ) (key other : String)
    → (publish_prefix m seq key).1 ≡ true
    → other ≢ key
    → (key_of (publish_prefix m seq key).0 seq ≡ some key)
      × (find other (publish_prefix m seq key).0.prefix_index ≡ find other m.prefix_index)
publish_prefix_lem m seq key other done differs =
    let p = publish_prefix-Publishes m seq key in (p.uses done, p.others other differs)
