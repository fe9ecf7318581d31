-- ===== src/MdIndex/Complete.antt =====
-- What the collected indices are: distinct, at most five, and exactly those that the log block
-- refers to.
use timelock_drive.Prelude.{
  ℕ, zero, suc, ◌+◌, ◌/◌, ◌<◌, ◌≤◌, ◌≡◌, refl, sym, ap, subst, ◌∙◌, Bool, true, false, ◌&&◌, ◌||◌,
  Option, none, some, List, [], ◌∷◌, ◌++◌, ltb, leb, ◌==◌, arith, length, length-append, Bool-cases,
  inl, inr,
}
use timelock_drive.Constants.{
  TdMetadataLogBlock, total_physical_num_blocks, metadata_entries_per_block,
  max_md_blocks_in_header, length_td_log_block,
}
use timelock_drive.MdIndex.{
  md_block_already_queued, collect_entry, collect_entries, collect_tdlog_needed_md_indices, Round,
  go_on, return, add_entry, add_entries, add_tdlog_referenced_md_blocks,
}

-- An address on the disk whose metadata lies in block `md`.
abbrev pub refers : ℕ → ℕ → Bool
refers pba md = ltb pba total_physical_num_blocks && pba / metadata_entries_per_block == md

-- Some address among `n` from index `i` on does.
abbrev pub refers_any : (ℕ → ℕ) → ℕ → ℕ → ℕ → Bool
refers_any arr i zero md = false
refers_any arr i (suc n) md = refers (arr i) md || refers_any arr (i + 1) n md

-- No block is listed twice.
abbrev pub IsDistinct : List ℕ → Type 0
IsDistinct [] = Unit
IsDistinct (x ∷ xs) = (md_block_already_queued xs x ≡ false) × IsDistinct xs

pub queued-append :
    (xs : List ℕ) (y md : ℕ)
    → md_block_already_queued (xs ++ y ∷ []) md ≡ (md_block_already_queued xs md || (y == md))
unfolding md_block_already_queued
queued-append [] y md = ground arith
queued-append (x ∷ xs) y md = ground (arith, queued-append xs y md)

append-IsDistinct :
    (xs : List ℕ) (y : ℕ)
    → IsDistinct xs
    → md_block_already_queued xs y ≡ false
    → IsDistinct (xs ++ y ∷ [])
unfolding md_block_already_queued
append-IsDistinct [] y d h = (refl, tt)
append-IsDistinct (x ∷ xs) y d h =
    (ground (arith, queued-append xs y x), append-IsDistinct xs y d.1 (ground arith))

-- What one address does to the list: nothing new, one more index, or one index too many.
data Outcome (pba : ℕ) (out : List ℕ) (result : Option (List ℕ)) (round : Round) : Type 0 where
  known :
      result ≡ some out
      → round ≡ go_on out
      → ((md : ℕ) → refers pba md ≡ true → md_block_already_queued out md ≡ true)
      → Outcome pba out result round
  added :
      result ≡ some (out ++ pba / metadata_entries_per_block ∷ [])
      → round ≡ go_on (out ++ pba / metadata_entries_per_block ∷ [])
      → md_block_already_queued out (pba / metadata_entries_per_block) ≡ false
      → length out < max_md_blocks_in_header
      → pba < total_physical_num_blocks
      → Outcome pba out result round
  full :
      result ≡ none
      → round ≡ return out
      → md_block_already_queued out (pba / metadata_entries_per_block) ≡ false
      → max_md_blocks_in_header ≤ length out
      → pba < total_physical_num_blocks
      → Outcome pba out result round

refers-idx : (pba md : ℕ) → refers pba md ≡ true → (pba / metadata_entries_per_block) ≡ md
refers-idx pba md h = ground arith

refers_off_disk : (pba md : ℕ) → total_physical_num_blocks ≤ pba → refers pba md ≡ false
refers_off_disk pba md h = ground arith

entry-Outcome :
    (pba : ℕ) (out : List ℕ) → Outcome pba out (collect_entry pba out) (add_entry pba out)
unfolding collect_entry add_entry
entry-Outcome pba out = elim (Bool-cases (leb total_physical_num_blocks pba)) [
  | inl off ↦ known (ground arith) (ground arith) (λ md h. ground (arith, refers_off_disk pba md))
  | inr on ↦ elim (Bool-cases (md_block_already_queued out (pba / metadata_entries_per_block))) [
    | inl seen ↦
        known (ground arith) (ground arith)
          (λ md h. subst (λ k. md_block_already_queued out k ≡ true) (refers-idx pba md h) seen)
    | inr new ↦ elim (Bool-cases (leb max_md_blocks_in_header (length out))) [
      | inl long ↦ full (ground arith) (ground arith) new (ground arith) (ground arith)
      | inr short ↦ added (ground arith) (ground arith) new (ground arith) (ground arith)
    ]
  ]
]

-- The collected list after `n` rounds: with what it was before, exactly the blocks referred to.
record Collected (arr : ℕ → ℕ) (i n : ℕ) (out out' : List ℕ) : Type 0 where
  queued :
      (md : ℕ)
      → md_block_already_queued out' md ≡ (md_block_already_queued out md || refers_any arr i n md)
  distinct : IsDistinct out'
  short : length out' ≤ max_md_blocks_in_header

or_false : (a : Bool) → a ≡ (a || false)
or_false a = ground arith

or_known : (a r b : Bool) → (r ≡ true → a ≡ true) → (a || b) ≡ (a || (r || b))
or_known true r b h = refl
or_known false true b h = ground arith
or_known false false b h = refl

or_added : (a r b : Bool) → ((a || r) || b) ≡ (a || (r || b))
or_added true r b = refl
or_added false r b = refl

refers_on_disk :
    (pba md : ℕ)
    → pba < total_physical_num_blocks
    → ((pba / metadata_entries_per_block) == md) ≡ refers pba md
refers_on_disk pba md h = ground arith

-- Both loops, from a list of distinct indices that fits the header. Either all blocks referred to
-- fit, and both give the same list, or a sixth one turns up: the one aborts, the other stops with
-- the first five.
data Done (arr : ℕ → ℕ) (i n : ℕ) (out : List ℕ) (result : Option (List ℕ)) (added : List ℕ)
    : Type 0 where
  complete : result ≡ some added → Collected arr i n out added → Done arr i n out result added
  overflow :
      (extra : ℕ)
      → result ≡ none
      → IsDistinct added
      → length added ≡ max_md_blocks_in_header
      → ((md : ℕ)
          → md_block_already_queued added md ≡ true
          → (md_block_already_queued out md || refers_any arr i n md) ≡ true)
      → refers_any arr i n extra ≡ true
      → md_block_already_queued added extra ≡ false
      → Done arr i n out result added

Done-known :
    (arr : ℕ → ℕ) (i n : ℕ) (out : List ℕ) (result : Option (List ℕ)) (more : List ℕ)
    → ((md : ℕ) → refers (arr i) md ≡ true → md_block_already_queued out md ≡ true)
    → Done arr (i + 1) n out result more
    → Done arr i (suc n) out result more
Done-known arr i n out result more k (complete r c) = complete r (record {
  queued = λ md.
      c.queued md
      ∙ or_known (md_block_already_queued out md) (refers (arr i) md) (refers_any arr (i + 1) n md)
          (k md);
  distinct = c.distinct;
  short = c.short;
})
Done-known arr i n out result more k (overflow extra r d l sub e q) =
    overflow extra r d l
      (λ md h.
        sym (
          or_known (md_block_already_queued out md) (refers (arr i) md)
            (refers_any arr (i + 1) n md) (k md))
        ∙ sub md h)
      (ground arith) q

added_queued :
    (pba : ℕ) (out : List ℕ) (md : ℕ) (b : Bool)
    → pba < total_physical_num_blocks
    → (md_block_already_queued (out ++ pba / metadata_entries_per_block ∷ []) md || b)
      ≡ (md_block_already_queued out md || (refers pba md || b))
added_queued pba out md b on =
    ap (λ q. q || b)
      (queued-append out (pba / metadata_entries_per_block) md
        ∙ ap (λ r. md_block_already_queued out md || r) (refers_on_disk pba md on))
    ∙ or_added (md_block_already_queued out md) (refers pba md) b

Done-added :
    (arr : ℕ → ℕ) (i n : ℕ) (out : List ℕ) (result : Option (List ℕ)) (more : List ℕ)
    → arr i < total_physical_num_blocks
    → Done arr (i + 1) n (out ++ arr i / metadata_entries_per_block ∷ []) result more
    → Done arr i (suc n) out result more
Done-added arr i n out result more on (complete r c) = complete r (record {
  queued = λ md. c.queued md ∙ added_queued (arr i) out md (refers_any arr (i + 1) n md) on;
  distinct = c.distinct;
  short = c.short;
})
Done-added arr i n out result more on (overflow extra r d l sub e q) =
    overflow extra r d l
      (λ md h. sym (added_queued (arr i) out md (refers_any arr (i + 1) n md) on) ∙ sub md h)
      (ground arith) q

entries-Done :
    (arr : ℕ → ℕ) (i n : ℕ) (out : List ℕ)
    → IsDistinct out
    → length out ≤ max_md_blocks_in_header
    → Done arr i n out (collect_entries arr i n out) (add_entries arr i n out)
unfolding collect_entries add_entries
entries-Done arr i zero out d l =
    complete refl
      (record { queued = λ md. or_false (md_block_already_queued out md); distinct = d; short = l })
entries-Done arr i (suc n) out d l = elim (entry-Outcome (arr i) out) [
  | known r a k ↦
      rw (collect_entries, add_entries, r, a)
        (Done-known arr i n out (collect_entries arr (i + 1) n out) (add_entries arr (i + 1) n out)
          k (entries-Done arr (i + 1) n out d l))
  | added r a new short on ↦
      let out' = out ++ arr i / metadata_entries_per_block ∷ [] in
      rw (collect_entries, add_entries, r, a)
        (Done-added arr i n out (collect_entries arr (i + 1) n out')
          (add_entries arr (i + 1) n out') on
          (entries-Done arr (i + 1) n out'
            (append-IsDistinct out (arr i / metadata_entries_per_block) d new)
            (omega (arith, length-append out (arr i / metadata_entries_per_block ∷ [])))))
  | full r a new long on ↦
      rw (collect_entries, add_entries, r, a)
        (overflow (arr i / metadata_entries_per_block) refl d (omega arith) (λ md h. ground arith)
          (ground arith) new)
]

block-Done :
    (hdlog : TdMetadataLogBlock)
    → Done hdlog.arr 0 length_td_log_block []
        (collect_tdlog_needed_md_indices hdlog)
        (add_tdlog_referenced_md_blocks hdlog [])
unfolding collect_tdlog_needed_md_indices add_tdlog_referenced_md_blocks
block-Done hdlog = entries-Done hdlog.arr 0 length_td_log_block [] tt (omega arith)

some-some : (a b : List ℕ) → some a ≡ some b → a ≡ b
some-some a b h = cc

none-some {ℓ} : {A : Type ℓ} (o : Option (List ℕ)) (a : List ℕ) → o ≡ none → o ≡ some a → A
none-some o a n s = absurd cc

-- When the function returns a list, its indices are distinct, at most five, and exactly those of
-- the metadata blocks of the addresses on the disk in the log block; and the prefetch of the
-- driver, from an empty list, queues the same list.
pub collect_tdlog_needed_md_indices_lem :
    (hdlog : TdMetadataLogBlock) (out : List ℕ)
    → collect_tdlog_needed_md_indices hdlog ≡ some out
    → IsDistinct out
      × (length out ≤ max_md_blocks_in_header)
      × ((md : ℕ) → md_block_already_queued out md ≡ refers_any hdlog.arr 0 length_td_log_block md)
      × (add_tdlog_referenced_md_blocks hdlog [] ≡ out)
unfolding md_block_already_queued
collect_tdlog_needed_md_indices_lem hdlog out h = elim (block-Done hdlog) [
  | complete r c ↦
      let same = some-some (add_tdlog_referenced_md_blocks hdlog []) out (sym r ∙ h) in
      (
        subst (λ o. IsDistinct o) same c.distinct,
        subst (λ o. length o ≤ max_md_blocks_in_header) same c.short,
        λ md. ap (λ o. md_block_already_queued o md) (sym same) ∙ c.queued md,
        same,
      )
  | overflow extra r d l sub e q ↦ none-some (collect_tdlog_needed_md_indices hdlog) out r h
]

-- Every index of a list is one that the log block refers to.
abbrev pub AllReferred : (ℕ → ℕ) → List ℕ → Type 0
AllReferred arr [] = Unit
AllReferred arr (x ∷ xs) = (refers_any arr 0 length_td_log_block x ≡ true) × AllReferred arr xs

queued-AllReferred :
    (arr : ℕ → ℕ) (xs : List ℕ)
    → ((md : ℕ)
        → md_block_already_queued xs md ≡ true
        → refers_any arr 0 length_td_log_block md ≡ true)
    → AllReferred arr xs
unfolding md_block_already_queued
queued-AllReferred arr [] h = tt
queued-AllReferred arr (x ∷ xs) h =
    (h x (ground arith), queued-AllReferred arr xs (λ md q. h md (ground arith)))

-- When the function aborts, the log block does refer to more than five metadata blocks: the
-- driver's prefetch queues five distinct ones that it refers to, and there is another one.
pub collect_tdlog_needed_md_indices-abort :
    (hdlog : TdMetadataLogBlock)
    → collect_tdlog_needed_md_indices hdlog ≡ none
    → let queued = add_tdlog_referenced_md_blocks hdlog [] in
      IsDistinct queued
      × (length queued ≡ max_md_blocks_in_header)
      × AllReferred hdlog.arr queued
      × ((extra : ℕ) × (refers_any hdlog.arr 0 length_td_log_block extra ≡ true)
          × (md_block_already_queued queued extra ≡ false))
unfolding md_block_already_queued
collect_tdlog_needed_md_indices-abort hdlog h = elim (block-Done hdlog) [
  | complete r c ↦
      none-some (collect_tdlog_needed_md_indices hdlog) (add_tdlog_referenced_md_blocks hdlog []) h
        r
  | overflow extra r d l sub e q ↦ (
    d,
    l,
    queued-AllReferred hdlog.arr (add_tdlog_referenced_md_blocks hdlog []) sub,
    (extra, e, q),
  )
]
