-- ===== src/Metadata/Membership.antt =====
-- Which metadata blocks the driver sends with a log block, and which it then believes to be in the
-- gatekeeper's cache.
use timelock_drive.Prelude.{
  ℕ, zero, suc, ◌+◌, ◌<◌, ◌≤◌, ◌≡◌, Option, none, take, refl, sym, ap, ◌∙◌, Bool, true, false, not,
  ◌&&◌, ◌||◌, some, List, [], ◌∷◌, ◌++◌, if◌then◌else◌, ltb, leb, ◌==◌, arith, length,
  length-append, Bool-cases, inl, inr,
}
use timelock_drive.Constants.{
  TdMetadataLogBlock, total_num_metadata_blocks, max_md_blocks_in_header, length_td_log_block,
}
use timelock_drive.MdIndex.{md_block_already_queued, collect_tdlog_needed_md_indices}
use timelock_drive.MdIndex.Complete.{
  refers_any, collect_tdlog_needed_md_indices_lem, queued-append, refers,
}
use timelock_drive.Control.{CachedTdMetadataBlock, Reply, is_merged}
use timelock_drive.Metadata.{
  note_md_membership_update, merge_block, merge_evicted, note_sent, pick_unsent,
}

abbrev pub first_of : ℕ → Option (List CachedTdMetadataBlock) → List CachedTdMetadataBlock
first_of n none = []
first_of n (some blocks) = take n blocks

abbrev pub evicted_after : Option ℕ → Reply → List CachedTdMetadataBlock
evicted_after none reply = []
evicted_after (some n) reply = first_of n (reply.evicted n)

-- The blocks evicted in a response: as many as its first byte says, if they arrive.
abbrev pub evicted_in : Reply → List CachedTdMetadataBlock
evicted_in reply = evicted_after reply.first_byte reply

pub first_of-zero : (n : ℕ) (o : Option (List CachedTdMetadataBlock)) → n ≡ 0 → first_of n o ≡ []
first_of-zero n none z = refl
first_of-zero n (some blocks) z = rw z refl

-- A block with a real hash evicts the index.
abbrev pub evicts : List CachedTdMetadataBlock → ℕ → Bool
evicts [] i = false
evicts (b ∷ blocks) i = (is_merged b && b.idx == i) || evicts blocks i

merge_block-membership :
    (b : CachedTdMetadataBlock) (cm : (ℕ → CachedTdMetadataBlock) × (ℕ → Bool)) (i : ℕ)
    → (merge_block b cm).1 i ≡ (cm.1 i && not (is_merged b && b.idx == i))
unfolding note_md_membership_update
merge_block-membership b cm i = ground arith

and-not-or : (a b c : Bool) → ((a && not b) && not c) ≡ (a && not (b || c))
and-not-or a b c = ground arith

pub merge_evicted-membership :
    (blocks : List CachedTdMetadataBlock) (cm : (ℕ → CachedTdMetadataBlock) × (ℕ → Bool)) (i : ℕ)
    → (merge_evicted blocks cm).1 i ≡ (cm.1 i && not (evicts blocks i))
unfolding merge_evicted
merge_evicted-membership [] cm i = ground arith
merge_evicted-membership (b ∷ blocks) cm i =
    merge_evicted-membership blocks (merge_block b cm) i
    ∙ ap (λ m. m && not (evicts blocks i)) (merge_block-membership b cm i)
    ∙ and-not-or (cm.1 i) (is_merged b && b.idx == i) (evicts blocks i)

pub note_sent_lem :
    (sent : List ℕ) (m : ℕ → Bool) (i : ℕ)
    → note_sent sent m i
      ≡ (m i || (md_block_already_queued sent i && ltb i total_num_metadata_blocks))
unfolding note_sent note_md_membership_update md_block_already_queued
note_sent_lem [] m i = ground arith
note_sent_lem (x ∷ sent) m i =
    let ih =
      note_sent_lem sent
        (if ltb x total_num_metadata_blocks then note_md_membership_update x true m else m) i in
    ground (arith, ih)

pub pick_unsent_lem :
    (m : ℕ → Bool) (needed sent : List ℕ) (md : ℕ)
    → length sent + length needed ≤ max_md_blocks_in_header
    → ((i : ℕ) → md_block_already_queued needed i ≡ true → i < total_num_metadata_blocks)
    → md_block_already_queued (pick_unsent m needed sent) md
      ≡ (md_block_already_queued sent md || (md_block_already_queued needed md && not (m md)))
unfolding pick_unsent md_block_already_queued
pick_unsent_lem m [] sent md few on = ground arith
pick_unsent_lem m (x ∷ needed) sent md few on =
    let on_disk : leb total_num_metadata_blocks x ≡ false = ground (arith, on x) in
    let room : leb max_md_blocks_in_header (length sent) ≡ false = ground (arith, few) in
    let rest = λ (i : ℕ) (h : md_block_already_queued needed i ≡ true). on i (ground (arith, h)) in
    elim (Bool-cases (m x)) [
      | inl held ↦
          rw (on_disk, room, held)
            (pick_unsent_lem m needed sent md (omega (arith, few)) rest ∙ skipped held)
      | inr new ↦
          rw (on_disk, room, new)
            (pick_unsent_lem m needed (sent ++ x ∷ []) md
                (omega (arith, few, length-append sent (x ∷ []))) rest
              ∙ picked new)
    ]
  where
    skipped :
        m x ≡ true
        → (md_block_already_queued sent md || (md_block_already_queued needed md && not (m md))) ≡ (
            md_block_already_queued sent md
            || (((x == md) || md_block_already_queued needed md) && not (m md)))
    skipped held = elim (Bool-cases (x == md)) [
      | inl e ↦
          let same : x ≡ md = ground arith in
          let held' : m md ≡ true = ap m (sym same) ∙ held in ground arith
      | inr ne ↦ ground arith
    ]

    picked :
        m x ≡ false
        → (md_block_already_queued (sent ++ x ∷ []) md
            || (md_block_already_queued needed md && not (m md)))
          ≡ (md_block_already_queued sent md
              || (((x == md) || md_block_already_queued needed md) && not (m md)))
    picked new = elim (Bool-cases (x == md)) [
      | inl e ↦
          let same : x ≡ md = ground arith in
          let new' : m md ≡ false = ap m (sym same) ∙ new in ground (arith, queued-append sent x md)
      | inr ne ↦ ground (arith, queued-append sent x md)
    ]

pub refers_any-idx :
    (arr : ℕ → ℕ) (i n md : ℕ) → refers_any arr i n md ≡ true → md < total_num_metadata_blocks
refers_any-idx arr i zero md h = ground arith
refers_any-idx arr i (suc n) md h = elim (Bool-cases (refers (arr i) md)) [
  | inl here ↦ ground arith
  | inr off ↦ refers_any-idx arr (i + 1) n md (ground arith)
]

-- The metadata blocks picked for a timelock log block are exactly those that it refers to and that the
-- gatekeeper is not believed to hold, unless the collection aborts.
pub pick_unsent-refers :
    (hdlog : TdMetadataLogBlock) (needed : List ℕ) (m : ℕ → Bool) (md : ℕ)
    → collect_tdlog_needed_md_indices hdlog ≡ some needed
    → md_block_already_queued (pick_unsent m needed []) md
      ≡ (refers_any hdlog.arr 0 length_td_log_block md && not (m md))
unfolding md_block_already_queued
pick_unsent-refers hdlog needed m md h =
    let c = collect_tdlog_needed_md_indices_lem hdlog needed h in
    pick_unsent_lem m needed [] md (omega (arith, c.1))
      (λ i q. refers_any-idx hdlog.arr 0 length_td_log_block i (sym (c.2 i) ∙ q))
    ∙ ap (λ b. b && not (m md)) (c.2 md)
