-- ===== src/Control/Merge.antt =====
-- What a control command does to the metadata cache.
use timelock_drive.Prelude.{
  ℕ, ◌≡◌, refl, ap, ◌∙◌, Bool, true, false, not, ◌&&◌, Option, none, some, List, [], ◌∷◌,
  if◌then◌else◌, ltb, ◌==◌, update, take, arith, Bool-cases, inl, inr,
}
use timelock_drive.Constants.{DiskCommand, MessageHeader, max_md_blocks_in_header}
use timelock_drive.Control.{
  CachedTdMetadataBlock, is_merged, merge_blocks, control_header, Reply, take_evicted, after_count,
  is_sync, after_first_byte, send_control_command,
}

-- The last block of the list that is merged at index `i`, or `old`.
abbrev pub last_merged :
    List CachedTdMetadataBlock → ℕ → CachedTdMetadataBlock → CachedTdMetadataBlock
last_merged [] i old = old
last_merged (b ∷ blocks) i old = last_merged blocks i (if is_merged b && b.idx == i then b else old)

merge_blocks_lem :
    (blocks : List CachedTdMetadataBlock) (cache : ℕ → CachedTdMetadataBlock) (i : ℕ)
    → merge_blocks blocks cache i ≡ last_merged blocks i (cache i)
unfolding merge_blocks
merge_blocks_lem [] cache i = refl
merge_blocks_lem (b ∷ blocks) cache i =
    merge_blocks_lem blocks (if is_merged b then update cache b.idx b else cache) i
    ∙ ap (last_merged blocks i) (one b cache i)
  where
    one :
        (b : CachedTdMetadataBlock) (cache : ℕ → CachedTdMetadataBlock) (i : ℕ)
        → (if is_merged b then update cache b.idx b else cache) i
          ≡ (if is_merged b && b.idx == i then b else cache i)
    one b cache i = ground arith

-- The blocks that a complete reply to SYNC brings: none where the count is out of range.
abbrev pub evicted_blocks : ℕ → Option (List CachedTdMetadataBlock) → List CachedTdMetadataBlock
evicted_blocks n none = []
evicted_blocks n (some blocks) = take n blocks

abbrev pub brought : Bool → Reply → List CachedTdMetadataBlock
brought sync reply = elim reply.first_byte [
  | none ↦ []
  | some n ↦
      if sync && not (ltb max_md_blocks_in_header n) && not (n == 0)
      then evicted_blocks n (reply.evicted n)
      else []
]

take_evicted_lem :
    (n : ℕ) (o : Option (List CachedTdMetadataBlock)) (cache : ℕ → CachedTdMetadataBlock) (i : ℕ)
    → (take_evicted n o cache).1 i ≡ last_merged (evicted_blocks n o) i (cache i)
take_evicted_lem n none cache i = refl
take_evicted_lem n (some blocks) cache i = merge_blocks_lem (take n blocks) cache i

after_first_byte_lem :
    (sync : Bool) (o : Option ℕ) (reply : Reply) (cache : ℕ → CachedTdMetadataBlock) (i : ℕ)
    → reply.first_byte ≡ o
    → (after_first_byte sync o reply cache).1 i ≡ last_merged (brought sync reply) i (cache i)
unfolding after_count
after_first_byte_lem sync none reply cache i e = rw e refl
after_first_byte_lem false (some n) reply cache i e = rw e refl
after_first_byte_lem true (some n) reply cache i e =
    elim (Bool-cases (ltb max_md_blocks_in_header n)) [
      | inl many ↦ rw (e, many) refl
      | inr few ↦ elim (Bool-cases (n == 0)) [
        | inl z ↦ rw (e, few, z) refl
        | inr some_blocks ↦ rw (e, few, some_blocks) (take_evicted_lem n (reply.evicted n) cache i)
      ]
    ]

-- After any command, and whatever the gatekeeper replies, each cached metadata block is the last of
-- the blocks brought that has its index and a real hash, or the one from before if there is none;
-- only SYNC brings blocks, at most five, and none when the reply is cut short or its count is too
-- large.
pub send_control_command-cache :
    (respond : MessageHeader → Reply) (command : DiskCommand) (cache : ℕ → CachedTdMetadataBlock)
    (i : ℕ)
    → (send_control_command respond command cache).1 i
      ≡ last_merged (brought (is_sync command) (respond (control_header command))) i (cache i)
unfolding send_control_command
send_control_command-cache respond command cache i =
    after_first_byte_lem (is_sync command) (respond (control_header command)).first_byte
      (respond (control_header command)) cache i refl
