-- ===== src/Chain.antt =====
-- `read_tdlog_block` and `mark_hdlog_chain_reserved` of versioning_td_driver/src/versioning.c: at
-- start-up the blocks of the timelock log are kept off the free list. The table that `calloc` makes
-- is there.
pub mod Walk
use timelock_drive.Prelude.{
  ℕ, zero, suc, ◌+◌, Bool, true, false, Option, none, some, List, [], ◌∷◌, if◌then◌else◌, ltb, leb,
  ◌==◌, update,
}
use timelock_drive.Constants.{TdMetadataLogBlock, total_physical_num_blocks}
use timelock_drive.Read.{ReadMessage, read_message}

-- `respond` is the gatekeeper and the transport: the block that `gk_recv` delivers, or `none` if it
-- delivers less.
module _ (respond : ReadMessage → Option TdMetadataLogBlock) where
  pub read_tdlog_block : ℕ → Option TdMetadataLogBlock
  read_tdlog_block pba = respond (read_message (record { pba = pba; num_blocks = 1 } ∷ []))

  -- The end of a round: the walk stops, or goes on at the block that the log block names.
  abbrev pub after_read :
      Option TdMetadataLogBlock → (ℕ → Bool) → (ℕ → Option (ℕ → Bool)) → Option (ℕ → Bool)
  after_read none marks next = some marks
  after_read (some log_block) marks next =
      if leb total_physical_num_blocks log_block.pointer_next
      then some marks
      else next log_block.pointer_next

  -- The loop, on fuel; `none` means that the fuel ran out. `marks` is `mark_free_blocks`.
  pub walk_chain : ℕ → ℕ → ℕ → (ℕ → Bool) → (ℕ → Bool) → Option (ℕ → Bool)
  walk_chain zero log_tail curr visited marks = none
  walk_chain (suc fuel) log_tail curr visited marks =
      let marks' = update marks curr false in
      let next = λ (n : ℕ). walk_chain fuel log_tail n (update visited curr true) marks' in
      if leb total_physical_num_blocks curr
      then some marks
      else if curr == log_tail
      then some marks
      else if visited curr
      then some marks
      else after_read (read_tdlog_block curr) marks' next

  -- The persisted head and tail are an `int`, `none` if it is negative.
  pub mark_hdlog_chain_reserved : ℕ → Option ℕ → Option ℕ → (ℕ → Bool) → Option (ℕ → Bool)
  mark_hdlog_chain_reserved fuel none log_tail marks = some marks
  mark_hdlog_chain_reserved fuel (some log_head) none marks = some marks
  mark_hdlog_chain_reserved fuel (some log_head) (some log_tail) marks =
      walk_chain fuel log_tail log_head (λ _. false)
        (if ltb log_tail total_physical_num_blocks then update marks log_tail false else marks)
