-- ===== src/Metadata/Belief.antt =====
-- What is true after `send_hd_metadata` has written its block.
use timelock_drive.Prelude.{ℕ, ◌≡◌, not, ◌&&◌, ◌||◌, List, [], some}
use timelock_drive.Constants.{length_td_log_block}
use timelock_drive.MdIndex.{collect_tdlog_needed_md_indices}
use timelock_drive.MdIndex.Complete.{refers_any}
use timelock_drive.Logs.{Logs}
use timelock_drive.Gatekeeper.{Gatekeeper, WriteMessage, timelock_block}
use timelock_drive.Metadata.{Driver, log_message, pick_unsent}
use timelock_drive.Metadata.Membership.{evicts, evicted_in}

-- The block was written at its address, with the metadata blocks that it refers to and that were not
-- believed to be held; the log goes on at the block that the one written names; and the gatekeeper is
-- believed to hold the metadata blocks that it held and did not evict in its response, and those that
-- the block written refers to and that it did not hold.
pub record HdWritten {A E G : Type 0} (gk : Gatekeeper A G) (d d' : Driver E G) : Type 0 where
  pub start : d'.logs.tdmd_idx ≡ 0
  pub chained : d'.logs.td_md_block.pointer_next ≡ d'.logs.current_tdmd_block
  pub needed : List ℕ
  pub collected : collect_tdlog_needed_md_indices d'.logs.td_md_block ≡ some needed
  pub request : WriteMessage A
  pub requested :
      request
      ≡ log_message gk d.logs.current_tdmd_block
          (pick_unsent d.md_cache_membership needed [])
          (timelock_block d'.logs.td_md_block)
          d
  pub sent : d'.gatekeeper ≡ (gk.on_write request d.gatekeeper).1
  pub belief :
      (md : ℕ)
      → d'.md_cache_membership md ≡ (
          (d.md_cache_membership md
            && not (evicts (evicted_in (gk.on_write request d.gatekeeper).0) md))
          || (refers_any d'.logs.td_md_block.arr 0 length_td_log_block md
              && not (d.md_cache_membership md)))
