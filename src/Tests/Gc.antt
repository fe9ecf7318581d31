-- ===== src/Tests/Gc.antt =====
-- Collecting, flushing and the driver over time, at concrete states.
use timelock_drive.Prelude.{
  List, if◌then◌else◌, ltb, ◌∷◌, [], ◌+◌, ℕ, ◌-◌, ◌≡◌, refl, Bool, true, false, List, [], arith,
}
use timelock_drive.BlockList.{pop_nth_in_freelist, walk}
use timelock_drive.Constants.{sync}
use timelock_drive.Control.{after_count}
use timelock_drive.Logs.Bounds.{InBounds}
use timelock_drive.Metadata.{Driver, returned}
use timelock_drive.Gc.{perform_gc}
use timelock_drive.Gc.Logged.{Waiting, Collected, perform_gc-unlogged, perform_gc-logged}
use timelock_drive.Write.{Modes, device_write_wrapper}
use timelock_drive.Flush.{control, flush_pending_metadata}
use timelock_drive.Flush.Incomplete.{flush_pending_metadata-unwritten}
use timelock_drive.Run.{writes, done, step, Steps-InBounds}
use timelock_drive.Tests.Lists.{four_free}
use timelock_drive.Tests.Blocks.{set_ops, nearly_full, all_free}
use timelock_drive.Tests.Write.{answers, both_logs, empty_logs, fresh_driver, two_data}

-- Entries 5 to 9 are to be collected and 20 waits, with `n` places of the timelock log taken.
abbrev to_collect : ℕ → Driver (ℕ → Bool) ℕ
to_collect n = fresh_driver (record nearly_full {
  store = record all_free {
    cell = λ p. record (all_free.cell p) { next = if ltb p 9 then p + 1 else 0 };
    gc_list = record { head = 5; tail = 9 };
    tobe_freelist = record { head = 20; tail = 20 };
  };
  tdmd_idx = n;
})

abbrev waiting_here : List ℕ
waiting_here = 20 ∷ []

to_collect-Waiting : (n : ℕ) → Waiting (answers 0) 9 9 false (to_collect n) waiting_here
to_collect-Waiting n = record {
  listed = record { chain = ground arith; ends = refl };
  distinct = ground arith;
  apart = ground arith;
}

perform_gc-unlogged_example :
    (d' : Driver (ℕ → Bool) ℕ) × (perform_gc (answers 0) 9 9 false (to_collect 1021) ≡ returned d')
    × Collected (answers 0) 9 9 false (to_collect 1021) waiting_here d'
    × (d'.logs.td_md_block ≡ (to_collect 1021).logs.td_md_block)
    × (d'.logs.tdmd_idx ≡ 1021)
perform_gc-unlogged_example =
    perform_gc-unlogged (answers 0) 9 9 false (to_collect 1021) waiting_here
      (omega arith, omega arith) (to_collect-Waiting 1021) refl

perform_gc-logged_example :
    (d' : Driver (ℕ → Bool) ℕ) × (perform_gc (answers 0) 9 9 false (to_collect 7) ≡ returned d')
    × Collected (answers 0) 9 9 false (to_collect 7) waiting_here d'
    × (d'.logs.td_md_block.arr (d'.logs.tdmd_idx - 1) ≡ 15)
    × (d'.logs.tdmd_dirty ≡ true)
perform_gc-logged_example =
    perform_gc-logged (answers 0) 9 9 false (to_collect 7) waiting_here (omega arith, omega arith)
      (to_collect-Waiting 7) (omega arith)

abbrev version_only : Modes
version_only = record { read_only_mode = false; versioning_metadata = true; td_metadata = false }

abbrev few_free : Driver (ℕ → Bool) ℕ
few_free = fresh_driver (record nearly_full { store = four_free; map_dirty = true })

few_free-short : (pop_nth_in_freelist 511 four_free).0 ≡ 0
unfolding pop_nth_in_freelist walk
few_free-short = refl

sync-answered : (x : Driver (ℕ → Bool) ℕ) → (control (answers 0) sync x).0 ≡ true
unfolding control after_count
sync-answered x = refl

flush_pending_metadata-unwritten_example :
    (d' : Driver (ℕ → Bool) ℕ) × (flush_pending_metadata (answers 0) version_only 9 few_free
      ≡ returned (true, d'))
    × (d'.logs.map_dirty ≡ true)
flush_pending_metadata-unwritten_example =
    flush_pending_metadata-unwritten (answers 0) version_only 9 few_free refl refl sync-answered
      few_free-short

-- After one write.
abbrev after_write : Driver (ℕ → Bool) ℕ
after_write =
    (device_write_wrapper (answers 0) set_ops 0 9 both_logs two_data 28672
      (fresh_driver empty_logs)).1

abbrev no_keys : (ℕ → Bool) → List ℕ
no_keys e = []

Steps-InBounds_example : InBounds after_write.logs
Steps-InBounds_example =
    Steps-InBounds (answers 0) set_ops no_keys both_logs (fresh_driver empty_logs) after_write
      (step (fresh_driver empty_logs) after_write after_write
        (writes 0 9 two_data 28672 (fresh_driver empty_logs) after_write refl) (done after_write))
      (omega arith, omega arith)
