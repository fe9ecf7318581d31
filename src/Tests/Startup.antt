-- ===== src/Tests/Startup.antt =====
-- The scan at start-up and the control commands, at concrete disks.
use timelock_drive.Prelude.{
  ℕ, List, get_or, ◌+◌, ◌≡◌, refl, Bool, true, false, not, ◌&&◌, Option, none, some, [], ◌∷◌,
  if◌then◌else◌, ltb, ◌==◌, arith,
}
use timelock_drive.Constants.{
  MessageHeader, TdMetadataLogBlock, uint32_max, total_physical_num_blocks,
  total_num_metadata_blocks, sync,
}
use timelock_drive.BlockList.{Store}
use timelock_drive.BlockList.WellFormed.{Lists}
use timelock_drive.Read.{ReadMessage}
use timelock_drive.Recovery.{L2PBlock, reset_diagnostics}
use timelock_drive.Chain.{mark_hdlog_chain_reserved}
use timelock_drive.Chain.Walk.{mark_hdlog_chain_reserved_lem}
use timelock_drive.Control.{CachedTdMetadataBlock, Reply, control_header, send_control_command}
use timelock_drive.Control.Merge.{last_merged, brought, send_control_command-cache}
use timelock_drive.Scan.{ScanState, chase, init_freelist}
use timelock_drive.Scan.Replay.{IsChain, replay, chase_lem}
use timelock_drive.Scan.FreeList.{Ready, Built, init_freelist_lem}
use timelock_drive.Cache.{RecoveryStep, build_cache}
use timelock_drive.Cache.Built.{last_update, all_updates, received, build_cache_lem}
use timelock_drive.Tests.Lists.{four_free}

-- A timelock log whose only block points to itself.
abbrev round_log : ReadMessage → Option TdMetadataLogBlock
round_log m =
    some
      (record { arr = λ _. uint32_max; keep_duration = 60; current_time = 0; pointer_next = 1019 })

mark_hdlog_chain_reserved_lem_example :
    (marks' : ℕ → Bool) × (mark_hdlog_chain_reserved round_log 2621441
        (some 1019)
        (some 7)
        (λ _. true)
      ≡ some marks')
    × ((p : ℕ) → (marks' p && not true) ≡ false)
    × ((ltb 7 total_physical_num_blocks && marks' 7) ≡ false)
mark_hdlog_chain_reserved_lem_example =
    mark_hdlog_chain_reserved_lem round_log 2621441 1019 7 (λ _. true) (omega arith)

abbrev pub cached : ℕ → ℕ → CachedTdMetadataBlock
cached i byte = record {
  mdblock = record { arr = λ _. record { keep_duration = 60; time_written = 50 } };
  idx = i;
  counter = 1;
  hash = λ _. byte;
}

-- One block with a real hash, and one placeholder.
abbrev two_evicted : MessageHeader → Reply
two_evicted m = record {
  first_byte = some 2;
  evicted = λ n. some (cached 3 17 ∷ cached 4 255 ∷ []);
}

send_control_command-cache_example :
    (send_control_command two_evicted sync (λ i. cached i 0)).1 3
    ≡ last_merged (brought true (two_evicted (control_header sync))) 3 (cached 3 0)
send_control_command-cache_example = send_control_command-cache two_evicted sync (λ i. cached i 0) 3

-- A version log of two blocks, 511 and 20; 30 is the next to be written.
abbrev two_logged : ℕ → L2PBlock
two_logged pba = record {
  ptr = if pba == 511 then 20 else 30;
  seed = if pba == 511 then 5 else if pba == 20 then 5 else 0;
  map = λ i. record { logical_block_address = i; physical_block_address = 100 + i };
}

abbrev serve_log : ReadMessage → Option L2PBlock
serve_log m = elim m.ranges [ [] ↦ none | r ∷ rs ↦ some (two_logged r.pba) ]

abbrev before_scan : ScanState
before_scan = record {
  tables = record {
    cell = four_free.cell;
    brk = 1;
    l2pmap = λ _. 0;
    p2lmap = λ _. uint32_max;
    mark_free_blocks = λ _. true;
  };
  diagnostics = reset_diagnostics;
  current_vmd_block = 511;
  current_seed = 0;
}

two_logged-IsChain : IsChain two_logged 5 511 (20 ∷ 30 ∷ [])
two_logged-IsChain = (refl, refl, omega arith, (refl, refl, omega arith, λ e. omega (arith, e)))

chase_lem_example :
    chase (λ i. cached i 0) 0 serve_log 3 true 511 before_scan
    ≡ some (replay (λ i. cached i 0) 0 two_logged 511 (20 ∷ 30 ∷ []) before_scan)
chase_lem_example =
    chase_lem (λ i. cached i 0) 0 two_logged serve_log (λ pba. refl) 5 (λ e. omega (arith, e)) 511
      20 (30 ∷ []) 3 before_scan two_logged-IsChain (omega arith)

-- No entry is on a list.
abbrev no_entries : Store
no_entries = record four_free {
  freelist = record { head = 0; tail = 0 };
  gc_list = record { head = 0; tail = 0 };
  tobe_freelist = record { head = 0; tail = 0 };
  freelist_size = 0;
}

abbrev no_lists : Lists
no_lists = record { free = []; collect = []; expiry = [] }

no_entries-Ready : Ready no_entries no_lists 1
no_entries-Ready = record {
  well_formed = record {
    free = record { chain = refl; ends = refl };
    collect = record { chain = refl; ends = refl };
    expiry = record { chain = refl; ends = refl };
    distinct_free = tt;
    distinct_collect = tt;
    distinct_expiry = tt;
    free_collect = tt;
    free_expiry = tt;
    collect_expiry = tt;
  };
  free = tt;
  collect = tt;
  expiry = tt;
  not_null = omega arith;
}

abbrev but_block_1 : ℕ → Bool
but_block_1 i = not (i == 1)

init_freelist_lem_example :
    Built but_block_1 0 4 no_entries no_lists (init_freelist but_block_1 0 4 (no_entries, 1))
init_freelist_lem_example = init_freelist_lem 4 0 but_block_1 no_entries no_lists 1 no_entries-Ready

-- One step that needs block 3 and updates it, and the end of the recovery.
abbrev one_step : List RecoveryStep
one_step =
    record { n_needed = 1; needed_idx = 3 ∷ []; n_updated = some 1; updated = cached 3 9 ∷ [] }
    ∷ record { n_needed = uint32_max; needed_idx = []; n_updated = none; updated = [] }
    ∷ []

build_cache_lem_example :
    let built =
      build_cache
        (cached 0 0)
        (λ _. 0)
        (cached 0 1 ∷ cached 1 1 ∷ [])
        (some (cached 2 0))
        one_step
        (λ i. cached i 0)
        (λ _. true) in
    (built.0.0 3
      ≡ last_update
          (all_updates one_step)
          3
          (get_or (received (cached 0 1 ∷ cached 1 1 ∷ []) (some (cached 2 0))) 3 (cached 3 0)))
    × (built.1 3 ≡ (true && not (ltb 3 total_num_metadata_blocks)))
build_cache_lem_example =
    build_cache_lem (cached 0 0) (λ _. 0) (cached 0 1 ∷ cached 1 1 ∷ []) (some (cached 2 0))
      one_step (λ i. cached i 0) (λ _. true) 3
