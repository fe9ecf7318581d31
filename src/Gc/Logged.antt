-- ===== src/Gc/Logged.antt =====
-- Whether a block that is collected gets into the timelock log.
use timelock_drive.Prelude.{
  ℕ, ◌+◌, ◌-◌, ◌%◌, ◌^◌, ◌<◌, ◌≡◌, ◌≢◌, refl, ap, ◌∙◌, Bool, true, false, ◌||◌, some, List, [], ◌∷◌,
  ◌++◌, if◌then◌else◌, ltb, ◌==◌, arith, if_true, if_false, lt→ltb,
}
use timelock_drive.Constants.{length_td_log_block, default_keep_duration}
use timelock_drive.BlockList.{Store, link, enqueue_list, expiry_list}
use timelock_drive.BlockList.Segment.{NotIn, Distinct, IsList}
use timelock_drive.BlockList.WellFormed.{push_back-IsList}
use timelock_drive.BlockList.Pop.{IsList-frame}
use timelock_drive.Logs.{Logs, push_td}
use timelock_drive.Gatekeeper.{Gatekeeper}
use timelock_drive.Metadata.{Driver, returned}
use timelock_drive.Gc.{
  and_then, take_collected, begin_gc, log_collected, fills, stamp, wait_expiry, send_if, gc_entry,
  gc_taken, perform_gc,
}

module _ {A E G : Type 0} (gk : Gatekeeper A G) (now later : ℕ) (b : Bool) (d : Driver E G) where
  -- The entry at the head of the list to collect.
  abbrev pub first_collected : ℕ
  first_collected = d.logs.store.gc_list.head

  -- More than one entry is to be collected.
  abbrev pub HasMore : Type 0
  HasMore = (first_collected ≢ 0) × ((d.logs.store.cell first_collected).next ≢ 0)

  -- The entries `waiting` are the waiting list, and the first one to collect is not among them.
  pub record Waiting (waiting : List ℕ) : Type 0 where
    pub listed : IsList d.logs.store.cell d.logs.store.tobe_freelist waiting
    pub distinct : Distinct waiting
    pub apart : NotIn first_collected waiting

  -- The list goes on with the next entry, and the first one is appended to the waiting list, with its
  -- timelock.
  pub record Collected (waiting : List ℕ) (d' : Driver E G) : Type 0 where
    pub next_first : d'.logs.store.gc_list.head ≡ (d.logs.store.cell first_collected).next
    pub waits :
        IsList d'.logs.store.cell d'.logs.store.tobe_freelist (waiting ++ first_collected ∷ [])
    pub keeps :
        (d'.logs.store.cell first_collected).keep_duration
        ≡ (later + default_keep_duration) % 2 ^ 32
    pub nothing_sent : d'.gatekeeper ≡ d.gatekeeper

  -- The store and the logs with the entry taken off.
  abbrev taken_store : Store
  taken_store = record d.logs.store {
    cell = link d.logs.store.cell first_collected 0;
    gc_list = record {
      head = (d.logs.store.cell first_collected).next;
      tail = if (d.logs.store.cell first_collected).next == 0 then 0 else d.logs.store.gc_list.tail;
    };
  }

  abbrev taken_logs : Logs E
  taken_logs = record d.logs { store = taken_store }

  log_collected-store : (pba : ℕ) (l : Logs E) → (log_collected pba l).store ≡ l.store
  unfolding log_collected
  log_collected-store pba l = ground arith

  begin_gc-store : (l : Logs E) → (begin_gc l).store ≡ l.store
  unfolding begin_gc
  begin_gc-store l = ground arith

  -- The logs once the entry is logged.
  unfoldable gc_logs : Logs E
  gc_logs = log_collected (taken_store.cell first_collected).physical_block_id (begin_gc taken_logs)

  gc_logs-store : gc_logs.store ≡ taken_store
  unfolding gc_logs
  gc_logs-store = log_collected-store _ (begin_gc taken_logs) ∙ begin_gc-store taken_logs

  perform_gc-ends :
      HasMore
      → fills (begin_gc taken_logs) ≡ false
      → perform_gc gk now later b d
        ≡ returned (wait_expiry later first_collected (record d { logs = gc_logs }))
  unfolding perform_gc gc_entry gc_logs send_if
  perform_gc-ends more fits =
      let taken : take_collected d.logs.store ≡ some (first_collected, taken_store) =
        unfold take_collected in if_false (first_collected == 0) _ _ (ground (arith, more.0)) in
      let entry : gc_taken gk now later b d (some (first_collected, taken_store))
          ≡ gc_entry gk now later b first_collected (record d { logs = taken_logs }) =
        unfold gc_taken in refl in
      let stays : (fills (begin_gc taken_logs) || gc_logs.store.gc_list.head == 0) ≡ false =
        ground (arith, fits, ap (λ s. s.gc_list.head) gc_logs-store, more.1) in
      ap (gc_taken gk now later b d) taken
      ∙ entry
      ∙ ap (λ o. and_then o (λ d'. returned (wait_expiry later first_collected d')))
          (if_false (fills (begin_gc taken_logs) || gc_logs.store.gc_list.head == 0) _ _ stays)

  -- The lists once the entry is off its own, with its timelock.
  stamped-waits :
      (waiting : List ℕ) (s : Store)
      → HasMore
      → Waiting waiting
      → s ≡ taken_store
      → let s' = enqueue_list expiry_list first_collected (stamp later first_collected s) in
        IsList s'.cell s'.tobe_freelist (waiting ++ first_collected ∷ [])
  unfolding enqueue_list
  stamped-waits waiting s more w e =
      let c = d.logs.store.cell in
      let off =
        IsList-frame c d.logs.store.tobe_freelist first_collected _ waiting w.apart w.listed in
      rw e (
        push_back-IsList (stamp later first_collected taken_store).cell d.logs.store.tobe_freelist
          waiting first_collected
          (IsList-frame (link c first_collected 0) d.logs.store.tobe_freelist first_collected _
            waiting w.apart off)
          w.distinct w.apart more.0 (ground arith))

  waits-Collected :
      (waiting : List ℕ)
      → HasMore
      → Waiting waiting
      → Collected waiting (wait_expiry later first_collected (record d { logs = gc_logs }))
  unfolding wait_expiry enqueue_list
  waits-Collected waiting more w = record {
    next_first = ap (λ s. s.gc_list.head) gc_logs-store;
    waits = stamped-waits waiting gc_logs.store more w gc_logs-store;
    keeps = ground arith;
    nothing_sent = refl;
  }

  begun-full : d.logs.tdmd_idx ≡ length_td_log_block → begin_gc taken_logs ≡ taken_logs
  unfolding begin_gc
  begun-full full = if_false (d.logs.tdmd_idx == 0) _ _ (ground (arith, full))

  -- With a full timelock log block and more than one entry to collect, `perform_gc` appends the first
  -- entry to the waiting list, with its timelock running, and neither writes its block into the
  -- timelock log nor sends anything: the log block is what it was. The
  -- waiting list is well formed, without the entry.
  pub perform_gc-unlogged :
      (waiting : List ℕ)
      → HasMore
      → Waiting waiting
      → d.logs.tdmd_idx ≡ length_td_log_block
      → (d' : Driver E G) × (perform_gc gk now later b d ≡ returned d')
        × Collected waiting d'
        × (d'.logs.td_md_block ≡ d.logs.td_md_block)
        × (d'.logs.tdmd_idx ≡ d.logs.tdmd_idx)
  unfolding wait_expiry
  perform_gc-unlogged waiting more w full =
      let same : gc_logs ≡ taken_logs =
        unfold gc_logs log_collected in
        ap
          (λ l.
            if ltb l.tdmd_idx length_td_log_block
            then record (push_td (taken_store.cell first_collected).physical_block_id l) {
              tdmd_dirty = true;
            }
            else l)
          (begun-full full)
        ∙ if_false (ltb d.logs.tdmd_idx length_td_log_block) _ _ (ground (arith, full)) in
      (
        wait_expiry later first_collected (record d { logs = gc_logs }),
        perform_gc-ends more (ap fills (begun-full full) ∙ ground (arith, full)),
        waits-Collected waiting more w,
        ap (λ l. l.td_md_block) same,
        ap (λ l. l.tdmd_idx) same,
      )

  log_collected-last :
      (pba : ℕ) (l : Logs E)
      → l.tdmd_idx < length_td_log_block
      → ((log_collected pba l).td_md_block.arr ((log_collected pba l).tdmd_idx - 1) ≡ pba)
        × ((log_collected pba l).tdmd_dirty ≡ true)
  unfolding log_collected
  log_collected-last pba l room =
      let test = lt→ltb l.tdmd_idx length_td_log_block room in
      let logged = record (push_td pba l) { tdmd_dirty = true } in
      let e = if_true (ltb l.tdmd_idx length_td_log_block) logged l test in
      (ap (λ x. x.td_md_block.arr (x.tdmd_idx - 1)) e ∙ ground arith, ap (λ x. x.tdmd_dirty) e)

  begun-room :
      d.logs.tdmd_idx + 2 < length_td_log_block
      → (begin_gc taken_logs).tdmd_idx < length_td_log_block
  unfolding begin_gc
  begun-room room = ground (arith, room)

  -- With more than one entry to collect and at least three free places in the timelock log block,
  -- `perform_gc` logs the block of the first entry as the last so far, and appends the entry to
  -- the waiting list, with its timelock running. The waiting list is well formed, without the entry.
  pub perform_gc-logged :
      (waiting : List ℕ)
      → HasMore
      → Waiting waiting
      → d.logs.tdmd_idx + 2 < length_td_log_block
      → (d' : Driver E G) × (perform_gc gk now later b d ≡ returned d')
        × Collected waiting d'
        × (d'.logs.td_md_block.arr (d'.logs.tdmd_idx - 1)
            ≡ (d.logs.store.cell first_collected).physical_block_id)
        × (d'.logs.tdmd_dirty ≡ true)
  unfolding wait_expiry gc_logs
  perform_gc-logged waiting more w room =
      let last =
        log_collected-last (taken_store.cell first_collected).physical_block_id
          (begin_gc taken_logs) (begun-room room) in
      (
        wait_expiry later first_collected (record d { logs = gc_logs }),
        perform_gc-ends more (unfold begin_gc in ground (arith, room)),
        waits-Collected waiting more w,
        last.0 ∙ ground arith,
        last.1,
      )
