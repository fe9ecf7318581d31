-- ===== src/Logs/Prepare.antt =====
-- `prepare_tdmd_write` and `prepare_vmd_write`: either no entry can be reserved, or the block is
-- prepared, and committing it moves the log on.
use timelock_drive.Prelude.{ℕ, ◌-◌, ◌≡◌, ◌≢◌, refl, Bool, none, some}
use timelock_drive.Constants.{length_version_log_block, length_td_log_block}
use timelock_drive.BlockList.{Store, mark_reserved_block, pop_nth_in_freelist}
use timelock_drive.Logs.{
  Logs, prepare_tdmd_write, prepare_vmd_write, commit_tdmd_write, commit_vmd_write,
}
use timelock_drive.Logs.Commit.{
  short, found, reserve_next-Reserved, after_tdmd, after_vmd, not_null,
}

-- The logs with the entry off the free list.
abbrev pub marked : {E : Type 0} → Bool → ℕ → Store → Logs E → Logs E
marked b p store l = record l { store = mark_reserved_block b p store }

pub data PreparedTdmd {E : Type 0} (now : ℕ) (b : Bool) (l : Logs E) : Type 0 where
  unprepared :
      (pop_nth_in_freelist (length_td_log_block - 2) l.store).0 ≡ 0
      → prepare_tdmd_write now b l ≡ none
      → PreparedTdmd now b l
  prepared :
      (p : ℕ) (store : Store)
      → p ≢ 0
      → pop_nth_in_freelist (length_td_log_block - 2) l.store ≡ (p, store)
      → prepare_tdmd_write now b l
        ≡ some (p, (after_tdmd now b p store l).td_md_block, marked b p store l)
      → commit_tdmd_write p (after_tdmd now b p store l).td_md_block (marked b p store l)
        ≡ after_tdmd now b p store l
      → PreparedTdmd now b l

commit_tdmd-after :
    {E : Type 0}
    → (now : ℕ) (b : Bool) (l : Logs E) (p : ℕ) (store : Store) → p ≢ 0
    → commit_tdmd_write p (after_tdmd now b p store l).td_md_block (marked b p store l)
      ≡ after_tdmd now b p store l
unfolding commit_tdmd_write
commit_tdmd-after now b l p store ne = rw (not_null p ne) refl

pub prepare_tdmd_write-Prepared :
    {E : Type 0} → (now : ℕ) (b : Bool) (l : Logs E) → PreparedTdmd now b l
unfolding prepare_tdmd_write
prepare_tdmd_write-Prepared now b l = elim (reserve_next-Reserved (length_td_log_block - 2) l) [
  | short z r ↦ unprepared z (rw (r b) refl)
  | found p store e ne r ↦
      prepared p store ne e (rw (r b) refl) (commit_tdmd-after now b l p store ne)
]

pub data PreparedVmd {E : Type 0} (b : Bool) (l : Logs E) : Type 0 where
  unprepared :
      (pop_nth_in_freelist length_version_log_block l.store).0 ≡ 0
      → prepare_vmd_write b l ≡ none
      → PreparedVmd b l
  prepared :
      (p : ℕ) (store : Store)
      → p ≢ 0
      → pop_nth_in_freelist length_version_log_block l.store ≡ (p, store)
      → prepare_vmd_write b l ≡ some (p, (after_vmd b p store l).l2p_block, marked b p store l)
      → commit_vmd_write p (after_vmd b p store l).l2p_block (marked b p store l)
        ≡ after_vmd b p store l
      → PreparedVmd b l

commit_vmd-after :
    {E : Type 0}
    → (b : Bool) (l : Logs E) (p : ℕ) (store : Store) → p ≢ 0
    → commit_vmd_write p (after_vmd b p store l).l2p_block (marked b p store l)
      ≡ after_vmd b p store l
unfolding commit_vmd_write
commit_vmd-after b l p store ne = rw (not_null p ne) refl

pub prepare_vmd_write-Prepared : {E : Type 0} → (b : Bool) (l : Logs E) → PreparedVmd b l
unfolding prepare_vmd_write
prepare_vmd_write-Prepared b l = elim (reserve_next-Reserved length_version_log_block l) [
  | short z r ↦ unprepared z (rw (r b) refl)
  | found p store e ne r ↦ prepared p store ne e (rw (r b) refl) (commit_vmd-after b l p store ne)
]
