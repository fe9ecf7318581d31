-- ===== src/Logs/Commit.antt =====
-- The chain of each log: the block written names the block that the next one is written to.
use timelock_drive.Prelude.{
  ℕ, ◌-◌, ◌≡◌, ◌≢◌, ◌⊎◌, refl, sym, ap, subst, ◌∙◌, Bool, false, none, some, ◌==◌, arith,
  Bool-cases, inl, inr,
}
use timelock_drive.Constants.{length_version_log_block, length_td_log_block}
use timelock_drive.BlockList.{Store, pop_nth_in_freelist, mark_reserved_block}
use timelock_drive.BlockList.Ids.{mark_reserved_block-cell}
use timelock_drive.Logs.{
  Logs, reserve_next, prepare_tdmd_write, prepare_vmd_write, commit_tdmd_write, commit_vmd_write,
  set_pointer_and_reset_tdmd, set_pointer_and_reset_vmd, write_keep_duration_secs,
}

-- Either no entry is far enough down the free list, or one is and it is reserved.
pub data Reserved {E : Type 0} (n : ℕ) (l : Logs E) : Type 0 where
  short :
      (pop_nth_in_freelist n l.store).0 ≡ 0
      → ((b : Bool) → reserve_next n b l ≡ none)
      → Reserved n l
  found :
      (p : ℕ) (store : Store)
      → pop_nth_in_freelist n l.store ≡ (p, store)
      → p ≢ 0
      → ((b : Bool)
          → reserve_next n b l ≡ some (p, record l { store = mark_reserved_block b p store }))
      → Reserved n l

pub reserve_next-Reserved : {E : Type 0} → (n : ℕ) (l : Logs E) → Reserved n l
unfolding reserve_next
reserve_next-Reserved n l = elim (Bool-cases ((pop_nth_in_freelist n l.store).0 == 0)) [
  | inl z ↦ short (ground arith) (λ b. rw z refl)
  | inr p ↦
      found (pop_nth_in_freelist n l.store).0 (pop_nth_in_freelist n l.store).1 refl (ground arith)
        (λ b. rw p refl)
]

-- The state after a success.
abbrev pub after_tdmd : {E : Type 0} → ℕ → Bool → ℕ → Store → Logs E → Logs E
after_tdmd now b p store l =
    let id = ((mark_reserved_block b p store).cell p).physical_block_id in
    record l {
      store = mark_reserved_block b p store;
      td_md_block = record l.td_md_block {
        keep_duration = write_keep_duration_secs;
        current_time = now;
        pointer_next = id;
      };
      current_tdmd_block = id;
      tdmd_idx = 0;
    }

abbrev pub after_vmd : {E : Type 0} → Bool → ℕ → Store → Logs E → Logs E
after_vmd b p store l =
    let id = ((mark_reserved_block b p store).cell p).physical_block_id in
    record l {
      store = mark_reserved_block b p store;
      l2p_block = record l.l2p_block { ptr = id };
      current_vmd_block = id;
      map_idx = 0;
    }

pub not_null : (p : ℕ) → p ≢ 0 → (p == 0) ≡ false
not_null p h = ground arith

set_tdmd-found :
    {E : Type 0}
    → (now : ℕ) (b : Bool) (l : Logs E) (p : ℕ) (store : Store) → p ≢ 0
    → reserve_next (length_td_log_block - 2) b l
      ≡ some (p, record l { store = mark_reserved_block b p store })
    → set_pointer_and_reset_tdmd now b l ≡ some (after_tdmd now b p store l)
unfolding set_pointer_and_reset_tdmd prepare_tdmd_write commit_tdmd_write
set_tdmd-found now b l p store ne r = rw (r, not_null p ne) refl

set_tdmd-short :
    {E : Type 0}
    → (now : ℕ) (b : Bool) (l : Logs E) → reserve_next (length_td_log_block - 2) b l ≡ none
    → set_pointer_and_reset_tdmd now b l ≡ none
unfolding set_pointer_and_reset_tdmd prepare_tdmd_write
set_tdmd-short now b l r = rw r refl

set_vmd-found :
    {E : Type 0}
    → (b : Bool) (l : Logs E) (p : ℕ) (store : Store) → p ≢ 0
    → reserve_next length_version_log_block b l
      ≡ some (p, record l { store = mark_reserved_block b p store })
    → set_pointer_and_reset_vmd b l ≡ some (after_vmd b p store l)
unfolding set_pointer_and_reset_vmd prepare_vmd_write commit_vmd_write
set_vmd-found b l p store ne r = rw (r, not_null p ne) refl

set_vmd-short :
    {E : Type 0}
    → (b : Bool) (l : Logs E) → reserve_next length_version_log_block b l ≡ none
    → set_pointer_and_reset_vmd b l ≡ none
unfolding set_pointer_and_reset_vmd prepare_vmd_write
set_vmd-short b l r = rw r refl

-- `set_pointer_and_reset_tdmd` either fails, when `pop_nth_in_freelist` finds no entry, or it leaves
-- the timelock log block empty, with the duration of a write, 60, and the present time, and with a pointer
-- to the block that it is to be written to next, the physical block of the entry found; its array
-- and the version log are as before.
pub set_pointer_and_reset_tdmd_lem :
    {E : Type 0}
    → (now : ℕ) (b : Bool) (l : Logs E)
    → let (p, store) = pop_nth_in_freelist (length_td_log_block - 2) l.store in
      ((p ≡ 0) × (set_pointer_and_reset_tdmd now b l ≡ none))
      ⊎ ((l' : Logs E) × (set_pointer_and_reset_tdmd now b l ≡ some l')
          × (p ≢ 0)
          × (l'.tdmd_idx ≡ 0)
          × (l'.td_md_block.pointer_next ≡ l'.current_tdmd_block)
          × (l'.current_tdmd_block ≡ (store.cell p).physical_block_id)
          × (l'.td_md_block.keep_duration ≡ write_keep_duration_secs)
          × (l'.td_md_block.current_time ≡ now)
          × (l'.td_md_block.arr ≡ l.td_md_block.arr)
          × (l'.l2p_block ≡ l.l2p_block)
          × (l'.map_idx ≡ l.map_idx))
set_pointer_and_reset_tdmd_lem now b l = elim (reserve_next-Reserved (length_td_log_block - 2) l) [
  | short z r ↦ inl (z, set_tdmd-short now b l (r b))
  | found p store e ne r ↦ inr (
    after_tdmd now b p store l,
    set_tdmd-found now b l p store ne (r b),
    ne_first p store e ne,
    refl,
    refl,
    id p store e,
    refl,
    refl,
    refl,
    refl,
    refl,
  )
]
  where
    ne_first :
        (p : ℕ) (store : Store)
        → pop_nth_in_freelist (length_td_log_block - 2) l.store ≡ (p, store)
        → p ≢ 0
        → (pop_nth_in_freelist (length_td_log_block - 2) l.store).0 ≢ 0
    ne_first p store e ne = subst (λ r. r.0 ≢ 0) (sym e) ne

    id :
        (p : ℕ) (store : Store)
        → pop_nth_in_freelist (length_td_log_block - 2) l.store ≡ (p, store)
        → ((mark_reserved_block b p store).cell p).physical_block_id
          ≡ ((pop_nth_in_freelist (length_td_log_block - 2) l.store).1.cell
              (pop_nth_in_freelist (length_td_log_block - 2) l.store).0).physical_block_id
    id p store e =
        ap (λ c. (c p).physical_block_id) (mark_reserved_block-cell b p store)
        ∙ ap (λ r. (r.1.cell r.0).physical_block_id) (sym e)

-- `set_pointer_and_reset_vmd` either fails, when `pop_nth_in_freelist` finds no entry, or it leaves the
-- version log block empty, with a pointer to the block that it is to be written to next, the
-- physical block of the entry found; the timelock log is as before.
pub set_pointer_and_reset_vmd_lem :
    {E : Type 0}
    → (b : Bool) (l : Logs E)
    → let (p, store) = pop_nth_in_freelist length_version_log_block l.store in
      ((p ≡ 0) × (set_pointer_and_reset_vmd b l ≡ none))
      ⊎ ((l' : Logs E) × (set_pointer_and_reset_vmd b l ≡ some l')
          × (p ≢ 0)
          × (l'.map_idx ≡ 0)
          × (l'.l2p_block.ptr ≡ l'.current_vmd_block)
          × (l'.current_vmd_block ≡ (store.cell p).physical_block_id)
          × (l'.td_md_block ≡ l.td_md_block)
          × (l'.tdmd_idx ≡ l.tdmd_idx))
set_pointer_and_reset_vmd_lem b l = elim (reserve_next-Reserved length_version_log_block l) [
  | short z r ↦ inl (z, set_vmd-short b l (r b))
  | found p store e ne r ↦ inr (
    after_vmd b p store l,
    set_vmd-found b l p store ne (r b),
    subst (λ r. r.0 ≢ 0) (sym e) ne,
    refl,
    refl,
    ap (λ c. (c p).physical_block_id) (mark_reserved_block-cell b p store)
        ∙ ap (λ r. (r.1.cell r.0).physical_block_id) (sym e),
    refl,
    refl,
  )
]
