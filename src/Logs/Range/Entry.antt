-- ===== src/Logs/Range/Entry.antt =====
-- What a round of the loop of `find_free_range` that takes an entry does to the mapping and the range.
use timelock_drive.Prelude.{
  ℕ, ◌+◌, ◌%◌, ◌^◌, ◌≡◌, refl, ap, ◌∙◌, Bool, true, false, some, ◌==◌, arith, update, Bool-cases,
  inl, inr,
}
use timelock_drive.Constants.{DataRange}
use timelock_drive.BlockList.{collect_list}
use timelock_drive.BlockList.Ids.{mark_reserved_block-cell, enqueue_list-id}
use timelock_drive.Logs.{
  EpochMap, Logs, begin_td, end_td, log_block, is_full, note_epoch, retire, install, fresh_ret,
  Round, go_on, return, use_entry, write_keep_duration_secs,
}

-- The physical block of the entry at `q`.
abbrev pub id_at : {E : Type 0} → Logs E → ℕ → ℕ
id_at l q = (l.store.cell q).physical_block_id

module _ {E : Type 0} (ops : EpochMap E) where
  -- The logs with one more logical block mapped.
  pub record Maps (lba front : ℕ) (l l' : Logs E) : Type 0 where
    pub mapping : l'.l2pmap ≡ update l.l2pmap lba front
    pub ids : (q : ℕ) → id_at l' q ≡ id_at l q

  retire-id : (lba : ℕ) (l : Logs E) (q : ℕ) → id_at (retire lba l) q ≡ id_at l q
  unfolding retire
  retire-id lba l q = elim (Bool-cases (l.l2pmap lba == 0)) [
    | inl z ↦ rw z refl
    | inr p ↦ rw p (enqueue_list-id collect_list (l.l2pmap lba) l.store q)
  ]

  retire-mapping : (lba : ℕ) (l : Logs E) → (retire lba l).l2pmap ≡ l.l2pmap
  unfolding retire
  retire-mapping lba l = ground arith

  install-Maps : (lba front : ℕ) (l : Logs E) → Maps lba front l (install lba front l)
  unfolding install
  install-Maps lba front l = record {
    mapping = refl;
    ids = λ q.
        ap (λ c. (c q).physical_block_id)
          (mark_reserved_block-cell false front (record l.store {
            cell =
                update l.store.cell front
                  (record (l.store.cell front) { keep_duration = write_keep_duration_secs });
          }))
        ∙ same q;
  }
    where
      same :
          (q : ℕ)
          → (update l.store.cell front
              (record (l.store.cell front) { keep_duration = write_keep_duration_secs })
              q).physical_block_id
            ≡ id_at l q
      same q = ground arith

  logged-same :
      (td : Bool) (lba pba : ℕ) (l : Logs E)
      → ((log_block td lba pba l).l2pmap ≡ l.l2pmap) × ((log_block td lba pba l).store ≡ l.store)
  unfolding log_block end_td begin_td
  logged-same true lba pba l = ground arith
  logged-same false lba pba l = ground arith

  noted-same :
      (lba : ℕ) (l : Logs E)
      → ((note_epoch ops lba l).l2pmap ≡ l.l2pmap) × ((note_epoch ops lba l).store ≡ l.store)
  noted-same lba l = ground arith

  Maps-retire : (lba front : ℕ) (l : Logs E) → Maps lba front l (install lba front (retire lba l))
  Maps-retire lba front l =
      let m = install-Maps lba front (retire lba l) in
      record {
        mapping = m.mapping ∙ ap (λ f. update f lba front) (retire-mapping lba l);
        ids = λ q. m.ids q ∙ retire-id lba l q;
      }

  Maps-logged :
      (td : Bool) (lba pba front : ℕ) (l l' : Logs E)
      → Maps lba front l l'
      → Maps lba front l (log_block td lba pba (note_epoch ops lba l'))
  Maps-logged td lba pba front l l' m =
      let a = logged-same td lba pba (note_epoch ops lba l') in
      let b = noted-same lba l' in
      record {
        mapping = a.0 ∙ b.0 ∙ m.mapping;
        ids = λ q. ap (λ s. (s.cell q).physical_block_id) (a.1 ∙ b.1) ∙ m.ids q;
      }

  -- How a round that takes the entry `front` ends: with the mapping and the range one block longer.
  pub data Took (lba front : ℕ) (range : DataRange) (l : Logs E) (r : Round E) : Type 0 where
    goes_on :
        (l' : Logs E) (range' : DataRange)
        → r ≡ go_on l' range'
        → range' ≡ record range { num_blocks = (range.num_blocks + 1) % 2 ^ 8 }
        → Maps lba front l l'
        → Took lba front range l r
    returns :
        (l' : Logs E) (range' : DataRange)
        → r ≡ return (some fresh_ret) l' range'
        → range' ≡ record range { num_blocks = (range.num_blocks + 1) % 2 ^ 8 }
        → Maps lba front l l'
        → Took lba front range l r

  pub use_entry-Took :
      (vm td : Bool) (lba front : ℕ) (range : DataRange) (l : Logs E)
      → Took lba front range l (use_entry ops vm td lba front range l)
  unfolding use_entry
  use_entry-Took false td lba front range l =
      goes_on (install lba front (retire lba l)) _ refl refl (Maps-retire lba front l)
  use_entry-Took true td lba front range l =
      let mapped = install lba front (retire lba l) in
      let logged =
        log_block td lba (l.store.cell front).physical_block_id (note_epoch ops lba mapped) in
      let m =
        Maps-logged td lba (l.store.cell front).physical_block_id front l mapped
          (Maps-retire lba front l) in
      elim (Bool-cases (is_full td logged)) [
        | inl full ↦ returns logged _ (rw full refl) refl m
        | inr more ↦ goes_on logged _ (rw more refl) refl m
      ]
