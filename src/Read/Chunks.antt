-- ===== src/Read/Chunks.antt =====
-- `device_read_wrapper`: a request of any length, in chunks of MAX_MAPPING_COUNT blocks.
use timelock_drive.Prelude.{
  ℕ, zero, suc, ◌+◌, ◌-◌, ◌*◌, ◌/◌, ◌%◌, ◌^◌, ◌≤◌, ◌<◌, ◌≡◌, refl, ap, sym, ◌∙◌, true, false,
  Option, some, List, [], ◌∷◌, ◌++◌, map, append-nil, append_assoc, arith, if◌then◌else◌, ltb, ◌==◌,
}
use timelock_drive.Constants.{DataRange, block_size, max_mapping_count, total_logical_num_blocks}
use timelock_drive.Ranges.Blocks.{expand}
use timelock_drive.Read.{
  device_read, ReadMessage, read_message, Triggers, read_chunks, device_read_wrapper, chunk_of,
  ReadResult, done,
}
use timelock_drive.Read.Coalesce.{Fits}
use timelock_drive.Read.Scatter.{block_at, contents, device_read-contents}

module _ {ℓ} {A : Type ℓ} (zero_block : A) (disk : ℕ → A) (mapping : ℕ → Option ℕ) where
  contents-add :
      (lba a b : ℕ)
      → contents zero_block disk mapping lba (a + b)
        ≡ contents zero_block disk mapping lba a ++ contents zero_block disk mapping (lba + a) b
  contents-add lba zero b =
      let e : 0 + b ≡ b = omega arith in let f : lba + 0 ≡ lba = omega arith in rw (e, f)
  contents-add lba (suc a) b =
      let e : suc a + b ≡ suc (a + b) = omega arith in
      let f : lba + suc a ≡ lba + 1 + a = omega arith in
      rw (e, f)
        (ap (◌∷◌ (block_at zero_block disk mapping (mapping lba))) (contents-add (lba + 1) a b))

  module _ (respond : ReadMessage → List A)
      (serves : (rs : List DataRange) → respond (read_message rs) ≡ map disk (expand rs))
      (fits : Fits mapping max_mapping_count) where
    chunk-contents :
        (lba n : ℕ) (t : Triggers)
        → n ≤ max_mapping_count
        → lba + n ≤ total_logical_num_blocks
        → device_read zero_block respond mapping lba n t ≡ (
          done (contents zero_block disk mapping lba n),
          record { do_gc = false; do_sync = false },
        )
    chunk-contents lba n t h small =
        device_read-contents zero_block respond mapping lba n t disk serves h small
          (λ i p e. omega (arith, fits i p e))

    -- One chunk of the wrapper's loop.
    read_chunks-suc :
        (fuel lba n c off rem : ℕ) (buffer : List A) (t : Triggers)
        → off ≡ lba * block_size
        → 0 < rem
        → chunk_of rem ≡ c * block_size
        → c ≤ max_mapping_count
        → lba + c ≤ total_logical_num_blocks
        → 0 < c
        → read_chunks zero_block respond mapping (suc fuel) off rem buffer t
          ≡ read_chunks zero_block respond mapping fuel
              (off + c * block_size)
              (rem - c * block_size)
              (buffer ++ contents zero_block disk mapping lba c)
              (record { do_gc = false; do_sync = false })
    unfolding read_chunks
    read_chunks-suc fuel lba n c off rem buffer t e pos chunk few small some_blocks =
        let go_on : (rem == 0) ≡ false = ground arith in
        let no_wrap : (off + c * block_size) % 2 ^ 64 ≡ off + c * block_size = omega arith in
        let start : off / block_size ≡ lba = omega arith in
        let size : c * block_size / block_size ≡ c = omega arith in
        simp (go_on, chunk, start, size, no_wrap, chunk-contents lba c t few small)

    read_chunks-stop :
        (fuel off rem : ℕ) (buffer : List A) (t : Triggers)
        → (rem == 0) ≡ true
        → (read_chunks zero_block respond mapping (suc fuel) off rem buffer t).0
          ≡ some (done buffer)
    unfolding read_chunks
    read_chunks-stop fuel off rem buffer t stop = rw stop

    read_chunks-contents :
        (fuel lba n off rem : ℕ) (buffer : List A) (t : Triggers)
        → off ≡ lba * block_size
        → rem ≡ n * block_size
        → lba + n ≤ total_logical_num_blocks
        → n < fuel
        → (read_chunks zero_block respond mapping fuel off rem buffer t).0
          ≡ some (done (buffer ++ contents zero_block disk mapping lba n))
    read_chunks-contents zero lba n off rem buffer t e f small enough = absurd (omega arith)
    read_chunks-contents (suc fuel) lba zero off rem buffer t e f small enough =
        let stop : (rem == 0) ≡ true = ground arith in
        read_chunks-stop fuel off rem buffer t stop
        ∙ ap (λ (l : List A). some (done l)) (sym (append-nil buffer))
    read_chunks-contents (suc fuel) lba (suc n) off rem buffer t e f small enough =
        let c = if ltb max_mapping_count (suc n) then max_mapping_count else suc n in
        let bounds : (0 < c) × (c ≤ suc n) × (c ≤ max_mapping_count) = ground arith in
        let chunk : chunk_of rem ≡ c * block_size = ground arith in
        let parts : suc n ≡ c + (suc n - c) = omega arith in
        ap (λ (r : Option (ReadResult A) × Triggers). r.0)
          (read_chunks-suc fuel lba (suc n) c off rem buffer t e (omega arith) chunk bounds.2
            (omega arith) bounds.0)
        ∙ read_chunks-contents fuel (lba + c) (suc n - c) (off + c * block_size)
            (rem - c * block_size) (buffer ++ contents zero_block disk mapping lba c)
            (record { do_gc = false; do_sync = false }) (omega arith) (omega arith) (omega arith)
            (omega arith)
        ∙ ap (λ (l : List A). some (done l))
            (append_assoc buffer (contents zero_block disk mapping lba c)
                (contents zero_block disk mapping (lba + c) (suc n - c))
              ∙ ap (λ l. buffer ++ l)
                  (sym (contents-add lba c (suc n - c))
                    ∙ ap (contents zero_block disk mapping lba) (sym parts)))

    -- If the gatekeeper answers every request with the blocks that its ranges stand for, a read of
    -- any whole number of blocks of the virtual disk, with a size in bytes of 32 bits, ends with the
    -- contents of all of them: each block is the disk's block at its mapping, or zeros if it has
    -- none. The physical addresses leave room for a chunk below 2 ^ 32. Fuel above the number of
    -- blocks is enough.
    pub device_read_wrapper-contents :
        (fuel lba n : ℕ) (t : Triggers)
        → lba + n ≤ total_logical_num_blocks
        → n * block_size < 2 ^ 32
        → n < fuel
        → (device_read_wrapper zero_block respond mapping fuel
            (lba * block_size)
            (n * block_size)
            t).0
          ≡ some (done (contents zero_block disk mapping lba n))
    unfolding device_read_wrapper
    device_read_wrapper-contents fuel lba n t small in_size enough =
        let in_word : n * block_size % 2 ^ 32 ≡ n * block_size = omega arith in
        rw in_word (
          read_chunks-contents fuel lba n (lba * block_size) (n * block_size) [] t refl refl small
            enough)
