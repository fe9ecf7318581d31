-- ===== src/Read/Scatter.antt =====
-- What `device_read` returns, for a gatekeeper that answers a READ request with the blocks of its
-- ranges, and for one that answers short.
use timelock_drive.Prelude.{
  ℕ, zero, suc, ◌+◌, ◌^◌, ◌<◌, ◌≤◌, ◌%◌, ◌≡◌, ltb, ◌≢◌, ◌⊎◌, refl, ap, sym, ◌∙◌, Bool, false,
  Option, none, some, List, [], ◌∷◌, length, map, replicate, arith, Option-cases, inl, inr,
}
use timelock_drive.Constants.{DataRange, max_mapping_count, total_logical_num_blocks}
use timelock_drive.Ranges.Blocks.{expand, total_blocks, length-expand}
use timelock_drive.Read.{
  scan_blocks, no_scan, finish, scatter, fetch, ReadResult, failed, done, device_read, ReadMessage,
  read_message, Triggers,
}
use timelock_drive.Read.Coalesce.{
  mapped_blocks, unmapped_flags, is_none, push_mapped, Fits, scan_blocks_lem,
}

module _ {ℓ} {A : Type ℓ} (zero_block : A) (disk : ℕ → A) (mapping : ℕ → Option ℕ) where
  -- The block that a reader of the virtual disk should see.
  abbrev pub block_at : Option ℕ → A
  block_at none = zero_block
  block_at (some p) = disk p

  -- The `n` blocks from the logical block `lba` on.
  abbrev pub contents : ℕ → ℕ → List A
  contents lba zero = []
  contents lba (suc n) = block_at (mapping lba) ∷ contents (lba + 1) n

  scatter-cons :
      (o : Option ℕ) (us : List Bool) (ps : List ℕ)
      → scatter zero_block (is_none o ∷ us) (map disk (push_mapped o ps))
        ≡ block_at o ∷ scatter zero_block us (map disk ps)
  unfolding scatter
  scatter-cons none us ps = refl
  scatter-cons (some p) us ps = refl

  scatter-mapped :
      (lba n : ℕ)
      → scatter zero_block (unmapped_flags mapping lba n) (map disk (mapped_blocks mapping lba n))
        ≡ contents lba n
  unfolding scatter
  scatter-mapped lba zero = refl
  scatter-mapped lba (suc n) =
      scatter-cons (mapping lba) (unmapped_flags mapping (lba + 1) n)
        (mapped_blocks mapping (lba + 1) n)
      ∙ ap (◌∷◌ (block_at (mapping lba))) (scatter-mapped (lba + 1) n)

  contents-unmapped :
      (lba n : ℕ) → mapped_blocks mapping lba n ≡ [] → contents lba n ≡ replicate n zero_block
  contents-unmapped lba zero e = refl
  contents-unmapped lba (suc n) e = elim (Option-cases (mapping lba)) [
    | inl f ↦ ground (arith, contents-unmapped (lba + 1) n)
    | inr (p, f) ↦ ground arith
  ]

List-cases {ℓ} : {A : Type ℓ} (xs : List A) → (xs ≡ []) ⊎ ((x : A) × (ys : List A) × (xs ≡ x ∷ ys))
List-cases [] = inl refl
List-cases (x ∷ xs) = inr (x, xs, refl)

pub length-map {ℓ κ} :
    {A : Type ℓ} {B : Type κ} (f : A → B) (xs : List A) → length (map f xs) ≡ length xs
length-map f [] = refl
length-map f (x ∷ xs) = ap suc (length-map f xs)

module _ {ℓ} {A : Type ℓ} (zero_block : A) (respond : ReadMessage → List A) where
  fetch-mapped :
      (rs : List DataRange) (us : List Bool) (n : ℕ) (disk : ℕ → A)
      → respond (read_message rs) ≡ map disk (expand rs)
      → (expand rs ≡ [] → scatter zero_block us [] ≡ replicate n zero_block)
      → fetch zero_block respond rs us n ≡ done (scatter zero_block us (map disk (expand rs)))
  unfolding fetch
  fetch-mapped [] us n disk serves empty = ap done (sym (empty refl))
  fetch-mapped (r ∷ rs) us n disk serves empty =
      ground (arith, length-map disk (expand (r ∷ rs)), length-expand (r ∷ rs))

  fetch-short :
      (rs : List DataRange) (us : List Bool) (n : ℕ)
      → length (respond (read_message rs)) < total_blocks rs
      → fetch zero_block respond rs us n ≡ failed
  unfolding fetch
  fetch-short [] us n short = absurd (omega arith)
  fetch-short (r ∷ rs) us n short = ground arith

  module _ (mapping : ℕ → Option ℕ) (lba n : ℕ) (t : Triggers) where
    fetch-device_read :
        n ≤ max_mapping_count
        → lba < 2 ^ 32
        → let s = scan_blocks mapping lba n no_scan in
          device_read zero_block respond mapping lba n t ≡ (
            fetch zero_block respond (finish s) s.unmapped n,
            record { do_gc = false; do_sync = false },
          )
    unfolding device_read
    fetch-device_read few small =
        let in_word : lba % 2 ^ 32 ≡ lba = omega arith in
        let in_arrays : ltb max_mapping_count n ≡ false = ground (arith, few) in
        rw (in_word, in_arrays) refl

    fetch-contents :
        (disk : ℕ → A) (rs : List DataRange)
        → respond (read_message rs) ≡ map disk (expand rs)
        → expand rs ≡ mapped_blocks mapping lba n
        → fetch zero_block respond rs (unmapped_flags mapping lba n) n
          ≡ done (contents zero_block disk mapping lba n)
    fetch-contents disk rs serves e =
        let whole = scatter-mapped zero_block disk mapping lba n in
        fetch-mapped rs (unmapped_flags mapping lba n) n disk serves (λ none_mapped.
          ap (λ ps. scatter zero_block (unmapped_flags mapping lba n) (map disk ps))
            (sym none_mapped ∙ e)
          ∙ whole
          ∙ contents-unmapped zero_block disk mapping lba n (sym e ∙ none_mapped))
        ∙ ap done (rw e whole)

    -- If the gatekeeper answers a request with the blocks that its ranges stand for, `device_read`
    -- of up to 64 blocks of the virtual disk returns, for each block, the disk's block at its mapping, or zeros if it has none; and it resets the triggers of the daemons. The physical
    -- addresses leave room for the request below 2 ^ 32.
    pub device_read-contents :
        (disk : ℕ → A)
        → ((rs : List DataRange) → respond (read_message rs) ≡ map disk (expand rs))
        → n ≤ max_mapping_count
        → lba + n ≤ total_logical_num_blocks
        → Fits mapping n
        → device_read zero_block respond mapping lba n t ≡ (
          done (contents zero_block disk mapping lba n),
          record { do_gc = false; do_sync = false },
        )
    device_read-contents disk serves few small fits =
        let loop = scan_blocks_lem mapping lba n (omega (arith, few)) fits in
        let s = scan_blocks mapping lba n no_scan in
        fetch-device_read few (omega arith)
        ∙ ap (λ (r : ReadResult A). (r, record { do_gc = false; do_sync = false }))
            (ap (λ us. fetch zero_block respond (finish s) us n) loop.1
              ∙ fetch-contents disk (finish s) (serves (finish s)) loop.0)

    total_blocks-pos :
        (rs : List DataRange)
        → expand rs ≡ mapped_blocks mapping lba n
        → mapped_blocks mapping lba n ≢ []
        → 0 < total_blocks rs
    total_blocks-pos rs e ne = elim (List-cases (expand rs)) [
      | inl nil ↦ absurd (ne (sym e ∙ nil))
      | inr (p, ps, cons) ↦ omega (arith, length-expand rs, ap (λ (l : List ℕ). length l) cons)
    ]

    -- If the connection breaks before all the blocks asked for have arrived, `device_read` of up to
    -- 64 blocks of the virtual disk returns -1, provided that some block of the
    -- request is mapped. The physical addresses leave room for the request below 2 ^ 32.
    pub device_read_short :
        ((rs : List DataRange)
          → 0 < total_blocks rs
          → length (respond (read_message rs)) < total_blocks rs)
        → n ≤ max_mapping_count
        → lba + n ≤ total_logical_num_blocks
        → Fits mapping n
        → mapped_blocks mapping lba n ≢ []
        → (device_read zero_block respond mapping lba n t).0 ≡ failed
    device_read_short short few small fits some_mapped =
        let loop = scan_blocks_lem mapping lba n (omega (arith, few)) fits in
        let s = scan_blocks mapping lba n no_scan in
        rw (fetch-device_read few (omega arith)) (
          fetch-short (finish s) s.unmapped n
            (short (finish s) (total_blocks-pos (finish s) loop.0 some_mapped)))
