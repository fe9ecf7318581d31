-- ===== src/Read/Coalesce.antt =====
-- The loop of `device_read` over the blocks: the ranges stand for exactly the mapped blocks.
use timelock_drive.Prelude.{
  ℕ, zero, suc, ◌+◌, ◌%◌, ◌^◌, ◌<◌, ◌≡◌, ap, sym, ◌∙◌, Bool, true, false, Option, none, some, List,
  [], ◌∷◌, ◌++◌, append-nil, append_assoc, arith, Option-cases, inl, inr,
}
use timelock_drive.Ranges.Blocks.{count_up, expand, expand-append, count_up-add}
use timelock_drive.Read.{Scan, save_range, scan_block, scan_blocks, no_scan, finish}

-- The physical addresses of the mapped blocks among `n` from `lba` on, in order.
abbrev pub push_mapped : Option ℕ → List ℕ → List ℕ
push_mapped none ps = ps
push_mapped (some p) ps = p ∷ ps

abbrev pub mapped_blocks : (ℕ → Option ℕ) → ℕ → ℕ → List ℕ
mapped_blocks mapping lba zero = []
mapped_blocks mapping lba (suc n) = push_mapped (mapping lba) (mapped_blocks mapping (lba + 1) n)

abbrev pub is_none : Option ℕ → Bool
is_none none = true
is_none (some p) = false

-- Which of them have no mapping.
abbrev pub unmapped_flags : (ℕ → Option ℕ) → ℕ → ℕ → List Bool
unmapped_flags mapping lba zero = []
unmapped_flags mapping lba (suc n) = is_none (mapping lba) ∷ unmapped_flags mapping (lba + 1) n

-- Every address of the mapping leaves room for `n` blocks below 2 ^ 32.
abbrev pub Fits : (ℕ → Option ℕ) → ℕ → Type 0
Fits mapping n = (i p : ℕ) → mapping i ≡ some p → p + n < 2 ^ 32

-- The addresses that the loop has put into ranges, the one being built included.
abbrev pending : Scan → List ℕ
pending s = expand s.ranges ++ count_up s.cur_range_start_pba s.cur_range_blocks

record ScanOk (s : Scan) (room : ℕ) : Type 0 where
  few : s.cur_range_blocks + room < 2 ^ 8
  inside : s.cur_range_start_pba + s.cur_range_blocks + room < 2 ^ 32

expand-save : (s : Scan) → s.cur_range_blocks < 2 ^ 8 → expand (save_range s) ≡ pending s
expand-save s h =
    let e : s.cur_range_blocks % 2 ^ 8 ≡ s.cur_range_blocks = omega arith in
    rw e (
      expand-append s.ranges _
      ∙ ap (◌++◌ (expand s.ranges))
          (append-nil (count_up s.cur_range_start_pba s.cur_range_blocks)))

count_up-snoc : (p n : ℕ) → count_up p (n + 1) ≡ count_up p n ++ (p + n) ∷ []
count_up-snoc p n = count_up-add p n 1

expand-finish : (s : Scan) (room : ℕ) → ScanOk s room → expand (finish s) ≡ pending s
unfolding finish
expand-finish s room ok = ground (arith, expand-save s, append-nil (expand s.ranges))

-- One round adds the block's address, if it has one, and keeps the sizes.
scan_block-some :
    (p : ℕ) (s : Scan) (room : ℕ)
    → ScanOk s (suc room)
    → p + suc room < 2 ^ 32
    → (pending (scan_block (some p) s) ≡ pending s ++ p ∷ []) × ScanOk (scan_block (some p) s) room
unfolding scan_block
scan_block-some p s room ok h = ground (
  arith,
  expand-save s,
  append-nil (expand s.ranges),
  count_up-snoc s.cur_range_start_pba s.cur_range_blocks,
  append_assoc (expand s.ranges) (count_up s.cur_range_start_pba s.cur_range_blocks) (p ∷ []),
)

scan_block-none :
    (s : Scan) (room : ℕ)
    → ScanOk s (suc room)
    → (pending (scan_block none s) ≡ pending s) × ScanOk (scan_block none s) room
unfolding scan_block
scan_block-none s room ok =
    ground (arith, expand-save s, append-nil (expand (save_range s)), append-nil (expand s.ranges))

unmapped-scan_block :
    (o : Option ℕ) (s : Scan) → (scan_block o s).unmapped ≡ s.unmapped ++ is_none o ∷ []
unfolding scan_block
unmapped-scan_block none s = ground arith
unmapped-scan_block (some p) s = ground arith

-- What the loop has done when it stops, started at `s`.
record Scans (mapping : ℕ → Option ℕ) (lba n room : ℕ) (s : Scan) : Type 0 where
  addresses : pending (scan_blocks mapping lba n s) ≡ pending s ++ mapped_blocks mapping lba n
  flags : (scan_blocks mapping lba n s).unmapped ≡ s.unmapped ++ unmapped_flags mapping lba n
  sizes : ScanOk (scan_blocks mapping lba n s) room

module _ (mapping : ℕ → Option ℕ) (lba n room : ℕ) (s : Scan) where
  Scans-suc :
      pending (scan_block (mapping lba) s) ++ mapped_blocks mapping (lba + 1) n
        ≡ pending s ++ mapped_blocks mapping lba (suc n)
      → Scans mapping (lba + 1) n room (scan_block (mapping lba) s)
      → Scans mapping lba (suc n) room s
  unfolding scan_blocks
  Scans-suc e rest = record {
    addresses = rest.addresses ∙ e;
    flags =
        rest.flags
        ∙ ap (λ l. l ++ unmapped_flags mapping (lba + 1) n) (unmapped-scan_block (mapping lba) s)
        ∙ append_assoc s.unmapped (is_none (mapping lba) ∷ []) (unmapped_flags mapping (lba + 1) n);
    sizes = rest.sizes;
  }

scan_blocks-Scans :
    (mapping : ℕ → Option ℕ) (lba n room : ℕ) (s : Scan)
    → Fits mapping (n + room)
    → ScanOk s (n + room)
    → Scans mapping lba n room s
unfolding scan_blocks
scan_blocks-Scans mapping lba zero room s fits ok = record {
  addresses = sym (append-nil (pending s));
  flags = sym (append-nil s.unmapped);
  sizes = omega arith;
}
scan_blocks-Scans mapping lba (suc n) room s fits ok = elim (Option-cases (mapping lba)) [
  | inl e ↦
      let ok' : ScanOk s (suc (n + room)) = omega arith in
      let one = scan_block-none s (n + room) ok' in
      Scans-suc mapping lba n room s (rw (e, one.0)) (
        rw e (
          scan_blocks-Scans mapping (lba + 1) n room (scan_block none s)
            (λ i p h. omega (arith, fits i p h)) one.1))
  | inr (p, e) ↦
      let ok' : ScanOk s (suc (n + room)) = omega arith in
      let one = scan_block-some p s (n + room) ok' (omega (arith, fits lba p e)) in
      Scans-suc mapping lba n room s
        (rw (e, one.0) (append_assoc (pending s) (p ∷ []) (mapped_blocks mapping (lba + 1) n)))
        (rw e (
          scan_blocks-Scans mapping (lba + 1) n room (scan_block (some p) s)
            (λ i q h. omega (arith, fits i q h)) one.1))
]

-- For up to 255 blocks the ranges that `device_read` sends stand for the physical addresses of the
-- mapped blocks, each once and in order, and `unmapped` marks the others.
pub scan_blocks_lem :
    (mapping : ℕ → Option ℕ) (lba n : ℕ)
    → n < 2 ^ 8
    → Fits mapping n
    → let s = scan_blocks mapping lba n no_scan in
      (expand (finish s) ≡ mapped_blocks mapping lba n)
      × (s.unmapped ≡ unmapped_flags mapping lba n)
scan_blocks_lem mapping lba n h fits =
    let done =
      scan_blocks-Scans mapping lba n 0 no_scan (λ i p e. omega (arith, fits i p e))
        (omega arith) in
    (expand-finish (scan_blocks mapping lba n no_scan) 0 done.sizes ∙ done.addresses, done.flags)
