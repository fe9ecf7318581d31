-- ===== src/Ranges/Merge.antt =====
-- What `merge_ranges` keeps: the blocks, in order.
use timelock_drive.Prelude.{
  ℕ, zero, suc, ◌+◌, ◌-◌, ◌%◌, ◌^◌, ◌≤◌, ◌<◌, ◌≡◌, ◌≢◌, refl, ap, ap₂, ◌∙◌, sym, List, [], ◌∷◌,
  ◌++◌, update, arith, append_assoc, append-nil, Bool-cases, ◌==◌, inl, inr, true, false,
}
use timelock_drive.Constants.{DataRange}
use timelock_drive.Ranges.{extend, merge_loop, merge_ranges}
use timelock_drive.Ranges.Blocks.{
  blocks_of, expand, expand-append, count_up-add, slice, total_blocks,
}

slice-update_below :
    (a : ℕ → DataRange) (w : ℕ) (r : DataRange) (i n : ℕ)
    → w < i
    → slice (update a w r) i n ≡ slice a i n
slice-update_below a w r i zero h = refl
slice-update_below a w r i (suc n) h =
    ap₂ ◌∷◌ (ground arith) (slice-update_below a w r (i + 1) n (omega arith))

slice-update_above :
    (a : ℕ → DataRange) (w : ℕ) (r : DataRange) (i n : ℕ)
    → i + n ≤ w
    → slice (update a w r) i n ≡ slice a i n
slice-update_above a w r i zero h = refl
slice-update_above a w r i (suc n) h =
    ap₂ ◌∷◌ (ground arith) (slice-update_above a w r (i + 1) n (omega arith))

slice-snoc : (a : ℕ → DataRange) (i n : ℕ) → slice a i (n + 1) ≡ slice a i n ++ a (i + n) ∷ []
slice-snoc a i zero = ap (λ k. a k ∷ []) (omega arith)
slice-snoc a i (suc n) =
    let e : suc n + 1 ≡ suc (n + 1) = omega arith in
    let f : i + suc n ≡ i + 1 + n = omega arith in
    rw (e, f) (ap (◌∷◌ (a i)) (slice-snoc a (i + 1) n))

-- No range runs past the 32-bit addresses.
abbrev pub InRange : DataRange → Type 0
InRange r = r.pba + r.num_blocks < 2 ^ 32

abbrev pub AllInRange : List DataRange → Type 0
AllInRange [] = Unit {0}
AllInRange (r ∷ rs) = InRange r × AllInRange rs

-- No two neighbours among the ranges up to the `w`-th could still be joined.
abbrev pub Separated : (ℕ → DataRange) → ℕ → Type 0
Separated a w = (i : ℕ) → i < w → (a i).pba + (a i).num_blocks ≢ (a (i + 1)).pba

expand-last :
    (a : ℕ → DataRange) (w : ℕ)
    → expand (slice a 0 (w + 1)) ≡ expand (slice a 0 w) ++ blocks_of (a w)
expand-last a w =
    ap expand (slice-snoc a 0 w)
    ∙ expand-append (slice a 0 w) (a (0 + w) ∷ [])
    ∙ ap (◌++◌ (expand (slice a 0 w)))
        (append-nil (blocks_of (a (0 + w))) ∙ ap (λ k. blocks_of (a k)) (omega arith))

update_self : (a : ℕ → DataRange) (w : ℕ) (r : DataRange) → update a w r w ≡ r
update_self a w r = ground arith

expand-copied :
    (a : ℕ → DataRange) (w : ℕ) (r : DataRange)
    → expand (slice (update a w r) 0 (w + 1)) ≡ expand (slice a 0 w) ++ blocks_of r
expand-copied a w r =
    rw (expand-last (update a w r) w, slice-update_above a w r 0 w (omega arith), update_self a w r)

blocks_of-extend :
    (r s : DataRange)
    → r.pba + r.num_blocks ≡ s.pba
    → r.num_blocks + s.num_blocks < 2 ^ 8
    → blocks_of (extend r s.num_blocks) ≡ blocks_of r ++ blocks_of s
blocks_of-extend r s next small =
    let e : (r.num_blocks + s.num_blocks) % 2 ^ 8 ≡ r.num_blocks + s.num_blocks = omega arith in
    rw (e, ← next) (count_up-add r.pba r.num_blocks s.num_blocks)

expand-joined :
    (a : ℕ → DataRange) (w : ℕ) (r : DataRange)
    → (a w).pba + (a w).num_blocks ≡ r.pba
    → (a w).num_blocks + r.num_blocks < 2 ^ 8
    → expand (slice (update a w (extend (a w) r.num_blocks)) 0 (w + 1))
      ≡ expand (slice a 0 (w + 1)) ++ blocks_of r
expand-joined a w r next small =
    expand-copied a w (extend (a w) r.num_blocks)
    ∙ ap (◌++◌ (expand (slice a 0 w))) (blocks_of-extend (a w) r next small)
    ∙ sym (append_assoc (expand (slice a 0 w)) (blocks_of (a w)) (blocks_of r))
    ∙ ap (λ l. l ++ blocks_of r) (sym (expand-last a w))

-- What the loop is given, and what it leaves: the same blocks, and nothing more to join.
record Merges (rounds read write : ℕ) (a : ℕ → DataRange) : Type 0 where
  same :
      let (a', w) = merge_loop rounds read write a in
      expand (slice a' 0 (w + 1)) ≡ expand (slice a 0 (write + 1)) ++ expand (slice a read rounds)
  apart : let (a', w) = merge_loop rounds read write a in Separated a' w

module _ (k read write : ℕ) (a : ℕ → DataRange) where
  merge_loop-joins :
      (((a write).pba + (a write).num_blocks) % 2 ^ 32 == (a read).pba) ≡ true
      → merge_loop (suc k) read write a
        ≡ merge_loop k (read + 1) write (update a write (extend (a write) (a read).num_blocks))
  unfolding merge_loop
  merge_loop-joins h = rw h

  merge_loop-copies :
      (((a write).pba + (a write).num_blocks) % 2 ^ 32 == (a read).pba) ≡ false
      → merge_loop (suc k) read write a
        ≡ merge_loop k (read + 1) (write + 1) (update a (write + 1) (a read))
  unfolding merge_loop
  merge_loop-copies h = rw h

  module _ (lt : write < read) where
    joined-Merges :
        (a write).pba + (a write).num_blocks ≡ (a read).pba
        → (a write).num_blocks + (a read).num_blocks < 2 ^ 8
        → (((a write).pba + (a write).num_blocks) % 2 ^ 32 == (a read).pba) ≡ true
        → Merges k (read + 1) write (update a write (extend (a write) (a read).num_blocks))
        → Merges (suc k) read write a
    joined-Merges next small h ih =
        let tail =
          slice-update_below a write (extend (a write) (a read).num_blocks) (read + 1) k
            (omega arith) in
        record {
          same = rw (merge_loop-joins h) (
              ih.same
              ∙ ap₂ ◌++◌ (expand-joined a write (a read) next small) (ap expand tail)
              ∙ append_assoc (expand (slice a 0 (write + 1))) (blocks_of (a read))
                  (expand (slice a (read + 1) k)));
          apart = rw (merge_loop-joins h) ih.apart;
        }

    copied-Merges :
        (((a write).pba + (a write).num_blocks) % 2 ^ 32 == (a read).pba) ≡ false
        → Merges k (read + 1) (write + 1) (update a (write + 1) (a read))
        → Merges (suc k) read write a
    copied-Merges h ih =
        let tail = slice-update_below a (write + 1) (a read) (read + 1) k (omega arith) in
        record {
          same = rw (merge_loop-copies h) (
              ih.same
              ∙ ap₂ ◌++◌ (expand-copied a (write + 1) (a read)) (ap expand tail)
              ∙ append_assoc (expand (slice a 0 (write + 1))) (blocks_of (a read))
                  (expand (slice a (read + 1) k)));
          apart = rw (merge_loop-copies h) ih.apart;
        }

    Separated-joined :
        (n : ℕ) → Separated a write → Separated (update a write (extend (a write) n)) write
    Separated-joined n sep i h = ground (arith, sep i)

    Separated-copied :
        (a write).pba + (a write).num_blocks ≢ (a read).pba
        → Separated a write
        → Separated (update a (write + 1) (a read)) (write + 1)
    Separated-copied ne sep i h = ground (arith, sep i)

merge_loop-Merges :
    (rounds read write : ℕ) (a : ℕ → DataRange)
    → write < read
    → InRange (a write)
    → AllInRange (slice a read rounds)
    → (a write).num_blocks + total_blocks (slice a read rounds) < 2 ^ 8
    → Separated a write
    → Merges rounds read write a
unfolding merge_loop
merge_loop-Merges zero read write a lt ok oks small sep = record {
  same = sym (append-nil (expand (slice a 0 (write + 1))));
  apart = sep;
}
merge_loop-Merges (suc k) read write a lt ok oks small sep =
    elim (Bool-cases (((a write).pba + (a write).num_blocks) % 2 ^ 32 == (a read).pba)) [
      | inl joins ↦
          let last = update_self a write (extend (a write) (a read).num_blocks) in
          let tail =
            slice-update_below a write (extend (a write) (a read).num_blocks) (read + 1) k
              (omega arith) in
          let next : (a write).pba + (a write).num_blocks ≡ (a read).pba = ground arith in
          joined-Merges k read write a lt next (omega arith) joins (
            merge_loop-Merges k (read + 1) write _ (omega arith) (rw last (omega arith))
              (rw tail oks.1) (rw (last, tail) (omega arith))
              (Separated-joined k read write a lt (a read).num_blocks sep))
      | inr ends ↦
          let last = update_self a (write + 1) (a read) in
          let tail = slice-update_below a (write + 1) (a read) (read + 1) k (omega arith) in
          let apart : (a write).pba + (a write).num_blocks ≢ (a read).pba = ground arith in
          copied-Merges k read write a lt ends (
            merge_loop-Merges k (read + 1) (write + 1) _ (omega arith) (rw last oks.0)
              (rw tail oks.1) (rw (last, tail) (omega arith))
              (Separated-copied k read write a lt apart sep))
    ]

merge_ranges-suc :
    (a : ℕ → DataRange) (count : ℕ)
    → merge_ranges a (suc count) ≡ ((merge_loop count 1 0 a).0, (merge_loop count 1 0 a).1 + 1)
unfolding merge_ranges
merge_ranges-suc a count = let e : suc count - 1 ≡ count = omega arith in rw e (ground arith)

-- `merge_ranges` on ranges with at most 255 blocks together, none of which runs past the 32-bit
-- addresses, keeps the blocks and their order, and leaves no two neighbours that could be joined.
pub merge_ranges-expand :
    (a : ℕ → DataRange) (count : ℕ)
    → AllInRange (slice a 0 count)
    → total_blocks (slice a 0 count) < 2 ^ 8
    → let (a', n) = merge_ranges a count in
      (expand (slice a' 0 n) ≡ expand (slice a 0 count)) × Separated a' (n - 1)
unfolding merge_ranges
merge_ranges-expand a zero oks small = (refl, λ i h. absurd (omega arith))
merge_ranges-expand a (suc count) oks small =
    let m =
      merge_loop-Merges count 1 0 a (omega arith) oks.0 oks.1 small (λ i h. absurd (omega arith)) in
    let w = (merge_loop count 1 0 a).1 in
    let e : w + 1 - 1 ≡ w = omega arith in
    rw (merge_ranges-suc a count, e)
      (m.same ∙ ap (λ l. l ++ expand (slice a 1 count)) (append-nil (blocks_of (a 0))), m.apart)
