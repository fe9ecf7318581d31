-- ===== src/Logs/Range/Frame.antt =====
-- What the loop of `find_free_range` leaves alone: the mapping of the other logical blocks, and the
-- addresses in the entries.
use timelock_drive.Prelude.{ℕ, zero, suc, ◌+◌, ◌%◌, ◌^◌, ◌<◌, ◌≡◌, ◌≢◌, refl, ap, ◌∙◌, Bool, arith}
use timelock_drive.Constants.{DataRange}
use timelock_drive.Logs.{EpochMap, Logs, take_blocks}
use timelock_drive.Logs.Range.{stops, takes, take_block-Block, popped, popped-id, started-num}
use timelock_drive.Logs.Range.Entry.{Maps, goes_on, returns}

-- The logical block `k` is mapped as before, and every entry has its address.
pub record Frame {E : Type 0} (k : ℕ) (l l' : Logs E) : Type 0 where
  pub mapping : l'.l2pmap k ≡ l.l2pmap k
  pub ids : (q : ℕ) → (l'.store.cell q).physical_block_id ≡ (l.store.cell q).physical_block_id

module _ {E : Type 0} (ops : EpochMap E) (k : ℕ) where
  Maps-Frame :
      (lba front : ℕ) (l l' : Logs E)
      → Maps ops lba front (popped ops l) l'
      → k ≢ lba
      → Frame k l l'
  unfolding popped
  Maps-Frame lba front l l' m ne = record {
    mapping = ap (λ f. f k) m.mapping ∙ ground (arith, ne);
    ids = λ q. m.ids q ∙ popped-id ops l q;
  }

  Frame-trans : (l l' l'' : Logs E) → Frame k l l' → Frame k l' l'' → Frame k l l''
  Frame-trans l l' l'' f g = record {
    mapping = g.mapping ∙ f.mapping;
    ids = λ q. g.ids q ∙ f.ids q;
  }

  pub take_blocks-Frame :
      (fuel now : ℕ) (vm td : Bool) (lba i n : ℕ) (range : DataRange) (l : Logs E)
      → range.num_blocks ≡ i
      → i + n < 2 ^ 8
      → ((j : ℕ) → j < n → k ≢ (lba + (i + j)) % 2 ^ 32)
      → Frame k l (take_blocks ops fuel now vm td lba i n range l).1
  unfolding take_blocks
  take_blocks-Frame fuel now vm td lba i zero range l e few out = record {
    mapping = refl;
    ids = λ q. refl;
  }
  take_blocks-Frame fuel now vm td lba i (suc n) range l e few out =
      let here : k ≢ (lba + i) % 2 ^ 32 =
        λ h. out 0 (omega arith) (h ∙ ap (λ x. (lba + x) % 2 ^ 32) (omega arith)) in
      elim (take_block-Block ops fuel now vm td lba i range l e) [
        | stops o r ↦ rw (take_blocks, r) (record { mapping = refl; ids = λ q. refl })
        | takes (goes_on l' range' r re m) last ne ↦
            let num : range'.num_blocks ≡ i + 1 =
              ap (λ x. x.num_blocks) re ∙ omega (arith, started-num ops i range l, e, few) in
            rw (take_blocks, r)
              (Frame-trans l l' _
                (Maps-Frame ((lba + i) % 2 ^ 32) l.store.freelist.head l l' m here)
                (take_blocks-Frame fuel now vm td lba (i + 1) n range' l' num (omega (arith, few))
                  (λ j h x.
                    out (suc j) (omega (arith, h))
                      (x ∙ ap (λ y. (lba + y) % 2 ^ 32) (omega arith)))))
        | takes (returns l' range' r re m) last ne ↦
            rw (take_blocks, r) (Maps-Frame ((lba + i) % 2 ^ 32) l.store.freelist.head l l' m here)
      ]
