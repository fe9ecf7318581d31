-- ===== src/BlockList/Expiry.antt =====
-- `move_expired_to_free`: exactly the entries whose timelock has run out go to the free list.
mod Move
use timelock_drive.Prelude.{
  ℕ, zero, suc, ◌<◌, ◌≡◌, ◌≢◌, refl, sym, ap, subst, ◌∙◌, Bool, true, false, List, [], ◌∷◌, ◌++◌,
  length, arith, Option, some, ltb, ◌==◌, if◌then◌else◌, append_assoc, append-nil, Bool-cases, inl,
  inr,
}
use timelock_drive.BlockList.{
  BlockEntry, link, Store, move_entry, move_expired, move_expired_to_free,
}
use timelock_drive.BlockList.Segment.{Seg, last, IsList}
use timelock_drive.BlockList.WellFormed.{Lists, IsWellFormed, Apart-symm, Apart-nil}
use Move.{
  MoveInv, moved, MoveInv-moved, MoveInv-kept, next-move_entry, keep_duration-moved, moved-tail,
}

-- The timelock of the entry at `p` has run out.
abbrev pub is_expired : ℕ → Store → ℕ → Bool
is_expired now s p = ltb (s.cell p).keep_duration now

abbrev pub expired_of : ℕ → Store → List ℕ → List ℕ
expired_of now s [] = []
expired_of now s (x ∷ xs) =
    if is_expired now s x then x ∷ expired_of now s xs else expired_of now s xs

abbrev pub locked_of : ℕ → Store → List ℕ → List ℕ
locked_of now s [] = []
locked_of now s (x ∷ xs) = if is_expired now s x then locked_of now s xs else x ∷ locked_of now s xs

-- What `move_expired_to_free` leaves: the expired entries appended to the free list in order, the
-- others still chained in order, and the list's `tail` as it was.
pub record Moved (now : ℕ) (s0 : Store) (kept xs ys cs : List ℕ) (t : ℕ) (s : Store) : Type 0 where
  pub locked : Seg s.cell s.tobe_freelist.head (kept ++ locked_of now s0 xs) 0
  pub free : IsList s.cell s.freelist (ys ++ expired_of now s0 xs)
  pub collect : IsList s.cell s.gc_list cs
  pub tail : s.tobe_freelist.tail ≡ t

module _ (now fuel p prev : ℕ) (s : Store) where
  step_end : p ≡ 0 → move_expired (suc fuel) now p prev s ≡ some s
  unfolding move_expired
  step_end e = let null : (p == 0) ≡ true = ground arith in rw null

  step_expired :
      p ≢ 0
      → is_expired now s p ≡ true
      → ((move_entry p prev s).cell p).next ≡ (s.cell p).next
      → move_expired (suc fuel) now p prev s
        ≡ move_expired fuel now (s.cell p).next prev (moved p prev s)
  unfolding move_expired
  step_expired ne old after = let there : (p == 0) ≡ false = ground arith in rw (there, old, after)

  step_kept :
      p ≢ 0
      → is_expired now s p ≡ false
      → move_expired (suc fuel) now p prev s ≡ move_expired fuel now (s.cell p).next p s
  unfolding move_expired
  step_kept ne locked = let there : (p == 0) ≡ false = ground arith in rw (there, locked)

module _ (now : ℕ) (s0 : Store) (cs : List ℕ) (t : ℕ) where
  -- The loop from a state ends, and in a state like that.
  abbrev Ends : ℕ → ℕ → ℕ → Store → List ℕ → List ℕ → List ℕ → Type 0
  Ends fuel p prev s kept xs ys =
      (s' : Store) × (move_expired fuel now p prev s ≡ some s') × Moved now s0 kept xs ys cs t s'

  Ends-moved :
      (fuel x prev : ℕ) (s : Store) (kept xs ys : List ℕ)
      → MoveInv s x prev kept (x ∷ xs) ys cs
      → is_expired now s x ≡ true
      → is_expired now s0 x ≡ true
      → Ends fuel (s.cell x).next prev (moved x prev s) kept xs (ys ++ x ∷ [])
      → Ends (suc fuel) x prev s kept (x ∷ xs) ys
  Ends-moved fuel x prev s kept xs ys v old old0 (s', e, m) = (
    s',
    step_expired now fuel x prev s v.before.1 old (next-move_entry s x prev kept xs ys cs v) ∙ e,
    record {
      locked = rw old0 m.locked;
      free = rw old0 (
          subst (IsList s'.cell s'.freelist) (append_assoc ys (x ∷ []) (expired_of now s0 xs))
            m.free);
      collect = m.collect;
      tail = m.tail;
    },
  )

  Ends-kept :
      (fuel x prev : ℕ) (s : Store) (kept xs ys : List ℕ)
      → MoveInv s x prev kept (x ∷ xs) ys cs
      → is_expired now s x ≡ false
      → is_expired now s0 x ≡ false
      → Ends fuel (s.cell x).next x s (kept ++ x ∷ []) xs ys
      → Ends (suc fuel) x prev s kept (x ∷ xs) ys
  Ends-kept fuel x prev s kept xs ys v old old0 (s', e, m) = (
    s',
    step_kept now fuel x prev s v.before.1 old ∙ e,
    record {
      locked = rw old0 (
          subst (λ l. Seg s'.cell s'.tobe_freelist.head l 0)
            (append_assoc kept (x ∷ []) (locked_of now s0 xs)) m.locked);
      free = rw old0 m.free;
      collect = m.collect;
      tail = m.tail;
    },
  )

  move_expired-Ends :
      (xs : List ℕ) (fuel p prev : ℕ) (s : Store) (kept ys : List ℕ)
      → MoveInv s p prev kept xs ys cs
      → ((q : ℕ) → (s.cell q).keep_duration ≡ (s0.cell q).keep_duration)
      → s.tobe_freelist.tail ≡ t
      → length xs < fuel
      → Ends fuel p prev s kept xs ys
  move_expired-Ends xs zero p prev s kept ys v same te enough = absurd (omega arith)
  move_expired-Ends [] (suc fuel) p prev s kept ys v same te enough = (
    s,
    step_end now fuel p prev s v.before,
    record {
      locked =
          subst (λ l. Seg s.cell s.tobe_freelist.head l 0) (sym (append-nil kept))
            (subst (Seg s.cell s.tobe_freelist.head kept) v.before v.behind);
      free = subst (IsList s.cell s.freelist) (sym (append-nil ys)) v.free;
      collect = v.collect;
      tail = te;
    },
  )
  move_expired-Ends (x ∷ xs) (suc fuel) p prev s kept ys v same te enough =
      let here = v.before.0 in
      let w = subst (λ q. MoveInv s q prev kept (x ∷ xs) ys cs) here v in
      let same_test = ap (λ (k : ℕ). ltb k now) (same x) in
      subst (λ q. Ends (suc fuel) q prev s kept (x ∷ xs) ys) (sym here)
        (elim (Bool-cases (is_expired now s x)) [
          | inl old ↦ Ends-moved fuel x prev s kept xs ys w old (sym same_test ∙ old) (
              move_expired-Ends xs fuel (s.cell x).next prev (moved x prev s) kept (ys ++ x ∷ [])
                (MoveInv-moved s x prev kept xs ys cs w (s.cell x).next refl)
                (λ q. keep_duration-moved x prev s q ∙ same q) (moved-tail x prev s ∙ te)
                (omega arith))
          | inr locked ↦ Ends-kept fuel x prev s kept xs ys w locked (sym same_test ∙ locked) (
              move_expired-Ends xs fuel (s.cell x).next x s (kept ++ x ∷ []) ys
                (MoveInv-kept s x prev kept xs ys cs w) same te (omega arith))
        ])

-- On well-formed lists `move_expired_to_free` ends, for every fuel above the number of entries that
-- wait: the entries whose `keep_duration` is below the current time are appended to the free list,
-- in order; the others, and only those, are still chained from the waiting list's head, in order;
-- and the list of blocks to collect is as before. The waiting list's `tail` is not written.
pub move_expired_to_free_lem :
    (fuel now : ℕ) (s : Store) (ls : Lists)
    → IsWellFormed s ls
    → length ls.expiry < fuel
    → (s' : Store) × (move_expired_to_free fuel now s ≡ some s')
      × Moved now s [] ls.expiry ls.free ls.collect s.tobe_freelist.tail s'
unfolding move_expired_to_free
move_expired_to_free_lem fuel now s ls v enough =
    move_expired-Ends now s ls.collect s.tobe_freelist.tail ls.expiry fuel s.tobe_freelist.head 0 s
      [] ls.free
      (record {
        behind = refl;
        before = v.expiry.chain;
        prev_last = refl;
        free = v.free;
        collect = v.collect;
        distinct_kept = tt;
        distinct_xs = v.distinct_expiry;
        distinct_ys = v.distinct_free;
        kept_xs = tt;
        ys_kept = Apart-nil ls.free;
        ys_xs = v.free_expiry;
        ys_cs = v.free_collect;
        kept_cs = tt;
        xs_cs = Apart-symm ls.collect ls.expiry v.collect_expiry;
      })
      (λ q. refl) refl enough
