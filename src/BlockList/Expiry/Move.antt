-- ===== src/BlockList/Expiry/Move.antt =====
-- The loop of `move_expired_to_free`: its invariant, and one expired entry.
use mathlib.Core.Path.{subst₂}
use timelock_drive.Prelude.{
  ℕ, ◌≡◌, ◌≢◌, refl, sym, subst, inl, inr, List, [], ◌∷◌, ◌++◌, arith, ◌==◌, true, false,
  if◌then◌else◌,
}
use timelock_drive.BlockList.{
  BlockEntry, BlockEntryList, link, link_last, push_back, Store, move_entry,
}
use timelock_drive.BlockList.Segment.{
  Seg, NotIn, Distinct, Apart, last, IsList, Seg-frame, Seg-append, last-cases, last-snoc,
  Seg-relink, Distinct-last, Distinct-snoc, Apart-last, Apart-snoc, NotIn-right,
}
use timelock_drive.BlockList.Queue.{Seg-push_back, Seg-link_last}
use timelock_drive.BlockList.WellFormed.{Apart-symm, Apart-grow}

pub Apart-uncons :
    (zs : List ℕ) (x : ℕ) (xs : List ℕ) → Apart zs (x ∷ xs) → NotIn x zs × Apart zs xs
Apart-uncons [] x xs a = (tt, tt)
Apart-uncons (z ∷ zs) x xs a =
    let rest = Apart-uncons zs x xs a.1 in (((λ e. a.0.0 (sym e)), rest.0), (a.0.1, rest.1))

-- The loop stands at `p`, with the entries `kept` behind it and `xs` before it; `ys` is on the free
-- list and `cs` on the list of blocks to collect.
pub record MoveInv (s : Store) (p prev : ℕ) (kept xs ys cs : List ℕ) : Type 0 where
  pub behind : Seg s.cell s.tobe_freelist.head kept p
  pub before : Seg s.cell p xs 0
  pub prev_last : prev ≡ last kept
  pub free : IsList s.cell s.freelist ys
  pub collect : IsList s.cell s.gc_list cs
  pub distinct_kept : Distinct kept
  pub distinct_xs : Distinct xs
  pub distinct_ys : Distinct ys
  pub kept_xs : Apart kept xs
  pub ys_kept : Apart ys kept
  pub ys_xs : Apart ys xs
  pub ys_cs : Apart ys cs
  pub kept_cs : Apart kept cs
  pub xs_cs : Apart xs cs

-- The store with which the loop goes on after an expired entry.
abbrev pub moved : ℕ → ℕ → Store → Store
moved p prev s = record (move_entry p prev s) { cell = link (move_entry p prev s).cell p 0 }

-- The pointers after `prev` (or the head) has been set to what follows the entry.
abbrev skip_cell : ℕ → ℕ → Store → ℕ → BlockEntry
skip_cell p prev s = if p == s.tobe_freelist.head then s.cell else link s.cell prev (s.cell p).next

abbrev skip_head : ℕ → Store → ℕ
skip_head p s = if p == s.tobe_freelist.head then (s.cell p).next else s.tobe_freelist.head

module _ (p prev : ℕ) (s : Store) where
  moved-cell : (moved p prev s).cell ≡ link (link_last (skip_cell p prev s) s.freelist p) p 0
  unfolding move_entry
  moved-cell = ground arith

  moved-freelist : (moved p prev s).freelist ≡ push_back s.freelist p
  unfolding move_entry
  moved-freelist = ground arith

  moved-gc_list : (moved p prev s).gc_list ≡ s.gc_list
  unfolding move_entry
  moved-gc_list = ground arith

  moved-head : (moved p prev s).tobe_freelist.head ≡ skip_head p s
  unfolding move_entry
  moved-head = ground arith

  pub moved-tail : (moved p prev s).tobe_freelist.tail ≡ s.tobe_freelist.tail
  unfolding move_entry
  moved-tail = ground arith

module _ (p prev : ℕ) (s : Store) (kept : List ℕ) (behind : Seg s.cell s.tobe_freelist.head kept p)
    (is_last : prev ≡ last kept) (distinct : Distinct kept) (out : NotIn p kept) where
  at_head : kept ≡ [] → (p == s.tobe_freelist.head) ≡ true
  at_head none_kept =
      let e = subst (λ l. Seg s.cell s.tobe_freelist.head l p) none_kept behind in ground arith

  not_at_head : (zs : List ℕ) → kept ≡ zs ++ last kept ∷ [] → (p == s.tobe_freelist.head) ≡ false
  not_at_head [] e =
      let b = subst (λ l. Seg s.cell s.tobe_freelist.head l p) e behind in
      let o = subst (NotIn p) e out in ground arith
  not_at_head (z ∷ zs) e =
      let b = subst (λ l. Seg s.cell s.tobe_freelist.head l p) e behind in
      let o = subst (NotIn p) e out in ground arith

  -- The entries behind now lead past the expired one.
  skip-kept : Seg (skip_cell p prev s) (skip_head p s) kept (s.cell p).next
  skip-kept = elim (last-cases kept) [
    | inl none_kept ↦ rw (at_head none_kept, none_kept) refl
    | inr (zs, e) ↦
        rw (not_at_head zs e, is_last)
          (subst
            (λ l.
              Seg (link s.cell (last kept) (s.cell p).next) s.tobe_freelist.head l (s.cell p).next)
            (sym e)
            (Seg-relink s.cell s.tobe_freelist.head zs (last kept) p (s.cell p).next
              (Distinct-last zs (last kept) (subst Distinct e distinct))
              (subst (λ l. Seg s.cell s.tobe_freelist.head l p) e behind)))
  ]

  -- A chain that has no kept entry on it stays as it is.
  skip-frame :
      (h : ℕ) (zs : List ℕ) (q : ℕ)
      → Apart kept zs
      → Seg s.cell h zs q
      → Seg (skip_cell p prev s) h zs q
  skip-frame h zs q apart chain = elim (last-cases kept) [
    | inl none_kept ↦ rw (at_head none_kept) chain
    | inr (ks, e) ↦
        rw (not_at_head ks e, is_last)
          (Seg-frame s.cell (last kept) _ h zs q
            (Apart-last ks (last kept) zs (subst (λ l. Apart l zs) e apart)) chain)
  ]

  skip_self : p ≢ 0 → skip_cell p prev s p ≡ s.cell p
  skip_self ne = elim (last-cases kept) [
    | inl none_kept ↦ rw (at_head none_kept) refl
    | inr (ks, e) ↦
        let o = (NotIn-right p ks (last kept ∷ []) (subst (NotIn p) e out)).0 in
        rw (not_at_head ks e, is_last) (ground arith)
  ]

  skip-IsList :
      (l : BlockEntryList) (zs : List ℕ)
      → Apart kept zs
      → IsList s.cell l zs
      → IsList (skip_cell p prev s) l zs
  skip-IsList l zs apart ok = record {
    chain = skip-frame l.head zs 0 apart ok.chain;
    ends = ok.ends;
  }

-- The loop's invariant after one expired entry `x`.
module _ (s : Store) (x prev : ℕ) (kept xs ys cs : List ℕ)
    (v : MoveInv s x prev kept (x ∷ xs) ys cs) where
  x_kept : NotIn x kept
  x_kept = (Apart-uncons kept x xs v.kept_xs).0

  x_ys : NotIn x ys
  x_ys = (Apart-uncons ys x xs v.ys_xs).0

  skipped : ℕ → BlockEntry
  skipped = skip_cell x prev s

  final : ℕ → BlockEntry
  final = link (link_last skipped s.freelist x) x 0

  free_skipped : IsList skipped s.freelist ys
  unfolding skipped
  free_skipped =
      skip-IsList x prev s kept v.behind v.prev_last v.distinct_kept x_kept s.freelist ys
        (Apart-symm ys kept v.ys_kept) v.free

  -- A chain through none of the cells that are written stays as it is.
  final-frame :
      (h : ℕ) (zs : List ℕ) (q : ℕ)
      → Apart ys zs
      → NotIn x zs
      → Seg skipped h zs q
      → Seg final h zs q
  unfolding final
  final-frame h zs q apart out chain =
      Seg-frame _ x _ h zs q out
        (Seg-link_last skipped s.freelist x ys h zs q free_skipped apart chain)

  final-kept : Seg final (skip_head x s) kept (s.cell x).next
  unfolding skipped
  final-kept =
      final-frame (skip_head x s) kept (s.cell x).next v.ys_kept x_kept
        (skip-kept x prev s kept v.behind v.prev_last v.distinct_kept x_kept)

  final-before : Seg final (s.cell x).next xs 0
  unfolding skipped
  final-before = final-frame (s.cell x).next xs 0 (Apart-uncons ys x xs v.ys_xs).1 v.distinct_xs.0 (
      skip-frame x prev s kept v.behind v.prev_last v.distinct_kept x_kept (s.cell x).next xs 0
        (Apart-uncons kept x xs v.kept_xs).1 v.before.2)

  final-free : IsList final (push_back s.freelist x) (ys ++ x ∷ [])
  unfolding final
  final-free = record {
    chain =
        Seg-relink (link_last skipped s.freelist x) (push_back s.freelist x).head ys x
          (skipped x).next 0 x_ys
          (Seg-push_back skipped s.freelist x ys free_skipped v.distinct_ys x_ys v.before.1).0;
    ends = sym (last-snoc ys x);
  }

  final-collect : IsList final s.gc_list cs
  unfolding skipped
  final-collect =
      let skip =
        skip-IsList x prev s kept v.behind v.prev_last v.distinct_kept x_kept s.gc_list cs v.kept_cs
          v.collect in
      record {
        chain = final-frame s.gc_list.head cs 0 v.ys_cs v.xs_cs.0 skip.chain;
        ends = skip.ends;
      }

  pub MoveInv-moved :
      (p : ℕ) → p ≡ (s.cell x).next → MoveInv (moved x prev s) p prev kept xs (ys ++ x ∷ []) cs
  unfolding final skipped
  MoveInv-moved p e = record {
    behind =
        subst₂ (λ c h. Seg c h kept p) (sym (moved-cell x prev s)) (sym (moved-head x prev s))
          (subst (Seg final (skip_head x s) kept) (sym e) final-kept);
    before = subst₂ (λ c h. Seg c h xs 0) (sym (moved-cell x prev s)) (sym e) final-before;
    prev_last = v.prev_last;
    free =
        subst₂ (λ c l. IsList c l (ys ++ x ∷ [])) (sym (moved-cell x prev s))
          (sym (moved-freelist x prev s)) final-free;
    collect =
        subst₂ (λ c l. IsList c l cs) (sym (moved-cell x prev s)) (sym (moved-gc_list x prev s))
          final-collect;
    distinct_kept = v.distinct_kept;
    distinct_xs = v.distinct_xs.1;
    distinct_ys = Distinct-snoc ys x x_ys v.distinct_ys;
    kept_xs = (Apart-uncons kept x xs v.kept_xs).1;
    ys_kept = Apart-snoc ys x kept v.ys_kept x_kept;
    ys_xs = Apart-snoc ys x xs (Apart-uncons ys x xs v.ys_xs).1 v.distinct_xs.0;
    ys_cs = Apart-snoc ys x cs v.ys_cs v.xs_cs.0;
    kept_cs = v.kept_cs;
    xs_cs = v.xs_cs.1;
  }

  -- The loop goes on with what followed the entry.
  pub next-move_entry : ((move_entry x prev s).cell x).next ≡ (s.cell x).next
  unfolding move_entry skipped
  next-move_entry =
      let pushed =
        Seg-push_back skipped s.freelist x ys free_skipped v.distinct_ys x_ys v.before.1 in
      ground (arith, pushed.1, skip_self x prev s kept v.behind v.prev_last v.distinct_kept x_kept)

-- Only `next` fields are written.
pub keep_duration-moved :
    (p prev : ℕ) (s : Store) (q : ℕ)
    → ((moved p prev s).cell q).keep_duration ≡ (s.cell q).keep_duration
unfolding move_entry
keep_duration-moved p prev s q = ground arith

-- An entry that stays becomes the one behind the loop.
pub MoveInv-kept :
    (s : Store) (x prev : ℕ) (kept xs ys cs : List ℕ)
    → MoveInv s x prev kept (x ∷ xs) ys cs
    → MoveInv s (s.cell x).next x (kept ++ x ∷ []) xs ys cs
MoveInv-kept s x prev kept xs ys cs v =
    let of_kept = Apart-uncons kept x xs v.kept_xs in
    let of_ys = Apart-uncons ys x xs v.ys_xs in
    record {
      behind =
          Seg-append s.cell s.tobe_freelist.head kept x (x ∷ []) (s.cell x).next v.behind
            (refl, v.before.1, refl);
      before = v.before.2;
      prev_last = sym (last-snoc kept x);
      free = v.free;
      collect = v.collect;
      distinct_kept = Distinct-snoc kept x of_kept.0 v.distinct_kept;
      distinct_xs = v.distinct_xs.1;
      distinct_ys = v.distinct_ys;
      kept_xs = Apart-snoc kept x xs of_kept.1 v.distinct_xs.0;
      ys_kept = Apart-grow ys kept x v.ys_kept of_ys.0;
      ys_xs = of_ys.1;
      ys_cs = v.ys_cs;
      kept_cs = Apart-snoc kept x cs v.kept_cs v.xs_cs.0;
      xs_cs = v.xs_cs.1;
    }
