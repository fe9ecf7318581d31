-- ===== src/BlockList/PopTop.antt =====
-- Taking the entry at the head of the free list.
use timelock_drive.Prelude.{ℕ, ◌≡◌, sym, ap, subst, ◌∙◌, List, ◌∷◌, arith, some, false, ◌==◌}
use timelock_drive.BlockList.{BlockEntryList, link, Store, pop_head, pop_top_of_freelist}
use timelock_drive.BlockList.Segment.{Seg, Apart, Distinct, last, IsList, Seg-frame}
use timelock_drive.BlockList.WellFormed.{Lists, IsWellFormed, IsLoose}
use timelock_drive.BlockList.Pop.{IsList-frame}

module _ (fuel now x y : ℕ) (rest : List ℕ) (s : Store) (ls : Lists) (v : IsWellFormed s ls)
    (e : ls.free ≡ x ∷ y ∷ rest) where
  chain_here : Seg s.cell s.freelist.head (x ∷ y ∷ rest) 0
  chain_here = subst (λ l. Seg s.cell s.freelist.head l 0) e v.free.chain

  pop_head-IsList :
      (l : BlockEntryList) (ys : List ℕ)
      → Apart ls.free ys
      → IsList s.cell l ys
      → IsList (link s.cell s.freelist.head 0) l ys
  pop_head-IsList l ys apart ok =
      let a = subst (λ l. Apart l ys) e apart in
      rw (chain_here.0) (IsList-frame s.cell l x _ ys a.0 ok)

  pop_head-chain : Seg (link s.cell s.freelist.head 0) (s.cell s.freelist.head).next (y ∷ rest) 0
  pop_head-chain =
      subst (λ h. Seg (link s.cell h 0) (s.cell h).next (y ∷ rest) 0) (sym chain_here.0)
        (Seg-frame s.cell x _ (s.cell x).next (y ∷ rest) 0 (subst Distinct e v.distinct_free).0
          chain_here.2)

  pop_top-head : pop_top_of_freelist fuel now s ≡ some (pop_head s)
  unfolding pop_top_of_freelist
  pop_top-head = let found : (s.freelist.head == 0) ≡ false = ground (arith, chain_here) in rw found

  -- With two free entries or more, `pop_top_of_freelist` returns the first, which is then on no
  -- list and points to nothing; the free list keeps the others in order, and the three lists stay
  -- well formed.
  pub pop_top_lem :
      let ls' = record ls { free = y ∷ rest } in
      (p : ℕ) × (s' : Store) × (pop_top_of_freelist fuel now s ≡ some (p, s'))
      × (p ≡ x)
      × IsWellFormed s' ls'
      × IsLoose x s' ls'
  unfolding pop_head
  pop_top_lem =
      let d = subst Distinct e v.distinct_free in
      let fc = subst (λ l. Apart l ls.collect) e v.free_collect in
      let fe = subst (λ l. Apart l ls.expiry) e v.free_expiry in
      (
        (pop_head s).0,
        (pop_head s).1,
        pop_top-head,
        chain_here.0,
        record {
          free = record { chain = pop_head-chain; ends = v.free.ends ∙ ap last e };
          collect = pop_head-IsList s.gc_list ls.collect v.free_collect v.collect;
          expiry = pop_head-IsList s.tobe_freelist ls.expiry v.free_expiry v.expiry;
          distinct_free = d.1;
          distinct_collect = v.distinct_collect;
          distinct_expiry = v.distinct_expiry;
          free_collect = fc.1;
          free_expiry = fe.1;
          collect_expiry = v.collect_expiry;
        },
        record {
          not_null = chain_here.1;
          unlinked = ground (arith, chain_here.0);
          not_free = d.0;
          not_collect = fc.0;
          not_expiry = fe.0;
        },
      )
