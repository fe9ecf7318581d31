-- ===== src/BlockList/Pop.antt =====
-- Taking entries off the free list: from its head, or from its middle for a metadata block.
use timelock_drive.Prelude.{
  ℕ, zero, suc, ◌≤◌, ◌≡◌, ◌≢◌, ◌⊎◌, inl, inr, refl, sym, ap, subst, ◌∙◌, List, [], ◌∷◌, ◌++◌, arith,
  append_assoc, length, none, some, update, false, ltb, ◌==◌,
}
use timelock_drive.BlockList.{
  BlockEntry, BlockEntryList, link, dec_word, Store, walk, pop_nth_in_freelist,
}
use timelock_drive.BlockList.Segment.{
  Seg, NotIn, Distinct, Apart, last, IsList, Seg-frame, Seg-append, NotIn-left, NotIn-right,
  Seg-relink, NotIn-append,
}
use timelock_drive.BlockList.WellFormed.{Lists, IsWellFormed, IsLoose}

-- The entry before the one reached.
abbrev last_or : ℕ → List ℕ → ℕ
last_or prev [] = prev
last_or prev (x ∷ xs) = last_or x xs

walk_to :
    (cell : ℕ → BlockEntry) (before : List ℕ) (x : ℕ) (after : List ℕ) (prev h q : ℕ)
    → Seg cell h (before ++ x ∷ after) q
    → walk cell (length before) prev h ≡ some (last_or prev before, x)
unfolding walk
walk_to cell [] x after prev h q s = ground arith
walk_to cell (b ∷ before) x after prev h q s =
    let ih = walk_to cell before x after b (cell b).next q s.2 in ground (arith, ih)

walk_past :
    (cell : ℕ → BlockEntry) (xs : List ℕ) (n prev h : ℕ)
    → length xs ≤ n
    → Seg cell h xs 0
    → (walk cell n prev h ≡ none) ⊎ (walk cell n prev h ≡ some (last_or prev xs, 0))
unfolding walk
walk_past cell [] zero prev h le s = inr (ap (λ (k : ℕ). some (prev, k)) s)
walk_past cell [] (suc n) prev h le s = inl (ground arith)
walk_past cell (x ∷ xs) zero prev h le s = absurd (omega arith)
walk_past cell (x ∷ xs) (suc n) prev h le s =
    let ih = walk_past cell xs n x (cell x).next (omega arith) s.2 in ground (arith, ih)

-- `pop_nth_in_freelist` finds nothing and changes nothing if the list has no entry at the index.
pub pop_nth-short :
    (n : ℕ) (s : Store) (ls : Lists)
    → IsWellFormed s ls
    → length ls.free ≤ n
    → pop_nth_in_freelist n s ≡ (0, s)
unfolding pop_nth_in_freelist
pop_nth-short n s ls v short =
    ground (arith, walk_past s.cell ls.free n 0 s.freelist.head short v.free.chain)

pub IsList-frame :
    (cell : ℕ → BlockEntry) (l : BlockEntryList) (p : ℕ) (e : BlockEntry) (xs : List ℕ)
    → NotIn p xs
    → IsList cell l xs
    → IsList (update cell p e) l xs
IsList-frame cell l p e xs out ok = record {
  chain = Seg-frame cell p e l.head xs 0 out ok.chain;
  ends = ok.ends;
}

Seg-split :
    (cell : ℕ → BlockEntry) (h : ℕ) (before : List ℕ) (x : ℕ) (after : List ℕ) (q : ℕ)
    → Seg cell h (before ++ x ∷ after) q
    → Seg cell h before x × (x ≢ 0) × Seg cell (cell x).next after q
Seg-split cell h [] x after q s = (s.0, s.1, s.2)
Seg-split cell h (b ∷ before) x after q s =
    let rest = Seg-split cell (cell b).next before x after q s.2 in
    ((s.0, s.1, rest.0), rest.1, rest.2)

Distinct-split :
    (before : List ℕ) (x : ℕ) (after : List ℕ)
    → Distinct (before ++ x ∷ after)
    → NotIn x before × NotIn x after × Distinct (before ++ after)
Distinct-split [] x after d = (tt, d.0, d.1)
Distinct-split (b ∷ before) x after d =
    let rest = Distinct-split before x after d.1 in
    let apart = NotIn-right b before (x ∷ after) d.0 in
    (
      ((λ e. apart.0 (sym e)), rest.0),
      rest.1,
      (NotIn-append b before after (NotIn-left b before (x ∷ after) d.0) apart.1, rest.2),
    )

Apart-split :
    (before : List ℕ) (x : ℕ) (after ys : List ℕ)
    → Apart (before ++ x ∷ after) ys
    → Apart (before ++ after) ys × NotIn x ys
Apart-split [] x after ys a = (a.1, a.0)
Apart-split (b ∷ before) x after ys a =
    let rest = Apart-split before x after ys a.1 in ((a.0, rest.0), rest.1)

last-append : (zs : List ℕ) (a : ℕ) (rest : List ℕ) → last (zs ++ a ∷ rest) ≡ last (a ∷ rest)
last-append [] a rest = refl
last-append (z ∷ []) a rest = refl
last-append (z ∷ y ∷ zs) a rest = last-append (y ∷ zs) a rest

-- Linking round the entry `x` takes it out of the chain.
Seg-unlink :
    (cell : ℕ → BlockEntry) (h : ℕ) (pre : List ℕ) (b x : ℕ) (after : List ℕ)
    → Distinct ((pre ++ b ∷ []) ++ x ∷ after)
    → Seg cell h ((pre ++ b ∷ []) ++ x ∷ after) 0
    → Seg (link (link cell b (cell x).next) x 0) h ((pre ++ b ∷ []) ++ after) 0
Seg-unlink cell h pre b x after d s =
    let n = (cell x).next in
    let parts = Seg-split cell h (pre ++ b ∷ []) x after 0 s in
    let without = Distinct-split (pre ++ b ∷ []) x after d in
    let of_b =
      Distinct-split pre b after (subst Distinct (append_assoc pre (b ∷ []) after) without.2) in
    Seg-frame (link cell b n) x _ h ((pre ++ b ∷ []) ++ after) 0
      (NotIn-append x (pre ++ b ∷ []) after without.0 without.1)
      (Seg-append (link cell b n) h (pre ++ b ∷ []) n after 0
        (Seg-relink cell h pre b x n of_b.0 parts.0) (Seg-frame cell b _ n after 0 of_b.1 parts.2))

last_or-snoc : (prev : ℕ) (pre : List ℕ) (b : ℕ) → last_or prev (pre ++ b ∷ []) ≡ b
last_or-snoc prev [] b = refl
last_or-snoc prev (x ∷ pre) b = last_or-snoc x pre b

-- The store after the entry at `x`, which follows the one at `b`, has left the free list.
abbrev unlinked : Store → ℕ → ℕ → Store
unlinked s b x = record s {
  cell = link (link s.cell b (s.cell x).next) x 0;
  freelist_size = dec_word s.freelist_size;
}

pop_nth-unlinked :
    (n b x : ℕ) (s : Store)
    → 2 ≤ n
    → x ≢ 0
    → walk s.cell n 0 s.freelist.head ≡ some (b, x)
    → pop_nth_in_freelist n s ≡ (x, unlinked s b x)
unfolding pop_nth_in_freelist
pop_nth-unlinked n b x s two ne e =
    let big : ltb n 2 ≡ false = ground arith in
    let found : (x == 0) ≡ false = ground arith in rw (big, e, pop_nth_in_freelist, found)

module _ (pre : List ℕ) (b x a : ℕ) (rest : List ℕ) (s : Store) (ls : Lists) (v : IsWellFormed s ls)
    (e : ls.free ≡ (pre ++ b ∷ []) ++ x ∷ a ∷ rest) where
  chain_here : Seg s.cell s.freelist.head ((pre ++ b ∷ []) ++ x ∷ a ∷ rest) 0
  chain_here = subst (λ l. Seg s.cell s.freelist.head l 0) e v.free.chain

  -- Neither cell that the removal writes is on another list apart from the free list.
  unlinked-IsList :
      (l : BlockEntryList) (ys : List ℕ)
      → Apart ls.free ys
      → IsList s.cell l ys
      → IsList (unlinked s b x).cell l ys
  unlinked-IsList l ys apart ok =
      let without = Apart-split (pre ++ b ∷ []) x (a ∷ rest) ys (subst (λ l. Apart l ys) e apart) in
      let of_b =
        Apart-split pre b (a ∷ rest) ys
          (subst (λ l. Apart l ys) (append_assoc pre (b ∷ []) (a ∷ rest)) without.0) in
      IsList-frame _ l x _ ys without.1 (IsList-frame s.cell l b _ ys of_b.1 ok)

  unlinked-IsWellFormed :
      IsWellFormed (unlinked s b x) (record ls { free = (pre ++ b ∷ []) ++ a ∷ rest })
  unlinked-IsWellFormed =
      let d = subst Distinct e v.distinct_free in
      let without = Distinct-split (pre ++ b ∷ []) x (a ∷ rest) d in
      record {
        free = record {
          chain = Seg-unlink s.cell s.freelist.head pre b x (a ∷ rest) d chain_here;
          ends =
              v.free.ends
              ∙ ap last e
              ∙ last-append (pre ++ b ∷ []) x (a ∷ rest)
              ∙ sym (last-append (pre ++ b ∷ []) a rest);
        };
        collect = unlinked-IsList s.gc_list ls.collect v.free_collect v.collect;
        expiry = unlinked-IsList s.tobe_freelist ls.expiry v.free_expiry v.expiry;
        distinct_free = without.2;
        distinct_collect = v.distinct_collect;
        distinct_expiry = v.distinct_expiry;
        free_collect =
            (Apart-split (pre ++ b ∷ []) x (a ∷ rest) ls.collect
              (subst (λ l. Apart l ls.collect) e v.free_collect)).0;
        free_expiry =
            (Apart-split (pre ++ b ∷ []) x (a ∷ rest) ls.expiry
              (subst (λ l. Apart l ls.expiry) e v.free_expiry)).0;
        collect_expiry = v.collect_expiry;
      }

  unlinked-IsLoose : IsLoose x (unlinked s b x) (record ls { free = (pre ++ b ∷ []) ++ a ∷ rest })
  unlinked-IsLoose =
      let without =
        Distinct-split (pre ++ b ∷ []) x (a ∷ rest) (subst Distinct e v.distinct_free) in
      record {
        not_null = (Seg-split s.cell s.freelist.head (pre ++ b ∷ []) x (a ∷ rest) 0 chain_here).1;
        unlinked = ground arith;
        not_free = NotIn-append x (pre ++ b ∷ []) (a ∷ rest) without.0 without.1;
        not_collect =
            (Apart-split (pre ++ b ∷ []) x (a ∷ rest) ls.collect
              (subst (λ l. Apart l ls.collect) e v.free_collect)).1;
        not_expiry =
            (Apart-split (pre ++ b ∷ []) x (a ∷ rest) ls.expiry
              (subst (λ l. Apart l ls.expiry) e v.free_expiry)).1;
      }

-- Where the entry at an index of at least 2 has one after it, `pop_nth_in_freelist` returns that
-- entry, which is then on no list and points to nothing; the free list keeps the others in order,
-- and the three lists stay well formed.
pub pop_nth_lem :
    (pre : List ℕ) (b x a : ℕ) (rest : List ℕ) (s : Store) (ls : Lists)
    → IsWellFormed s ls
    → ls.free ≡ (pre ++ b ∷ []) ++ x ∷ a ∷ rest
    → 2 ≤ length (pre ++ b ∷ [])
    → let (p, s') = pop_nth_in_freelist (length (pre ++ b ∷ [])) s in
      let ls' = record ls { free = (pre ++ b ∷ []) ++ a ∷ rest } in
      (p ≡ x) × IsWellFormed s' ls' × IsLoose x s' ls'
pop_nth_lem pre b x a rest s ls v e two =
    let found = chain_here pre b x a rest s ls v e in
    let reached =
      walk_to s.cell (pre ++ b ∷ []) x (a ∷ rest) 0 s.freelist.head 0 found
      ∙ ap (λ (p : ℕ). some (p, x)) (last_or-snoc 0 pre b) in
    let loose = unlinked-IsLoose pre b x a rest s ls v e in
    rw (pop_nth-unlinked (length (pre ++ b ∷ [])) b x s two loose.not_null reached)
      (refl, unlinked-IsWellFormed pre b x a rest s ls v e, loose)
