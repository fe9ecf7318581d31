-- ===== src/BlockList/StaleTail.antt =====
-- Neither `move_expired_to_free` nor `pop_top_of_freelist` writes the `tail` of the list that it takes
-- an entry off. Where the entry was the last one, the next `enqueue_list` goes through the pointer that
-- is left: two lists grow together.
use timelock_drive.Prelude.{
  ℕ, ◌<◌, length, some, ◌≡◌, ◌≢◌, refl, sym, ap, subst, ◌∙◌, true, List, [], ◌∷◌, ◌++◌, arith,
  append_assoc, ◌==◌, inl, inr, Bool-cases,
}
use timelock_drive.BlockList.{
  BlockEntry, BlockEntryList, link, link_last, push_back, Store, enqueue_list, free_list,
  collect_list, expiry_list, pop_head, move_expired_to_free,
}
use timelock_drive.BlockList.Segment.{
  Seg, NotIn, Distinct, Apart, last, IsList, Seg-append, Seg-relink, Seg-pointers, last-cases,
  NotIn-right, Distinct-last,
}
use timelock_drive.BlockList.Queue.{Seg-push_back, Seg-link_last}
use timelock_drive.BlockList.WellFormed.{Lists, IsWellFormed, IsLoose, Apart-symm}
use timelock_drive.BlockList.Pop.{IsList-frame}
use timelock_drive.BlockList.Expiry.{is_expired, expired_of, Moved, move_expired_to_free_lem}

-- If the `tail` of one list is the last entry of another, what is put on the one is chained on the
-- other.
Seg-stale :
    (cell : ℕ → BlockEntry) (l : BlockEntryList) (h : ℕ) (xs : List ℕ) (p : ℕ)
    → xs ≢ []
    → l.tail ≡ last xs
    → Seg cell h xs 0
    → Distinct xs
    → NotIn p xs
    → p ≢ 0
    → (cell p).next ≡ 0
    → Seg (link_last cell l p) h (xs ++ p ∷ []) 0
Seg-stale cell l h xs p some_on e s d out ne end = elim (last-cases xs) [
  | inl none_on ↦ absurd (some_on none_on)
  | inr (zs, f) ↦
      let s' = subst (λ ys. Seg cell h ys 0) f s in
      let nulls = Seg-pointers cell h zs (last xs) 0 s' in
      let linked : link_last cell l p ≡ link cell (last xs) p = ground (arith, e) in
      let apart = (NotIn-right p zs (last xs ∷ []) (subst (NotIn p) f out)).0 in
      let own : (link cell (last xs) p p).next ≡ 0 = ground arith in
      rw linked (
        Seg-append (link cell (last xs) p) h xs p (p ∷ []) 0
          (subst (λ ys. Seg (link cell (last xs) p) h ys p) (sym f)
            (Seg-relink cell h zs (last xs) 0 p (Distinct-last zs (last xs) (subst Distinct f d))
              s'))
          (refl, ne, own))
]

last-append_ne : (ys xs : List ℕ) → xs ≢ [] → last (ys ++ xs) ≡ last xs
last-append_ne [] xs ne = refl
last-append_ne (y ∷ []) [] ne = absurd (ne refl)
last-append_ne (y ∷ []) (x ∷ xs) ne = refl
last-append_ne (y ∷ z ∷ ys) xs ne = last-append_ne (z ∷ ys) xs ne

last-cons : (x : ℕ) (xs : List ℕ) → xs ≢ [] → last (x ∷ xs) ≡ last xs
last-cons x [] ne = absurd (ne refl)
last-cons x (y ∷ xs) ne = refl

append-ne : (ys xs : List ℕ) → xs ≢ [] → ys ++ xs ≢ []
append-ne [] xs ne e = ne e
append-ne (y ∷ ys) xs ne e = cc

some-eq : {A : Type 0} (a b : A) → some a ≡ some b → a ≡ b
some-eq a b h = cc

-- If the last entry is expired, it is the last of the expired ones.
last-expired_of :
    (now : ℕ) (s : Store) (x : ℕ) (xs : List ℕ)
    → is_expired now s (last (x ∷ xs)) ≡ true
    → (expired_of now s (x ∷ xs) ≢ []) × (last (expired_of now s (x ∷ xs)) ≡ last (x ∷ xs))
last-expired_of now s x [] e = rw e ((λ h. cc), refl)
last-expired_of now s x (y ∷ xs) e =
    let ih = last-expired_of now s y xs e in
    elim (Bool-cases (is_expired now s x)) [
      | inl old ↦ rw old ((λ h. cc), last-cons x (expired_of now s (y ∷ xs)) ih.0 ∙ ih.1)
      | inr locked ↦ rw locked ih
    ]

-- If the lists are well formed and the last of the waiting entries is expired, `move_expired_to_free`
-- leaves them such that the next entry that is put on the waiting list is chained at the end of the
-- free list, after the entries that were moved. That entry is none of those, has no next, and is not
-- NULL; the entries moved are none of the free ones. Fuel above the number of entries that wait is
-- given.
pub stale_tail_frees_locked :
    (fuel now p x : ℕ) (xs : List ℕ) (s s' : Store) (ls : Lists)
    → IsWellFormed s ls
    → ls.expiry ≡ x ∷ xs
    → is_expired now s (last (x ∷ xs)) ≡ true
    → length ls.expiry < fuel
    → move_expired_to_free fuel now s ≡ some s'
    → Distinct (ls.free ++ expired_of now s ls.expiry)
    → NotIn p (ls.free ++ expired_of now s ls.expiry)
    → p ≢ 0
    → (s'.cell p).next ≡ 0
    → let s'' = enqueue_list expiry_list p s' in
      Seg s''.cell s''.freelist.head ((ls.free ++ expired_of now s ls.expiry) ++ p ∷ []) 0
unfolding enqueue_list
stale_tail_frees_locked fuel now p x xs s s' ls v e old enough r d out ne end =
    let (t, r', m') = move_expired_to_free_lem fuel now s ls v enough in
    let same : t ≡ s' = some-eq t s' (sym r' ∙ r) in
    let m = subst (Moved now s [] ls.expiry ls.free ls.collect s.tobe_freelist.tail) same m' in
    let ends : (expired_of now s ls.expiry ≢ [])
        × (last (expired_of now s ls.expiry) ≡ last ls.expiry) =
      rw e (last-expired_of now s x xs old) in
    let tail = last-append_ne ls.free (expired_of now s ls.expiry) ends.0 in
    Seg-stale s'.cell s'.tobe_freelist s'.freelist.head (ls.free ++ expired_of now s ls.expiry) p
      (append-ne ls.free (expired_of now s ls.expiry) ends.0)
      (m.tail ∙ v.expiry.ends ∙ sym ends.1 ∙ sym tail) m.free.chain d out ne end

-- The cells after `x` has been popped and `p` put behind it.
abbrev crossed : (ℕ → BlockEntry) → ℕ → ℕ → ℕ → BlockEntry
crossed cell x p = link (link cell x 0) x p

Seg-crossed :
    (cell : ℕ → BlockEntry) (l : BlockEntryList) (x p : ℕ) (cs : List ℕ)
    → IsList cell l cs
    → Distinct cs
    → NotIn x cs
    → NotIn p cs
    → x ≢ p
    → x ≢ 0
    → p ≢ 0
    → (cell p).next ≡ 0
    → Seg (link_last (crossed cell x p) l x) (push_back l x).head (cs ++ x ∷ p ∷ []) 0
      × Seg (link_last (crossed cell x p) l x) p (p ∷ []) 0
Seg-crossed cell l x p cs ok d xo po xp xn pn end =
    let ok' : IsList (crossed cell x p) l cs =
      IsList-frame (link cell x 0) l x _ cs xo (IsList-frame cell l x _ cs xo ok) in
    let own : (crossed cell x p p).next ≡ 0 = ground arith in
    let to_p : (crossed cell x p x).next ≡ p = ground arith in
    let pushed = Seg-push_back (crossed cell x p) l x cs ok' d xo xn in
    let alone =
      Seg-link_last (crossed cell x p) l x cs p (p ∷ []) 0 ok' (Apart-symm (p ∷ []) cs (po, tt))
        (refl, pn, own) in
    (
      subst (λ ys. Seg (link_last (crossed cell x p) l x) (push_back l x).head ys 0)
          (append_assoc cs (x ∷ []) (p ∷ []))
          (Seg-append (link_last (crossed cell x p) l x) (push_back l x).head (cs ++ x ∷ []) p
            (p ∷ []) 0
            (subst (Seg (link_last (crossed cell x p) l x) (push_back l x).head (cs ++ x ∷ [])) to_p
              pushed.0)
            alone),
      alone,
    )

-- Whenever `pop_top_of_freelist` takes the last free entry `x` and another entry `p` becomes free,
-- putting `x` on the list of blocks to collect chains `p` there too: it is on both lists.
pub stale_tail_shares_free :
    (x p : ℕ) (s : Store) (ls : Lists)
    → IsWellFormed s ls
    → ls.free ≡ x ∷ []
    → IsLoose p s ls
    → x ≢ 0
    → let s1 = (pop_head s).1 in
      let s2 = enqueue_list free_list p s1 in
      let s3 = enqueue_list collect_list x s2 in
      Seg s3.cell s3.gc_list.head (ls.collect ++ x ∷ p ∷ []) 0
      × Seg s3.cell s3.freelist.head (p ∷ []) 0
unfolding enqueue_list pop_head
stale_tail_shares_free x p s ls v e w ne =
    let c = subst (λ l. Seg s.cell s.freelist.head l 0) e v.free.chain in
    let here : s.freelist.head ≡ x = c.0 in
    let tail : s.freelist.tail ≡ x = v.free.ends ∙ ap last e in
    let only : (s.cell s.freelist.head).next ≡ 0 = rw here c.2 in
    let cells : link_last (link s.cell s.freelist.head 0)
          (record { head = (s.cell s.freelist.head).next; tail = s.freelist.tail }) p
        ≡ crossed s.cell x p =
      ground (arith, here, tail) in
    let shared =
      Seg-crossed s.cell s.gc_list x p ls.collect v.collect v.distinct_collect
        (subst (λ l. Apart l ls.collect) e v.free_collect).0 w.not_collect
        (λ f. (subst (NotIn p) e w.not_free).0 f) ne w.not_null w.unlinked in
    let first : ((s.cell s.freelist.head).next == 0) ≡ true = ground (arith, only) in
    rw (cells, first) shared
