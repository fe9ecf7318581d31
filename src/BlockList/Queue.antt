-- ===== src/BlockList/Queue.antt =====
-- A well-formed list is a queue: what `enqueue_list` and the two `pop` functions do to it, and
-- that they leave the other lists alone.
use timelock_drive.Prelude.{ℕ, ◌≡◌, ◌≢◌, refl, ap, subst, ◌∙◌, inl, inr, List, [], ◌∷◌, ◌++◌, arith}
use timelock_drive.BlockList.{BlockEntry, BlockEntryList, link, link_last, push_back}
use timelock_drive.BlockList.Segment.{
  Seg, NotIn, Distinct, Apart, last, IsList, Seg-frame, Seg-append, last-cases, Seg-relink,
  Seg-pointers, NotIn-right, Distinct-last, Apart-last,
}

module _ (cell : ℕ → BlockEntry) (l : BlockEntryList) (p : ℕ) where
  -- `enqueue_list` reaches the chain of `xs`, and from there the entry and what it points to.
  abbrev Pushed : List ℕ → Type 0
  Pushed xs =
      Seg (link_last cell l p) (push_back l p).head (xs ++ p ∷ []) (cell p).next
      × ((link_last cell l p p).next ≡ (cell p).next)

  push_back_empty : l.head ≡ 0 → l.tail ≡ 0 → p ≢ 0 → Pushed []
  push_back_empty h t ne =
      let whole : link_last cell l p ≡ cell = ground arith in
      let first : (push_back l p).head ≡ p = ground arith in
      rw (whole, first) ((refl, ne, refl), refl)

  push_back_last :
      (zs : List ℕ) (t : ℕ)
      → l.tail ≡ t
      → Seg cell l.head (zs ++ t ∷ []) 0
      → NotIn t zs
      → NotIn p (zs ++ t ∷ [])
      → p ≢ 0
      → Pushed (zs ++ t ∷ [])
  push_back_last zs t e s once out ne =
      let nulls = Seg-pointers cell l.head zs t 0 s in
      let linked : link_last cell l p ≡ link cell t p = ground arith in
      let head : (push_back l p).head ≡ l.head = ground arith in
      let apart = (NotIn-right p zs (t ∷ []) out).0 in
      let own : link cell t p p ≡ cell p = ground arith in
      rw (linked, head)
        (
          Seg-append (link cell t p) l.head (zs ++ t ∷ []) p (p ∷ []) (cell p).next
              (Seg-relink cell l.head zs t 0 p once s)
              (refl, ne, ap (λ (v : BlockEntry). v.next) own),
          ap (λ (v : BlockEntry). v.next) own,
        )

  -- Whatever the new entry points to, the chain of the list comes to run through it.
  pub Seg-push_back :
      (xs : List ℕ) → IsList cell l xs → Distinct xs → NotIn p xs → p ≢ 0 → Pushed xs
  Seg-push_back xs ok d out ne = elim (last-cases xs) [
    | inl none_on ↦ rw none_on (
        push_back_empty (subst (λ ys. Seg cell l.head ys 0) none_on ok.chain)
          (ok.ends ∙ ap last none_on) ne)
    | inr (zs, e) ↦ rw e (
        push_back_last zs (last xs) ok.ends (subst (λ ys. Seg cell l.head ys 0) e ok.chain)
          (Distinct-last zs (last xs) (subst Distinct e d)) (subst (NotIn p) e out) ne)
  ]

  -- Another chain, with no cell of the list on it, stays as it is.
  pub Seg-link_last :
      (xs : List ℕ) (h : ℕ) (ys : List ℕ) (q : ℕ)
      → IsList cell l xs
      → Apart xs ys
      → Seg cell h ys q
      → Seg (link_last cell l p) h ys q
  Seg-link_last xs h ys q ok apart s = elim (last-cases xs) [
    | inl none_on ↦
        let e : l.tail ≡ 0 = ok.ends ∙ ap last none_on in
        let whole : link_last cell l p ≡ cell = ground arith in rw whole s
    | inr (zs, e) ↦
        let out = Apart-last zs (last xs) ys (subst (λ l. Apart l ys) e apart) in
        let ne =
          (Seg-pointers cell l.head zs (last xs) 0
            (subst (λ ys. Seg cell l.head ys 0) e ok.chain)).1 in
        let linked : link_last cell l p ≡ link cell (last xs) p = ground (arith, ok.ends) in
        rw linked (Seg-frame cell (last xs) _ h ys q out s)
  ]
