-- ===== src/Write/Stored.antt =====
-- A disk that stores the blocks of a request in the ranges' blocks, in order.
use timelock_drive.Prelude.{
  ℕ, zero, suc, ◌+◌, ◌<◌, ◌≤◌, ◌≡◌, ◌⊎◌, inl, inr, refl, ap, ◌∙◌, some, List, [], ◌∷◌, get_elem?,
  length, update, arith,
}
use timelock_drive.Ranges.Blocks.{count_up}

module _ {B : Type 0} where
  -- The blocks `xs` go to the addresses `ps`.
  abbrev pub put : List ℕ → List B → (ℕ → B) → ℕ → B
  put [] xs disk = disk
  put (p ∷ ps) [] disk = disk
  put (p ∷ ps) (x ∷ xs) disk = put ps xs (update disk p x)

  put-below :
      (p n : ℕ) (xs : List B) (disk : ℕ → B) (q : ℕ) → q < p → put (count_up p n) xs disk q ≡ disk q
  put-below p zero xs disk q lt = refl
  put-below p (suc n) [] disk q lt = refl
  put-below p (suc n) (x ∷ xs) disk q lt =
      put-below (p + 1) n xs (update disk p x) q (omega arith) ∙ ground arith

  -- Block `j` is found at the `j`-th of consecutive addresses.
  pub put-count_up :
      (p : ℕ) (xs : List B) (disk : ℕ → B) (j : ℕ) (x : B)
      → get_elem? xs j ≡ some x
      → put (count_up p (length xs)) xs disk (p + j) ≡ x
  put-count_up p [] disk j x h = absurd cc
  put-count_up p (y ∷ xs) disk zero x h =
      let e : p + 0 ≡ p = omega arith in
      ap (put (count_up (p + 1) (length xs)) xs (update disk p y)) e
      ∙ put-below (p + 1) (length xs) xs (update disk p y) p (omega arith)
      ∙ here h
    where
      here : some y ≡ some x → update disk p y p ≡ x
      here e = ground (arith, e)
  put-count_up p (y ∷ xs) disk (suc j) x h =
      let e : p + suc j ≡ p + 1 + j = omega arith in
      ap (put (count_up (p + 1) (length xs)) xs (update disk p y)) e
      ∙ put-count_up (p + 1) xs (update disk p y) j x h

  put-above :
      (p n : ℕ) (xs : List B) (disk : ℕ → B) (q : ℕ)
      → p + n ≤ q
      → put (count_up p n) xs disk q ≡ disk q
  put-above p zero xs disk q le = refl
  put-above p (suc n) [] disk q le = refl
  put-above p (suc n) (x ∷ xs) disk q le =
      put-above (p + 1) n xs (update disk p x) q (omega (arith, le)) ∙ ground (arith, le)

  pub put-outside :
      (p n : ℕ) (xs : List B) (disk : ℕ → B) (q : ℕ)
      → (q < p) ⊎ (p + n ≤ q)
      → put (count_up p n) xs disk q ≡ disk q
  put-outside p n xs disk q (inl lt) = put-below p n xs disk q lt
  put-outside p n xs disk q (inr le) = put-above p n xs disk q le
