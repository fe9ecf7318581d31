-- ===== src/Write/Interleave.antt =====
-- Data in order with other blocks put between.
use timelock_drive.Prelude.{
  ℕ, zero, suc, ◌+◌, ◌-◌, ◌≤◌, ◌<◌, ◌≡◌, ◌≢◌, refl, sym, ap, ◌∙◌, List, [], ◌∷◌, ◌++◌, take, drop,
  length, take-all, length-drop, map, arith, append-nil,
}
use timelock_drive.Gatekeeper.{Payload, data_block}
use timelock_drive.Write.{copy}

-- The data from block `i` on, each block after what goes before it.
abbrev pub interleave : {A : Type 0} → (ℕ → List (Payload A)) → List A → ℕ → List (Payload A)
interleave at [] i = at i
interleave at (x ∷ xs) i = at i ++ data_block x ∷ interleave at xs (i + 1)

drop_nil : {A : Type 0} → (n : ℕ) → ◌≡◌ {A = List A} (drop n []) []
drop_nil zero = refl
drop_nil (suc n) = refl

drop-drop : {A : Type 0} → (k n : ℕ) (xs : List A) → drop n (drop k xs) ≡ drop (k + n) xs
drop-drop zero n xs = ap (λ i. drop i xs) (omega arith)
drop-drop (suc k) n [] = drop_nil n ∙ sym (drop_nil (suc k + n))
drop-drop (suc k) n (x ∷ xs) =
    let e : suc k + n ≡ suc (k + n) = omega arith in rw e (drop-drop k n xs)

module _ {A : Type 0} (at : ℕ → List (Payload A)) where
  -- `interleave` without what goes before the first block.
  unfoldable after : List A → ℕ → List (Payload A)
  after [] i = []
  after (x ∷ xs) i = data_block x ∷ interleave at xs (i + 1)

  interleave-after : (xs : List A) (i : ℕ) → interleave at xs i ≡ at i ++ after xs i
  unfolding after
  interleave-after [] i = sym (append-nil (at i))
  interleave-after (x ∷ xs) i = refl

  -- Nothing is carried at the `n` places from `i` on.
  abbrev Bare : ℕ → ℕ → Type 0
  Bare i n = (j : ℕ) → i ≤ j → j < i + n → at j ≡ []

  interleave-Bare :
      (xs : List A) (i n : ℕ)
      → n ≤ length xs
      → Bare i n
      → interleave at xs i ≡ map data_block (take n xs) ++ (at (i + n) ++ after (drop n xs) (i + n))
  interleave-Bare xs i zero le bare =
      let e : i + 0 ≡ i = omega arith in rw e (interleave-after xs i)
  interleave-Bare [] i (suc n) le bare = absurd (omega arith)
  interleave-Bare (x ∷ xs) i (suc n) le bare =
      let e : i + 1 + n ≡ i + suc n = omega arith in
      let ih =
        interleave-Bare xs (i + 1) n (omega arith) (λ j a b. bare j (omega arith) (omega arith)) in
      ap (λ l. l ++ data_block x ∷ interleave at xs (i + 1)) (bare i (omega arith) (omega arith))
      ∙ ap (◌∷◌ (data_block x))
          (ih ∙ ap (λ k. map data_block (take n xs) ++ (at k ++ after (drop n xs) k)) e)

  after-Bare :
      (xs : List A) (i n : ℕ)
      → suc n ≤ length xs
      → Bare (i + 1) n
      → after xs i
        ≡ map data_block (take (suc n) xs)
          ++ (at (i + suc n) ++ after (drop (suc n) xs) (i + suc n))
  unfolding after
  after-Bare [] i n le bare = absurd (omega arith)
  after-Bare (x ∷ xs) i n le bare =
      let e : i + 1 + n ≡ i + suc n = omega arith in
      ap (◌∷◌ (data_block x)) (
        interleave-Bare xs (i + 1) n (omega arith) bare
        ∙ ap (λ k. map data_block (take n xs) ++ (at k ++ after (drop n xs) k)) e)

  pub interleave_data :
      (xs : List A) (i : ℕ) → ((j : ℕ) → i ≤ j → at j ≡ []) → interleave at xs i ≡ map data_block xs
  interleave_data [] i none_left = none_left i (omega arith)
  interleave_data (x ∷ xs) i none_left =
      ap (λ l. l ++ data_block x ∷ interleave at xs (i + 1)) (none_left i (omega arith))
      ∙ ap (◌∷◌ (data_block x)) (interleave_data xs (i + 1) (λ j h. none_left j (omega arith)))

  after_data :
      (xs : List A) (i : ℕ) → ((j : ℕ) → i < j → at j ≡ []) → after xs i ≡ map data_block xs
  unfolding after
  after_data [] i none_left = refl
  after_data (x ∷ xs) i none_left =
      ap (◌∷◌ (data_block x)) (interleave_data xs (i + 1) (λ j h. none_left j (omega arith)))

  copy_rest : (b : List A) (k : ℕ) → copy b k (length b - k) ≡ map data_block (drop k b)
  copy_rest b k =
      ap (map data_block) (take-all (length b - k) (drop k b) (omega (arith, length-drop k b)))

  -- All that is carried is at one place.
  pub one_place :
      (b : List A) (k : ℕ)
      → k ≤ length b
      → ((j : ℕ) → j ≢ k → at j ≡ [])
      → interleave at b 0 ≡ copy b 0 k ++ (at k ++ copy b k (length b - k))
  one_place b k le others =
      let e : 0 + k ≡ k = omega arith in
      interleave-Bare b 0 k le (λ j _ h. others j (omega arith))
      ∙ ap (λ i. copy b 0 k ++ (at i ++ after (drop k b) i)) e
      ∙ ap (λ l. copy b 0 k ++ (at k ++ l))
          (after_data (drop k b) k (λ j h. others j (omega arith)) ∙ sym (copy_rest b k))

  -- All that is carried is at two places.
  pub two_places :
      (b : List A) (k n : ℕ)
      → k + suc n ≤ length b
      → ((j : ℕ) → j ≢ k → j ≢ k + suc n → at j ≡ [])
      → interleave at b 0
        ≡ copy b 0 k
          ++ (at k
              ++ (copy b k (suc n)
                  ++ (at (k + suc n) ++ copy b (k + suc n) (length b - (k + suc n)))))
  two_places b k n le others =
      let e : 0 + k ≡ k = omega arith in
      interleave-Bare b 0 k (omega arith) (λ j _ h. others j (omega arith) (omega arith))
      ∙ ap (λ i. copy b 0 k ++ (at i ++ after (drop k b) i)) e
      ∙ ap (λ l. copy b 0 k ++ (at k ++ l))
          (after-Bare (drop k b) k n (omega (arith, length-drop k b))
              (λ j g h. others j (omega arith) (omega arith))
            ∙ ap (λ l. copy b k (suc n) ++ (at (k + suc n) ++ l))
                (after_data (drop (suc n) (drop k b)) (k + suc n)
                    (λ j h. others j (omega arith) (omega arith))
                  ∙ ap (map data_block) (drop-drop k (suc n) b)
                  ∙ sym (copy_rest b (k + suc n))))
