-- ===== src/Cleaner/Victim.antt =====
-- The segment that the cleaner chooses.
use timelock_drive.Prelude.{
  ℕ, zero, suc, ◌+◌, ◌<◌, ◌≤◌, ◌≡◌, refl, sym, ap, subst, ◌∙◌, false, not, ◌&&◌, some, ltb, leb,
  ◌==◌, update, arith, Bool-cases, inl, inr, if_true, if_false,
}
use timelock_drive.BlockList.{SegmentInfo}
use timelock_drive.Cleaner.{Choice, weigh, weigh_all, no_choice}

-- Between 2 % and 98 % of the segment is free, and it was not written since the last round.
abbrev pub Eligible : SegmentInfo → Type 0
Eligible s = (20 < s.free_blocks) × (s.free_blocks < 1004) × (s.hot_bit ≡ false)

-- The choice among the first `i` segments is an eligible one with the most free blocks.
pub record Best (segments : ℕ → SegmentInfo) (i : ℕ) (c : Choice) : Type 0 where
  pub chosen :
      (t : ℕ)
      → c.target_segment ≡ some t
      → (t < i) × Eligible (segments t) × ((segments t).free_blocks ≡ c.most_clean)
  pub most : (j : ℕ) → j < i → Eligible (segments j) → (segments j).free_blocks ≤ c.most_clean

some-inj : (a b : ℕ) → some a ≡ some b → a ≡ b
some-inj a b h = cc

-- A segment that is not chosen changes nothing.
kept-Best :
    (segments : ℕ → SegmentInfo) (i : ℕ) (c c' : Choice)
    → Best segments i c
    → c'.target_segment ≡ c.target_segment
    → c'.most_clean ≡ c.most_clean
    → (Eligible (segments i) → (segments i).free_blocks ≤ c.most_clean)
    → Best segments (i + 1) c'
kept-Best segments i c c' b t mc small = record {
  chosen = λ k e. let old = b.chosen k (sym t ∙ e) in (omega (arith, old.0), old.1, old.2 ∙ sym mc);
  most = λ j lt el. elim (Bool-cases (j == i)) [
    | inl e ↦
        let same : j ≡ i = ground arith in
        let here = small (subst (λ k. Eligible (segments k)) same el) in
        omega (arith, ap (λ k. (segments k).free_blocks) same, here, mc)
    | inr ne ↦ let old = b.most j (ground (arith, ne, lt)) el in omega (arith, old, mc)
  ];
}

-- A segment that is chosen is eligible and has more free blocks than those before.
chosen-Best :
    (segments : ℕ → SegmentInfo) (i : ℕ) (c : Choice)
    → Best segments i c
    → Eligible (segments i)
    → c.most_clean < (segments i).free_blocks
    → Best segments
        (i + 1)
        (record c { most_clean = (segments i).free_blocks; target_segment = some i })
chosen-Best segments i c b el more = record {
  chosen = λ k e.
      let same = some-inj i k e in
      subst
        (λ x.
          (x < i + 1)
          × Eligible (segments x)
          × ((segments x).free_blocks ≡ (segments i).free_blocks))
        same (omega arith, el, refl);
  most = λ j lt h. elim (Bool-cases (j == i)) [
    | inl e ↦
        let same : j ≡ i = ground arith in omega (arith, ap (λ k. (segments k).free_blocks) same)
    | inr ne ↦ let old = b.most j (ground (arith, ne, lt)) h in omega (arith, old, more)
  ];
}

weigh-Best :
    (segments : ℕ → SegmentInfo) (i : ℕ) (c : Choice)
    → Best segments i c
    → Best segments (i + 1) (weigh i (segments i) c)
unfolding weigh
weigh-Best segments i c b =
    let s = segments i in
    elim (Bool-cases (leb 1004 s.free_blocks)) [
      | inl clean ↦
          subst (Best segments (i + 1)) (sym (if_true (leb 1004 s.free_blocks) _ _ clean)) (
            kept-Best segments i c (record c { clean_segments = c.clean_segments + 1 }) b refl refl
              (λ el. absurd (ground (arith, clean, el.1))))
      | inr used ↦
          elim (Bool-cases
            (ltb 20 s.free_blocks && not s.hot_bit && ltb c.most_clean s.free_blocks)) [
              | inl better ↦
                  subst (Best segments (i + 1))
                    (sym (
                      if_false (leb 1004 s.free_blocks) _ _ used
                      ∙ if_true
                          (ltb 20 s.free_blocks && not s.hot_bit && ltb c.most_clean s.free_blocks)
                          _ _ better))
                    (chosen-Best segments i c b
                      (ground (arith, better), ground (arith, used), ground (arith, better))
                      (ground (arith, better)))
              | inr worse ↦
                  subst (Best segments (i + 1))
                    (sym (
                      if_false (leb 1004 s.free_blocks) _ _ used
                      ∙ if_false
                          (ltb 20 s.free_blocks && not s.hot_bit && ltb c.most_clean s.free_blocks)
                          _ _ worse))
                    (kept-Best segments i c c b refl refl (λ el. ground (arith, worse, el.0, el.2)))
            ]
    ]

update-above :
    (current : ℕ → SegmentInfo) (i j : ℕ)
    → i + 1 ≤ j
    → update current i (record (current i) { hot_bit = false }) j ≡ current j
update-above current i j le = ground (arith, le)

weigh_all-Best :
    (segments : ℕ → SegmentInfo) (i n : ℕ) (current : ℕ → SegmentInfo) (c : Choice)
    → ((j : ℕ) → i ≤ j → current j ≡ segments j)
    → Best segments i c
    → Best segments (i + n) (weigh_all i n current c).0
unfolding weigh_all
weigh_all-Best segments i zero current c same b = subst (λ k. Best segments k c) (omega arith) b
weigh_all-Best segments i (suc n) current c same b =
    let e : i + 1 + n ≡ i + suc n = omega arith in
    let reset = update current i (record (current i) { hot_bit = false }) in
    subst (λ k. Best segments k (weigh_all (i + 1) n reset (weigh i (current i) c)).0) e
      (weigh_all-Best segments (i + 1) n reset (weigh i (current i) c)
        (λ j le. update-above current i j le ∙ same j (omega (arith, le)))
        (subst (λ s. Best segments (i + 1) (weigh i s c)) (sym (same i (omega arith)))
          (weigh-Best segments i c b)))

-- The segment that the loop chooses, for any number of segments, is one that is between 2 % and 98 %
-- free and was not written since the last round; and no such segment has more free blocks than the
-- most that the loop has noted, which are those of the segment chosen.
pub weigh_all_lem :
    (segments : ℕ → SegmentInfo) (n : ℕ)
    → let c = (weigh_all 0 n segments no_choice).0 in
      ((t : ℕ)
        → c.target_segment ≡ some t
        → (t < n) × Eligible (segments t) × ((segments t).free_blocks ≡ c.most_clean))
      × ((j : ℕ) → j < n → Eligible (segments j) → (segments j).free_blocks ≤ c.most_clean)
weigh_all_lem segments n =
    let none_yet : Best segments 0 no_choice = record {
      chosen = λ t e. absurd cc;
      most = λ j lt el. absurd (omega arith);
    } in
    let best = weigh_all-Best segments 0 n segments no_choice (λ j le. refl) none_yet in
    (
      λ t e. let b = best.chosen t e in (omega (arith, b.0), b.1, b.2),
      λ j lt el. best.most j (omega (arith, lt)) el,
    )
