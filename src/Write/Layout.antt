-- ===== src/Write/Layout.antt =====
-- The order of the blocks in the request.
use timelock_drive.Prelude.{
  ℕ, suc, ◌+◌, ◌-◌, ◌≤◌, ◌<◌, ◌≡◌, ◌≢◌, refl, sym, ap, ap₂, ◌∙◌, Bool, false, true, ◌&&◌, ◌||◌,
  Option, none, some, List, [], ◌∷◌, ◌++◌, if◌then◌else◌, ltb, ◌==◌, length, arith, append-nil,
  ltb→lt, lt→ltb, ge→ltb, Bool-cases, inl, inr, if_true, if_false,
}
use timelock_drive.Constants.{TdMetadataLogBlock}
use timelock_drive.Recovery.{L2PBlock}
use timelock_drive.Gatekeeper.{Payload, version_block, timelock_block}
use timelock_drive.Write.{Carried, copy, layout}
use timelock_drive.Write.Interleave.{interleave, interleave_data, one_place, two_places}

-- The log block, where it stands before block `i` of the data.
abbrev pub here : {A B : Type 0} → (B → Payload A) → Option (Carried B) → ℕ → List (Payload A)
here block none i = []
here block (some c) i = if c.offset == i then block c.block ∷ [] else []

-- What goes before block `i`: the timelock log block first.
abbrev pub carried_at :
    {A : Type 0}
    → Option (Carried L2PBlock)
    → Option (Carried TdMetadataLogBlock)
    → ℕ
    → List (Payload A)
carried_at v h i = here timelock_block h i ++ here version_block v i

-- The two log blocks tie: at one place after the start, with one tie breaker.
abbrev pub IsTie : Carried L2PBlock → Carried TdMetadataLogBlock → Type 0
IsTie v h = (v.offset ≡ h.offset) × (v.offset ≢ 0) × (v.tie_breaker ≡ h.tie_breaker)

-- An offset lies within the data.
abbrev pub Within : {B : Type 0} → ℕ → Option (Carried B) → Type 0
Within n none = Unit
Within n (some c) = c.offset ≤ n

abbrev pub Ties : Option (Carried L2PBlock) → Option (Carried TdMetadataLogBlock) → Type 0
Ties (some v) (some h) = IsTie v h
Ties _ _ = ⊥

abbrev pub ties : Option (Carried L2PBlock) → Option (Carried TdMetadataLogBlock) → Bool
ties (some v) (some h) = v.offset == h.offset && ltb 0 v.offset && v.tie_breaker == h.tie_breaker
ties _ _ = false

here-at :
    {A B : Type 0} → (f : B → Payload A) (c : Carried B) → here f (some c) c.offset ≡ f c.block ∷ []
here-at f c = ground arith

here_ne :
    {A B : Type 0}
    → (f : B → Payload A) (c : Carried B) (i : ℕ) → c.offset ≢ i
    → here f (some c) i ≡ []
here_ne f c i ne = ground arith

both_ne :
    {A : Type 0}
    → (v : Carried L2PBlock) (h : Carried TdMetadataLogBlock) (i : ℕ) → v.offset ≢ i
    → h.offset ≢ i
    → carried_at {A = A} (some v) (some h) i ≡ []
both_ne v h i nv nh = ap₂ ◌++◌ (here_ne timelock_block h i nh) (here_ne version_block v i nv)

two_apart :
    {A : Type 0}
    → (v : Carried L2PBlock) (h : Carried TdMetadataLogBlock) → v.offset ≢ h.offset
    → (carried_at {A = A} (some v) (some h) v.offset ≡ version_block v.block ∷ [])
      × (carried_at {A = A} (some v) (some h) h.offset ≡ timelock_block h.block ∷ [])
two_apart v h ne = (
  ap₂ ◌++◌ (here_ne timelock_block h v.offset (omega arith)) (here-at version_block v),
  ap₂ ◌++◌ (here-at timelock_block h) (here_ne version_block v h.offset (omega arith)),
)

same_place :
    {A : Type 0}
    → (v : Carried L2PBlock) (h : Carried TdMetadataLogBlock) → h.offset ≡ v.offset
    → carried_at {A = A} (some v) (some h) v.offset
      ≡ timelock_block h.block ∷ version_block v.block ∷ []
same_place v h e =
    ap₂ ◌++◌ (ap (here timelock_block (some h)) (sym e) ∙ here-at timelock_block h)
      (here-at version_block v)

module _ {A : Type 0} (b : List A) (v : Carried L2PBlock) (h : Carried TdMetadataLogBlock) where
  layout-version_first :
      v.offset < h.offset
      → h.offset ≤ length b
      → layout b (some v) (some h) ≡ some (interleave (carried_at (some v) (some h)) b 0)
  unfolding layout
  layout-version_first lt le =
      let n = h.offset - v.offset - 1 in
      let e : v.offset + suc n ≡ h.offset = omega arith in
      let f : suc n ≡ h.offset - v.offset = omega arith in
      let places =
        two_places (carried_at (some v) (some h)) b v.offset n (omega (arith, e, le))
          (λ j p q. both_ne v h j (omega arith) (omega (arith, e))) in
      let a = two_apart {A = A} v h (omega arith) in
      if_false (v.offset == h.offset && ltb 0 v.offset) _ _ (ground (arith, lt))
      ∙ if_true _ _ _ (lt→ltb v.offset h.offset lt)
      ∙ ap some (
          sym (
            places
            ∙ ap₂ (λ x y. copy b 0 v.offset ++ (x ++ y)) a.0
                (ap₂
                    (λ i k.
                      copy b v.offset i
                      ++ (carried_at (some v) (some h) k ++ copy b k (length b - k)))
                    f e
                  ∙ ap
                      (λ x.
                        copy b v.offset (h.offset - v.offset)
                        ++ (x ++ copy b h.offset (length b - h.offset)))
                      a.1)))

  layout-timelock_first :
      h.offset < v.offset
      → v.offset ≤ length b
      → layout b (some v) (some h) ≡ some (interleave (carried_at (some v) (some h)) b 0)
  unfolding layout
  layout-timelock_first lt le =
      let n = v.offset - h.offset - 1 in
      let e : h.offset + suc n ≡ v.offset = omega arith in
      let f : suc n ≡ v.offset - h.offset = omega arith in
      let places =
        two_places (carried_at (some v) (some h)) b h.offset n (omega (arith, e, le))
          (λ j p q. both_ne v h j (omega (arith, e)) (omega arith)) in
      let a = two_apart {A = A} v h (omega arith) in
      if_false (v.offset == h.offset && ltb 0 v.offset) _ _ (ground (arith, lt))
      ∙ if_false _ _ _ (ge→ltb v.offset h.offset (omega arith))
      ∙ ap some (
          sym (
            places
            ∙ ap₂ (λ x y. copy b 0 h.offset ++ (x ++ y)) a.1
                (ap₂
                    (λ i k.
                      copy b h.offset i
                      ++ (carried_at (some v) (some h) k ++ copy b k (length b - k)))
                    f e
                  ∙ ap
                      (λ x.
                        copy b h.offset (v.offset - h.offset)
                        ++ (x ++ copy b v.offset (length b - v.offset)))
                      a.0)))

  same_place-interleave :
      h.offset ≡ v.offset
      → v.offset ≤ length b
      → interleave (carried_at (some v) (some h)) b 0
        ≡ copy b 0 v.offset
          ++ timelock_block h.block ∷ version_block v.block ∷ copy b v.offset (length b - v.offset)
  same_place-interleave e le =
      one_place (carried_at (some v) (some h)) b v.offset le
        (λ j p. both_ne v h j (omega arith) (omega (arith, e)))
      ∙ ap (λ x. copy b 0 v.offset ++ (x ++ copy b v.offset (length b - v.offset)))
          (same_place {A = A} v h e)

  tie_broken :
      h.offset ≡ v.offset
      → ltb 0 v.offset ≡ true
      → ¬ IsTie v h
      → (ltb h.tie_breaker v.tie_breaker || ltb v.tie_breaker h.tie_breaker) ≡ true
  tie_broken e later untied =
      let ne : v.tie_breaker ≢ h.tie_breaker =
        λ t. untied (sym e, λ z. ground (arith, z, later), t) in
      ground (arith, ne)

  same_start :
      h.offset ≡ v.offset
      → (copy b 0 h.offset
          ++ timelock_block h.block
            ∷ (copy b h.offset (v.offset - h.offset)
                ++ version_block v.block ∷ copy b v.offset (length b - v.offset)))
        ≡ (copy b 0 v.offset
            ++ timelock_block h.block
              ∷ version_block v.block
              ∷ copy b v.offset (length b - v.offset))
  same_start e =
      let z : v.offset - h.offset ≡ 0 = omega arith in
      ap₂
        (λ i n.
          copy b 0 i
          ++ timelock_block h.block
            ∷ (copy b i n ++ version_block v.block ∷ copy b v.offset (length b - v.offset)))
        e z

  layout-same_place :
      h.offset ≡ v.offset
      → v.offset ≤ length b
      → ¬ IsTie v h
      → layout b (some v) (some h) ≡ some (interleave (carried_at (some v) (some h)) b 0)
  unfolding layout
  layout-same_place e le untied = elim (Bool-cases (ltb 0 v.offset)) [
    | inl later ↦
        if_true (v.offset == h.offset && ltb 0 v.offset) _ _ (ground (arith, e, later))
        ∙ if_true (ltb h.tie_breaker v.tie_breaker || ltb v.tie_breaker h.tie_breaker) _ _
            (tie_broken e later untied)
        ∙ ap some (sym (same_place-interleave e le))
    | inr first ↦
        if_false (v.offset == h.offset && ltb 0 v.offset) _ _ (ground (arith, first))
        ∙ if_false _ _ _ (ge→ltb v.offset h.offset (omega (arith, e)))
        ∙ ap some (same_start e ∙ sym (same_place-interleave e le))
  ]

-- Without a tie.
layout-interleave :
    {A : Type 0}
    → (b : List A) (v : Option (Carried L2PBlock)) (h : Option (Carried TdMetadataLogBlock))
    → Within (length b) v
    → Within (length b) h
    → ¬ Ties v h
    → layout b v h ≡ some (interleave (carried_at v h) b 0)
unfolding layout
layout-interleave b none none wv wh t =
    ap some (sym (interleave_data (carried_at none none) b 0 (λ j h. refl)))
layout-interleave b (some v) none wv wh t = ap some (
    sym (
      one_place (carried_at (some v) none) b v.offset wv
        (λ j p. here_ne version_block v j (omega arith))
      ∙ ap (λ x. copy b 0 v.offset ++ (x ++ copy b v.offset (length b - v.offset)))
          (here-at version_block v)))
layout-interleave b none (some h) wv wh t = ap some (
    sym (
      one_place (carried_at none (some h)) b h.offset wh
        (λ j p. append-nil _ ∙ here_ne timelock_block h j (omega arith))
      ∙ ap (λ x. copy b 0 h.offset ++ (x ++ copy b h.offset (length b - h.offset)))
          (append-nil _ ∙ here-at timelock_block h)))
layout-interleave b (some v) (some h) wv wh t = elim (Bool-cases (ltb v.offset h.offset)) [
  | inl lt ↦ layout-version_first b v h (ltb→lt v.offset h.offset lt) wh
  | inr ge ↦ elim (Bool-cases (ltb h.offset v.offset)) [
    | inl gt ↦ layout-timelock_first b v h (ltb→lt h.offset v.offset gt) wv
    | inr le ↦ layout-same_place b v h (ground (arith, ge, le)) wv t
  ]
]

-- Two log blocks that tie are the only ones that `device_write` finds no order for.
layout-tie :
    {A : Type 0}
    → (b : List A) (v : Carried L2PBlock) (h : Carried TdMetadataLogBlock) → IsTie v h
    → layout b (some v) (some h) ≡ none
unfolding layout
layout-tie b v h t =
    if_true (v.offset == h.offset && ltb 0 v.offset) _ _ (ground (arith, t.0, t.1))
    ∙ if_false (ltb h.tie_breaker v.tie_breaker || ltb v.tie_breaker h.tie_breaker) _ _
        (ground (arith, t.2))

-- The payload that `device_write` builds, whichever log blocks go along and in whichever of its cases,
-- is the data in order with each log block before the block at its offset, the timelock log block
-- first where both are at one place; unless the two tie, being at one place after the start with one
-- tie breaker, where none is built. The offsets lie within the data.
pub layout_lem :
    {A : Type 0}
    → (b : List A) (v : Option (Carried L2PBlock)) (h : Option (Carried TdMetadataLogBlock))
    → Within (length b) v
    → Within (length b) h
    → layout b v h ≡ (if ties v h then none else some (interleave (carried_at v h) b 0))
layout_lem b none none wv wh = layout-interleave b none none wv wh (λ t. t)
layout_lem b (some v) none wv wh = layout-interleave b (some v) none wv wh (λ t. t)
layout_lem b none (some h) wv wh = layout-interleave b none (some h) wv wh (λ t. t)
layout_lem b (some v) (some h) wv wh = elim (Bool-cases (ties (some v) (some h))) [
  | inl t ↦ layout-tie b v h (ground (arith, t)) ∙ sym (if_true (ties (some v) (some h)) _ _ t)
  | inr f ↦
      layout-interleave b (some v) (some h) wv wh (λ t. ground (arith, f, t))
      ∙ sym (if_false (ties (some v) (some h)) _ _ f)
]
