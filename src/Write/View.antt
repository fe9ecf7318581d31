-- ===== src/Write/View.antt =====
-- The virtual disk: the block that a reader of a logical block sees.
use timelock_drive.Prelude.{
  ℕ, zero, suc, ◌+◌, ◌%◌, ◌^◌, ◌<◌, ◌≤◌, ◌≡◌, ◌≢◌, refl, sym, ap, subst, ◌∙◌, Option, none, some,
  List, [], ◌∷◌, get_elem?, length, arith, ◌==◌, if◌then◌else◌, if_true, if_false, Option-cases,
  inl, inr,
}
use timelock_drive.Constants.{DataRange}
use timelock_drive.Read.Scatter.{block_at}
use timelock_drive.Logs.{Logs}
use timelock_drive.Logs.Range.{IsBacked}

-- The mapping that a read goes by: the address in the entry of a logical block, if it has one.
abbrev pub mapping_of : {E : Type 0} → Logs E → ℕ → Option ℕ
mapping_of l lba =
    if l.l2pmap lba == 0
    then none
    else some ((l.store.cell (l.l2pmap lba)).physical_block_id % 2 ^ 32)

pub mapped-at :
    {E : Type 0}
    → (l : Logs E) (lba n i : ℕ) (range : DataRange) → IsBacked lba n range l
    → lba + n ≤ 2 ^ 32
    → range.pba + n ≤ 2 ^ 32
    → i < n
    → mapping_of l (lba + i) ≡ some (range.pba + i)
mapped-at l lba n i range ok small fits lt =
    let here = ok i lt in
    let e : (lba + i) % 2 ^ 32 ≡ lba + i = omega (arith, small, lt) in
    let f : (range.pba + i) % 2 ^ 32 ≡ range.pba + i = omega (arith, fits, lt) in
    let some_entry : l.l2pmap (lba + i) ≢ 0 = subst (λ k. l.l2pmap k ≢ 0) e here.1 in
    if_false (l.l2pmap (lba + i) == 0) _ _ (ground (arith, some_entry))
    ∙ ap some
        (ap (λ k. (l.store.cell (l.l2pmap k)).physical_block_id % 2 ^ 32) (sym e) ∙ here.0 ∙ f)

-- What is read at a logical block.
abbrev pub view : {E B : Type 0} → B → (ℕ → B) → Logs E → ℕ → B
view zero_block disk l lba = block_at zero_block disk (mapping_of l) (mapping_of l lba)

-- The blocks `xs` written at `lba`, over the virtual disk `v`.
abbrev pub overwrite : {B : Type 0} → ℕ → List B → (ℕ → B) → ℕ → B
overwrite lba [] v i = v i
overwrite lba (x ∷ xs) v i = if i == lba then x else overwrite (lba + 1) xs v i

pub overwrite-below :
    {B : Type 0}
    → (lba : ℕ) (xs : List B) (v : ℕ → B) (i : ℕ) → i < lba
    → overwrite lba xs v i ≡ v i
overwrite-below lba [] v i lt = refl
overwrite-below lba (x ∷ xs) v i lt =
    if_false (i == lba) _ _ (ground (arith, lt)) ∙ overwrite-below (lba + 1) xs v i (omega arith)

pub overwrite-above :
    {B : Type 0}
    → (lba : ℕ) (xs : List B) (v : ℕ → B) (i : ℕ) → lba + length xs ≤ i
    → overwrite lba xs v i ≡ v i
overwrite-above lba [] v i le = refl
overwrite-above lba (x ∷ xs) v i le =
    if_false (i == lba) _ _ (ground (arith, le))
    ∙ overwrite-above (lba + 1) xs v i (omega (arith, le))

pub overwrite-at :
    {B : Type 0}
    → (lba : ℕ) (xs : List B) (v : ℕ → B) (j : ℕ) (x : B) → get_elem? xs j ≡ some x
    → overwrite lba xs v (lba + j) ≡ x
overwrite-at lba [] v j x h = absurd cc
overwrite-at lba (y ∷ xs) v zero x h = if_true (lba + 0 == lba) _ _ (ground arith) ∙ cc
overwrite-at lba (y ∷ xs) v (suc j) x h =
    let e : lba + suc j ≡ lba + 1 + j = omega arith in
    if_false (lba + suc j == lba) _ _ (ground arith)
    ∙ ap (overwrite (lba + 1) xs v) e
    ∙ overwrite-at (lba + 1) xs v j x h

get_elem?-lt :
    {B : Type 0} → (xs : List B) (j : ℕ) (x : B) → get_elem? xs j ≡ some x → j < length xs
get_elem?-lt [] j x h = absurd cc
get_elem?-lt (y ∷ xs) zero x h = omega arith
get_elem?-lt (y ∷ xs) (suc j) x h = omega (arith, get_elem?-lt xs j x h)

pub get_elem?-some :
    {B : Type 0} → (xs : List B) (j : ℕ) → j < length xs → (x : B) × (get_elem? xs j ≡ some x)
get_elem?-some [] j lt = absurd (omega arith)
get_elem?-some (x ∷ xs) zero lt = (x, refl)
get_elem?-some (x ∷ xs) (suc j) lt = get_elem?-some xs j (omega arith)

-- Where the mapping and the block mapped are the same, a reader sees the same.
pub view-same :
    {E B : Type 0}
    → (zero_block : B) (disk disk' : ℕ → B) (l l' : Logs E) (i : ℕ)
    → mapping_of l' i ≡ mapping_of l i
    → ((p : ℕ) → mapping_of l i ≡ some p → disk' p ≡ disk p)
    → view zero_block disk' l' i ≡ view zero_block disk l i
view-same zero_block disk disk' l l' i same kept = elim (Option-cases (mapping_of l i)) [
  | inl e ↦
      ap (block_at zero_block disk' (mapping_of l')) (same ∙ e)
      ∙ sym (ap (block_at zero_block disk (mapping_of l)) e)
  | inr (p, e) ↦
      ap (block_at zero_block disk' (mapping_of l')) (same ∙ e)
      ∙ kept p e
      ∙ sym (ap (block_at zero_block disk (mapping_of l)) e)
]
