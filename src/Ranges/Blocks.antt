-- ===== src/Ranges/Blocks.antt =====
-- The physical blocks that ranges stand for.
use timelock_drive.Prelude.{
  ℕ, zero, suc, ◌+◌, ◌≡◌, refl, ap, ◌∙◌, sym, List, [], ◌∷◌, ◌++◌, length, length-append,
  append_assoc, arith,
}
use timelock_drive.Constants.{DataRange}

-- `n` addresses from `p` on.
abbrev pub count_up : ℕ → ℕ → List ℕ
count_up p zero = []
count_up p (suc n) = p ∷ count_up (p + 1) n

abbrev pub blocks_of : DataRange → List ℕ
blocks_of r = count_up r.pba r.num_blocks

-- The blocks of a list of ranges, in order, as the gatekeeper walks them.
abbrev pub expand : List DataRange → List ℕ
expand [] = []
expand (r ∷ rs) = blocks_of r ++ expand rs

pub expand-append : (rs ss : List DataRange) → expand (rs ++ ss) ≡ expand rs ++ expand ss
expand-append [] ss = refl
expand-append (r ∷ rs) ss =
    ap (◌++◌ (blocks_of r)) (expand-append rs ss)
    ∙ sym (append_assoc (blocks_of r) (expand rs) (expand ss))

pub length-count_up : (p n : ℕ) → length (count_up p n) ≡ n
length-count_up p zero = refl
length-count_up p (suc n) = ap suc (length-count_up (p + 1) n)

pub count_up-add : (p a b : ℕ) → count_up p (a + b) ≡ count_up p a ++ count_up (p + a) b
count_up-add p zero b =
    let e : 0 + b ≡ b = omega arith in let f : p + 0 ≡ p = omega arith in rw (e, f)
count_up-add p (suc a) b =
    let e : suc a + b ≡ suc (a + b) = omega arith in
    let f : p + suc a ≡ p + 1 + a = omega arith in rw (e, f) (ap (◌∷◌ p) (count_up-add (p + 1) a b))

-- The ranges `i`, `i + 1`, … of an array, `n` of them.
abbrev pub slice : (ℕ → DataRange) → ℕ → ℕ → List DataRange
slice ranges i zero = []
slice ranges i (suc n) = ranges i ∷ slice ranges (i + 1) n

-- How many blocks a list of ranges has.
abbrev pub total_blocks : List DataRange → ℕ
total_blocks [] = 0
total_blocks (r ∷ rs) = r.num_blocks + total_blocks rs

pub length-expand : (rs : List DataRange) → length (expand rs) ≡ total_blocks rs
length-expand [] = refl
length-expand (r ∷ rs) = omega (
  arith,
  length-append (blocks_of r) (expand rs),
  length-count_up r.pba r.num_blocks,
  length-expand rs,
)
