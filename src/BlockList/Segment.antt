-- ===== src/BlockList/Segment.antt =====
-- List segments in the store: which cells a chain of `next` pointers runs through.
use timelock_drive.Prelude.{
  ℕ, ◌≡◌, ◌≢◌, refl, sym, ap, ◌∙◌, ◌⊎◌, inl, inr, List, [], ◌∷◌, ◌++◌, update, arith,
}
use timelock_drive.BlockList.{BlockEntry, BlockEntryList, link}

-- From `p` the chain runs through the cells `xs` and then points to `q`.
abbrev pub Seg : (ℕ → BlockEntry) → ℕ → List ℕ → ℕ → Type 0
Seg cell p [] q = p ≡ q
Seg cell p (x ∷ xs) q = (p ≡ x) × (x ≢ 0) × Seg cell (cell x).next xs q

abbrev pub NotIn : ℕ → List ℕ → Type 0
NotIn p [] = Unit {0}
NotIn p (x ∷ xs) = (x ≢ p) × NotIn p xs

abbrev pub Distinct : List ℕ → Type 0
Distinct [] = Unit {0}
Distinct (x ∷ xs) = NotIn x xs × Distinct xs

-- No entry of the first list is on the second.
abbrev pub Apart : List ℕ → List ℕ → Type 0
Apart [] ys = Unit {0}
Apart (x ∷ xs) ys = NotIn x ys × Apart xs ys

-- The last entry, or NULL.
abbrev pub last : List ℕ → ℕ
last [] = 0
last (x ∷ []) = x
last (x ∷ y ∷ xs) = last (y ∷ xs)

-- A list whose `tail` is its last entry.
pub record IsList (cell : ℕ → BlockEntry) (l : BlockEntryList) (xs : List ℕ) : Type 0 where
  pub chain : Seg cell l.head xs 0
  pub ends : l.tail ≡ last xs

pub Seg-frame :
    (cell : ℕ → BlockEntry) (p : ℕ) (v : BlockEntry) (h : ℕ) (xs : List ℕ) (q : ℕ)
    → NotIn p xs
    → Seg cell h xs q
    → Seg (update cell p v) h xs q
Seg-frame cell p v h [] q out s = s
Seg-frame cell p v h (x ∷ xs) q out s =
    let same : update cell p v x ≡ cell x = ground arith in
    (s.0, s.1, rw same (Seg-frame cell p v (cell x).next xs q out.1 s.2))

pub Seg-append :
    (cell : ℕ → BlockEntry) (h : ℕ) (xs : List ℕ) (m : ℕ) (ys : List ℕ) (q : ℕ)
    → Seg cell h xs m
    → Seg cell m ys q
    → Seg cell h (xs ++ ys) q
Seg-append cell h [] m ys q s t = rw s t
Seg-append cell h (x ∷ xs) m ys q s t = (s.0, s.1, Seg-append cell (cell x).next xs m ys q s.2 t)

-- Every list is empty or has a last entry.
pub last-cases : (xs : List ℕ) → (xs ≡ []) ⊎ ((zs : List ℕ) × (xs ≡ zs ++ last xs ∷ []))
last-cases [] = inl refl
last-cases (x ∷ []) = inr ([], refl)
last-cases (x ∷ y ∷ xs) = elim (last-cases (y ∷ xs)) [
  | inl e ↦ inr ([], ground arith)
  | inr (zs, e) ↦ inr (x ∷ zs, ap (◌∷◌ x) e)
]

pub last-snoc : (zs : List ℕ) (p : ℕ) → last (zs ++ p ∷ []) ≡ p
last-snoc [] p = refl
last-snoc (x ∷ []) p = refl
last-snoc (x ∷ y ∷ zs) p = last-snoc (y ∷ zs) p

-- Setting the `next` of the last entry moves the end of the segment.
pub Seg-relink :
    (cell : ℕ → BlockEntry) (h : ℕ) (zs : List ℕ) (t q r : ℕ)
    → NotIn t zs
    → Seg cell h (zs ++ t ∷ []) q
    → Seg (link cell t r) h (zs ++ t ∷ []) r
Seg-relink cell h [] t q r out s =
    let e : (link cell t r t).next ≡ r = ground arith in (s.0, s.1, e)
Seg-relink cell h (z ∷ zs) t q r out s =
    let same : link cell t r z ≡ cell z = ground arith in
    (s.0, s.1, rw same (Seg-relink cell (cell z).next zs t q r out.1 s.2))

pub NotIn-append : (p : ℕ) (xs ys : List ℕ) → NotIn p xs → NotIn p ys → NotIn p (xs ++ ys)
NotIn-append p [] ys a b = b
NotIn-append p (x ∷ xs) ys a b = (a.0, NotIn-append p xs ys a.1 b)

pub NotIn-left : (p : ℕ) (xs ys : List ℕ) → NotIn p (xs ++ ys) → NotIn p xs
NotIn-left p [] ys a = tt
NotIn-left p (x ∷ xs) ys a = (a.0, NotIn-left p xs ys a.1)

pub NotIn-right : (p : ℕ) (xs ys : List ℕ) → NotIn p (xs ++ ys) → NotIn p ys
NotIn-right p [] ys a = a
NotIn-right p (x ∷ xs) ys a = NotIn-right p xs ys a.1

-- In a list without repetition the last entry does not occur before.
pub Distinct-last : (zs : List ℕ) (t : ℕ) → Distinct (zs ++ t ∷ []) → NotIn t zs
Distinct-last [] t d = tt
Distinct-last (z ∷ zs) t d =
    ((λ e. (NotIn-right z zs (t ∷ []) d.0).0 (sym e)), Distinct-last zs t d.1)

pub Distinct-snoc : (zs : List ℕ) (t : ℕ) → NotIn t zs → Distinct zs → Distinct (zs ++ t ∷ [])
Distinct-snoc [] t out d = (tt, tt)
Distinct-snoc (z ∷ zs) t out d =
    (NotIn-append z zs (t ∷ []) d.0 ((λ e. out.0 (sym e)), tt), Distinct-snoc zs t out.1 d.1)

pub Apart-last : (zs : List ℕ) (t : ℕ) (ys : List ℕ) → Apart (zs ++ t ∷ []) ys → NotIn t ys
Apart-last [] t ys a = a.0
Apart-last (z ∷ zs) t ys a = Apart-last zs t ys a.1

pub Apart-snoc :
    (zs : List ℕ) (t : ℕ) (ys : List ℕ) → Apart zs ys → NotIn t ys → Apart (zs ++ t ∷ []) ys
Apart-snoc [] t ys a out = (out, tt)
Apart-snoc (z ∷ zs) t ys a out = (a.0, Apart-snoc zs t ys a.1 out)

-- A chain through an entry starts at a pointer that is not NULL, and so is its last entry.
pub Seg-pointers :
    (cell : ℕ → BlockEntry) (h : ℕ) (zs : List ℕ) (t q : ℕ)
    → Seg cell h (zs ++ t ∷ []) q
    → (h ≢ 0) × (t ≢ 0)
Seg-pointers cell h [] t q s = ((λ e. s.1 (sym s.0 ∙ e)), s.1)
Seg-pointers cell h (z ∷ zs) t q s =
    ((λ e. s.1 (sym s.0 ∙ e)), (Seg-pointers cell (cell z).next zs t q s.2).1)
