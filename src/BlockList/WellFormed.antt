-- ===== src/BlockList/WellFormed.antt =====
-- The three lists together: no entry is on two of them, or twice on one.
use timelock_drive.Prelude.{ℕ, ◌≡◌, ◌≢◌, sym, subst, List, [], ◌∷◌, ◌++◌}
use timelock_drive.BlockList.{
  BlockEntry, BlockEntryList, link_last, push_back, Store, ListName, enqueue_list, free_list,
  collect_list, expiry_list,
}
use timelock_drive.BlockList.Segment.{
  Seg, NotIn, Distinct, Apart, IsList, last-snoc, Distinct-snoc, Apart-snoc,
}
use timelock_drive.BlockList.Queue.{Seg-push_back, Seg-link_last}

pub record Lists : Type 0 where
  pub free : List ℕ
  pub collect : List ℕ
  pub expiry : List ℕ

pub record IsWellFormed (s : Store) (ls : Lists) : Type 0 where
  pub free : IsList s.cell s.freelist ls.free
  pub collect : IsList s.cell s.gc_list ls.collect
  pub expiry : IsList s.cell s.tobe_freelist ls.expiry
  pub distinct_free : Distinct ls.free
  pub distinct_collect : Distinct ls.collect
  pub distinct_expiry : Distinct ls.expiry
  pub free_collect : Apart ls.free ls.collect
  pub free_expiry : Apart ls.free ls.expiry
  pub collect_expiry : Apart ls.collect ls.expiry

-- The entry is on none of the lists, and points to nothing.
pub record IsLoose (p : ℕ) (s : Store) (ls : Lists) : Type 0 where
  pub not_null : p ≢ 0
  pub unlinked : (s.cell p).next ≡ 0
  pub not_free : NotIn p ls.free
  pub not_collect : NotIn p ls.collect
  pub not_expiry : NotIn p ls.expiry

abbrev pub append_to : ListName → ℕ → Lists → Lists
append_to free_list p ls = record ls { free = ls.free ++ p ∷ [] }
append_to collect_list p ls = record ls { collect = ls.collect ++ p ∷ [] }
append_to expiry_list p ls = record ls { expiry = ls.expiry ++ p ∷ [] }

pub Apart-nil : (xs : List ℕ) → Apart xs []
Apart-nil [] = tt
Apart-nil (x ∷ xs) = (tt, Apart-nil xs)

Apart-cons : (xs : List ℕ) (y : ℕ) (ys : List ℕ) → NotIn y xs → Apart xs ys → Apart xs (y ∷ ys)
Apart-cons [] y ys out a = tt
Apart-cons (x ∷ xs) y ys out a = (((λ e. out.0 (sym e)), a.0), Apart-cons xs y ys out.1 a.1)

pub Apart-symm : (xs ys : List ℕ) → Apart xs ys → Apart ys xs
Apart-symm [] ys a = Apart-nil ys
Apart-symm (x ∷ xs) ys a = Apart-cons ys x xs a.0 (Apart-symm xs ys a.1)

-- An entry that neither list has joins the second.
pub Apart-grow : (xs ys : List ℕ) (p : ℕ) → Apart xs ys → NotIn p xs → Apart xs (ys ++ p ∷ [])
Apart-grow xs ys p a out =
    Apart-symm (ys ++ p ∷ []) xs (Apart-snoc ys p xs (Apart-symm xs ys a) out)

module _ (cell : ℕ → BlockEntry) (l : BlockEntryList) (xs : List ℕ) (p : ℕ)
    (ok : IsList cell l xs) where
  pub push_back-IsList :
      Distinct xs
      → NotIn p xs
      → p ≢ 0
      → (cell p).next ≡ 0
      → IsList (link_last cell l p) (push_back l p) (xs ++ p ∷ [])
  push_back-IsList d out ne end = record {
    chain =
        subst (Seg (link_last cell l p) (push_back l p).head (xs ++ p ∷ [])) end
          (Seg-push_back cell l p xs ok d out ne).0;
    ends = sym (last-snoc xs p);
  }

  link_last-IsList :
      (m : BlockEntryList) (ys : List ℕ)
      → Apart xs ys
      → IsList cell m ys
      → IsList (link_last cell l p) m ys
  link_last-IsList m ys apart other = record {
    chain = Seg-link_last cell l p xs m.head ys 0 ok apart other.chain;
    ends = other.ends;
  }

-- `enqueue_list` appends an entry that is on no list, and whose `next` is NULL, to the list named, and
-- changes neither of the others: the three lists stay well formed.
pub enqueue_list-IsWellFormed :
    (which : ListName) (p : ℕ) (s : Store) (ls : Lists)
    → IsWellFormed s ls
    → IsLoose p s ls
    → IsWellFormed (enqueue_list which p s) (append_to which p ls)
unfolding enqueue_list
enqueue_list-IsWellFormed free_list p s ls v w = record {
  free =
      push_back-IsList s.cell s.freelist ls.free p v.free v.distinct_free w.not_free w.not_null
        w.unlinked;
  collect =
      link_last-IsList s.cell s.freelist ls.free p v.free s.gc_list ls.collect v.free_collect
        v.collect;
  expiry =
      link_last-IsList s.cell s.freelist ls.free p v.free s.tobe_freelist ls.expiry v.free_expiry
        v.expiry;
  distinct_free = Distinct-snoc ls.free p w.not_free v.distinct_free;
  distinct_collect = v.distinct_collect;
  distinct_expiry = v.distinct_expiry;
  free_collect = Apart-snoc ls.free p ls.collect v.free_collect w.not_collect;
  free_expiry = Apart-snoc ls.free p ls.expiry v.free_expiry w.not_expiry;
  collect_expiry = v.collect_expiry;
}
enqueue_list-IsWellFormed collect_list p s ls v w = record {
  free =
      link_last-IsList s.cell s.gc_list ls.collect p v.collect s.freelist ls.free
        (Apart-symm ls.free ls.collect v.free_collect) v.free;
  collect =
      push_back-IsList s.cell s.gc_list ls.collect p v.collect v.distinct_collect w.not_collect
        w.not_null w.unlinked;
  expiry =
      link_last-IsList s.cell s.gc_list ls.collect p v.collect s.tobe_freelist ls.expiry
        v.collect_expiry v.expiry;
  distinct_free = v.distinct_free;
  distinct_collect = Distinct-snoc ls.collect p w.not_collect v.distinct_collect;
  distinct_expiry = v.distinct_expiry;
  free_collect = Apart-grow ls.free ls.collect p v.free_collect w.not_free;
  free_expiry = v.free_expiry;
  collect_expiry = Apart-snoc ls.collect p ls.expiry v.collect_expiry w.not_expiry;
}
enqueue_list-IsWellFormed expiry_list p s ls v w = record {
  free =
      link_last-IsList s.cell s.tobe_freelist ls.expiry p v.expiry s.freelist ls.free
        (Apart-symm ls.free ls.expiry v.free_expiry) v.free;
  collect =
      link_last-IsList s.cell s.tobe_freelist ls.expiry p v.expiry s.gc_list ls.collect
        (Apart-symm ls.collect ls.expiry v.collect_expiry) v.collect;
  expiry =
      push_back-IsList s.cell s.tobe_freelist ls.expiry p v.expiry v.distinct_expiry w.not_expiry
        w.not_null w.unlinked;
  distinct_free = v.distinct_free;
  distinct_collect = v.distinct_collect;
  distinct_expiry = Distinct-snoc ls.expiry p w.not_expiry v.distinct_expiry;
  free_collect = v.free_collect;
  free_expiry = Apart-grow ls.free ls.expiry p v.free_expiry w.not_free;
  collect_expiry = Apart-grow ls.collect ls.expiry p v.collect_expiry w.not_collect;
}
