-- ===== src/Scan/FreeList.antt =====
-- The free list that `scan_disk` builds.
use timelock_drive.Prelude.{
  ℕ, zero, suc, ◌+◌, ◌<◌, ◌≡◌, refl, sym, ap, ap₂, ◌∙◌, Bool, true, false, List, [], ◌∷◌, ◌++◌, map,
  if◌then◌else◌, update, arith, append-nil, append_assoc, Bool-cases, inl, inr,
}
use timelock_drive.BlockList.{BlockEntry, Store, enqueue_list, free_list, count_free}
use timelock_drive.BlockList.Segment.{NotIn}
use timelock_drive.BlockList.WellFormed.{
  Lists, IsWellFormed, IsLoose, append_to, enqueue_list-IsWellFormed,
}
use timelock_drive.BlockList.Ids.{enqueue_list-id}
use timelock_drive.BlockList.Pop.{IsList-frame}
use timelock_drive.Scan.{free_entry, init_freelist}

-- The free blocks among `n` from `i` on.
abbrev pub free_ids : (ℕ → Bool) → ℕ → ℕ → List ℕ
free_ids marks i zero = []
free_ids marks i (suc n) = (if marks i then i ∷ [] else []) ++ free_ids marks (i + 1) n

-- The physical blocks of the entries listed.
abbrev pub ids : (ℕ → BlockEntry) → List ℕ → List ℕ
ids cell xs = map (λ p. (cell p).physical_block_id) xs

abbrev pub Below : ℕ → List ℕ → Type 0
Below b [] = Unit
Below b (x ∷ xs) = (x < b) × Below b xs

-- Well-formed lists of entries that `malloc` has returned already.
pub record Ready (s : Store) (ls : Lists) (brk : ℕ) : Type 0 where
  pub well_formed : IsWellFormed s ls
  pub free : Below brk ls.free
  pub collect : Below brk ls.collect
  pub expiry : Below brk ls.expiry
  pub not_null : 0 < brk

Below-NotIn : (b : ℕ) (xs : List ℕ) → Below b xs → NotIn b xs
Below-NotIn b [] h = tt
Below-NotIn b (x ∷ xs) h = (ground (arith, h.0), Below-NotIn b xs h.1)

Below-grow : (b : ℕ) (xs : List ℕ) → Below b xs → Below (b + 1) xs
Below-grow b [] h = tt
Below-grow b (x ∷ xs) h = (omega (arith, h.0), Below-grow b xs h.1)

Below-last : (b : ℕ) (xs : List ℕ) → Below b xs → Below (b + 1) (xs ++ b ∷ [])
Below-last b [] h = (omega arith, tt)
Below-last b (x ∷ xs) h = (omega (arith, h.0), Below-last b xs h.1)

ids_cong :
    (b : ℕ) (xs : List ℕ) (cell cell' : ℕ → BlockEntry)
    → Below b xs
    → ((q : ℕ) → q < b → (cell' q).physical_block_id ≡ (cell q).physical_block_id)
    → ids cell' xs ≡ ids cell xs
ids_cong b [] cell cell' h same = refl
ids_cong b (x ∷ xs) cell cell' h same =
    ap₂ (λ y ys. y ∷ ys) (same x h.0) (ids_cong b xs cell cell' h.1 same)

ids_last :
    (cell : ℕ → BlockEntry) (xs : List ℕ) (p : ℕ)
    → ids cell (xs ++ p ∷ []) ≡ ids cell xs ++ (cell p).physical_block_id ∷ []
ids_last cell [] p = refl
ids_last cell (x ∷ xs) p = ap (λ ys. (cell x).physical_block_id ∷ ys) (ids_last cell xs p)

-- The store with the new entry's cell.
abbrev with_entry : Store → ℕ → ℕ → Store
with_entry s brk i = record s {
  cell =
      update s.cell brk
        (record { next = 0; physical_block_id = i; keep_duration = 0; time_written = 0 });
}

module _ (s : Store) (ls : Lists) (brk i : ℕ) (r : Ready s ls brk) where
  with_entry-IsWellFormed : IsWellFormed (with_entry s brk i) ls
  with_entry-IsWellFormed =
      let v = r.well_formed in
      record {
        free = IsList-frame s.cell s.freelist brk _ ls.free (Below-NotIn brk ls.free r.free) v.free;
        collect =
            IsList-frame s.cell s.gc_list brk _ ls.collect (Below-NotIn brk ls.collect r.collect)
              v.collect;
        expiry =
            IsList-frame s.cell s.tobe_freelist brk _ ls.expiry (Below-NotIn brk ls.expiry r.expiry)
              v.expiry;
        distinct_free = v.distinct_free;
        distinct_collect = v.distinct_collect;
        distinct_expiry = v.distinct_expiry;
        free_collect = v.free_collect;
        free_expiry = v.free_expiry;
        collect_expiry = v.collect_expiry;
      }

  with_entry-IsLoose : IsLoose brk (with_entry s brk i) ls
  with_entry-IsLoose = record {
    not_null = ground (arith, r.not_null);
    unlinked = ground arith;
    not_free = Below-NotIn brk ls.free r.free;
    not_collect = Below-NotIn brk ls.collect r.collect;
    not_expiry = Below-NotIn brk ls.expiry r.expiry;
  }

  added : Store
  added = count_free brk (enqueue_list free_list brk (with_entry s brk i))

  added-Ready : Ready added (append_to free_list brk ls) (brk + 1)
  unfolding added
  added-Ready =
      let v =
        enqueue_list-IsWellFormed free_list brk (with_entry s brk i) ls with_entry-IsWellFormed
          with_entry-IsLoose in
      record {
        well_formed = record {
          free = v.free;
          collect = v.collect;
          expiry = v.expiry;
          distinct_free = v.distinct_free;
          distinct_collect = v.distinct_collect;
          distinct_expiry = v.distinct_expiry;
          free_collect = v.free_collect;
          free_expiry = v.free_expiry;
          collect_expiry = v.collect_expiry;
        };
        free = Below-last brk ls.free r.free;
        collect = Below-grow brk ls.collect r.collect;
        expiry = Below-grow brk ls.expiry r.expiry;
        not_null = omega arith;
      }

  added-id :
      (q : ℕ) → (added.cell q).physical_block_id ≡ ((with_entry s brk i).cell q).physical_block_id
  unfolding added
  added-id q = enqueue_list-id free_list brk (with_entry s brk i) q

  old-id : (q : ℕ) → q < brk → (added.cell q).physical_block_id ≡ (s.cell q).physical_block_id
  old-id q h = added-id q ∙ ground (arith, h)

  new-id : (added.cell brk).physical_block_id ≡ i
  new-id = added-id brk ∙ ground arith

  added-ids : ids added.cell (ls.free ++ brk ∷ []) ≡ ids s.cell ls.free ++ i ∷ []
  added-ids =
      ids_last added.cell ls.free brk
      ∙ ap₂ (λ xs y. xs ++ y ∷ []) (ids_cong brk ls.free s.cell added.cell r.free old-id) new-id

-- What the loop leaves, for some lists.
abbrev pub Built : (ℕ → Bool) → ℕ → ℕ → Store → Lists → Store × ℕ → Type 0
Built marks i n s ls sb =
    (ls' : Lists) × Ready sb.0 ls' sb.1
    × (ids sb.0.cell ls'.free ≡ ids s.cell ls.free ++ free_ids marks i n)

free_entry_free :
    (marks : ℕ → Bool) (i brk : ℕ) (s : Store) (ls : Lists) (r : Ready s ls brk)
    → marks i ≡ true
    → free_entry marks i (s, brk) ≡ (added s ls brk i r, brk + 1)
unfolding free_entry added
free_entry_free marks i brk s ls r h = rw h refl

free_entry_used :
    (marks : ℕ → Bool) (i brk : ℕ) (s : Store)
    → marks i ≡ false
    → free_entry marks i (s, brk) ≡ (s, brk)
unfolding free_entry
free_entry_used marks i brk s h = rw h refl

-- From well-formed lists the loop over `n` blocks from `i` on appends to the free list one entry for
-- each block marked free, in ascending order, and for no other; the lists stay well formed.
pub init_freelist_lem :
    (n i : ℕ) (marks : ℕ → Bool) (s : Store) (ls : Lists) (brk : ℕ)
    → Ready s ls brk
    → Built marks i n s ls (init_freelist marks i n (s, brk))
unfolding init_freelist
init_freelist_lem zero i marks s ls brk r = (ls, r, sym (append-nil (ids s.cell ls.free)))
init_freelist_lem (suc n) i marks s ls brk r = elim (Bool-cases (marks i)) [
  | inl free ↦
      let rest =
        init_freelist_lem n (i + 1) marks (added s ls brk i r) (append_to free_list brk ls)
          (brk + 1) (added-Ready s ls brk i r) in
      rw (init_freelist, free_entry_free marks i brk s ls r free, free)
        (
          rest.0,
          rest.1,
          rest.2
              ∙ ap (λ xs. xs ++ free_ids marks (i + 1) n) (added-ids s ls brk i r)
              ∙ append_assoc (ids s.cell ls.free) (i ∷ []) (free_ids marks (i + 1) n),
        )
  | inr used ↦
      rw (init_freelist, free_entry_used marks i brk s used, used)
        (init_freelist_lem n (i + 1) marks s ls brk r)
]
