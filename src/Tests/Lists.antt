-- ===== src/Tests/Lists.antt =====
-- The lists of block entries at concrete stores.
use timelock_drive.Prelude.{
  ℕ, ◌+◌, ◌≡◌, refl, false, none, some, [], ◌∷◌, if◌then◌else◌, ltb, arith,
}
use timelock_drive.BlockList.{
  SegmentInfo, Store, free_list, collect_list, expiry_list, enqueue_list, pop_head,
  pop_top_of_freelist, pop_nth_in_freelist, move_expired_to_free, move_expired, move_entry,
}
use timelock_drive.BlockList.Segment.{Seg}
use timelock_drive.BlockList.WellFormed.{
  Lists, IsWellFormed, IsLoose, append_to, enqueue_list-IsWellFormed,
}
use timelock_drive.BlockList.Pop.{pop_nth_lem}
use timelock_drive.BlockList.PopTop.{pop_top_lem}
use timelock_drive.BlockList.Expiry.{Moved, move_expired_to_free_lem}
use timelock_drive.BlockList.StaleTail.{stale_tail_frees_locked, stale_tail_shares_free}

abbrev segments : ℕ → SegmentInfo
segments i = record { free_blocks = 9; hot_bit = false }

-- The entries 1 to 4 are free, 5 is to be collected, 6 waits.
abbrev pub four_free : Store
four_free = record {
  cell = λ p. record {
    next = if ltb p 4 then p + 1 else 0;
    physical_block_id = p + 10;
    keep_duration = 60;
    time_written = 0;
  };
  freelist = record { head = 1; tail = 4 };
  gc_list = record { head = 5; tail = 5 };
  tobe_freelist = record { head = 6; tail = 6 };
  freelist_size = 4;
  segment_list = segments;
}

abbrev four_lists : Lists
four_lists = record { free = 1 ∷ 2 ∷ 3 ∷ 4 ∷ []; collect = 5 ∷ []; expiry = 6 ∷ [] }

four_free-IsWellFormed : IsWellFormed four_free four_lists
four_free-IsWellFormed = record {
  free = record { chain = ground arith; ends = refl };
  collect = record { chain = ground arith; ends = refl };
  expiry = record { chain = ground arith; ends = refl };
  distinct_free = ground arith;
  distinct_collect = ground arith;
  distinct_expiry = ground arith;
  free_collect = ground arith;
  free_expiry = ground arith;
  collect_expiry = ground arith;
}

seven-IsLoose : IsLoose 7 four_free four_lists
seven-IsLoose = record {
  not_null = ground arith;
  unlinked = refl;
  not_free = ground arith;
  not_collect = ground arith;
  not_expiry = ground arith;
}

enqueue_list-IsWellFormed_example :
    IsWellFormed (enqueue_list collect_list 7 four_free) (append_to collect_list 7 four_lists)
enqueue_list-IsWellFormed_example =
    enqueue_list-IsWellFormed collect_list 7 four_free four_lists four_free-IsWellFormed
      seven-IsLoose

pop_nth_lem_example :
    let (p, s') = pop_nth_in_freelist 2 four_free in
    let ls' = record four_lists { free = 1 ∷ 2 ∷ 4 ∷ [] } in
    (p ≡ 3) × IsWellFormed s' ls' × IsLoose 3 s' ls'
pop_nth_lem_example =
    pop_nth_lem (1 ∷ []) 2 3 4 [] four_free four_lists four_free-IsWellFormed refl (omega arith)

pop_top_lem_example :
    let ls' = record four_lists { free = 2 ∷ 3 ∷ 4 ∷ [] } in
    (p : ℕ) × (s' : Store) × (pop_top_of_freelist 0 0 four_free ≡ some (p, s'))
    × (p ≡ 1)
    × IsWellFormed s' ls'
    × IsLoose 1 s' ls'
pop_top_lem_example =
    pop_top_lem 0 0 1 2 (3 ∷ 4 ∷ []) four_free four_lists four_free-IsWellFormed refl

move_expired_to_free_lem_example :
    (s' : Store) × (move_expired_to_free 2 100 four_free ≡ some s')
    × Moved 100 four_free [] (6 ∷ []) (1 ∷ 2 ∷ 3 ∷ 4 ∷ []) (5 ∷ []) 6 s'
move_expired_to_free_lem_example =
    move_expired_to_free_lem 2 100 four_free four_lists four_free-IsWellFormed (omega arith)

-- The store after the entry 6 has been moved.
abbrev moved_store : Store
moved_store = elim (move_expired_to_free 2 100 four_free) [ none ↦ four_free | some s ↦ s ]

moved : move_expired_to_free 2 100 four_free ≡ some moved_store
unfolding move_expired_to_free move_expired move_entry enqueue_list
moved = refl

moved-end : (moved_store.cell 7).next ≡ 0
unfolding move_expired_to_free move_expired move_entry enqueue_list
moved-end = refl

stale_tail_frees_locked_example :
    let s'' = enqueue_list expiry_list 7 moved_store in
    Seg s''.cell s''.freelist.head (1 ∷ 2 ∷ 3 ∷ 4 ∷ 6 ∷ 7 ∷ []) 0
stale_tail_frees_locked_example =
    stale_tail_frees_locked 2 100 7 6 [] four_free moved_store four_lists four_free-IsWellFormed
      refl refl (omega arith) moved (ground arith) (ground arith) (ground arith) moved-end

-- Only the entry 1 is free.
abbrev one_free : Store
one_free = record {
  cell = λ p. record { next = 0; physical_block_id = p + 10; keep_duration = 60; time_written = 0 };
  freelist = record { head = 1; tail = 1 };
  gc_list = record { head = 5; tail = 5 };
  tobe_freelist = record { head = 6; tail = 6 };
  freelist_size = 1;
  segment_list = segments;
}

abbrev one_lists : Lists
one_lists = record { free = 1 ∷ []; collect = 5 ∷ []; expiry = 6 ∷ [] }

one_free-IsWellFormed : IsWellFormed one_free one_lists
one_free-IsWellFormed = record {
  free = record { chain = ground arith; ends = refl };
  collect = record { chain = ground arith; ends = refl };
  expiry = record { chain = ground arith; ends = refl };
  distinct_free = ground arith;
  distinct_collect = ground arith;
  distinct_expiry = ground arith;
  free_collect = ground arith;
  free_expiry = ground arith;
  collect_expiry = ground arith;
}

seven-IsLoose_one : IsLoose 7 one_free one_lists
seven-IsLoose_one = record {
  not_null = ground arith;
  unlinked = refl;
  not_free = ground arith;
  not_collect = ground arith;
  not_expiry = ground arith;
}

stale_tail_shares_free_example :
    let s1 = (pop_head one_free).1 in
    let s2 = enqueue_list free_list 7 s1 in
    let s3 = enqueue_list collect_list 1 s2 in
    Seg s3.cell s3.gc_list.head (5 ∷ 1 ∷ 7 ∷ []) 0 × Seg s3.cell s3.freelist.head (7 ∷ []) 0
stale_tail_shares_free_example =
    stale_tail_shares_free 1 7 one_free one_lists one_free-IsWellFormed refl seven-IsLoose_one
      (ground arith)
