-- ===== src/BlockList.antt =====
-- The linked lists of block entries in versioning_td_driver/src/versioning.c: the free list, the
-- list of blocks to collect, and the list of blocks whose timelock has to run out. An entry is a
-- cell of one store, a pointer its address, and NULL is 0. Entries are never freed while they are
-- on a list; `free` of an entry that has left its list changes nothing here.
pub mod Segment
pub mod Queue
pub mod WellFormed
pub mod Ids
pub mod Pop
pub mod PopTop
pub mod Expiry
pub mod StaleTail
use timelock_drive.Prelude.{
  ℕ, zero, suc, ◌+◌, ◌-◌, ◌/◌, ◌%◌, ◌^◌, Bool, true, false, Option, none, some, if◌then◌else◌, ltb,
  ◌==◌, update,
}
use timelock_drive.Constants.{blocks_per_segment}

pub record BlockEntry : Type 0 where
  pub next : ℕ
  pub physical_block_id : ℕ
  pub keep_duration : ℕ
  pub time_written : ℕ

pub record BlockEntryList : Type 0 where
  pub head : ℕ
  pub tail : ℕ

pub record SegmentInfo : Type 0 where
  pub free_blocks : ℕ
  pub hot_bit : Bool

-- Which of the three lists.
pub data ListName : Type 0 where
  free_list collect_list expiry_list : ListName

-- `freelist_size` and `free_blocks` are 32-bit words.
pub record Store : Type 0 where
  pub cell : ℕ → BlockEntry
  pub freelist : BlockEntryList
  pub gc_list : BlockEntryList
  pub tobe_freelist : BlockEntryList
  pub freelist_size : ℕ
  pub segment_list : ℕ → SegmentInfo

abbrev pub list_of : Store → ListName → BlockEntryList
list_of s free_list = s.freelist
list_of s collect_list = s.gc_list
list_of s expiry_list = s.tobe_freelist

-- `p->next = q`
abbrev pub link : (ℕ → BlockEntry) → ℕ → ℕ → ℕ → BlockEntry
link cell p q = update cell p (record (cell p) { next = q })

-- The pointers of `enqueue_list`: the cells, and the list.
abbrev pub link_last : (ℕ → BlockEntry) → BlockEntryList → ℕ → ℕ → BlockEntry
link_last cell l p = if l.tail == 0 then cell else link cell l.tail p

abbrev pub push_back : BlockEntryList → ℕ → BlockEntryList
push_back l p = record { head = if l.head == 0 then p else l.head; tail = p }

abbrev pub inc_word : ℕ → ℕ
inc_word n = (n + 1) % 2 ^ 32

abbrev pub dec_word : ℕ → ℕ
dec_word n = (n + 2 ^ 32 - 1) % 2 ^ 32

-- `enqueue_list`; the entry's own `next` is left as it is.
unfoldable pub enqueue_list : ListName → ℕ → Store → Store
enqueue_list free_list p s = record s {
  cell = link_last s.cell s.freelist p;
  freelist = push_back s.freelist p;
  freelist_size = inc_word s.freelist_size;
}
enqueue_list collect_list p s = record s {
  cell = link_last s.cell s.gc_list p;
  gc_list = push_back s.gc_list p;
}
enqueue_list expiry_list p s = record s {
  cell = link_last s.cell s.tobe_freelist p;
  tobe_freelist = push_back s.tobe_freelist p;
}

abbrev pub segment_of : Store → ℕ → ℕ
segment_of s p = (s.cell p).physical_block_id / blocks_per_segment

-- `segment_list[…]->free_blocks++` for the entry at `p`.
abbrev pub count_free : ℕ → Store → Store
count_free p s =
    let seg = s.segment_list (segment_of s p) in
    record s {
      segment_list =
          update s.segment_list (segment_of s p)
            (record seg { free_blocks = inc_word seg.free_blocks });
    }

-- `mark_reserved_block`
unfoldable pub mark_reserved_block : Bool → ℕ → Store → Store
mark_reserved_block read_only_mode p s =
    let seg = s.segment_list (segment_of s p) in
    if read_only_mode then s else record s {
      segment_list =
          update s.segment_list (segment_of s p)
            (record { free_blocks = dec_word seg.free_blocks; hot_bit = true });
    }

-- `release_reserved_block`: a NULL entry is left alone.
pub release_reserved_block : ℕ → Store → Store
unfolding enqueue_list
release_reserved_block p s =
    let s' = record s {
      cell = update s.cell p (record (s.cell p) { next = 0; keep_duration = 0; time_written = 0 });
    } in
    if p == 0 then s else count_free p (enqueue_list free_list p s')

-- The expired entry at `p` goes from the list to the free list; `prev` is the entry before it.
unfoldable pub move_entry : ℕ → ℕ → Store → Store
unfolding enqueue_list
move_entry p prev s =
    let after = (s.cell p).next in
    let s1 : Store =
      if p == s.tobe_freelist.head
      then record s { tobe_freelist = record { head = after; tail = s.tobe_freelist.tail } }
      else record s { cell = link s.cell prev after } in
    count_free p (enqueue_list free_list p s1)

-- The loop of `move_expired_to_free`, on fuel; `none` means that the fuel ran out.
unfoldable pub move_expired : ℕ → ℕ → ℕ → ℕ → Store → Option Store
move_expired zero now p prev s = none
move_expired (suc fuel) now p prev s =
    let s' = move_entry p prev s in
    let expired =
      move_expired fuel now (s'.cell p).next prev (record s' { cell = link s'.cell p 0 }) in
    let kept = move_expired fuel now (s.cell p).next p s in
    if p == 0 then some s else if ltb (s.cell p).keep_duration now then expired else kept

-- `now` is the value of `__rdtsc() >> 32`.
unfoldable pub move_expired_to_free : ℕ → ℕ → Store → Option Store
unfolding move_expired
move_expired_to_free fuel now s = move_expired fuel now s.tobe_freelist.head 0 s

-- `pop_top_of_freelist` with the list's head at hand: the entry leaves the list, and `tail` stays.
unfoldable pub pop_head : Store → ℕ × Store
pop_head s =
    let front = s.freelist.head in
    (
      front,
      record s {
        cell = link s.cell front 0;
        freelist = record { head = (s.cell front).next; tail = s.freelist.tail };
        freelist_size = dec_word s.freelist_size;
      },
    )

-- `pop_top_of_freelist`: with no free entry the expired ones are moved first.
unfoldable pub pop_top_of_freelist : ℕ → ℕ → Store → Option (ℕ × Store)
unfolding pop_head move_expired_to_free
pop_top_of_freelist fuel now s =
    let retry =
      λ (s' : Store). if s'.freelist.head == 0 then some (0, s') else some (pop_head s') in
    if s.freelist.head == 0
    then elim (move_expired_to_free fuel now s) [ none ↦ none | some s' ↦ retry s' ]
    else some (pop_head s)

-- The walk of `pop_nth_in_freelist`: the last two entries reached, or `none` past the end.
unfoldable pub walk : (ℕ → BlockEntry) → ℕ → ℕ → ℕ → Option (ℕ × ℕ)
walk cell zero prev curr = some (prev, curr)
walk cell (suc n) prev curr =
    let rest = walk cell n curr (cell curr).next in if curr == 0 then none else rest

-- `pop_nth_in_freelist`: the entry at index `n` leaves the list; 0 if there is none. `tail` stays.
unfoldable pub pop_nth_in_freelist : ℕ → Store → ℕ × Store
unfolding walk
pop_nth_in_freelist n s =
    let found = λ (prev curr : ℕ). if curr == 0 then (0, s) else (
      curr,
      record s {
        cell = link (link s.cell prev (s.cell curr).next) curr 0;
        freelist_size = dec_word s.freelist_size;
      },
    ) in
    if ltb n 2 then (0, s) else elim (walk s.cell n 0 s.freelist.head) [
      | none ↦ (0, s)
      | some (prev, curr) ↦ found prev curr
    ]
