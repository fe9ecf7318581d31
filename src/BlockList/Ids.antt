-- ===== src/BlockList/Ids.antt =====
-- The list operations keep every entry's physical block.
use timelock_drive.Prelude.{ℕ, ◌≡◌, refl, Bool, true, false, some, ◌==◌, arith}
use timelock_drive.BlockList.{
  Store, ListName, free_list, collect_list, expiry_list, enqueue_list, mark_reserved_block,
  pop_head, pop_top_of_freelist,
}

pub mark_reserved_block-cell :
    (b : Bool) (p : ℕ) (s : Store) → (mark_reserved_block b p s).cell ≡ s.cell
unfolding mark_reserved_block
mark_reserved_block-cell true p s = refl
mark_reserved_block-cell false p s = refl

pub enqueue_list-id :
    (which : ListName) (p : ℕ) (s : Store) (q : ℕ)
    → ((enqueue_list which p s).cell q).physical_block_id ≡ (s.cell q).physical_block_id
unfolding enqueue_list
enqueue_list-id free_list p s q = ground arith
enqueue_list-id collect_list p s q = ground arith
enqueue_list-id expiry_list p s q = ground arith

-- With an entry at its head, `pop_top_of_freelist` takes it.
pub pop_top-front :
    (fuel now : ℕ) (s : Store)
    → (s.freelist.head == 0) ≡ false
    → pop_top_of_freelist fuel now s ≡ some (s.freelist.head, (pop_head s).1)
unfolding pop_top_of_freelist pop_head
pop_top-front fuel now s h = rw h refl

pub pop_head-id :
    (s : Store) (q : ℕ) → ((pop_head s).1.cell q).physical_block_id ≡ (s.cell q).physical_block_id
unfolding pop_head
pop_head-id s q = ground arith
