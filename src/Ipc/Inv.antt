-- ===== src/Ipc/Inv.antt =====
-- The invariant of the pipe under every interleaving of its two processes.
use timelock_drive.Prelude.{
  ℕ, zero, suc, ◌+◌, ◌-◌, ◌^◌, ◌≤◌, ◌<◌, ◌≡◌, refl, ap, List, ◌++◌, length, take, drop,
  take-append-drop, append_assoc, arith,
}
use timelock_drive.Ipc.{
  ring_cap, add_u32, sub_u32, to_copy, WritePhase, loading_head, filling, publishing, ReadPhase,
  loading_tail, draining, releasing, System, write_step, read_step, step, Turn, writer, reader,
  start,
}
use timelock_drive.Ipc.Window.{
  window, window-cong, window-split, window-copy_in, window-copy_in_below, copy_out-window,
}

-- How many bytes are published and not yet released.
abbrev pub avail : System → ℕ
avail s = sub_u32 s.pipe.tail s.pipe.head

-- How many of those the consumer has copied out already.
abbrev pub taken : ReadPhase → ℕ
taken loading_tail = 0
taken (draining t) = 0
taken (releasing n) = n

-- The published bytes that the consumer has not copied out.
abbrev pub in_flight : System → List ℕ
in_flight s = window s.pipe.buf (s.pipe.head + taken s.read_phase) (avail s - taken s.read_phase)

-- The `head` that the producer has loaded may be old, but it allows no more than there is room for.
abbrev pub WriterOk : WritePhase → System → Type 0
WriterOk loading_head s = Unit {0}
WriterOk (filling h) s =
    (h < 2 ^ 32)
    × (avail s ≤ sub_u32 s.pipe.tail h)
    × (sub_u32 s.pipe.tail h < ring_cap)
    × (0 < length s.unsent)
WriterOk (publishing n) s =
    (n + avail s ≤ ring_cap)
    × (n ≤ length s.unsent)
    × (0 < n)
    × (window s.pipe.buf s.pipe.tail n ≡ take n s.unsent)

-- The `tail` that the consumer has loaded may be old, but the bytes below it are published.
abbrev pub ReaderOk : ReadPhase → System → Type 0
ReaderOk loading_tail s = Unit {0}
ReaderOk (draining t) s =
    (t < 2 ^ 32) × (0 < sub_u32 t s.pipe.head) × (sub_u32 t s.pipe.head ≤ avail s) × (0 < s.wanted)
ReaderOk (releasing n) s = (0 < n) × (n ≤ avail s)

pub record Inv (input : List ℕ) (s : System) : Type 0 where
  pub head_word : s.pipe.head < 2 ^ 32
  pub tail_word : s.pipe.tail < 2 ^ 32
  pub bounded : avail s ≤ ring_cap
  pub writing : WriterOk s.write_phase s
  pub reading : ReaderOk s.read_phase s
  pub conserved : s.got ++ (in_flight s ++ s.unsent) ≡ input

regroup : (g c w u : List ℕ) → (g ++ c) ++ (w ++ u) ≡ g ++ ((c ++ w) ++ u)
regroup g c w u = simp append_assoc

module _ (input : List ℕ) (s : System) where
  write_load-Inv :
      s.write_phase ≡ loading_head → Inv input s → Inv input (write_step loading_head s)
  unfolding write_step
  write_load-Inv e v = ground arith

  write_fill-Inv :
      (h : ℕ) → s.write_phase ≡ filling h → Inv input s → Inv input (write_step (filling h) s)
  unfolding write_step
  write_fill-Inv h e v =
      let n = to_copy (ring_cap - sub_u32 s.pipe.tail h) (length s.unsent) in
      ground (
        arith,
        window-copy_in s.pipe.buf s.pipe.tail s.unsent n,
        window-copy_in_below s.pipe.buf s.pipe.tail s.unsent n (s.pipe.head + taken s.read_phase)
            (avail s - taken s.read_phase),
      )

  write_publish-Inv :
      (n : ℕ) → s.write_phase ≡ publishing n → Inv input s → Inv input (write_step (publishing n) s)
  unfolding write_step
  write_publish-Inv n e v =
      let k = taken s.read_phase in
      let from = s.pipe.head + k in
      ground (
        arith,
        window-split s.pipe.buf from (avail s - k) (avail s + n - k),
        window-cong s.pipe.buf (from + (avail s - k)) s.pipe.tail n,
        append_assoc (window s.pipe.buf from (avail s - k)) (take n s.unsent) (drop n s.unsent),
        take-append-drop n s.unsent,
      )

  read_load-Inv : s.read_phase ≡ loading_tail → Inv input s → Inv input (read_step loading_tail s)
  unfolding read_step
  read_load-Inv e v = ground arith

  read_drain-Inv :
      (t : ℕ) → s.read_phase ≡ draining t → Inv input s → Inv input (read_step (draining t) s)
  unfolding read_step
  read_drain-Inv t e v =
      let n = to_copy (sub_u32 t s.pipe.head) s.wanted in
      ground (
        arith,
        copy_out-window s.pipe.buf s.pipe.head n,
        window-split s.pipe.buf (s.pipe.head + 0) n (avail s - 0),
        window-cong s.pipe.buf (s.pipe.head + 0) s.pipe.head n,
        window-cong s.pipe.buf (s.pipe.head + 0 + n) (s.pipe.head + n) (avail s - n),
        regroup s.got (window s.pipe.buf s.pipe.head n)
            (window s.pipe.buf (s.pipe.head + n) (avail s - n)) s.unsent,
      )

  read_release-Inv :
      (n : ℕ) → s.read_phase ≡ releasing n → Inv input s → Inv input (read_step (releasing n) s)
  unfolding read_step
  read_release-Inv n e v =
      ground
        (arith, window-cong s.pipe.buf (s.pipe.head + n) (add_u32 s.pipe.head n + 0) (avail s - n))

-- Every step of either process keeps the invariant.
pub step-Inv : (input : List ℕ) (s : System) (t : Turn) → Inv input s → Inv input (step s t)
unfolding step
step-Inv input s writer v = go s.write_phase refl
  where
    go : (p : WritePhase) → s.write_phase ≡ p → Inv input (write_step p s)
    go loading_head e = write_load-Inv input s e v
    go (filling h) e = write_fill-Inv input s h e v
    go (publishing n) e = write_publish-Inv input s n e v
step-Inv input s reader v = go s.read_phase refl
  where
    go : (p : ReadPhase) → s.read_phase ≡ p → Inv input (read_step p s)
    go loading_tail e = read_load-Inv input s e v
    go (draining t) e = read_drain-Inv input s t e v
    go (releasing n) e = read_release-Inv input s n e v

pub start-Inv : (input : List ℕ) (wanted : ℕ) → Inv input (start input wanted)
start-Inv input wanted = ground arith

pub length-window : (buf : ℕ → ℕ) (p n : ℕ) → length (window buf p n) ≡ n
length-window buf p zero = refl
length-window buf p (suc n) = ap suc (length-window buf (p + 1) n)

pub length-in_flight : (s : System) → length (in_flight s) ≡ avail s - taken s.read_phase
length-in_flight s =
    length-window s.pipe.buf (s.pipe.head + taken s.read_phase) (avail s - taken s.read_phase)
