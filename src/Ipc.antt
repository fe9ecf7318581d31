-- ===== src/Ipc.antt =====
-- versioning_td_driver/src/ipc_transport.c: the shared-memory pipe of one producer and one
-- consumer (`ShmPipe` of include/ipc_transport.h). The producer and the consumer run in two
-- processes; the steps below are the accesses that each makes to the shared words, and a schedule
-- says in which order they happen. A futex wait is a load that is made again.
pub mod Window
pub mod Inv
pub mod Fifo
use timelock_drive.Prelude.{
  ℕ, zero, suc, ◌+◌, ◌-◌, ◌*◌, ◌%◌, ◌^◌, Bool, List, [], ◌∷◌, ◌++◌, length, drop, if◌then◌else◌,
  ltb, leb, ◌==◌, memcpy,
}

-- IPC_RING_CAP, 4 MiB.
abbrev pub ring_cap : ℕ
ring_cap = 4 * 1024 * 1024

-- `uint32_t` addition and subtraction.
abbrev pub add_u32 : ℕ → ℕ → ℕ
add_u32 a b = (a + b) % 2 ^ 32

abbrev pub sub_u32 : ℕ → ℕ → ℕ
sub_u32 a b = (a + 2 ^ 32 - b) % 2 ^ 32

-- The counters run freely through `uint32_t`; the mask `IPC_RING_CAP - 1` is `% ring_cap`.
pub record ShmPipe : Type 0 where
  pub head : ℕ
  pub tail : ℕ
  pub buf : ℕ → ℕ

-- `to_copy` of both loops: what the ring allows, or what remains if that is less.
abbrev pub to_copy : ℕ → ℕ → ℕ
to_copy room remaining = if ltb room remaining then room else remaining

-- `first`: how many of `n` bytes fit between the index and the end of the ring.
abbrev pub first_part : ℕ → ℕ → ℕ
first_part pos n = if ltb n (ring_cap - pos % ring_cap) then n else ring_cap - pos % ring_cap

-- The two copies of `shm_pipe_write`.
pub copy_in : (ℕ → ℕ) → ℕ → List ℕ → ℕ → ℕ → ℕ
copy_in buf tail src n =
    let first = first_part tail n in
    let buf1 = memcpy buf (tail % ring_cap) src first in
    if ltb first n then memcpy buf1 0 (drop first src) (n - first) else buf1

-- `memcpy(out, buf + i, n)`, as the bytes copied.
pub bytes_from : (ℕ → ℕ) → ℕ → ℕ → List ℕ
bytes_from buf i zero = []
bytes_from buf i (suc n) = buf i ∷ bytes_from buf (i + 1) n

-- The two copies of `shm_pipe_read`.
pub copy_out : (ℕ → ℕ) → ℕ → ℕ → List ℕ
unfolding bytes_from
copy_out buf head n =
    let first = first_part head n in
    bytes_from buf (head % ring_cap) first
    ++ (if ltb first n then bytes_from buf 0 (n - first) else [])

-- Where the producer stands in its loop: about to load `head`, about to copy with the `head` that
-- it has loaded, or about to store `tail` after copying that many bytes.
pub data WritePhase : Type 0 where
  loading_head : WritePhase
  filling : ℕ → WritePhase
  publishing : ℕ → WritePhase

-- The consumer, likewise.
pub data ReadPhase : Type 0 where
  loading_tail : ReadPhase
  draining : ℕ → ReadPhase
  releasing : ℕ → ReadPhase

-- One pipe, a call of `shm_pipe_write` with `unsent` left of its bytes, and a call of
-- `shm_pipe_read` that has put `got` into its buffer and has `wanted` bytes to go.
pub record System : Type 0 where
  pub pipe : ShmPipe
  pub unsent : List ℕ
  pub write_phase : WritePhase
  pub got : List ℕ
  pub wanted : ℕ
  pub read_phase : ReadPhase

-- One step of `shm_pipe_write`. With the ring full, or nothing left to write, nothing changes.
pub write_step : WritePhase → System → System
unfolding copy_in
write_step loading_head s =
    if leb ring_cap (sub_u32 s.pipe.tail s.pipe.head)
    then s
    else if length s.unsent == 0
    then s
    else record s { write_phase = filling s.pipe.head }
write_step (filling h) s =
    let n = to_copy (ring_cap - sub_u32 s.pipe.tail h) (length s.unsent) in
    record s {
      pipe = record {
        head = s.pipe.head;
        tail = s.pipe.tail;
        buf = copy_in s.pipe.buf s.pipe.tail s.unsent n;
      };
      write_phase = publishing n;
    }
write_step (publishing n) s = record s {
  pipe = record { head = s.pipe.head; tail = add_u32 s.pipe.tail n; buf = s.pipe.buf };
  unsent = drop n s.unsent;
  write_phase = loading_head;
}

-- One step of `shm_pipe_read`. With the ring empty, or nothing left to read, nothing changes.
pub read_step : ReadPhase → System → System
unfolding copy_out
read_step loading_tail s =
    if s.pipe.tail == s.pipe.head
    then s
    else if s.wanted == 0
    then s
    else record s { read_phase = draining s.pipe.tail }
read_step (draining t) s =
    let n = to_copy (sub_u32 t s.pipe.head) s.wanted in
    record s {
      got = s.got ++ copy_out s.pipe.buf s.pipe.head n;
      wanted = s.wanted - n;
      read_phase = releasing n;
    }
read_step (releasing n) s = record s {
  pipe = record { head = add_u32 s.pipe.head n; tail = s.pipe.tail; buf = s.pipe.buf };
  read_phase = loading_tail;
}

-- Which process moves next.
pub data Turn : Type 0 where
  writer reader : Turn

pub step : System → Turn → System
unfolding write_step read_step
step s writer = write_step s.write_phase s
step s reader = read_step s.read_phase s

-- A schedule: any interleaving of the two.
pub run : System → List Turn → System
unfolding step
run s [] = s
run s (t ∷ ts) = run (step s t) ts

-- The start: a fresh channel, whose words `ipc_create` zeroes.
abbrev pub start : List ℕ → ℕ → System
start input wanted = record {
  pipe = record { head = 0; tail = 0; buf = λ _. 0 };
  unsent = input;
  write_phase = loading_head;
  got = [];
  wanted = wanted;
  read_phase = loading_tail;
}
