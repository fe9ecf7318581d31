-- ===== src/Ipc/Fifo.antt =====
-- The pipe as a first-in first-out queue, for every interleaving, and its delivery under a fair one.
pub mod Progress
use timelock_drive.Prelude.{
  ℕ, ◌+◌, ◌*◌, ◌≤◌, ◌≡◌, sym, ap, ◌∙◌, inr, List, [], ◌∷◌, ◌++◌, length, length-append, append-nil,
  arith,
}
use timelock_drive.Ipc.{ring_cap, System, step, run, Turn, writer, reader, start}
use timelock_drive.Ipc.Inv.{Inv, in_flight, avail, step-Inv, start-Inv}
use Progress.{Counted, rounds, step-Counted, wanted-rounds}

run-Inv : (input : List ℕ) (s : System) (ts : List Turn) → Inv input s → Inv input (run s ts)
unfolding run
run-Inv input s [] v = v
run-Inv input s (t ∷ ts) v = run-Inv input (step s t) ts (step-Inv input s t v)

-- Whatever the interleaving of the two processes, the bytes that `shm_pipe_read` has put into its
-- buffer, then the published bytes that it has not copied yet, then the bytes that
-- `shm_pipe_write` has not published, are the bytes handed to `shm_pipe_write`, in order; and the
-- ring never holds more than `IPC_RING_CAP` published bytes.
pub run_fifo :
    (input : List ℕ) (wanted : ℕ) (ts : List Turn)
    → let s = run (start input wanted) ts in
      (s.got ++ (in_flight s ++ s.unsent) ≡ input) × (avail s ≤ ring_cap)
run_fifo input wanted ts =
    let v = run-Inv input (start input wanted) ts (start-Inv input wanted) in
    (v.conserved, v.bounded)

run-Counted :
    (input : List ℕ) (total : ℕ) (s : System) (ts : List Turn)
    → Inv input s
    → Counted total s
    → Counted total (run s ts)
unfolding run
run-Counted input total s [] v c = c
run-Counted input total s (t ∷ ts) v c =
    run-Counted input total (step s t) ts (step-Inv input s t v)
      (step-Counted input total s t v c).0

append-eq_nil : (g r input : List ℕ) → g ++ r ≡ input → length g ≡ length input → g ≡ input
append-eq_nil g [] input e h = sym (append-nil g) ∙ e
append-eq_nil g (x ∷ r) input e h =
    absurd (omega (arith, ap (λ (l : List ℕ). length l) e, length-append g (x ∷ r)))

-- A write of any length met by a read of that length ends: after `6 * n + 4` rounds in which each
-- process moves once, the reader has every byte, in order, and wants no more.
pub run_delivers :
    (input : List ℕ)
    → let s = run (start input (length input)) (rounds (6 * length input + 4)) in
      (s.got ≡ input) × (s.wanted ≡ 0)
run_delivers input =
    let n = 6 * length input + 4 in
    let s0 = start input (length input) in
    let v0 = start-Inv input (length input) in
    let none_left = wanted-rounds input n s0 v0 (omega arith) (inr (omega arith)) in
    let v = run-Inv input s0 (rounds n) v0 in
    let c = run-Counted input (length input) s0 (rounds n) v0 (omega arith) in
    (append-eq_nil _ _ input v.conserved (omega arith), none_left)
