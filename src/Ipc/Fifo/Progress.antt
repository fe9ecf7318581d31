-- ===== src/Ipc/Fifo/Progress.antt =====
-- Every step of the pipe's processes changes nothing or brings the transfer nearer to its end.
use native.Mathlib.Decide.{dec_lt}
use timelock_drive.Prelude.{
  ℕ, zero, suc, ◌+◌, ◌*◌, ◌≤◌, ◌<◌, ◌≡◌, refl, ap, ◌⊎◌, inl, inr, List, [], ◌∷◌, ◌++◌, length,
  length-append, length-drop, arith,
}
use timelock_drive.Ipc.{
  sub_u32, to_copy, copy_out, WritePhase, loading_head, filling, publishing, ReadPhase,
  loading_tail, draining, releasing, System, write_step, read_step, step, run, Turn, writer, reader,
}
use timelock_drive.Ipc.Window.{copy_out-window}
use timelock_drive.Ipc.Inv.{Inv, in_flight, length-in_flight, length-window, step-Inv}

abbrev write_lag : WritePhase → ℕ
write_lag loading_head = 2
write_lag (filling h) = 1
write_lag (publishing n) = 0

abbrev read_lag : ReadPhase → ℕ
read_lag loading_tail = 1
read_lag (draining t) = 0
read_lag (releasing n) = 2

-- What falls with every step that changes the state.
abbrev pub lag : System → ℕ
lag s = 3 * length s.unsent + write_lag s.write_phase + (3 * s.wanted + read_lag s.read_phase)

-- The reader has got, and still wants, `total` bytes together.
abbrev pub Counted : ℕ → System → Type 0
Counted total s = length s.got + s.wanted ≡ total

abbrev Moves : System → System → Type 0
Moves s s' = (s' ≡ s) ⊎ (lag s' < lag s)

module _ (input : List ℕ) (s : System) (v : Inv input s) where
  write-Moves : (p : WritePhase) → s.write_phase ≡ p → Moves s (write_step p s)
  unfolding write_step
  write-Moves loading_head e = ground arith
  write-Moves (filling h) e = ground arith
  write-Moves (publishing n) e = ground (arith, length-drop n s.unsent)

  read-Moves : (p : ReadPhase) → s.read_phase ≡ p → Moves s (read_step p s)
  unfolding read_step
  read-Moves loading_tail e = ground arith
  read-Moves (draining t) e = ground arith
  read-Moves (releasing n) e = ground arith

  read-Counted :
      (total : ℕ) (p : ReadPhase)
      → s.read_phase ≡ p
      → Counted total s
      → Counted total (read_step p s) × ((read_step p s).wanted ≤ s.wanted)
  unfolding read_step
  read-Counted total loading_tail e c = ground arith
  read-Counted total (draining t) e c =
      let n = to_copy (sub_u32 t s.pipe.head) s.wanted in
      ground (
        arith,
        length-append s.got (copy_out s.pipe.buf s.pipe.head n),
        copy_out-window s.pipe.buf s.pipe.head n,
        length-window s.pipe.buf s.pipe.head n,
      )
  read-Counted total (releasing n) e c = ground arith

  write-Counted :
      (total : ℕ) (p : WritePhase)
      → Counted total s
      → Counted total (write_step p s) × ((write_step p s).wanted ≤ s.wanted)
  unfolding write_step
  write-Counted total loading_head c = ground arith
  write-Counted total (filling h) c = ground arith
  write-Counted total (publishing n) c = ground arith

  -- Unless the transfer is complete, the writer or the reader can move.
  can_move :
      (p : WritePhase) (q : ReadPhase)
      → s.write_phase ≡ p
      → s.read_phase ≡ q
      → Counted (length input) s
      → 0 < s.wanted
      → (lag (write_step p s) < lag s) ⊎ (lag (read_step q s) < lag s)
  unfolding write_step read_step
  can_move loading_head loading_tail e f c h = ground (
    arith,
    length-in_flight s,
    length-append s.got (in_flight s ++ s.unsent),
    length-append (in_flight s) s.unsent,
    ap length v.conserved,
  )
  can_move (filling k) q e f c h = ground arith
  can_move (publishing n) q e f c h = ground (arith, length-drop n s.unsent)
  can_move loading_head (draining t) e f c h = ground arith
  can_move loading_head (releasing n) e f c h = ground arith

module _ (input : List ℕ) where
  step-Moves : (s : System) (t : Turn) → Inv input s → Moves s (step s t)
  unfolding step
  step-Moves s writer v = write-Moves input s v s.write_phase refl
  step-Moves s reader v = read-Moves input s v s.read_phase refl

  pub step-Counted :
      (total : ℕ) (s : System) (t : Turn)
      → Inv input s
      → Counted total s
      → Counted total (step s t) × ((step s t).wanted ≤ s.wanted)
  unfolding step
  step-Counted total s writer v c = write-Counted input s v total s.write_phase c
  step-Counted total s reader v c = read-Counted input s v total s.read_phase refl c

  step-lag-lt :
      (s : System)
      → Inv input s
      → Counted (length input) s
      → 0 < s.wanted
      → (lag (step s writer) < lag s) ⊎ (lag (step s reader) < lag s)
  unfolding step
  step-lag-lt s v c h = can_move input s v s.write_phase s.read_phase refl refl c h

  -- A round brings an unfinished transfer nearer to its end.
  round-lag-lt :
      (s : System)
      → Inv input s
      → Counted (length input) s
      → 0 < s.wanted
      → lag (step (step s writer) reader) < lag s
  round-lag-lt s v c h = elim (step-Moves s writer v) [
    | inl same ↦ rw same (elim (step-lag-lt s v c h) [
      | inl less ↦ absurd (omega (arith, ap (λ (u : System). lag u) same))
      | inr less ↦ less
    ])
    | inr less ↦ elim (step-Moves (step s writer) reader (step-Inv input s writer v)) [
      | inl same ↦ rw same less
      | inr more ↦ omega arith
    ]
  ]

  round-next :
      (n : ℕ) (s : System)
      → Inv input s
      → Counted (length input) s
      → (s.wanted ≡ 0) ⊎ (lag s < suc n)
      → ((step (step s writer) reader).wanted ≡ 0) ⊎ (lag (step (step s writer) reader) < n)
  round-next n s v c h =
      let c1 = step-Counted (length input) s writer v c in
      let c2 =
        step-Counted (length input) (step s writer) reader (step-Inv input s writer v) c1.0 in
      elim (dec_lt 0 s.wanted) [
        | yes some_left ↦ elim h [
          | inl none_left ↦ absurd (omega arith)
          | inr small ↦ inr (omega (arith, round-lag-lt s v c some_left))
        ]
        | no none_left ↦ inl (omega arith)
      ]

-- `n` rounds in which each process moves once.
abbrev pub rounds : ℕ → List Turn
rounds zero = []
rounds (suc n) = writer ∷ reader ∷ rounds n

pub wanted-rounds :
    (input : List ℕ) (n : ℕ) (s : System)
    → Inv input s
    → Counted (length input) s
    → (s.wanted ≡ 0) ⊎ (lag s < n)
    → (run s (rounds n)).wanted ≡ 0
unfolding run
wanted-rounds input zero s v c h = ground arith
wanted-rounds input (suc n) s v c h =
    let v1 = step-Inv input s writer v in
    let c1 = step-Counted input (length input) s writer v c in
    let c2 = step-Counted input (length input) (step s writer) reader v1 c1.0 in
    wanted-rounds input n (step (step s writer) reader) (step-Inv input (step s writer) reader v1)
      c2.0 (round-next input n s v c h)
