-- ===== src/Tests/Io.antt =====
-- The shared-memory pipe, the TCP loops and the read path, at concrete inputs.
use timelock_drive.Prelude.{
  ℕ, ◌+◌, ◌*◌, ◌-◌, ◌<◌, ◌≤◌, ◌≡◌, refl, false, Option, none, some, List, [], ◌∷◌, ◌++◌, map,
  if◌then◌else◌, ltb, ◌==◌, arith, ◌&&◌,
}
use timelock_drive.Constants.{DataRange, block_size}
use timelock_drive.Ipc.{run, writer, reader, start, step, ring_cap}
use timelock_drive.Ipc.Inv.{Inv, in_flight, avail, step-Inv, start-Inv}
use timelock_drive.Ipc.Fifo.{run_fifo, run_delivers}
use timelock_drive.Ipc.Fifo.Progress.{rounds}
use timelock_drive.Tcp.{
  SendCall, sent, send_interrupted, RecvCall, received, recv_interrupted, ok, send_all_tcp,
  recv_all_tcp, Address, refused, connected, or_connect, connect_loop, send_loop, send_message,
  max_msg_length,
}
use timelock_drive.Tcp.Loops.{SendsWithin, stream, Receives, send_all-recv_all}
use timelock_drive.Tcp.Message.{send_message_lem}
use timelock_drive.Ranges.{merge_ranges}
use timelock_drive.Ranges.Blocks.{expand, slice}
use timelock_drive.Ranges.Merge.{Separated, merge_ranges-expand}
use timelock_drive.Read.{ReadMessage, done, failed, Triggers, device_read, device_read_wrapper}
use timelock_drive.Read.Coalesce.{Fits}
use timelock_drive.Read.Scatter.{contents, device_read-contents, device_read_short}
use timelock_drive.Read.Chunks.{device_read_wrapper-contents}

abbrev three_bytes : List ℕ
three_bytes = 7 ∷ 8 ∷ 9 ∷ []

run_delivers_example :
    let s = run (start three_bytes 3) (rounds 22) in (s.got ≡ three_bytes) × (s.wanted ≡ 0)
run_delivers_example = run_delivers three_bytes

run_fifo_example :
    let s = run (start three_bytes 2) (writer ∷ writer ∷ writer ∷ reader ∷ reader ∷ writer ∷ []) in
    (s.got ++ (in_flight s ++ s.unsent) ≡ three_bytes) × (avail s ≤ ring_cap)
run_fifo_example = run_fifo three_bytes 2 (writer ∷ writer ∷ writer ∷ reader ∷ reader ∷ writer ∷ [])

step-Inv_example : Inv three_bytes (step (start three_bytes 3) writer)
step-Inv_example = step-Inv three_bytes (start three_bytes 3) writer (start-Inv three_bytes 3)

abbrev partial_sends : List SendCall
partial_sends = sent 1 ∷ send_interrupted ∷ sent 2 ∷ []

abbrev partial_recvs : List RecvCall
partial_recvs = received (7 ∷ 8 ∷ []) ∷ recv_interrupted ∷ received (9 ∷ []) ∷ []

partial_sends-ok : (send_all_tcp three_bytes partial_sends).status ≡ ok
unfolding send_all_tcp send_loop
partial_sends-ok = refl

partial_sends-wire : stream partial_recvs ≡ (send_all_tcp three_bytes partial_sends).wire
unfolding send_all_tcp send_loop
partial_sends-wire = refl

partial_sends-within : SendsWithin 3 0 partial_sends
partial_sends-within = ground arith

partial_recvs-Receives : Receives partial_recvs
partial_recvs-Receives = ground arith

send_all-recv_all_example : recv_all_tcp 3 partial_recvs ≡ record { status = ok; buf = three_bytes }
send_all-recv_all_example =
    send_all-recv_all three_bytes partial_sends partial_recvs partial_sends-within partial_sends-ok
      partial_recvs-Receives partial_sends-wire

abbrev second_address : List Address
second_address = refused ∷ connected 4 ∷ []

message-ok : (send_message false second_address (λ _. partial_sends) three_bytes none).status ≡ ok
unfolding send_message send_all_tcp send_loop connect_loop
message-ok = refl

message-sock :
    (send_message false second_address (λ _. partial_sends) three_bytes none).sock ≡ some 4
unfolding send_message send_all_tcp send_loop connect_loop
message-sock = refl

send_message_lem_example :
    (or_connect none second_address ≡ some 4)
    × ((send_message false second_address (λ _. partial_sends) three_bytes none).wire ≡ three_bytes)
    × (3 ≤ max_msg_length)
send_message_lem_example =
    send_message_lem second_address (λ _. partial_sends) three_bytes none 4 partial_sends-within
      message-ok message-sock

abbrev two_neighbours : ℕ → DataRange
two_neighbours i =
    if i == 0
    then record { pba = 10; num_blocks = 2 }
    else if i == 1
    then record { pba = 12; num_blocks = 3 }
    else record { pba = 20; num_blocks = 1 }

merge_ranges-expand_example :
    let (a', n) = merge_ranges two_neighbours 3 in
    (expand (slice a' 0 n) ≡ expand (slice two_neighbours 0 3)) × Separated a' (n - 1)
merge_ranges-expand_example = merge_ranges-expand two_neighbours 3 (ground arith) (omega arith)

-- The logical blocks 1 and 2 have a mapping.
abbrev two_mapped : ℕ → Option ℕ
two_mapped i = if ltb 0 i && ltb i 3 then some (i + 10) else none

two_mapped-Fits : (n : ℕ) → n < 1000 → Fits two_mapped n
two_mapped-Fits n small i p e = ground arith

-- A disk whose block at `p` is the number `p`, and the gatekeeper that serves it.
abbrev disk : ℕ → ℕ
disk p = p

abbrev serve : ReadMessage → List ℕ
serve m = map disk (expand m.ranges)

abbrev no_triggers : Triggers
no_triggers = record { do_gc = false; do_sync = false }

device_read-contents_example :
    device_read 0 serve two_mapped 0 4 no_triggers
    ≡ (done (contents 0 disk two_mapped 0 4), no_triggers)
device_read-contents_example =
    device_read-contents 0 serve two_mapped 0 4 no_triggers disk (λ rs. refl) (omega arith)
      (omega arith) (two_mapped-Fits 4 (omega arith))

device_read_short_example : (device_read {A = ℕ} 0 (λ m. []) two_mapped 0 4 no_triggers).0 ≡ failed
device_read_short_example =
    device_read_short {A = ℕ} 0 (λ m. []) two_mapped 0 4 no_triggers (λ rs h. h) (omega arith)
      (omega arith) (two_mapped-Fits 4 (omega arith)) (λ e. cc)

device_read_wrapper-contents_example :
    (device_read_wrapper 0 serve two_mapped 101 (0 * block_size) (100 * block_size) no_triggers).0
    ≡ some (done (contents 0 disk two_mapped 0 100))
device_read_wrapper-contents_example =
    device_read_wrapper-contents 0 disk two_mapped serve (λ rs. refl)
      (two_mapped-Fits 64 (omega arith)) 101 0 100 no_triggers (omega arith) (omega arith)
      (omega arith)
