-- ===== src/Tcp.antt =====
-- versioning_td_driver/src/socket_send.c: the loops that send and receive whole buffers over TCP,
-- and `send_message`. What the operating system answers is a list with one entry per call; when the
-- list ends before the loop does, the loop is still waiting.

pub mod Loops
pub mod Message
use timelock_drive.Prelude.{
  ℕ, zero, suc, ◌+◌, ◌-◌, ◌*◌, Bool, true, false, Option, none, some, List, [], ◌∷◌, ◌++◌,
  if◌then◌else◌, ltb, leb, ◌==◌, length, take, drop,
}
use timelock_drive.Constants.{
  block_size, data_range_size, std_msg_header_size, max_mapping_count, max_md_blocks_in_header,
}

-- What a call of `send` returns: a count, or -1 with EINTR, or -1 with another error.
pub data SendCall : Type 0 where
  sent : ℕ → SendCall
  send_interrupted send_failed : SendCall

-- The same for `recv`, with the bytes that it stores.
pub data RecvCall : Type 0 where
  received : List ℕ → RecvCall
  recv_interrupted recv_failed : RecvCall

pub data Status : Type 0 where
  ok error waiting : Status

-- How the loop ended, and the bytes on the wire.
pub record Sent : Type 0 where
  pub status : Status
  pub wire : List ℕ

-- The loop of `send_all_tcp` after `sent_total` bytes.
unfoldable pub send_loop : List ℕ → ℕ → List SendCall → List ℕ → Sent
send_loop buf sent_total [] wire = record {
  status = if ltb sent_total (length buf) then waiting else ok;
  wire = wire;
}
send_loop buf sent_total (send_interrupted ∷ calls) wire =
    let rest = send_loop buf sent_total calls wire in
    if ltb sent_total (length buf) then rest else record { status = ok; wire = wire }
send_loop buf sent_total (send_failed ∷ calls) wire = record {
  status = if ltb sent_total (length buf) then error else ok;
  wire = wire;
}
send_loop buf sent_total (sent sent_now ∷ calls) wire =
    let rest =
      send_loop buf (sent_total + sent_now) calls (wire ++ take sent_now (drop sent_total buf)) in
    if ltb sent_total (length buf)
    then (if sent_now == 0 then record { status = error; wire = wire } else rest)
    else record { status = ok; wire = wire }

unfoldable pub send_all_tcp : List ℕ → List SendCall → Sent
send_all_tcp buf calls = send_loop buf 0 calls []

-- A short count, at the end of the stream, is `ok` too.
pub record Received : Type 0 where
  pub status : Status
  pub buf : List ℕ

-- The loop of `recv_all_tcp`; `buf` holds the `recv_total` bytes received so far.
pub recv_loop : ℕ → List RecvCall → List ℕ → Received
recv_loop len [] buf = record { status = if ltb (length buf) len then waiting else ok; buf = buf }
recv_loop len (recv_interrupted ∷ calls) buf =
    let rest = recv_loop len calls buf in
    if ltb (length buf) len then rest else record { status = ok; buf = buf }
recv_loop len (recv_failed ∷ calls) buf = record {
  status = if ltb (length buf) len then error else ok;
  buf = buf;
}
recv_loop len (received bytes ∷ calls) buf =
    let rest = recv_loop len calls (buf ++ bytes) in
    if ltb (length buf) len
    then (if length bytes == 0 then record { status = ok; buf = buf } else rest)
    else record { status = ok; buf = buf }

pub recv_all_tcp : ℕ → List RecvCall → Received
recv_all_tcp len calls = recv_loop len calls []

-- What one address of `getaddrinfo` leads to: `socket` fails, the address or its length is missing
-- once the socket is there, `connect` succeeds on a socket, or it fails.
pub data Address : Type 0 where
  no_socket no_address refused : Address
  connected : ℕ → Address

-- The loop over the addresses; `none` is -1.
unfoldable pub connect_loop : List Address → Option ℕ
connect_loop [] = none
connect_loop (no_socket ∷ addrs) = none
connect_loop (no_address ∷ addrs) = connect_loop addrs
connect_loop (refused ∷ addrs) = connect_loop addrs
connect_loop (connected sock ∷ addrs) = some sock

-- MAX_MSG_LENGTH, the header with its mappings, a full buffer of blocks and the metadata blocks.
abbrev pub max_msg_length : ℕ
max_msg_length =
    std_msg_header_size
    + max_mapping_count * data_range_size
    + block_size * (max_mapping_count + 2)
    + block_size * max_md_blocks_in_header

-- What `send_message` leaves: its result (`none` is -1), the bytes on the socket and those that it
-- hands to `shm_pipe_write`.
pub record MessageSent : Type 0 where
  pub sock : Option ℕ
  pub status : Status
  pub wire : List ℕ
  pub piped : List ℕ

-- The socket given, or a new one for -1.
abbrev pub or_connect : Option ℕ → List Address → Option ℕ
or_connect none addrs = connect_loop addrs
or_connect (some sock) addrs = some sock

-- `calls` are the answers of `send` on the socket in use; on -1 they are its errors.
unfoldable pub send_message :
    Bool → List Address → (Option ℕ → List SendCall) → List ℕ → Option ℕ → MessageSent
send_message use_ipc addrs calls message sock =
    let sock' = or_connect sock addrs in
    let done = send_all_tcp message (calls sock') in
    if use_ipc
    then record { sock = none; status = ok; wire = []; piped = message }
    else if ltb max_msg_length (length message)
    then record { sock = none; status = ok; wire = []; piped = [] }
    else record {
      sock = elim done.status [ error ↦ none | _ ↦ sock' ];
      status = elim done.status [ waiting ↦ waiting | _ ↦ ok ];
      wire = done.wire;
      piped = [];
    }
