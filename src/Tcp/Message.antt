-- ===== src/Tcp/Message.antt =====
-- What the result of `send_message` says about the message, over TCP.
use timelock_drive.Prelude.{
  ℕ, ◌≤◌, ◌⊎◌, ◌≡◌, refl, false, Option, some, List, ltb, arith, length, Bool-cases, inl, inr,
}
use timelock_drive.Tcp.{
  SendCall, ok, error, waiting, Address, or_connect, send_all_tcp, send_message, max_msg_length,
}
use timelock_drive.Tcp.Loops.{SendsWithin, wire-whole}

Sent-cases :
    (buf : List ℕ) (calls : List SendCall)
    → ((send_all_tcp buf calls).status ≡ ok)
      ⊎ ((send_all_tcp buf calls).status ≡ error)
      ⊎ ((send_all_tcp buf calls).status ≡ waiting)
Sent-cases buf calls =
    elim (send_all_tcp buf calls).status as (λ s. (s ≡ ok) ⊎ (s ≡ error) ⊎ (s ≡ waiting)) [
      | ok ↦ inl refl
      | error ↦ inr (inl refl)
      | waiting ↦ inr (inr refl)
    ]

-- What the result says, if it is a socket.
abbrev Delivers : List Address → (Option ℕ → List SendCall) → List ℕ → Option ℕ → ℕ → Type 0
Delivers addrs calls message sock s =
    let r = send_message false addrs calls message sock in
    r.status ≡ ok
    → r.sock ≡ some s
    → (or_connect sock addrs ≡ some s) × (r.wire ≡ message) × (length message ≤ max_msg_length)

send_message-Delivers :
    (addrs : List Address) (calls : Option ℕ → List SendCall) (message : List ℕ) (sock : Option ℕ)
    (s : ℕ)
    → SendsWithin (length message) 0 (calls (or_connect sock addrs))
    → Delivers addrs calls message sock s
unfolding send_message
send_message-Delivers addrs calls message sock s w =
    elim (Bool-cases (ltb max_msg_length (length message))) [
      | inl long ↦ rw long (λ _ h. absurd cc)
      | inr fits ↦ elim (Sent-cases message (calls (or_connect sock addrs))) [
        | inl done ↦
            rw (fits, done)
              (λ _ h. (h, wire-whole message (calls (or_connect sock addrs)) w done, ground arith))
        | inr (inl failed) ↦ rw (fits, failed) (λ _ h. absurd cc)
        | inr (inr stuck) ↦ rw (fits, stuck) (λ h. absurd cc)
      ]
    ]

-- When `send_message` is done and returns a socket, over TCP, that is the socket given or the one that
-- the address loop connected, the message is within the limit, and the whole message is on that
-- socket.
pub send_message_lem :
    (addrs : List Address) (calls : Option ℕ → List SendCall) (message : List ℕ) (sock : Option ℕ)
    (s : ℕ)
    → SendsWithin (length message) 0 (calls (or_connect sock addrs))
    → (send_message false addrs calls message sock).status ≡ ok
    → (send_message false addrs calls message sock).sock ≡ some s
    → (or_connect sock addrs ≡ some s)
      × ((send_message false addrs calls message sock).wire ≡ message)
      × (length message ≤ max_msg_length)
send_message_lem addrs calls message sock s w o h =
    send_message-Delivers addrs calls message sock s w o h
