-- ===== src/Tcp/Loops.antt =====
-- What the loops of `send_all_tcp` and `recv_all_tcp` put on the wire and into the buffer.
use timelock_drive.Prelude.{
  ℕ, zero, suc, ◌+◌, ◌<◌, ◌≤◌, ◌≡◌, refl, sym, ap, subst, ◌∙◌, true, false, List, [], ◌∷◌, ◌++◌,
  ltb, ◌==◌, arith, length, take, drop, length-append, length-take, length-drop, take-append-drop,
  append_assoc, append-nil, Bool-cases, inl, inr,
}
use timelock_drive.Tcp.{
  SendCall, sent, send_interrupted, send_failed, RecvCall, received, recv_interrupted, recv_failed,
  Status, ok, error, waiting, Sent, send_loop, send_all_tcp, recv_loop, recv_all_tcp,
}

-- `send` takes no more than it is given, `total` bytes of `len` being sent before.
abbrev pub SendsWithin : ℕ → ℕ → List SendCall → Type 0
SendsWithin len total [] = Unit
SendsWithin len total (sent n ∷ calls) = (total + n ≤ len) × SendsWithin len (total + n) calls
SendsWithin len total (send_interrupted ∷ calls) = SendsWithin len total calls
SendsWithin len total (send_failed ∷ calls) = SendsWithin len total calls

drop-nil : (n : ℕ) → drop {A = ℕ} n [] ≡ []
drop-nil zero = refl
drop-nil (suc n) = refl

drop-drop : (n m : ℕ) (xs : List ℕ) → drop m (drop n xs) ≡ drop (n + m) xs
drop-drop zero m xs = ap (λ k. drop k xs) (omega arith)
drop-drop (suc n) m [] = drop-nil m ∙ sym (drop-nil (suc n + m))
drop-drop (suc n) m (x ∷ xs) = drop-drop n m xs ∙ ap (λ k. drop k (x ∷ xs)) shift
  where
    shift : suc (n + m) ≡ suc n + m
    shift = omega arith

-- The bytes on the wire and those still to send make up the buffer.
record Split (buf wire : List ℕ) (total : ℕ) : Type 0 where
  whole : wire ++ drop total buf ≡ buf
  counted : length wire ≡ total
  within : total ≤ length buf

Split-sent :
    (buf wire : List ℕ) (total n : ℕ)
    → Split buf wire total
    → total + n ≤ length buf
    → Split buf (wire ++ take n (drop total buf)) (total + n)
Split-sent buf wire total n s h = record {
  whole =
      append_assoc wire (take n (drop total buf)) (drop (total + n) buf)
      ∙ ap (λ ys. wire ++ (take n (drop total buf) ++ ys)) (sym (drop-drop total n buf))
      ∙ ap (λ ys. wire ++ ys) (take-append-drop n (drop total buf))
      ∙ s.whole;
  counted = omega (
    arith,
    length-append wire (take n (drop total buf)),
    length-take n (drop total buf),
    length-drop total buf,
    s.counted,
  );
  within = h;
}

drop-all : (n : ℕ) (xs : List ℕ) → length xs ≤ n → drop n xs ≡ []
drop-all zero [] h = refl
drop-all zero (x ∷ xs) h = absurd (omega arith)
drop-all (suc n) [] h = refl
drop-all (suc n) (x ∷ xs) h = drop-all n xs (omega arith)

-- How the loop ends: the whole buffer is on the wire, or a proper part of it from the front.
pub data SendEnds (buf : List ℕ) (r : Sent) : Type 0 where
  whole : r.status ≡ ok → r.wire ≡ buf → SendEnds buf r
  part :
      (r.status ≡ ok → ⊥)
      → length r.wire < length buf
      → ((rest : List ℕ) × (r.wire ++ rest ≡ buf))
      → SendEnds buf r

Split-whole :
    (buf wire : List ℕ) (total : ℕ)
    → Split buf wire total
    → ltb total (length buf) ≡ false
    → SendEnds buf (record { status = ok; wire = wire })
Split-whole buf wire total s h = whole refl (
    sym (append-nil wire)
    ∙ ap (λ ys. wire ++ ys) (sym (drop-all total buf (ground arith)))
    ∙ s.whole)

Split-part :
    (buf wire : List ℕ) (total : ℕ) (st : Status)
    → Split buf wire total
    → ltb total (length buf) ≡ true
    → (st ≡ ok → ⊥)
    → SendEnds buf (record { status = st; wire = wire })
Split-part buf wire total st s h n =
    part n (subst (λ k. k < length buf) (sym s.counted) (ground arith)) (drop total buf, s.whole)

error-ok : error ≡ ok → ⊥
error-ok e = cc

waiting-ok : waiting ≡ ok → ⊥
waiting-ok e = cc

send_loop-SendEnds :
    (calls : List SendCall) (buf wire : List ℕ) (total : ℕ)
    → Split buf wire total
    → SendsWithin (length buf) total calls
    → SendEnds buf (send_loop buf total calls wire)
unfolding send_loop
send_loop-SendEnds [] buf wire total s h = elim (Bool-cases (ltb total (length buf))) [
  | inl lt ↦ rw lt (Split-part buf wire total waiting s lt waiting-ok)
  | inr ge ↦ rw ge (Split-whole buf wire total s ge)
]
send_loop-SendEnds (send_failed ∷ calls) buf wire total s h =
    elim (Bool-cases (ltb total (length buf))) [
      | inl lt ↦ rw lt (Split-part buf wire total error s lt error-ok)
      | inr ge ↦ rw ge (Split-whole buf wire total s ge)
    ]
send_loop-SendEnds (send_interrupted ∷ calls) buf wire total s h =
    elim (Bool-cases (ltb total (length buf))) [
      | inl lt ↦ rw lt (send_loop-SendEnds calls buf wire total s h)
      | inr ge ↦ rw ge (Split-whole buf wire total s ge)
    ]
send_loop-SendEnds (sent n ∷ calls) buf wire total s h =
    elim (Bool-cases (ltb total (length buf))) [
      | inl lt ↦ elim (Bool-cases (n == 0)) [
        | inl z ↦ rw (lt, z) (Split-part buf wire total error s lt error-ok)
        | inr p ↦
            rw (lt, p)
              (send_loop-SendEnds calls buf (wire ++ take n (drop total buf)) (total + n)
                (Split-sent buf wire total n s h.0) h.1)
      ]
      | inr ge ↦ rw ge (Split-whole buf wire total s ge)
    ]

-- If `send` never takes more than it is given, `send_all_tcp` succeeds exactly when the whole
-- message is on the wire, in order and once; when it fails or waits, a proper part of the message
-- from its front is.
pub send_all_tcp_lem :
    (buf : List ℕ) (calls : List SendCall)
    → SendsWithin (length buf) 0 calls
    → SendEnds buf (send_all_tcp buf calls)
unfolding send_all_tcp
send_all_tcp_lem buf calls h =
    send_loop-SendEnds calls buf [] 0
      (record { whole = refl; counted = refl; within = omega arith }) h

pub wire-whole :
    (buf : List ℕ) (calls : List SendCall)
    → SendsWithin (length buf) 0 calls
    → (send_all_tcp buf calls).status ≡ ok
    → (send_all_tcp buf calls).wire ≡ buf
wire-whole buf calls w done = elim (send_all_tcp_lem buf calls w) [
  | whole o e ↦ e
  | part n l r ↦ absurd (n done)
]

-- The bytes that the calls of `recv` store.
abbrev pub stream : List RecvCall → List ℕ
stream [] = []
stream (received bytes ∷ calls) = bytes ++ stream calls
stream (recv_interrupted ∷ calls) = stream calls
stream (recv_failed ∷ calls) = stream calls

-- No error and no end of the stream.
abbrev pub Receives : List RecvCall → Type 0
Receives [] = Unit
Receives (received bytes ∷ calls) = (0 < length bytes) × Receives calls
Receives (recv_interrupted ∷ calls) = Receives calls
Receives (recv_failed ∷ calls) = ⊥

empty : (xs : List ℕ) → length xs ≡ 0 → xs ≡ []
empty [] h = refl
empty (x ∷ xs) h = absurd (omega arith)

recv_loop_lem :
    (calls : List RecvCall) (len : ℕ) (buf : List ℕ)
    → Receives calls
    → length buf + length (stream calls) ≡ len
    → recv_loop len calls buf ≡ record { status = ok; buf = buf ++ stream calls }
unfolding recv_loop
recv_loop_lem [] len buf g h = rw (append-nil buf, full) refl
  where
    full : ltb (length buf) len ≡ false
    full = ground (arith, h)
recv_loop_lem (recv_interrupted ∷ calls) len buf g h = elim (Bool-cases (ltb (length buf) len)) [
  | inl lt ↦ rw lt (recv_loop_lem calls len buf g h)
  | inr ge ↦ rw (ge, empty (stream calls) (ground arith), append-nil buf) refl
]
recv_loop_lem (recv_failed ∷ calls) len buf g h = absurd g
recv_loop_lem (received bytes ∷ calls) len buf g h =
    rw (more, some_bytes)
      (recv_loop_lem calls len (buf ++ bytes) g.1
          (omega (arith, length-append buf bytes, length-append bytes (stream calls), h))
        ∙ ap (λ ys. record { status = ok; buf = ys }) (append_assoc buf bytes (stream calls)))
  where
    more : ltb (length buf) len ≡ true
    more = ground (arith, length-append bytes (stream calls), h, g.0)

    some_bytes : (length bytes == 0) ≡ false
    some_bytes = ground (arith, g.0)

-- A message that `send_all_tcp` has sent and that the connection delivers, however it is cut into
-- pieces on either side, without an error and before the end of the stream, is what `recv_all_tcp`
-- returns for its length.
pub send_all-recv_all :
    (message : List ℕ) (sends : List SendCall) (recvs : List RecvCall)
    → SendsWithin (length message) 0 sends
    → (send_all_tcp message sends).status ≡ ok
    → Receives recvs
    → stream recvs ≡ (send_all_tcp message sends).wire
    → recv_all_tcp (length message) recvs ≡ record { status = ok; buf = message }
unfolding recv_all_tcp
send_all-recv_all message sends recvs w done g same =
    let all = wire-whole message sends w done in
    recv_loop_lem recvs (length message) [] g (omega (arith, ap (λ ys. length ys) (same ∙ all)))
    ∙ ap (λ ys. record { status = ok; buf = ys }) (same ∙ all)
