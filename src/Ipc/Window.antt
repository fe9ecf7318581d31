-- ===== src/Ipc/Window.antt =====
-- The bytes of a ring from a position on, and what the copies of the two loops do to them.
use timelock_drive.Prelude.{
  ℕ, zero, suc, ◌+◌, ◌-◌, ◌%◌, ◌≤◌, ◌<◌, ◌≡◌, refl, ap, ap₂, ◌∙◌, List, [], ◌∷◌, ◌++◌, length, take,
  get_or, get_or-drop, arith, ltb, Bool-cases, inl, inr, append-nil,
}
use timelock_drive.Ipc.{ring_cap, first_part, copy_in, bytes_from, copy_out}

-- The `n` bytes from position `p` on, going round.
abbrev pub window : (ℕ → ℕ) → ℕ → ℕ → List ℕ
window buf p zero = []
window buf p (suc n) = buf (p % ring_cap) ∷ window buf (p + 1) n

pub window-cong :
    (buf : ℕ → ℕ) (p q n : ℕ) → p % ring_cap ≡ q % ring_cap → window buf p n ≡ window buf q n
window-cong buf p q zero e = refl
window-cong buf p q (suc n) e = ap₂ ◌∷◌ (ap buf e) (window-cong buf (p + 1) (q + 1) n (omega arith))

pub window-add :
    (buf : ℕ → ℕ) (p a b : ℕ) → window buf p (a + b) ≡ window buf p a ++ window buf (p + a) b
window-add buf p zero b =
    let e : 0 + b ≡ b = omega arith in rw e (window-cong buf p (p + 0) b (omega arith))
window-add buf p (suc a) b =
    let e : suc a + b ≡ suc (a + b) = omega arith in
    rw e (
      ap (◌∷◌ (buf (p % ring_cap))) (
        window-add buf (p + 1) a b
        ∙ ap (◌++◌ (window buf (p + 1) a))
            (window-cong buf (p + 1 + a) (p + suc a) b (omega arith))))

-- The `i`-th of the `n` slots from `t` on holds the `i`-th byte.
copy_in-slot :
    (buf : ℕ → ℕ) (t : ℕ) (src : List ℕ) (n i : ℕ)
    → n ≤ ring_cap
    → i < n
    → copy_in buf t src n ((t + i) % ring_cap) ≡ get_or src i 0
unfolding copy_in
copy_in-slot buf t src n i hn hi =
    ground (arith, get_or-drop (first_part t n) src ((t + i) % ring_cap) 0)

-- The slots that follow them are left alone.
copy_in-rest :
    (buf : ℕ → ℕ) (t : ℕ) (src : List ℕ) (n i : ℕ)
    → n ≤ i
    → i < ring_cap
    → copy_in buf t src n ((t + i) % ring_cap) ≡ buf ((t + i) % ring_cap)
unfolding copy_in
copy_in-rest buf t src n i hn hi = ground arith

window-take :
    (buf : ℕ → ℕ) (p n : ℕ) (src : List ℕ)
    → n ≤ length src
    → ((i : ℕ) → i < n → buf ((p + i) % ring_cap) ≡ get_or src i 0)
    → window buf p n ≡ take n src
window-take buf p zero src h same = refl
window-take buf p (suc n) [] h same = absurd (omega arith)
window-take buf p (suc n) (x ∷ src) h same =
    ap₂ ◌∷◌ (ap (λ q. buf (q % ring_cap)) (omega arith) ∙ same 0 (omega arith)) (
      window-take buf (p + 1) n src (omega arith)
        (λ i hi. ap (λ q. buf (q % ring_cap)) (omega arith) ∙ same (suc i) (omega arith)))

window-same :
    (buf buf' : ℕ → ℕ) (p n : ℕ)
    → ((i : ℕ) → i < n → buf' ((p + i) % ring_cap) ≡ buf ((p + i) % ring_cap))
    → window buf' p n ≡ window buf p n
window-same buf buf' p zero same = refl
window-same buf buf' p (suc n) same =
    ap₂ ◌∷◌
      (ap (λ q. buf' (q % ring_cap)) (omega arith)
        ∙ same 0 (omega arith)
        ∙ ap (λ q. buf (q % ring_cap)) (omega arith))
      (window-same buf buf' (p + 1) n (λ i hi.
        ap (λ q. buf' (q % ring_cap)) (omega arith)
        ∙ same (suc i) (omega arith)
        ∙ ap (λ q. buf (q % ring_cap)) (omega arith)))

-- What `shm_pipe_write` copies in is what the consumer will find from `tail` on.
pub window-copy_in :
    (buf : ℕ → ℕ) (t : ℕ) (src : List ℕ) (n : ℕ)
    → n ≤ ring_cap
    → n ≤ length src
    → window (copy_in buf t src n) t n ≡ take n src
window-copy_in buf t src n hn hs =
    window-take (copy_in buf t src n) t n src hs (λ i hi. copy_in-slot buf t src n i hn hi)

-- The bytes that wait below `tail` are not overwritten.
pub window-copy_in_below :
    (buf : ℕ → ℕ) (t : ℕ) (src : List ℕ) (n p k : ℕ)
    → k + n ≤ ring_cap
    → (p + k) % ring_cap ≡ t % ring_cap
    → window (copy_in buf t src n) p k ≡ window buf p k
window-copy_in_below buf t src n p k h e = window-same buf (copy_in buf t src n) p k λ i hi.
    let slot : (p + i) % ring_cap ≡ (t + (ring_cap - k + i)) % ring_cap = omega arith in
    rw slot (copy_in-rest buf t src n (ring_cap - k + i) (omega arith) (omega arith))

bytes_from-window :
    (buf : ℕ → ℕ) (p i n : ℕ)
    → i ≡ p % ring_cap
    → i + n ≤ ring_cap
    → bytes_from buf i n ≡ window buf p n
unfolding bytes_from
bytes_from-window buf p i zero e h = refl
bytes_from-window buf p i (suc zero) e h = ap₂ ◌∷◌ (ap buf e) refl
bytes_from-window buf p i (suc (suc n)) e h =
    ap₂ ◌∷◌ (ap buf e) (bytes_from-window buf (p + 1) (i + 1) (suc n) (omega arith) (omega arith))

-- A window is cut at any place inside it.
pub window-split :
    (buf : ℕ → ℕ) (p a n : ℕ)
    → a ≤ n
    → window buf p n ≡ window buf p a ++ window buf (p + a) (n - a)
window-split buf p a n h =
    ap (window buf p) (let e : n ≡ a + (n - a) = omega arith in e) ∙ window-add buf p a (n - a)

-- What `shm_pipe_read` copies out is what waits from `head` on.
pub copy_out-window : (buf : ℕ → ℕ) (h n : ℕ) → n ≤ ring_cap → copy_out buf h n ≡ window buf h n
unfolding copy_out
copy_out-window buf h n hn = elim (Bool-cases (ltb n (ring_cap - h % ring_cap))) [
  | inl fits ↦ ground (arith, bytes_from-window buf h (h % ring_cap) n, append-nil (window buf h n))
  | inr wraps ↦ ground (
    arith,
    window-split buf h (ring_cap - h % ring_cap) n,
    bytes_from-window buf h (h % ring_cap) (ring_cap - h % ring_cap),
    bytes_from-window buf (h + (ring_cap - h % ring_cap)) 0 (n - (ring_cap - h % ring_cap)),
    append-nil (window buf h n),
  )
]
