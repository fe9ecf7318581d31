-- ===== src/Chain/Walk.antt =====
-- The walk over the timelock log ends, even when the chain goes round, and only reserves blocks.
use timelock_drive.Prelude.{
  ℕ, zero, suc, ◌+◌, ◌<◌, ◌≤◌, ◌≡◌, refl, sym, ap, ◌∙◌, Bool, true, false, not, ◌&&◌, Option, none,
  some, if◌then◌else◌, ltb, leb, ◌==◌, update, arith, Bool-cases, inl, inr,
}
use timelock_drive.Constants.{TdMetadataLogBlock, total_physical_num_blocks}
use timelock_drive.Read.{ReadMessage}
use timelock_drive.Chain.{read_tdlog_block, after_read, walk_chain, mark_hdlog_chain_reserved}

-- How many of the blocks below `n` have not been visited.
abbrev unvisited : (ℕ → Bool) → ℕ → ℕ
unvisited visited zero = 0
unvisited visited (suc n) = (if visited n then 0 else 1) + unvisited visited n

unvisited_same :
    (visited : ℕ → Bool) (c n : ℕ)
    → n ≤ c
    → unvisited (update visited c true) n ≡ unvisited visited n
unvisited_same visited c zero h = refl
unvisited_same visited c (suc n) h =
    let ih = unvisited_same visited c n (omega arith) in ground (arith, ih)

unvisited-update :
    (visited : ℕ → Bool) (c n : ℕ)
    → c < n
    → visited c ≡ false
    → unvisited (update visited c true) n + 1 ≡ unvisited visited n
unvisited-update visited c zero h v = absurd (omega arith)
unvisited-update visited c (suc n) h v = elim (Bool-cases (c == n)) [
  | inl e ↦
      let same : c ≡ n = ground arith in
      let rest = unvisited_same visited c n (omega arith) in
      let old : visited n ≡ false = ap visited (sym same) ∙ v in ground (arith, rest, old)
  | inr ne ↦ let ih = unvisited-update visited c n (ground arith) v in ground (arith, ih)
]

unvisited_none : (n : ℕ) → unvisited (λ _. false) n ≡ n
unvisited_none zero = refl
unvisited_none (suc n) = omega (arith, unvisited_none n)

module _ (respond : ReadMessage → Option TdMetadataLogBlock) where
  -- What the walk gives, if it ends.
  abbrev Ends : Option (ℕ → Bool) → (ℕ → Bool) → Type 0
  Ends r marks =
      (marks' : ℕ → Bool) × (r ≡ some marks') × ((p : ℕ) → (marks' p && not (marks p)) ≡ false)

  kept : (marks : ℕ → Bool) → Ends (some marks) marks
  kept marks = (marks, refl, λ p. ground arith)

  reserved :
      (marks : ℕ → Bool) (c : ℕ) (r : Option (ℕ → Bool))
      → Ends r (update marks c false)
      → Ends r marks
  reserved marks c r e = (e.0, e.1, λ p. ground (arith, e.2 p))

  read-Ends :
      (o : Option TdMetadataLogBlock) (marks : ℕ → Bool) (next : ℕ → Option (ℕ → Bool))
      → ((n : ℕ) → Ends (next n) marks)
      → Ends (after_read respond o marks next) marks
  read-Ends none marks next h = kept marks
  read-Ends (some log_block) marks next h =
      elim (Bool-cases (leb total_physical_num_blocks log_block.pointer_next)) [
        | inl off ↦ rw off (kept marks)
        | inr on ↦ rw on (h log_block.pointer_next)
      ]

  walk_chain-Ends :
      (fuel log_tail curr n : ℕ) (visited marks : ℕ → Bool)
      → total_physical_num_blocks ≤ n
      → unvisited visited n < fuel
      → Ends (walk_chain respond fuel log_tail curr visited marks) marks
  unfolding walk_chain
  walk_chain-Ends zero log_tail curr n visited marks le h = absurd (omega arith)
  walk_chain-Ends (suc fuel) log_tail curr n visited marks le h =
      elim (Bool-cases (leb total_physical_num_blocks curr)) [
        | inl off ↦ rw off (kept marks)
        | inr on ↦ elim (Bool-cases (curr == log_tail)) [
          | inl end ↦ rw (on, end) (kept marks)
          | inr more ↦ elim (Bool-cases (visited curr)) [
            | inl seen ↦ rw (on, more, seen) (kept marks)
            | inr new ↦
                let fewer = unvisited-update visited curr n (ground arith) new in
                rw (on, more, new)
                  (reserved marks curr _ (
                    read-Ends (read_tdlog_block respond curr) (update marks curr false) _ (λ k.
                      walk_chain-Ends fuel log_tail k n (update visited curr true)
                        (update marks curr false) le (omega (arith, fewer, h)))))
          ]
        ]
      ]

walk_from :
    (respond : ReadMessage → Option TdMetadataLogBlock) (fuel log_head log_tail n : ℕ)
    (marks : ℕ → Bool)
    → total_physical_num_blocks ≤ n
    → n < fuel
    → Ends respond (walk_chain respond fuel log_tail log_head (λ _. false) marks) marks
walk_from respond fuel log_head log_tail n marks le enough =
    walk_chain-Ends respond fuel log_tail log_head n (λ _. false) marks le
      (omega (arith, unvisited_none n))

-- `mark_hdlog_chain_reserved` ends for every log that the gatekeeper may hold, one whose chain goes
-- round included, when the fuel is above the number of physical blocks; it never makes a block free,
-- and the block at the log's tail, if it is on the disk, is not free afterwards.
pub mark_hdlog_chain_reserved_lem :
    (respond : ReadMessage → Option TdMetadataLogBlock) (fuel log_head log_tail : ℕ)
    (marks : ℕ → Bool)
    → total_physical_num_blocks < fuel
    → (marks' : ℕ → Bool) × (mark_hdlog_chain_reserved respond fuel
          (some log_head)
          (some log_tail)
          marks
        ≡ some marks')
      × ((p : ℕ) → (marks' p && not (marks p)) ≡ false)
      × ((ltb log_tail total_physical_num_blocks && marks' log_tail) ≡ false)
unfolding mark_hdlog_chain_reserved
mark_hdlog_chain_reserved_lem respond fuel log_head log_tail marks enough =
    let tail_marks =
      if ltb log_tail total_physical_num_blocks then update marks log_tail false else marks in
    let walked =
      walk_from respond fuel log_head log_tail total_physical_num_blocks tail_marks (omega arith)
        enough in
    (walked.0, walked.1, λ p. ground (arith, walked.2 p), ground (arith, walked.2 log_tail))
