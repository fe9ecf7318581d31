-- ===== src/Scan/Replay.antt =====
-- The walk over a chain of version log blocks replays the chain.
use timelock_drive.Prelude.{
  ℕ, zero, suc, ◌<◌, ◌≡◌, ◌≢◌, refl, ap, ◌∙◌, Bool, true, false, Option, some, List, [], ◌∷◌,
  length, arith,
}
use timelock_drive.Constants.{total_physical_num_blocks}
use timelock_drive.Read.{ReadMessage, read_message}
use timelock_drive.Recovery.{L2PBlock}
use timelock_drive.Control.{CachedTdMetadataBlock}
use timelock_drive.Scan.{ScanState, accept, is_end, chase}

-- From `pba` the log runs through the blocks listed, all with its seed and on the disk; the last one
-- has another seed, since it has not been written yet.
abbrev pub IsChain : (ℕ → L2PBlock) → ℕ → ℕ → List ℕ → Type 0
IsChain stored seed pba [] = (stored pba).seed ≢ seed
IsChain stored seed pba (q ∷ qs) =
    ((stored pba).seed ≡ seed)
    × ((stored pba).ptr ≡ q)
    × (q < total_physical_num_blocks)
    × IsChain stored seed q qs

-- The blocks of the chain, accepted in order.
abbrev pub replay :
    (ℕ → CachedTdMetadataBlock) → ℕ → (ℕ → L2PBlock) → ℕ → List ℕ → ScanState → ScanState
replay md_cache ts stored pba [] s = s
replay md_cache ts stored pba (q ∷ qs) s =
    replay md_cache ts stored q qs (accept md_cache ts pba (stored pba) s)

module _ (md_cache : ℕ → CachedTdMetadataBlock) (ts : ℕ) (stored : ℕ → L2PBlock)
    (respond : ReadMessage → Option L2PBlock)
    (serves : (pba : ℕ)
      → respond (read_message (record { pba = pba; num_blocks = 1 } ∷ [])) ≡ some (stored pba))
    (seed : ℕ) (live : seed ≢ 0) where
  accept-seed :
      (pba : ℕ) (block : L2PBlock) (s : ScanState)
      → (accept md_cache ts pba block s).current_seed ≡ block.seed
  unfolding accept
  accept-seed pba block s = refl

  chase-end :
      (fuel pba : ℕ) (first : Bool) (s : ScanState)
      → is_end md_cache ts first (stored pba) s ≡ true
      → chase md_cache ts respond (suc fuel) first pba s ≡ some s
  unfolding chase
  chase-end fuel pba first s e = rw (serves pba, e) refl

  chase-next :
      (fuel pba : ℕ) (first : Bool) (s : ScanState)
      → is_end md_cache ts first (stored pba) s ≡ false
      → chase md_cache ts respond (suc fuel) first pba s
        ≡ chase md_cache ts respond fuel false
            (stored pba).ptr
            (accept md_cache ts pba (stored pba) s)
  unfolding chase
  chase-next fuel pba first s e = rw (serves pba, e) refl

  chase-replay :
      (qs : List ℕ) (fuel pba : ℕ) (s : ScanState)
      → s.current_seed ≡ seed
      → IsChain stored seed pba qs
      → length qs < fuel
      → chase md_cache ts respond fuel false pba s ≡ some (replay md_cache ts stored pba qs s)
  chase-replay qs zero pba s e c h = absurd (omega arith)
  chase-replay [] (suc fuel) pba s e c h = chase-end fuel pba false s (ground (arith, e, c))
  chase-replay (q ∷ qs) (suc fuel) pba s e c h =
      chase-next fuel pba false s (ground (arith, e, c.0, c.1, c.2, live))
      ∙ ap (λ p. chase md_cache ts respond fuel false p (accept md_cache ts pba (stored pba) s)) c.1
      ∙ chase-replay qs fuel q (accept md_cache ts pba (stored pba) s)
          (accept-seed pba (stored pba) s ∙ c.0) c.3 (omega arith)

  -- On a log of at least one block, whose chain of equal, non-zero seeds ends at a block with another
  -- seed, the walk of `scan_disk` ends, for every fuel above the number of links: it accepts exactly
  -- the blocks of the chain, in order, whatever seed it starts with.
  pub chase_lem :
      (pba q : ℕ) (qs : List ℕ) (fuel : ℕ) (s : ScanState)
      → IsChain stored seed pba (q ∷ qs)
      → length (q ∷ qs) < fuel
      → chase md_cache ts respond fuel true pba s ≡ some (replay md_cache ts stored pba (q ∷ qs) s)
  chase_lem pba q qs zero s c h = absurd (omega arith)
  chase_lem pba q qs (suc fuel) s c h =
      chase-next fuel pba true s (ground (arith, c.0, c.1, c.2, live))
      ∙ ap (λ p. chase md_cache ts respond fuel false p (accept md_cache ts pba (stored pba) s)) c.1
      ∙ chase-replay qs fuel q (accept md_cache ts pba (stored pba) s)
          (accept-seed pba (stored pba) s ∙ c.0) c.3 (omega arith)
