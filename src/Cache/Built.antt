-- ===== src/Cache/Built.antt =====
-- The cache and the membership after start-up.
use timelock_drive.Prelude.{
  ℕ, zero, suc, ◌+◌, ◌-◌, ◌≤◌, ◌≡◌, refl, sym, ap, ◌∙◌, Bool, true, false, not, ◌&&◌, Option, none,
  some, List, [], ◌∷◌, ◌++◌, if◌then◌else◌, ltb, leb, ◌==◌, update, take, get_or, length, arith,
  Bool-cases, inl, inr, if_true, if_false,
}
use timelock_drive.Constants.{total_num_metadata_blocks, uint32_max}
use timelock_drive.Control.{CachedTdMetadataBlock}
use timelock_drive.Metadata.{note_md_membership_update}
use timelock_drive.Cache.{
  RecoveryStep, with_updates, receive_blocks, answer, apply_updates, reset_membership,
  recovery_steps, build_cache,
}

-- The last of the blocks with index `i`, if it is one of the cache, and `block` otherwise.
abbrev pub last_update :
    List CachedTdMetadataBlock → ℕ → CachedTdMetadataBlock → CachedTdMetadataBlock
last_update [] i block = block
last_update (u ∷ us) i block =
    last_update us i (if ltb u.idx total_num_metadata_blocks && u.idx == i then u else block)

-- The updates of one step and those after it, if their count arrives.
abbrev pub updates_then :
    List CachedTdMetadataBlock → List CachedTdMetadataBlock → Option ℕ → List CachedTdMetadataBlock
updates_then rest updated none = []
updates_then rest updated (some n) = take n updated ++ rest

-- The updates that the steps bring, up to the one that ends the recovery.
abbrev pub all_updates : List RecoveryStep → List CachedTdMetadataBlock
all_updates [] = []
all_updates (step ∷ steps) =
    let rest = updates_then (all_updates steps) step.updated step.n_updated in
    if ltb 4 step.n_needed then [] else rest

apply_updates_lem :
    (us : List CachedTdMetadataBlock) (c : ℕ → CachedTdMetadataBlock) (i : ℕ)
    → apply_updates us c i ≡ last_update us i (c i)
unfolding apply_updates
apply_updates_lem [] c i = refl
apply_updates_lem (u ∷ us) c i =
    let next = if ltb u.idx total_num_metadata_blocks then update c u.idx u else c in
    apply_updates_lem us next i ∙ ap (last_update us i) here
  where
    here :
        (if ltb u.idx total_num_metadata_blocks then update c u.idx u else c) i
        ≡ (if ltb u.idx total_num_metadata_blocks && u.idx == i then u else c i)
    here = ground arith

last_update-append :
    (us vs : List CachedTdMetadataBlock) (i : ℕ) (block : CachedTdMetadataBlock)
    → last_update (us ++ vs) i block ≡ last_update vs i (last_update us i block)
last_update-append [] vs i block = refl
last_update-append (u ∷ us) vs i block =
    last_update-append us vs i
      (if ltb u.idx total_num_metadata_blocks && u.idx == i then u else block)

reset_membership_lem :
    (i n : ℕ) (m : ℕ → Bool) (md : ℕ)
    → i + n ≤ total_num_metadata_blocks
    → reset_membership i n m md ≡ (m md && not (leb i md && ltb md (i + n)))
unfolding reset_membership note_md_membership_update
reset_membership_lem i zero m md le = ground arith
reset_membership_lem i (suc n) m md le =
    let ih =
      reset_membership_lem (i + 1) n (note_md_membership_update i false m) md (omega (arith, le)) in
    ground (arith, ih, le)

-- The blocks of the first phase, with what is left of one after them.
abbrev pub with_broken :
    List CachedTdMetadataBlock → Option CachedTdMetadataBlock → List CachedTdMetadataBlock
with_broken blocks none = blocks
with_broken blocks (some broken) = blocks ++ broken ∷ []

-- What the first phase writes, for total_num_metadata_blocks places.
abbrev pub received :
    List CachedTdMetadataBlock → Option CachedTdMetadataBlock → List CachedTdMetadataBlock
received blocks broken =
    with_broken (take total_num_metadata_blocks blocks)
      (if ltb (length blocks) total_num_metadata_blocks then broken else none)

-- The writes, one after the other.
receive_all :
    ℕ → List CachedTdMetadataBlock → (ℕ → CachedTdMetadataBlock) → ℕ → CachedTdMetadataBlock
receive_all k [] c = c
receive_all k (b ∷ bs) c = receive_all (k + 1) bs (update c k b)

receive_blocks-all :
    (k : ℕ) (bs : List CachedTdMetadataBlock) (broken : Option CachedTdMetadataBlock)
    (c : ℕ → CachedTdMetadataBlock)
    → receive_blocks k bs broken c ≡ receive_all k (with_broken bs broken) c
unfolding receive_blocks receive_all
receive_blocks-all k [] none c = refl
receive_blocks-all k [] (some broken) c = refl
receive_blocks-all k (b ∷ bs) none c = receive_blocks-all (k + 1) bs none (update c k b)
receive_blocks-all k (b ∷ bs) (some broken) c =
    receive_blocks-all (k + 1) bs (some broken) (update c k b)

receive_all_lem :
    (k : ℕ) (bs : List CachedTdMetadataBlock) (c : ℕ → CachedTdMetadataBlock) (i : ℕ)
    → receive_all k bs c i ≡ (if ltb i k then c i else get_or bs (i - k) (c i))
unfolding receive_all
receive_all_lem k [] c i = ground arith
receive_all_lem k (b ∷ bs) c i = elim (Bool-cases (ltb i k)) [
  | inl below ↦ receive_all_lem (k + 1) bs (update c k b) i ∙ ground (arith, below)
  | inr from ↦ elim (Bool-cases (i == k)) [
    | inl e ↦ receive_all_lem (k + 1) bs (update c k b) i ∙ at_place (ground arith)
    | inr ne ↦
        let s : i - k ≡ suc (i - (k + 1)) = ground (arith, from, ne) in
        receive_all_lem (k + 1) bs (update c k b) i ∙ later s (ground (arith, from, ne))
  ]
]
  where
    none_before : i ≡ k → i - k ≡ 0
    none_before e = omega arith

    at_place :
        i ≡ k
        → (if ltb i (k + 1) then update c k b i else get_or bs (i - (k + 1)) (update c k b i))
          ≡ (if ltb i k then c i else get_or (b ∷ bs) (i - k) (c i))
    at_place e =
        if_true (ltb i (k + 1)) _ _ (ground (arith, e))
        ∙ ground (arith, e)
        ∙ sym (
            if_false (ltb i k) _ _ (ground (arith, e))
            ∙ ap (λ n. get_or (b ∷ bs) n (c i)) (none_before e))

    later :
        i - k ≡ suc (i - (k + 1))
        → k + 1 ≤ i
        → (if ltb i (k + 1) then update c k b i else get_or bs (i - (k + 1)) (update c k b i))
          ≡ (if ltb i k then c i else get_or (b ∷ bs) (i - k) (c i))
    later s le =
        if_false (ltb i (k + 1)) _ _ (ground (arith, le))
        ∙ ap (get_or bs (i - (k + 1))) (ground (arith, le))
        ∙ sym (if_false (ltb i k) _ _ (ground (arith, le)) ∙ ap (λ n. get_or (b ∷ bs) n (c i)) s)

module _ (zero_block : CachedTdMetadataBlock) (stale : ℕ → ℕ) where
  recovery_steps_lem :
      (steps : List RecoveryStep) (cs : (ℕ → CachedTdMetadataBlock) × List CachedTdMetadataBlock)
      (i : ℕ)
      → (recovery_steps zero_block stale steps cs).0 i ≡ last_update (all_updates steps) i (cs.0 i)
  unfolding recovery_steps with_updates
  recovery_steps_lem [] cs i = refl
  recovery_steps_lem (step ∷ steps) cs i =
      let sent = cs.1 ++ answer zero_block stale step.needed_idx 0 step.n_needed cs.0 in
      let rest =
        with_updates (recovery_steps zero_block stale steps) step.updated (cs.0, sent)
          step.n_updated in
      elim (Bool-cases (ltb 4 step.n_needed)) [
        | inl many ↦
            let none_left =
              if_true (ltb 4 step.n_needed) []
                (updates_then (all_updates steps) step.updated step.n_updated) many in
            ap (λ (x : (ℕ → CachedTdMetadataBlock) × List CachedTdMetadataBlock). x.0 i)
              (ends (step.n_needed == uint32_max) cs rest many)
            ∙ sym (ap (λ us. last_update us i (cs.0 i)) none_left)
        | inr few ↦
            let these =
              if_false (ltb 4 step.n_needed) []
                (updates_then (all_updates steps) step.updated step.n_updated) few in
            ap (λ (x : (ℕ → CachedTdMetadataBlock) × List CachedTdMetadataBlock). x.0 i)
              (if_false (step.n_needed == uint32_max) _ _ (ground (arith, few))
                ∙ if_false (ltb 4 step.n_needed) _ _ few)
            ∙ with_updates_lem step.n_updated step.updated (cs.0, sent)
                (λ cs'. recovery_steps_lem steps cs' i)
            ∙ sym (ap (λ us. last_update us i (cs.0 i)) these)
      ]
    where
      ends :
          (c : Bool) (x y : (ℕ → CachedTdMetadataBlock) × List CachedTdMetadataBlock)
          → ltb 4 step.n_needed ≡ true
          → (if c then x else if ltb 4 step.n_needed then x else y) ≡ x
      ends true x y many = refl
      ends false x y many = if_true (ltb 4 step.n_needed) x y many

      with_updates_lem :
          (o : Option ℕ) (us : List CachedTdMetadataBlock)
          (cs : (ℕ → CachedTdMetadataBlock) × List CachedTdMetadataBlock)
          → ((cs' : (ℕ → CachedTdMetadataBlock) × List CachedTdMetadataBlock)
              → (recovery_steps zero_block stale steps cs').0 i
                ≡ last_update (all_updates steps) i (cs'.0 i))
          → (with_updates (recovery_steps zero_block stale steps) us cs o).0 i
            ≡ last_update (updates_then (all_updates steps) us o) i (cs.0 i)
      with_updates_lem none us cs ih = refl
      with_updates_lem (some n) us cs ih =
          ih (apply_updates (take n us) cs.0, cs.1)
          ∙ ap (last_update (all_updates steps) i) (apply_updates_lem (take n us) cs.0 i)
          ∙ sym (last_update-append (take n us) (all_updates steps) i (cs.0 i))

  -- After `build_cache`, whatever arrives and wherever it stops, no block of the cache is believed to be
  -- in the gatekeeper's cache; and each entry of the driver's is the last update that the recovery
  -- brought for its index, or else the block received in its place, whole or in part, or else what it
  -- was. At most the one block after those received whole is received in part.
  pub build_cache_lem :
      (blocks : List CachedTdMetadataBlock) (broken : Option CachedTdMetadataBlock)
      (steps : List RecoveryStep) (md_cache : ℕ → CachedTdMetadataBlock) (membership : ℕ → Bool)
      (i : ℕ)
      → let built = build_cache zero_block stale blocks broken steps md_cache membership in
        (built.0.0 i
          ≡ last_update (all_updates steps) i (get_or (received blocks broken) i (md_cache i)))
        × (built.1 i ≡ (membership i && not (ltb i total_num_metadata_blocks)))
  unfolding build_cache
  build_cache_lem blocks broken steps md_cache membership i =
      let last = if ltb (length blocks) total_num_metadata_blocks then broken else none in
      let whole = take total_num_metadata_blocks blocks in
      (
        recovery_steps_lem steps (receive_blocks 0 whole last md_cache, []) i
            ∙ ap (last_update (all_updates steps) i) (
                ap (λ c. c i) (receive_blocks-all 0 whole last md_cache)
                ∙ receive_all_lem 0 (received blocks broken) md_cache i
                ∙ if_false (ltb i 0) _ _ (ground arith)
                ∙ ap (λ n. get_or (received blocks broken) n (md_cache i)) (omega arith)),
        reset_membership_lem 0 total_num_metadata_blocks membership i (omega arith) ∙ ground arith,
      )
