-- ===== src/Metadata/Bounds.antt =====
-- Writing a log block keeps the positions in both log blocks within their arrays.
use timelock_drive.Prelude.{ℕ, zero, suc, ◌+◌, ◌-◌, ◌≡◌, refl, Bool, arith, update}
use timelock_drive.Constants.{length_td_log_block, length_version_log_block}
use timelock_drive.Logs.{Logs, push_td}
use timelock_drive.Logs.Bounds.{InBounds}
use timelock_drive.Gatekeeper.{Gatekeeper}
use timelock_drive.Metadata.{
  Driver, Outcome, returned, stopped, pad_td, pad_map, send_hd_metadata, send_metadata,
  no_entry as no_l2p_entry,
}
use timelock_drive.Metadata.Sent.{
  clean, no_entry, halted, written, send_hd_metadata-HdEnds, send_metadata-VmdEnds,
}

-- The predicate holds of the state that is returned, if one is.
abbrev pub OnReturn {ℓ κ} : {S : Type ℓ} → (S → Type κ) → Outcome S → Type κ
OnReturn P (returned s) = P s
OnReturn P stopped = Unit

record Padded {E : Type 0} (n : ℕ) (l l' : Logs E) : Type 0 where
  td_idx : l'.tdmd_idx ≡ l.tdmd_idx + n
  same_map : l'.map_idx ≡ l.map_idx

pad_td-Padded : {E : Type 0} → (n : ℕ) (l : Logs E) → Padded n l (pad_td n l)
unfolding pad_td
pad_td-Padded zero l = record { td_idx = omega arith; same_map = refl }
pad_td-Padded (suc n) l =
    let ih = pad_td-Padded n (push_td l.current_tdmd_block l) in
    record { td_idx = omega (arith, ih.td_idx); same_map = ih.same_map }

pub pad_td-dirty : {E : Type 0} → (n : ℕ) (l : Logs E) → (pad_td n l).tdmd_dirty ≡ l.tdmd_dirty
unfolding pad_td
pad_td-dirty zero l = refl
pad_td-dirty (suc n) l = pad_td-dirty n (push_td l.current_tdmd_block l)

pad_map-idx :
    {E : Type 0}
    → (n : ℕ) (l : Logs E)
    → ((pad_map n l).map_idx ≡ l.map_idx + n) × ((pad_map n l).tdmd_idx ≡ l.tdmd_idx)
unfolding pad_map
pad_map-idx zero l = (omega arith, refl)
pad_map-idx (suc n) l =
    let next = record l {
      l2p_block = record l.l2p_block { map = update l.l2p_block.map l.map_idx no_l2p_entry };
      map_idx = l.map_idx + 1;
    } in
    let ih = pad_map-idx n next in (omega (arith, ih.0), ih.1)

pub pad_td-InBounds :
    {E : Type 0}
    → (l : Logs E) → InBounds l
    → InBounds (pad_td (length_td_log_block - l.tdmd_idx) l)
pad_td-InBounds l b =
    let p = pad_td-Padded (length_td_log_block - l.tdmd_idx) l in
    (omega (arith, p.same_map, b.0), omega (arith, p.td_idx, b.1))

pub pad_map-InBounds :
    {E : Type 0}
    → (l : Logs E) → InBounds l
    → InBounds (pad_map (length_version_log_block - l.map_idx) l)
pad_map-InBounds l b =
    let p = pad_map-idx (length_version_log_block - l.map_idx) l in
    (omega (arith, p.0, b.0), omega (arith, p.1, b.1))

module _ {A E G : Type 0} (gk : Gatekeeper A G) where
  pub send_hd_metadata-InBounds :
      (now : ℕ) (b : Bool) (d : Driver E G)
      → InBounds d.logs
      → OnReturn (λ (d' : Driver E G). InBounds d'.logs) (send_hd_metadata gk now b d)
  send_hd_metadata-InBounds now b d v =
      let padded = pad_td-InBounds d.logs v in
      elim (send_hd_metadata-HdEnds gk now b d) [
        | clean c e ↦ rw e v
        | no_entry c e ↦ rw e padded
        | halted e ↦ rw e tt
        | written p store needed ne c e ↦ rw e (padded.0, omega arith)
      ]

  pub send_metadata-InBounds :
      (b : Bool) (d : Driver E G)
      → InBounds d.logs
      → OnReturn (λ (d' : Driver E G). InBounds d'.logs) (send_metadata gk b d)
  send_metadata-InBounds b d v =
      let padded = pad_map-InBounds d.logs v in
      elim (send_metadata-VmdEnds gk b d) [
        | clean c e ↦ rw e v
        | no_entry c e ↦ rw e padded
        | halted e ↦ rw e tt
        | written p store blocks g ne e ↦ rw e (omega arith, padded.1)
      ]
