-- ===== src/Write/Failure.antt =====
-- What a write that fails leaves behind.
use timelock_drive.Prelude.{ℕ, ◌≡◌, refl, sym, ap, subst, ◌∙◌, List}
use timelock_drive.Logs.{EpochMap, Logs}
use timelock_drive.Gatekeeper.{Payload, Gatekeeper}
use timelock_drive.Metadata.{Driver}
use timelock_drive.Write.{
  Modes, Alloc, Round, go_on, fail, FailStage, WriteResult, written, erofs, write_fail,
  device_write,
}
use timelock_drive.Write.Ends.{
  device_write-WriteEnds, refused, failed, unsendable, sent, allocation,
}
use timelock_drive.Write.Membership.{
  dropped, noted, taken, result_eq, exchanged, Exchanged, answer, exchange-Responded,
}

-- The logs as the allocation left them.
abbrev pub logs_of : {E : Type 0} → Round E → Logs E
logs_of (go_on a) = a.logs
logs_of (fail stage a) = a.logs

erofs-fail : (stage : FailStage) → erofs ≡ write_fail stage → ⊥
erofs-fail stage h = cc

written-fail : (stage : FailStage) → written ≡ write_fail stage → ⊥
written-fail stage h = cc

module _ {A E G : Type 0} (gk : Gatekeeper A G) (ops : EpochMap E) (fuel now : ℕ) (m : Modes) where
  -- The caches stay; the logs do not.
  abbrev Kept : List A → ℕ → Driver E G → Driver E G → Type 0
  Kept b offset d d' =
      (d'.logs ≡ logs_of (allocation ops fuel now m b offset d.logs)) × (d'.md_cache ≡ d.md_cache)

  not_sent :
      (b : List A) (offset : ℕ) (d d' : Driver E G) (stage stage' : FailStage) (a : Alloc E)
      → logs_of (allocation ops fuel now m b offset d.logs) ≡ a.logs
      → ◌≡◌ {A = WriteResult × Driver E G}
          (write_fail stage', record d { logs = a.logs })
          (write_fail stage, d')
      → Kept b offset d d'
  not_sent b offset d d' stage stage' a al h =
      subst (Kept b offset d) (ap (λ r. r.1) h) (sym al, refl)

  not_taken :
      (b : List A) (offset : ℕ) (d d' : Driver E G) (stage : FailStage) (a : Alloc E)
      (payload : List (Payload A)) (x : WriteResult × Driver E G)
      → logs_of (allocation ops fuel now m b offset d.logs) ≡ a.logs
      → Exchanged gk ops fuel now m payload a d x
      → x ≡ (write_fail stage, d')
      → Kept b offset d d'
  not_taken b offset d d' stage a payload x al (r, dropped s e, ex) h =
      subst (Kept b offset d)
        (ap (λ y. y.1)
          (sym (
              ex
              ∙ ap
                  (λ y. (
                    y.0,
                    exchanged gk ops fuel now m a d y.1 y.2
                        (answer gk ops fuel now m payload a d).1,
                  ))
                  e)
            ∙ h))
        (sym al, refl)
  not_taken b offset d d' stage a payload x al (r, noted s e, ex) h =
      subst (Kept b offset d)
        (ap (λ y. y.1)
          (sym (
              ex
              ∙ ap
                  (λ y. (
                    y.0,
                    exchanged gk ops fuel now m a d y.1 y.2
                        (answer gk ops fuel now m payload a d).1,
                  ))
                  e)
            ∙ h))
        (sym al, refl)
  not_taken b offset d d' stage a payload x al (r, taken e, ex) h = absurd (
      written-fail stage (
        ap (λ y. y.0)
          (sym (
              ex
              ∙ ap
                  (λ y. (
                    y.0,
                    exchanged gk ops fuel now m a d y.1 y.2
                        (answer gk ops fuel now m payload a d).1,
                  ))
                  e)
            ∙ h)))

  -- A write that fails, at whichever stage and so also when the gatekeeper denies it, leaves the
  -- driver's copies of the metadata blocks as they were, but the logs and the mapping as the allocation
  -- made them: nothing of it is taken back.
  pub device_write-failed :
      (b : List A) (offset : ℕ) (d d' : Driver E G) (stage : FailStage)
      → device_write gk ops fuel now m b offset d ≡ (write_fail stage, d')
      → (d'.logs ≡ logs_of (allocation ops fuel now m b offset d.logs)) × (d'.md_cache ≡ d.md_cache)
  device_write-failed b offset d d' stage h =
      elim (device_write-WriteEnds gk ops fuel now m b offset d) [
        | refused e ↦ absurd (erofs-fail stage (result_eq erofs _ d d' (sym e ∙ h)).0)
        | failed stage' a al e ↦ not_sent b offset d d' stage stage' a (ap logs_of al) (sym e ∙ h)
        | unsendable stage' a al e ↦
            not_sent b offset d d' stage stage' a (ap logs_of al) (sym e ∙ h)
        | sent a payload al enough l e ↦
            not_taken b offset d d' stage a payload _ (ap logs_of al)
              (exchange-Responded gk ops fuel now m payload a d) (sym e ∙ h)
      ]
