-- ===== src/Write/Membership.antt =====
-- What the driver believes about the gatekeeper's cache after a write, and that an error leaves its
-- own copies as they were.
use timelock_drive.Prelude.{
  ℕ, ◌≡◌, refl, sym, ap, subst, ◌∙◌, Bool, true, false, not, ◌&&◌, ◌||◌, Option, none, some, List,
  [], ◌∷◌, ltb, ◌==◌, if◌then◌else◌, arith, Bool-cases, Option-cases, inl, inr, if_true, if_false,
}
use timelock_drive.Constants.{max_md_blocks_in_header, total_num_metadata_blocks}
use timelock_drive.MdIndex.{md_block_already_queued}
use timelock_drive.Control.{CachedTdMetadataBlock, Reply}
use timelock_drive.Logs.{EpochMap}
use timelock_drive.Gatekeeper.{Gatekeeper, Payload}
use timelock_drive.Metadata.{Driver, merge_evicted, note_md_membership_update}
use timelock_drive.Metadata.Membership.{evicts, evicted_in, first_of-zero, merge_evicted-membership}
use timelock_drive.Write.{
  Modes, Alloc, FailStage, WriteResult, written, erofs, write_fail, referenced, unsent,
  note_written, take_evictions, after_byte, go_on, request, write_response, exchange, md_blocks_of,
  layout, device_write, checker_write_denied, checker_freshness_reject, write_recv_short,
  too_many_evicted_blocks, evict_recv_short,
}
use timelock_drive.Write.Ends.{
  device_write-WriteEnds, refused, failed, unsendable, sent, allocation,
}

note_written_lem :
    (xs : List ℕ) (m : ℕ → Bool) (i : ℕ)
    → note_written xs m i
      ≡ (m i || (md_block_already_queued xs i && ltb i total_num_metadata_blocks))
unfolding note_written note_md_membership_update md_block_already_queued
note_written_lem [] m i = ground arith
note_written_lem (x ∷ xs) m i =
    let ih = note_written_lem xs (note_md_membership_update x true m) i in ground (arith, ih)

-- The blocks sent are those touched that are not believed to be held.
pub unsent_lem :
    (m : ℕ → Bool) (touched : List ℕ) (i : ℕ)
    → md_block_already_queued (unsent m touched) i
      ≡ (md_block_already_queued touched i && not (m i))
unfolding unsent md_block_already_queued
unsent_lem m [] i = refl
unsent_lem m (x ∷ touched) i =
    let ih = unsent_lem m touched i in
    let same = λ (e : x ≡ i). ap m e in
    elim (Bool-cases (x == i)) [
      | inl e ↦ let held : m x ≡ m i = ap m (ground arith) in ground (arith, ih, held)
      | inr ne ↦ ground (arith, ih)
    ]

-- The response left nothing changed, or those sent were noted, and the blocks evicted in it taken if it
-- was whole (`taken`).
pub data Responded (md_blocks : List ℕ) (reply : Reply)
    (cm : (ℕ → CachedTdMetadataBlock) × (ℕ → Bool))
    (r : WriteResult × (ℕ → CachedTdMetadataBlock) × (ℕ → Bool)) : Type 0 where
  dropped :
      (stage : FailStage) → r ≡ (write_fail stage, cm.0, cm.1) → Responded md_blocks reply cm r
  noted :
      (stage : FailStage)
      → r ≡ (write_fail stage, cm.0, note_written md_blocks cm.1)
      → Responded md_blocks reply cm r
  taken :
      r ≡ (
        written,
        (merge_evicted (evicted_in reply) (cm.0, note_written md_blocks cm.1)).0,
        (merge_evicted (evicted_in reply) (cm.0, note_written md_blocks cm.1)).1,
      )
      → Responded md_blocks reply cm r

take_evictions-Responded :
    (n : ℕ) (md_blocks : List ℕ) (cm : (ℕ → CachedTdMetadataBlock) × (ℕ → Bool)) (reply : Reply)
    → reply.first_byte ≡ some n
    → Responded md_blocks reply cm (take_evictions n reply (cm.0, note_written md_blocks cm.1))
unfolding take_evictions
take_evictions-Responded n md_blocks cm reply e = elim (Bool-cases (n == 0)) [
  | inl z ↦
      let evicts_none : evicted_in reply ≡ [] =
        rw e (first_of-zero n (reply.evicted n) (ground (arith, z))) in
      taken (if_true _ _ _ z ∙ rw evicts_none (unfold merge_evicted in refl))
  | inr some_evicted ↦ elim (Bool-cases (ltb max_md_blocks_in_header n)) [
    | inl many ↦ noted too_many_evicted_blocks (rw (some_evicted, many) refl)
    | inr few ↦ elim (Option-cases (reply.evicted n)) [
      | inl short ↦ noted evict_recv_short (rw (some_evicted, few, short) refl)
      | inr (blocks, f) ↦ taken (rw (e, some_evicted, few, f) refl)
    ]
  ]
]

after_byte-Responded :
    (md_blocks : List ℕ) (cm : (ℕ → CachedTdMetadataBlock) × (ℕ → Bool)) (byte : Option ℕ)
    (reply : Reply)
    → reply.first_byte ≡ byte
    → Responded md_blocks reply cm (after_byte md_blocks byte reply cm)
unfolding after_byte
after_byte-Responded md_blocks cm none reply e = dropped write_recv_short refl
after_byte-Responded md_blocks cm (some n) reply e = elim (Bool-cases (n == 255)) [
  | inl denied ↦ dropped checker_write_denied (if_true _ _ _ denied)
  | inr allowed ↦ elim (Bool-cases (n == 254)) [
    | inl stale ↦ dropped checker_freshness_reject (if_false _ _ _ allowed ∙ if_true _ _ _ stale)
    | inr fresh ↦ rw (allowed, fresh) (take_evictions-Responded n md_blocks cm reply e)
  ]
]

believe : (a b s e : Bool) → (((a || (b && not a && s)) && e)) ≡ ((a || (b && s)) && e)
believe a b s e = ground arith

-- The metadata blocks that a request refers to.
abbrev pub needed : {E : Type 0} → Modes → Alloc E → List ℕ
needed m a = if m.versioning_metadata then referenced m a.hd a.touched_md_blocks else []

queued_md_blocks :
    (on : Bool) (m : ℕ → Bool) (touched : List ℕ) (i : ℕ)
    → md_block_already_queued (if on then unsent m touched else []) i
      ≡ (md_block_already_queued (if on then touched else []) i && not (m i))
queued_md_blocks true m touched i = unsent_lem m touched i
queued_md_blocks false m touched i = unfold md_block_already_queued in refl

-- What the driver believes once the response is taken, with the metadata blocks `xs` needed.
belief :
    {E G : Type 0}
    → (m : Modes) (a : Alloc E) (d : Driver E G) (evicted : List CachedTdMetadataBlock) (i : ℕ)
    → (merge_evicted evicted
          (d.md_cache, note_written (md_blocks_of m a d) d.md_cache_membership)).1
        i
      ≡ ((d.md_cache_membership i
            || (md_block_already_queued (needed m a) i && ltb i total_num_metadata_blocks))
          && not (evicts evicted i))
belief m a d evicted i =
    merge_evicted-membership evicted
      (d.md_cache, note_written (md_blocks_of m a d) d.md_cache_membership) i
    ∙ ap (λ x. x && not (evicts evicted i))
        (note_written_lem (md_blocks_of m a d) d.md_cache_membership i
          ∙ ap (λ x. d.md_cache_membership i || (x && ltb i total_num_metadata_blocks))
              (queued_md_blocks m.versioning_metadata d.md_cache_membership
                (referenced m a.hd a.touched_md_blocks) i))
    ∙ believe (d.md_cache_membership i) (md_block_already_queued (needed m a) i)
        (ltb i total_num_metadata_blocks) (not (evicts evicted i))

pub result_eq :
    {S : Type 0}
    → (x y : WriteResult) (a b : S) → ◌≡◌ {A = WriteResult × S} (x, a) (y, b)
    → (x ≡ y) × (a ≡ b)
result_eq x y a b h = (ap (λ r. r.0) h, ap (λ r. r.1) h)

pub erofs-written : erofs ≡ written → ⊥
erofs-written h = cc

pub fail-written : (stage : FailStage) → write_fail stage ≡ written → ⊥
fail-written stage h = cc

module _ {A E G : Type 0} (gk : Gatekeeper A G) (ops : EpochMap E) (fuel now : ℕ) (m : Modes) where
  -- The gatekeeper's answer to the request for an allocation.
  abbrev pub answer : List (Payload A) → Alloc E → Driver E G → Reply × G
  answer payload a d = gk.on_write (request m payload a (record d { logs = a.logs })) d.gatekeeper

  -- The logs are those that the allocation left; the gatekeeper got the request with its payload; and
  -- the driver believes it to hold the metadata blocks that it held and those needed, but for the ones
  -- evicted in its response.
  pub record Accepted (b : List A) (offset : ℕ) (d d' : Driver E G) : Type 0 where
    pub alloc : Alloc E
    pub allocated : allocation ops fuel now m b offset d.logs ≡ go_on alloc
    pub same_logs : d'.logs ≡ alloc.logs
    pub payload : List (Payload A)
    pub laid_out : layout b alloc.version alloc.hd ≡ some payload
    pub sent_it : d'.gatekeeper ≡ (answer payload alloc d).1
    pub belief_after :
        (md : ℕ)
        → d'.md_cache_membership md ≡ (
            (d.md_cache_membership md
              || (md_block_already_queued (needed m alloc) md && ltb md total_num_metadata_blocks))
            && not (evicts (evicted_in (answer payload alloc d).0) md))

  -- The state after an exchange with the given cache, membership and gatekeeper.
  abbrev pub exchanged :
      Alloc E → Driver E G → (ℕ → CachedTdMetadataBlock) → (ℕ → Bool) → G → Driver E G
  exchanged a d md_cache membership g = record {
    logs = a.logs;
    md_cache = md_cache;
    md_cache_membership = membership;
    gatekeeper = g;
  }

  -- What an exchange comes to, by the answer.
  abbrev pub Exchanged : List (Payload A) → Alloc E → Driver E G → WriteResult × Driver E G → Type 0
  Exchanged payload a d x =
      (r : WriteResult × (ℕ → CachedTdMetadataBlock) × (ℕ → Bool)) × Responded (md_blocks_of m a d)
        (answer payload a d).0 (d.md_cache, d.md_cache_membership) r
      × (x ≡ (r.0, exchanged a d r.1 r.2 (answer payload a d).1))

  pub exchange-Responded :
      (payload : List (Payload A)) (a : Alloc E) (d : Driver E G)
      → Exchanged payload a d (
          exchange gk m
            (request m payload a (record d { logs = a.logs }))
            (md_blocks_of m a d)
            (record d { logs = a.logs }))
  unfolding exchange
  exchange-Responded payload a d =
      let reply = (answer payload a d).0 in
      (
        write_response (md_blocks_of m a d) reply (d.md_cache, d.md_cache_membership),
        after_byte-Responded (md_blocks_of m a d) (d.md_cache, d.md_cache_membership)
            reply.first_byte reply refl,
        refl,
      )

  took :
      (a : Alloc E) (b : List A) (offset : ℕ) (d d' : Driver E G) (payload : List (Payload A))
      (x : WriteResult × Driver E G)
      → allocation ops fuel now m b offset d.logs ≡ go_on a
      → layout b a.version a.hd ≡ some payload
      → Exchanged payload a d x
      → x ≡ (written, d')
      → Accepted b offset d d'
  took a b offset d d' payload x al l (r, dropped stage e, ex) h = absurd (
      fail-written stage (
        ap (λ y. y.0)
          (sym (ex ∙ ap (λ y. (y.0, exchanged a d y.1 y.2 (answer payload a d).1)) e) ∙ h)))
  took a b offset d d' payload x al l (r, noted stage e, ex) h = absurd (
      fail-written stage (
        ap (λ y. y.0)
          (sym (ex ∙ ap (λ y. (y.0, exchanged a d y.1 y.2 (answer payload a d).1)) e) ∙ h)))
  took a b offset d d' payload x al l (r, taken e, ex) h =
      subst (Accepted b offset d)
        (ap (λ y. y.1)
          (sym (ex ∙ ap (λ y. (y.0, exchanged a d y.1 y.2 (answer payload a d).1)) e) ∙ h))
        (record {
          alloc = a;
          allocated = al;
          same_logs = refl;
          payload = payload;
          laid_out = l;
          sent_it = refl;
          belief_after = belief m a d (evicted_in (answer payload a d).0);
        })

  -- After a write that succeeds, the logs and the mapping are those of the allocation, the gatekeeper
  -- was sent the request with the payload laid out for it, and the driver believes the gatekeeper to
  -- hold exactly the metadata blocks that it was believed to hold before and those below the number of
  -- metadata blocks that the request needed, without the ones evicted in the response to that request.
  pub device_write_lem :
      (b : List A) (offset : ℕ) (d d' : Driver E G)
      → device_write gk ops fuel now m b offset d ≡ (written, d')
      → Accepted b offset d d'
  device_write_lem b offset d d' h = elim (device_write-WriteEnds gk ops fuel now m b offset d) [
    | refused e ↦ absurd (erofs-written (result_eq erofs written d d' (sym e ∙ h)).0)
    | failed stage a al e ↦ absurd (fail-written stage (result_eq _ written _ d' (sym e ∙ h)).0)
    | unsendable stage a al e ↦ absurd (fail-written stage (result_eq _ written _ d' (sym e ∙ h)).0)
    | sent a payload al enough l e ↦
        took a b offset d d' payload _ al l (exchange-Responded payload a d) (sym e ∙ h)
  ]
