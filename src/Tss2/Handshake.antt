-- ===== src/Tss2/Handshake.antt =====
-- `tcti_uefi_init` hands out a context that the TCTI accepts: the size query, the allocation and the
-- initialisation fit together.
use tpm2_tcti_uefi.Base.{
  ℕ, ◌≡◌, ◌⊎◌, inl, inr, true, ◌∷◌, none, some, ◌==◌, ◌+◌, ◌<◌, ◌^◌, length, arith, refl, ap, sym,
  ◌∙◌, ◌≢◌, Bool-cases,
}
use tpm2_tcti_uefi.Platform.{Platform, IsLawful}
use tpm2_tcti_uefi.Tcti.{Context, transmitting, init, initialise}
use tpm2_tcti_uefi.Tcti.Init.{Answers, max_buf, reported, init-query_size}
use tpm2_tcti_uefi.Tcti.Valid.{IsValid}
use tpm2_tcti_uefi.Pool.{tcti, Blocks, World, addresses}
use tpm2_tcti_uefi.Pool.Laws.{Returns, find-here, put-here}
use tpm2_tcti_uefi.Tss2.{allocate, stored_size, tcti_uefi_init}
use tpm2_tcti_uefi.Tss2.External.{Library, IsLibrary}

same : (n : ℕ) → (n == n) ≡ true
same n = ground arith

module _ {S : Type 0} where
  -- A new block with a valid context that is ready for a command of up to `size` bytes.
  pub record HasValid (size a : ℕ) (before after : Blocks S) : Type 0 where
    pub context : Context
    pub holds : after ≡ (a, tcti context) ∷ before
    pub valid : IsValid context
    pub ready : context.state ≡ transmitting
    pub room : context.size ≡ size

module _ {F S : Type 0} {p : Platform F} {l : Library F S} (lawful : IsLawful p)
    (ok : IsLibrary p l) where
  initialise-IsValid :
      (c : Context) (n m : ℕ)
      → n ≡ p.sizeof_context + m
      → p.sizeof_context + m < 2 ^ 64
      → length c.cmd_buf ≡ m
      → IsValid (initialise p c n)
        × ((initialise p c n).state ≡ transmitting)
        × ((initialise p c n).size ≡ m)
  unfolding initialise
  initialise-IsValid c n m size fits room = ground arith

  -- The block that AllocatePool gives out for the size that the firmware asks for, or 0 for NULL.
  abbrev pub block_for : World F S → ℕ
  block_for w =
      (l.allocate_pool (addresses w.blocks) (p.sizeof_context + max_buf p w.machine)
        (reported p w.machine).2).0

  -- If the firmware answers the size query, `tcti_uefi_init` asks AllocatePool for a block with room for
  -- the structure and for the largest command and the largest response of the firmware. If that does
  -- not return NULL, it succeeds with the address of the block, which is the one new block and holds a
  -- valid context in the state `transmitting` with a buffer for that command and response. If it
  -- returns NULL, it fails with TSS2_TCTI_RC_GENERAL_FAILURE, a NULL context and the blocks as before.
  pub tcti_uefi_init-HasValid :
      (old : ℕ) (w : World F S)
      → Answers p w.machine
      → Returns
          (λ r.
            ((block_for w ≢ 0)
              × (r.0 ≡ (p.rc_success, block_for w))
              × HasValid (max_buf p w.machine) (block_for w) w.blocks r.1.blocks)
            ⊎ ((block_for w ≡ 0) × (r.0 ≡ (p.rc_general_failure, 0)) × (r.1.blocks ≡ w.blocks)))
          (tcti_uefi_init p l old w)
  unfolding tcti_uefi_init allocate init
  tcti_uefi_init-HasValid old w answers =
      let (query, s1) = init p none (some p.uninitialised) w.machine in
      let n = stored_size query.size in
      let asked = init-query_size lawful p.uninitialised w.machine answers in
      let e : (query.rc == p.rc_success) ≡ true = ground (arith, asked.0) in
      let size : n ≡ p.sizeof_context + max_buf p w.machine = rw asked.1 refl in
      let (a, g) = l.allocate_pool (addresses w.blocks) n s1.firmware in
      let c = l.fresh_tcti n g in
      let given : a ≡ block_for w = rw (size, asked.3) refl in
      elim (Bool-cases (a == 0)) [
        | inl z ↦
            (let null : a ≡ 0 = ground arith in
              rw (tcti_uefi_init, e, z)
                (inr (sym given ∙ null, ap (λ b. (p.rc_general_failure, b)) null, refl)))
        | inr z ↦
            (let block : length c.cmd_buf ≡ max_buf p w.machine =
                omega (arith, ok.fresh_room n g (omega (arith, size)), size) in
              let made = initialise-IsValid c n (max_buf p w.machine) size asked.2 block in
              let has : HasValid (max_buf p w.machine) (block_for w) w.blocks
                  ((a, tcti (initialise p c n)) ∷ w.blocks) =
                record {
                  context = initialise p c n;
                  holds = ap (λ b. (b, tcti (initialise p c n)) ∷ w.blocks) given;
                  valid = made.0;
                  ready = made.1;
                  room = made.2;
                } in
              rw (tcti_uefi_init, e, z, find-here a, same p.rc_success, put-here a)
                (inl
                  (λ null. absurd (ground (arith, given)), ap (λ b. (p.rc_success, b)) given, has)))
      ]
