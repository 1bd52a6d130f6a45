-- ===== src/Tss2/Init.antt =====
-- What the two allocating functions leave behind.
use tpm2_tcti_uefi.Base.{
  ℕ, ◌≡◌, ◌≢◌, ◌⊎◌, inl, inr, true, false, ◌∷◌, none, some, ◌==◌, arith, refl, Bool-cases,
}
use tpm2_tcti_uefi.Platform.{Platform, IsLawful}
use tpm2_tcti_uefi.Tcti.{Context, uefi_finalize, init, initialise}
use tpm2_tcti_uefi.Pool.{tcti, sapi, Blocks, World, context_in, addresses, find, contains}
use tpm2_tcti_uefi.Pool.Laws.{Returns, find-here, put-here, remove-here, contains-here}
use tpm2_tcti_uefi.Tss2.{
  allocate, free, stored_size, tcti_uefi_init, sys_uefi_init_from_tcti_ctx, abi_version,
}
use tpm2_tcti_uefi.Tss2.External.{Library, IsLibrary}

same : (n : ℕ) → (n == n) ≡ true
same n = ground arith

module _ {S : Type 0} where
  -- One new block, with a TCTI context that this repository's `finalize` ends.
  pub record HasTcti (blocks : Blocks S) (a : ℕ) (after : Blocks S) : Type 0 where
    pub context : Context
    pub holds : after ≡ (a, tcti context) ∷ blocks
    pub not_null : (a == 0) ≡ false
    pub not_live : contains a (addresses blocks) ≡ false
    pub ends : context.finalize_entry ≡ uefi_finalize

module _ {F S : Type 0} (p : Platform F) (l : Library F S) where
  -- One new block, with a SAPI context over the TCTI context at an address.
  pub record HasSapi (blocks : Blocks S) (over a : ℕ) (after : Blocks S) : Type 0 where
    pub context : S
    pub holds : after ≡ (a, sapi context) ∷ blocks
    pub not_null : (a == 0) ≡ false
    pub not_live : contains a (addresses blocks) ≡ false
    pub knows : (old : ℕ) → l.sys_get_tcti_context context old ≡ (p.rc_success, over)

module _ {F S : Type 0} {p : Platform F} {l : Library F S} (lawful : IsLawful p)
    (ok : IsLibrary p l) where
  pub tcti_uefi_init-cases :
      (old : ℕ) (w : World F S)
      → Returns
          (λ r.
            ((r.0.0 ≡ p.rc_success) × HasTcti w.blocks r.0.1 r.1.blocks)
            ⊎ ((r.0.0 ≢ p.rc_success) × (r.1.blocks ≡ w.blocks)))
          (tcti_uefi_init p l old w)
  unfolding tcti_uefi_init allocate init initialise
  tcti_uefi_init-cases old w =
      let (query, s1) = init p none (some p.uninitialised) w.machine in
      let n = stored_size query.size in
      elim (Bool-cases (query.rc == p.rc_success)) [
        | inr e ↦ rw (tcti_uefi_init, e) (inr (ground arith, refl))
        | inl e ↦
            (let (a, g) = l.allocate_pool (addresses w.blocks) n s1.firmware in
              elim (Bool-cases (a == 0)) [
                | inl z ↦ rw (tcti_uefi_init, e, z) (inr (lawful.general_failure_fails, refl))
                | inr z ↦
                    rw (tcti_uefi_init, e, z, find-here a, same p.rc_success, put-here a)
                      (let made : HasTcti w.blocks a
                            ((a, tcti (initialise p (l.fresh_tcti n g) n)) ∷ w.blocks) =
                          record {
                            context = initialise p (l.fresh_tcti n g) n;
                            holds = refl;
                            not_null = z;
                            not_live = ok.fresh (addresses w.blocks) n s1.firmware z;
                            ends = refl;
                          } in
                        inl (refl, made))
              ])
      ]

  pub sys_uefi_init_from_tcti_ctx-cases :
      (over old : ℕ) (w : World F S)
      → Returns
          (λ r.
            ((r.0.0 ≡ p.rc_success) × HasSapi p l w.blocks over r.0.1 r.1.blocks)
            ⊎ ((r.0.0 ≢ p.rc_success) × (r.0.1 ≡ old) × (r.1.blocks ≡ w.blocks)))
          (sys_uefi_init_from_tcti_ctx p l over old w)
  unfolding sys_uefi_init_from_tcti_ctx allocate free
  sys_uefi_init_from_tcti_ctx-cases over old w =
      let n = l.sys_get_context_size 0 in
      let (a, g) = l.allocate_pool (addresses w.blocks) n w.machine.firmware in
      let x = l.fresh_sapi n g in
      let c = context_in (find over ((a, sapi x) ∷ w.blocks)) in
      let made = l.sys_initialize n over c abi_version x in
      elim (Bool-cases (a == 0)) [
        | inl z ↦
            rw (sys_uefi_init_from_tcti_ctx, z) (inr (lawful.general_failure_fails, refl, refl))
        | inr z ↦ elim (Bool-cases (made.0 == p.rc_success)) [
          | inl e ↦
              (let has : HasSapi p l w.blocks over a ((a, sapi made.1) ∷ w.blocks) = record {
                context = made.1;
                holds = refl;
                not_null = z;
                not_live = ok.fresh (addresses w.blocks) n w.machine.firmware z;
                knows = λ before. ok.initialize_stores n over c abi_version x before (ground arith);
              } in
                rw (sys_uefi_init_from_tcti_ctx, z, find-here a, put-here a, e) (inl (refl, has)))
          | inr e ↦
              rw
                (
                  sys_uefi_init_from_tcti_ctx,
                  z,
                  find-here a,
                  put-here a,
                  e,
                  contains-here a,
                  remove-here a,
                )
                (inr (ground arith, refl, refl))
        ]
      ]
