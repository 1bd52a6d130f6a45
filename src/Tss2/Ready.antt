-- ===== src/Tss2/Ready.antt =====
-- `sys_uefi_init`: both contexts, or what is left behind when it fails.
use tpm2_tcti_uefi.Base.{ℕ, ◌≡◌, ◌≢◌, ◌⊎◌, inl, inr, true, false, ◌∷◌, ◌==◌, arith, refl}
use tpm2_tcti_uefi.Platform.{Platform, IsLawful}
use tpm2_tcti_uefi.Tcti.{Context, uefi_finalize}
use tpm2_tcti_uefi.Pool.{tcti, sapi, Blocks, World, addresses}
use tpm2_tcti_uefi.Pool.Laws.{Returns, after-Returns, Returns-mono, not-contains}
use tpm2_tcti_uefi.Tss2.{tcti_uefi_init, sys_uefi_init_from_tcti_ctx, sys_uefi_init}
use tpm2_tcti_uefi.Tss2.External.{Library, IsLibrary}
use tpm2_tcti_uefi.Tss2.Init.{
  HasTcti, HasSapi, tcti_uefi_init-cases, sys_uefi_init_from_tcti_ctx-cases,
}

module _ {F S : Type 0} (p : Platform F) (l : Library F S) where
  -- Two blocks besides those of before: a SAPI context at `sys`, and the TCTI context that it knows.
  pub record IsReady (blocks : Blocks S) (sys : ℕ) (after : Blocks S) : Type 0 where
    pub over : ℕ
    pub system : S
    pub context : Context
    pub holds : after ≡ (sys, sapi system) ∷ (over, tcti context) ∷ blocks
    pub sys_not_null : (sys == 0) ≡ false
    pub over_not_null : (over == 0) ≡ false
    pub apart : (sys == over) ≡ false
    pub knows : (old : ℕ) → l.sys_get_tcti_context system old ≡ (p.rc_success, over)
    pub ends : context.finalize_entry ≡ uefi_finalize

module _ {F S : Type 0} {p : Platform F} {l : Library F S} (lawful : IsLawful p)
    (ok : IsLibrary p l) where
  IsReady-intro :
      (blocks between after : Blocks S) (over sys : ℕ)
      → HasTcti blocks over between
      → HasSapi p l between over sys after
      → IsReady p l blocks sys after
  IsReady-intro blocks between after over sys t s = record {
    over = over;
    system = s.context;
    context = t.context;
    holds = rw (s.holds, t.holds) refl;
    sys_not_null = s.not_null;
    over_not_null = t.not_null;
    apart =
        let other = not-contains sys over (addresses blocks) (rw t.holds at s.not_live) in
        ground (arith, other.0);
    knows = s.knows;
    ends = t.ends;
  }

  -- What `sys_uefi_init` can come back with.
  abbrev pub Outcomes : ℕ → World F S → (ℕ × ℕ) × World F S → Type 0
  Outcomes old w r =
      ((r.0.0 ≡ p.rc_success) × IsReady p l w.blocks r.0.1 r.1.blocks)
      ⊎ ((r.0.0 ≢ p.rc_success)
          × (r.0.1 ≡ old)
          × ((r.1.blocks ≡ w.blocks) ⊎ ((a : ℕ) × HasTcti w.blocks a r.1.blocks)))

  after_tcti :
      (old : ℕ) (w : World F S) (r : (ℕ × ℕ) × World F S)
      → HasTcti w.blocks r.0.1 r.1.blocks
      → Returns (Outcomes old w) (sys_uefi_init_from_tcti_ctx p l r.0.1 old r.1)
  after_tcti old w r t =
      Returns-mono _ (Outcomes old w) (sys_uefi_init_from_tcti_ctx p l r.0.1 old r.1)
        (sys_uefi_init_from_tcti_ctx-cases lawful ok r.0.1 old r.1)
        (λ q h. elim h [
          | inl yes_made ↦
              inl
                (yes_made.0, IsReady-intro w.blocks r.1.blocks q.1.blocks r.0.1 q.0.1 t yes_made.1)
          | inr failed ↦ inr (failed.0, failed.1, inr (r.0.1, rw failed.2 t))
        ])

  pub sys_uefi_init-cases :
      (old : ℕ) (w : World F S) → Returns (Outcomes old w) (sys_uefi_init p l old w)
  unfolding sys_uefi_init
  sys_uefi_init-cases old w =
      after-Returns _ (Outcomes old w) (tcti_uefi_init p l p.uninitialised w) _
        (tcti_uefi_init-cases lawful ok p.uninitialised w)
        (λ r h. elim h [
          | inr failed ↦
              (let e : (r.0.0 == p.rc_success) ≡ false = ground (arith, failed.0) in
                rw e (inr (failed.0, refl, inl failed.1)))
          | inl made ↦
              (let e : (r.0.0 == p.rc_success) ≡ true = ground (arith, made.0) in
                rw e (after_tcti old w r made.1))
        ])
