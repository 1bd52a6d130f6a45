-- ===== src/Tss2/Leaks.antt =====
-- What is left of the blocks when an initialisation fails, and when a session ends.
use tpm2_tcti_uefi.Base.{ℕ, ◌≡◌, ◌≢◌, inl, inr, true, ◌==◌, arith, refl}
use tpm2_tcti_uefi.Platform.{Platform, IsLawful}
use tpm2_tcti_uefi.Pool.{World, returned, Act, after}
use tpm2_tcti_uefi.Pool.Laws.{Returns, after-Returns, Returns-mono}
use tpm2_tcti_uefi.Tss2.{
  tcti_uefi_init, sys_uefi_init_from_tcti_ctx, sys_uefi_init, sys_uefi_teardown_full,
}
use tpm2_tcti_uefi.Tss2.External.{Library, IsLibrary}
use tpm2_tcti_uefi.Tss2.Init.{HasTcti, tcti_uefi_init-cases, sys_uefi_init_from_tcti_ctx-cases}
use tpm2_tcti_uefi.Tss2.Ready.{sys_uefi_init-cases}
use tpm2_tcti_uefi.Tss2.Stays.{Stays}
use tpm2_tcti_uefi.Tss2.Teardown.{sys_uefi_teardown_full-Returns}

module _ {F S : Type 0} {p : Platform F} {l : Library F S} (lawful : IsLawful p)
    (ok : IsLibrary p l) where
  -- If the TCTI context can be made but not the SAPI context over it, `sys_uefi_init` fails and leaves
  -- the block of the TCTI context live, whose address it hands to nobody.
  pub sys_uefi_init_leaks :
      (old a : ℕ) (w w1 w2 : World F S) (r : ℕ × ℕ)
      → tcti_uefi_init p l p.uninitialised w ≡ returned ((p.rc_success, a), w1)
      → sys_uefi_init p l old w ≡ returned (r, w2)
      → r.0 ≢ p.rc_success
      → (r.1 ≡ old) × HasTcti w.blocks a w2.blocks
  unfolding sys_uefi_init
  sys_uefi_init_leaks old a w w1 w2 r made came fails =
      let first = rw made at (tcti_uefi_init-cases lawful ok p.uninitialised w) in
      let same : (p.rc_success == p.rc_success) ≡ true = ground arith in
      let second_came : sys_uefi_init_from_tcti_ctx p l a old w1 ≡ returned (r, w2) =
        rw (sys_uefi_init, made, same) at came in
      let second = rw second_came at (sys_uefi_init_from_tcti_ctx-cases lawful ok a old w1) in
      elim first [
        | inr failed ↦ absurd (failed.0 refl)
        | inl t ↦ elim second [
          | inl succeeded ↦ absurd (fails succeeded.0)
          | inr failed ↦ (failed.1, rw failed.2 t.1)
        ]
      ]

  -- A session: `sys_uefi_init`, any action that comes back and keeps the SAPI context ready, and the
  -- full teardown. If the initialisation succeeds, the teardown comes back without using a block that is
  -- not live, and the blocks are those from before the initialisation.
  pub session-balanced :
      {A : Type 0} (old : ℕ) (w w1 : World F S) (sys : ℕ) (body : Act F S A)
      → sys_uefi_init p l old w ≡ returned ((p.rc_success, sys), w1)
      → Stays p l w.blocks sys body
      → Returns (λ r. r.1.blocks ≡ w.blocks) (after (body w1) (λ a. sys_uefi_teardown_full p l sys))
  session-balanced old w w1 sys body made stays =
      let cases = rw made at (sys_uefi_init-cases lawful ok old w) in
      elim cases [
        | inr failed ↦ absurd (failed.0 refl)
        | inl ready ↦
            after-Returns _ (λ r. r.1.blocks ≡ w.blocks) (body w1) _ (stays.stay w1 ready.1)
              (λ r h.
                Returns-mono _ (λ q. q.1.blocks ≡ w.blocks) (sys_uefi_teardown_full p l sys r.1)
                  (sys_uefi_teardown_full-Returns p l w.blocks sys r.1 h) (λ q e. e.0))
      ]
