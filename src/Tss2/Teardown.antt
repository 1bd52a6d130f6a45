-- ===== src/Tss2/Teardown.antt =====
-- The teardown gives back what the initialisation took.
use tpm2_tcti_uefi.Base.{ℕ, ◌≡◌, inl, inr, true, false, ◌∷◌, ◌==◌, arith, refl, ◌∙◌, Bool-cases}
use tpm2_tcti_uefi.Platform.{Platform}
use tpm2_tcti_uefi.Tcti.{Context, uefi_finalize, finalize}
use tpm2_tcti_uefi.Pool.{tcti, sapi, Blocks, World}
use tpm2_tcti_uefi.Pool.Laws.{
  Returns, after-Returns, Returns-mono, find-here, put-here, remove-here, contains-here,
}
use tpm2_tcti_uefi.Tss2.{free, tcti_uefi_teardown, sys_uefi_teardown, sys_uefi_teardown_full}
use tpm2_tcti_uefi.Tss2.External.{Library}
use tpm2_tcti_uefi.Tss2.Ready.{IsReady}

module _ {F S : Type 0} (p : Platform F) (l : Library F S) where
  tcti_uefi_teardown-front :
      (blocks : Blocks S) (a : ℕ) (c : Context) (w : World F S)
      → w.blocks ≡ (a, tcti c) ∷ blocks
      → (a == 0) ≡ false
      → c.finalize_entry ≡ uefi_finalize
      → Returns
          (λ r. (r.1.blocks ≡ blocks) × (r.1.machine.output ≡ w.machine.output))
          (tcti_uefi_teardown p l a w)
  unfolding tcti_uefi_teardown free finalize
  tcti_uefi_teardown-front blocks a c w here z ends = elim (Bool-cases (l.finalize_calls c)) [
    | inl calls ↦
        rw (tcti_uefi_teardown, z, here, find-here a, calls, ends, put-here a)
          (rw (find-here a, put-here a, contains-here a, remove-here a) (refl, refl))
    | inr none_called ↦
        rw (tcti_uefi_teardown, z, here, find-here a, none_called, put-here a)
          (rw (contains-here a, remove-here a) (refl, refl))
  ]

  sys_uefi_teardown-front :
      (blocks : Blocks S) (a : ℕ) (x : S) (w : World F S)
      → w.blocks ≡ (a, sapi x) ∷ blocks
      → (a == 0) ≡ false
      → Returns
          (λ r. (r.1.blocks ≡ blocks) × (r.1.machine.output ≡ w.machine.output))
          (sys_uefi_teardown p l a w)
  unfolding sys_uefi_teardown free
  sys_uefi_teardown-front blocks a x w here z =
      rw (sys_uefi_teardown, z, here, find-here a, put-here a, contains-here a, remove-here a)
        (refl, refl)

  -- `sys_uefi_teardown_full` on a ready SAPI context gives back its block and that of its TCTI context
  -- and no other, uses no block after it is given back, and prints nothing.
  pub sys_uefi_teardown_full-Returns :
      (blocks : Blocks S) (sys : ℕ) (w : World F S)
      → IsReady p l blocks sys w.blocks
      → Returns
          (λ r. (r.1.blocks ≡ blocks) × (r.1.machine.output ≡ w.machine.output))
          (sys_uefi_teardown_full p l sys w)
  unfolding sys_uefi_teardown_full
  sys_uefi_teardown_full-Returns blocks sys w ready =
      let same : (p.rc_success == p.rc_success) ≡ true = ground arith in
      let back = record w {
        blocks = (sys, sapi ready.system) ∷ (ready.over, tcti ready.context) ∷ blocks;
      } in
      rw
        (
          sys_uefi_teardown_full,
          ready.sys_not_null,
          ready.holds,
          find-here sys,
          ready.knows 0,
          put-here sys,
          same,
        )
        (after-Returns _ (λ r. (r.1.blocks ≡ blocks) × (r.1.machine.output ≡ w.machine.output))
          (sys_uefi_teardown p l sys back) _
          (sys_uefi_teardown-front ((ready.over, tcti ready.context) ∷ blocks) sys ready.system back
            refl ready.sys_not_null)
          (λ r h.
            Returns-mono _ (λ q. (q.1.blocks ≡ blocks) × (q.1.machine.output ≡ w.machine.output))
              (tcti_uefi_teardown p l ready.over r.1)
              (tcti_uefi_teardown-front blocks ready.over ready.context r.1 h.0 ready.over_not_null
                ready.ends)
              (λ q k. (k.0, k.1 ∙ h.1))))
