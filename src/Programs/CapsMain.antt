-- ===== src/Programs/CapsMain.antt =====
-- `efi_main` of example/tpm2-get-caps-fixed.c, and that it gives back what it has allocated. `TPM2_NO`
-- is the constant of that name.
use tpm2_tcti_uefi.Base.{
  ℕ, ◌≡◌, ◌+◌, ◌-◌, ◌%◌, ◌^◌, List, [], ◌∷◌, String, ◌==◌, if◌then◌else◌, refl,
}
use tpm2_tcti_uefi.Platform.{num, str, print, Platform, IsLawful}
use tpm2_tcti_uefi.Pool.{World, Act, pure, ◌>>=◌, ◌>>◌, say, lines}
use tpm2_tcti_uefi.Tss2.{sys_uefi_init, sys_uefi_teardown_full}
use tpm2_tcti_uefi.Tss2.External.{Library, IsLibrary}
use tpm2_tcti_uefi.Tss2.Commands.{Commands, AreKeeping}
use tpm2_tcti_uefi.Tss2.Call.{call}
use tpm2_tcti_uefi.Tss2.Session.{EndsClean, session-EndsClean}
use tpm2_tcti_uefi.Tss2.Stays.{Stays, say-Stays, lines-Stays, if-Stays, call-Stays}
use tpm2_tcti_uefi.Programs.PropertyText.{Unpack}
use tpm2_tcti_uefi.Programs.CapsFixed.{Property, dump_tpm_properties_fixed}

-- `prop_str`
abbrev pub prop_str : ℕ → String
prop_str value = if value == 0 then "false" else "true"

module _ {F S : Type 0} (p : Platform F) (l : Library F S) (k : Commands F S)
    (unpack : Unpack) where
  -- What is printed of the answer; a failure has been reported by then.
  abbrev pub report : ℕ → List Property → Act F S (Unit {0})
  report more_data properties = do
    say (print "Tss2_Sys_GetCapability returned TSS2_RC_SUCCESS\n" [])
    say (print "Tss2_Sys_Getcapability has more data: %s\n" (str (prop_str more_data) ∷ []))
    say (print "dump_tpm_properties_fixed\n" [])
    lines (dump_tpm_properties_fixed k.constant unpack properties)

  -- From Tss2_Sys_GetCapability to the teardown.
  unfoldable pub get_fixed : ℕ → Act F S (Unit {0})
  get_fixed sys_ctx = do
    got ← call l sys_ctx (
        k.get_properties (k.constant "TPM2_CAP_TPM_PROPERTIES") (k.constant "TPM2_PT_FIXED")
          ((k.constant "TPM2_PT_MODES" + 2 ^ 32 - k.constant "TPM2_PT_FIXED") % 2 ^ 32)
          (k.constant "TPM2_NO") [])
    if got.0 == p.rc_success then report got.1.0 got.1.1 else (do
      say (print "Failed to Tss2_Sys_GetCapability: 0x%x\n" (num got.0 ∷ []))
      report got.1.0 got.1.1)

  -- `efi_main` of the program, behind `InitializeLib`.
  unfoldable pub efi_main : Act F S ℕ
  efi_main = do
    made ← sys_uefi_init p l p.uninitialised
    if made.0 == p.rc_success
        then (do u ← get_fixed made.1; sys_uefi_teardown_full p l made.1; pure p.efi_success)
        else pure k.efi_aborted

module _ {F S : Type 0} {p : Platform F} {l : Library F S} (k : Commands F S) (unpack : Unpack)
    (lawful : IsLawful p) (ok : IsLibrary p l) (keeping : AreKeeping l k) where
  get_fixed-Stays : (w : World F S) (sys : ℕ) → Stays p l w.blocks sys (get_fixed p l k unpack sys)
  unfolding get_fixed
  get_fixed-Stays w sys =
      call-Stays _ _ (keeping.get_properties_keeps _ _ _ _ _)
        (λ r. if-Stays _ (report-Stays r.1.0 r.1.1) (say-Stays _ (report-Stays r.1.0 r.1.1)))
    where
      report-Stays :
          (more : ℕ) (ps : List Property) → Stays p l w.blocks sys (report p l k unpack more ps)
      report-Stays more ps = say-Stays _ (say-Stays _ (say-Stays _ (lines-Stays _)))

  -- If the command leaves the contexts in place, the program ends, whatever the TPM answers. If
  -- `sys_uefi_init` succeeds, it ends with EFI_SUCCESS, also where the command failed, never uses or frees
  -- a block that is not live, and gives back every block that it has allocated. If `sys_uefi_init` fails,
  -- it ends with EFI_ABORTED in the world that this call left: with the blocks of before, or with one
  -- more that holds a TCTI context.
  pub efi_main-gives_back :
      (w : World F S)
      → EndsClean p l (λ status. status ≡ p.efi_success) k.efi_aborted (efi_main p l k unpack) w
  unfolding efi_main
  efi_main-gives_back w =
      session-EndsClean lawful ok (λ status. status ≡ p.efi_success) k.efi_aborted
        (λ u. p.efi_success) (λ u. refl) (get_fixed p l k unpack) w (get_fixed-Stays w)
