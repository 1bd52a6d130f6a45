-- ===== src/Programs/PcrBanks.antt =====
-- example/tcg2-get-pcr-banks.c: the printing of the active PCR banks.
use tpm2_tcti_uefi.Base.{
  ℕ, ◌≡◌, ◌↔◌, [], ◌∷◌, Bool, true, ◌&&◌, ◌||◌, ◌==◌, ltb, if◌then◌else◌, arith,
}
use tpm2_tcti_uefi.Platform.{Capability, num, print, M, pure, ◌>>=◌, ◌>>◌, emit, Platform}
use tpm2_tcti_uefi.Tcg2
use tpm2_tcti_uefi.Tcg2.{zero_capability, tcg2_protocol_guid}
use tpm2_tcti_uefi.Util.Names.{algorithm_bitmap_prettyprint}

-- The test of the protocol version, as it is written.
unfoldable pub too_old : ℕ → ℕ → Bool
too_old proto_major proto_minor = ltb proto_major 1 || (proto_minor == 1 && ltb proto_minor 1)

module _ {F : Type 0} (p : Platform F) where
  -- `efi_main` behind the check of the version.
  print_banks : ℕ → Capability → M F ℕ
  print_banks protocol bs_caps = do
    (status, active_banks) ← Tcg2.get_active_pcr_banks p protocol 0
    if p.efi_error status then pure status else (do
      if active_banks == bs_caps.active_pcr_banks
          then pure tt
          else emit (
              print
                "WARNING: GetActivePcrBanks disagrees with EFI_TCG2_BOOT_SERVICE_CAPABILITY.ActivePcrBanks.\n"
                [])
      emit (print "GetActivePcrBanks: 0x%08x\n" (num active_banks ∷ []))
      algorithm_bitmap_prettyprint active_banks
      pure status)

  -- `efi_main` of the program, behind `InitializeLib`.
  unfoldable pub efi_main : M F ℕ
  unfolding too_old print_banks
  efi_main = do
    (located, protocol) ← Tcg2.get_protocol p p.uninitialised
    if p.efi_error located then pure located else (do
      (status, bs_caps) ← Tcg2.get_capability p protocol (zero_capability p.sizeof_capability)
      if p.efi_error status
          then pure status
          else if too_old bs_caps.protocol_version.major bs_caps.protocol_version.minor
          then (do
            emit (
                print "ERROR: GetPcrBanks not supported in protocol version %u.%u\n"
                  (num bs_caps.protocol_version.major ∷ num bs_caps.protocol_version.minor ∷ []))
            pure 1)
          else print_banks protocol bs_caps)

-- The version is taken for too old exactly if its major number is 0, whatever the minor number is.
pub too_old_iff : (major minor : ℕ) → (too_old major minor ≡ true) ↔ (major ≡ 0)
unfolding too_old
too_old_iff major minor = (λ e. ground arith, λ e. ground arith)
