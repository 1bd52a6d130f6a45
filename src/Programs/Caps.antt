-- ===== src/Programs/Caps.antt =====
-- example/tcg2-get-caps.c: the printing of what GetCapability reports.
use tpm2_tcti_uefi.Base.{ℕ, [], ◌∷◌, if◌then◌else◌}
use tpm2_tcti_uefi.Platform.{Capability, num, str, print, M, pure, ◌>>=◌, ◌>>◌, emit, Platform}
use tpm2_tcti_uefi.Tcg2
use tpm2_tcti_uefi.Tcg2.{zero_capability}
use tpm2_tcti_uefi.Util.Names.{bitmap_val_str, algorithm_bitmap_prettyprint}
use tpm2_tcti_uefi.Util.Format.{log_format_tcg_1_2, log_format_tcg_2}

unfoldable pub caps_prettyprint : {F : Type 0} → Capability → M F (Unit {0})
caps_prettyprint caps = do
  emit (print "TPM2 Capabilities:\n" [])
  emit (print "  Size: 0x%02x\n" (num caps.size ∷ []))
  emit (print "  StructureVersion:\n" [])
  emit (print "    Major: 0x%02x\n" (num caps.structure_version.major ∷ []))
  emit (print "    Minor: 0x%02x\n" (num caps.structure_version.minor ∷ []))
  emit (print "  ProtocolVersion:\n" [])
  emit (print "    Major: 0x%02x\n" (num caps.protocol_version.major ∷ []))
  emit (print "    Minor: 0x%02x\n" (num caps.protocol_version.minor ∷ []))
  emit (print "  HashAlgorithmBitmap: 0x%08x\n" (num caps.hash_algorithm_bitmap ∷ []))
  algorithm_bitmap_prettyprint caps.hash_algorithm_bitmap
  emit (print "  SupportedEventLogs: 0x%08x\n" (num caps.supported_event_logs ∷ []))
  emit (
      print "    EFI_TCG2_EVENT_LOG_FORMAT_TCG_1_2: %s\n"
        (str (bitmap_val_str caps.supported_event_logs log_format_tcg_1_2) ∷ []))
  emit (
      print "    EFI_TCG2_EVENT_LOG_FORMAT_TCG_2: %s\n"
        (str (bitmap_val_str caps.supported_event_logs log_format_tcg_2) ∷ []))
  emit (
      print "  TPMPresentFlag: 0x%02x : %s\n"
        (num caps.tpm_present_flag ∷ str (bitmap_val_str caps.tpm_present_flag 1) ∷ []))
  emit (print "  MaxCommandSize: 0x%04x\n" (num caps.max_command_size ∷ []))
  emit (print "  MaxResponseSize: 0x%04x\n" (num caps.max_response_size ∷ []))
  emit (print "  ManufacturerID: 0x%08x\n" (num caps.manufacturer_id ∷ []))
  emit (print "  NumberOfPcrBanks: 0x%08x\n" (num caps.number_of_pcr_banks ∷ []))
  emit (print "  ActivePcrBanks: 0x%08x\n" (num caps.active_pcr_banks ∷ []))
  algorithm_bitmap_prettyprint caps.active_pcr_banks

module _ {F : Type 0} (p : Platform F) where
  -- `get_capability_tcg2`, which does by itself what `tcg2_get_capability` does.
  unfoldable pub get_capability_tcg2 : ℕ → Capability → M F (ℕ × Capability)
  get_capability_tcg2 protocol old s =
      let (status, caps, g) = p.get_capability protocol old s.firmware in
      (do
        if p.efi_error status
            then emit (print "GetCapability failed: 0x%x\n" (num status ∷ []))
            else pure tt
        pure (status, caps))
        (record s { firmware = g })

  -- `efi_main` of the program, behind `InitializeLib`.
  unfoldable pub efi_main : M F ℕ
  efi_main = do
    (located, protocol) ← Tcg2.get_protocol p p.uninitialised
    if p.efi_error located then pure located else (do
      (status, caps) ← Tcg2.get_capability p protocol (zero_capability p.sizeof_capability)
      if p.efi_error status then pure status else (do caps_prettyprint caps; pure status))
