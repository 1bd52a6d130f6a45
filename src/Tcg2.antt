-- ===== src/Tcg2.antt =====
-- src/tcg2-util.c: the wrappers of the EFI_TCG2_PROTOCOL functions, and the constants of
-- src/tcg2-protocol.h that they use. Each wrapper makes one call of the firmware and prints a line
-- if it reports an error.
pub mod Laws
use tpm2_tcti_uefi.Base.{ℕ, Bool, List, [], ◌∷◌, ltb, if◌then◌else◌}
use tpm2_tcti_uefi.Platform.{
  Guid, Capability, LogLocation, num, print, Machine, M, pure, ◌>>=◌, ◌>>◌, emit, Platform,
}

-- EFI_TCG2_PROTOCOL_GUID
abbrev pub tcg2_protocol_guid : Guid
tcg2_protocol_guid = record {
  time_low = 0x607f766c;
  time_mid = 0x7455;
  time_high = 0x42be;
  node = 0x93 ∷ 0x0b ∷ 0xe4 ∷ 0xd7 ∷ 0x6d ∷ 0xb2 ∷ 0x72 ∷ 0x0f ∷ [];
}

-- `EFI_TCG2_BOOT_SERVICE_CAPABILITY caps = { .Size = n }`
abbrev pub zero_capability : ℕ → Capability
zero_capability n = record {
  size = n;
  structure_version = record { major = 0; minor = 0 };
  protocol_version = record { major = 0; minor = 0 };
  hash_algorithm_bitmap = 0;
  supported_event_logs = 0;
  tpm_present_flag = 0;
  max_command_size = 0;
  max_response_size = 0;
  manufacturer_id = 0;
  number_of_pcr_banks = 0;
  active_pcr_banks = 0;
}

module _ {F : Type 0} (p : Platform F) where
  -- One call of a firmware service that returns a status and OUT results.
  abbrev service : {A : Type 0} → (F → ℕ × A × F) → M F (ℕ × A)
  service f s = let (status, a, g) = f s.firmware in ((status, a), record s { firmware = g })

  -- `tcg2_get_eventlog`; its message names another function.
  unfoldable pub get_eventlog : ℕ → ℕ → LogLocation → M F (ℕ × LogLocation)
  get_eventlog protocol format old = do
    (status, location) ← service (p.get_event_log protocol format old)
    if p.efi_error status
        then emit (print "Tcg2 SubmitCommand failed: 0x%x\n" (num status ∷ []))
        else pure tt
    pure (status, location)

  unfoldable pub get_active_pcr_banks : ℕ → ℕ → M F (ℕ × ℕ)
  get_active_pcr_banks protocol old = do
    (status, banks) ← service (p.get_active_pcr_banks protocol old)
    if p.efi_error status
        then emit (print "GetActivePcrBanks failed: 0x%x\n" (num status ∷ []))
        else pure tt
    pure (status, banks)

  unfoldable pub get_capability : ℕ → Capability → M F (ℕ × Capability)
  get_capability protocol old = do
    (status, caps) ← service (p.get_capability protocol old)
    if p.efi_error status
        then emit (print "GetCapability failed: 0x%x\n" (num status ∷ []))
        else pure tt
    pure (status, caps)

  -- MaxCommandSize and MaxResponseSize are UINT16, as is the result.
  unfoldable pub get_max_buf : ℕ → M F ℕ
  get_max_buf protocol = do
    (status, caps) ← get_capability protocol (zero_capability p.sizeof_capability)
    if p.efi_error status
        then (do emit (print "Failed to GetCapability: 0x%x\n" (num status ∷ [])); pure 0)
        else pure (
            if ltb caps.max_response_size caps.max_command_size
            then caps.max_command_size
            else caps.max_response_size)

  -- The sizes are UINT32 here: the caller converts. The bytes are the old and new contents of
  -- `output_buf`.
  unfoldable pub submit_command : ℕ → ℕ → List ℕ → ℕ → List ℕ → M F (ℕ × List ℕ)
  submit_command protocol input_size input_buf output_size output_buf = do
    (status, bytes) ←
        service (p.submit_command protocol input_size input_buf output_size output_buf)
    if p.efi_error status
        then emit (print "Tcg2 SubmitCommand failed: 0x%x\n" (num status ∷ []))
        else pure tt
    pure (status, bytes)

  -- `*tcg2_protocol` keeps its old contents on an error.
  unfoldable pub get_protocol : ℕ → M F (ℕ × ℕ)
  get_protocol old = do
    (status, found) ← service (p.locate_protocol tcg2_protocol_guid)
    pure (status, if p.efi_error status then old else found)
