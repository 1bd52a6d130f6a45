-- ===== src/Tcg2/Laws.antt =====
-- What the wrappers of src/tcg2-util.c return and print.
use tpm2_tcti_uefi.Base.{ℕ, ◌≡◌, max, [], ◌∷◌, ◌++◌, arith, if◌then◌else◌}
use tpm2_tcti_uefi.Platform.{Capability, num, print, Machine, Platform}
use tpm2_tcti_uefi.Tcg2.{
  tcg2_protocol_guid, zero_capability, get_protocol, get_capability, get_max_buf,
}

module _ {F : Type 0} (p : Platform F) where
  -- What GetCapability answers to a request with the size of the structure filled in.
  abbrev pub capabilities : ℕ → Machine F → ℕ × Capability × F
  capabilities protocol s =
      p.get_capability protocol (zero_capability p.sizeof_capability) s.firmware

  -- `tcg2_get_max_buf` is the larger of the two sizes that the firmware reports, or 0, with two
  -- lines printed, if it reports an error. Either way the firmware is asked once.
  pub get_max_buf_lem :
      (protocol : ℕ) (s : Machine F)
      → let (status, caps, g) = capabilities protocol s in
        get_max_buf p protocol s ≡ (
          if p.efi_error status
          then (
            0,
            record {
              firmware = g;
              output =
                  (s.output ++ (print "GetCapability failed: 0x%x\n" (num status ∷ []) ∷ []))
                  ++ (print "Failed to GetCapability: 0x%x\n" (num status ∷ []) ∷ []);
            },
          )
          else (max caps.max_command_size caps.max_response_size, record s { firmware = g }))
  unfolding get_max_buf get_capability
  get_max_buf_lem protocol s = ground arith

  -- `tcg2_get_protocol` hands on what LibLocateProtocol found, and on an error the old pointer.
  pub get_protocol_lem :
      (old : ℕ) (s : Machine F)
      → let (status, found, g) = p.locate_protocol tcg2_protocol_guid s.firmware in
        get_protocol p old s
        ≡ ((status, if p.efi_error status then old else found), record s { firmware = g })
  unfolding get_protocol
  get_protocol_lem old s = ground arith
