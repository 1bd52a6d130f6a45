-- ===== src/Util/Format.antt =====
-- example/util.c: the choice of a log format, `get_eventlog_format_high`.
use tpm2_tcti_uefi.Base.{ℕ, ◌≡◌, ◌≢◌, false, ◌&&◌, if◌then◌else◌, bit_and, arith}
use tpm2_tcti_uefi.Platform.{M, Machine, Platform, pure, ◌>>=◌}
use tpm2_tcti_uefi.Tcg2
use tpm2_tcti_uefi.Tcg2.{zero_capability}
use tpm2_tcti_uefi.Tcg2.Laws.{capabilities}
use tpm2_tcti_uefi.Util.Names.{is_set}

-- values for EFI_TCG2_EVENT_LOG_FORMAT
abbrev pub log_format_tcg_1_2 : ℕ
log_format_tcg_1_2 = 0x00000001

abbrev pub log_format_tcg_2 : ℕ
log_format_tcg_2 = 0x00000002

module _ {F : Type 0} (p : Platform F) where
  -- `*format` keeps its old contents on an error. The tests are `&&`, as in the source, not `&`.
  unfoldable pub get_eventlog_format_high : ℕ → ℕ → M F (ℕ × ℕ)
  get_eventlog_format_high protocol old = do
    (status, caps) ← Tcg2.get_capability p protocol (zero_capability p.sizeof_capability)
    pure (
        if p.efi_error status
        then (status, old)
        else if is_set caps.supported_event_logs && is_set log_format_tcg_2
        then (p.efi_success, log_format_tcg_2)
        else if is_set caps.supported_event_logs && is_set log_format_tcg_1_2
        then (p.efi_success, log_format_tcg_1_2)
        else (p.efi_success, 0))

  -- Where GetCapability succeeds and the firmware supports some format but not that of TCG 2, the
  -- function reports success and chooses the format of TCG 2 all the same, which the firmware does
  -- not support.
  pub format_high_unsupported :
      (protocol old : ℕ) (s : Machine F)
      → p.efi_error (capabilities p protocol s).0 ≡ false
      → (capabilities p protocol s).1.supported_event_logs ≢ 0
      → bit_and (capabilities p protocol s).1.supported_event_logs log_format_tcg_2 ≡ 0
      → ((get_eventlog_format_high protocol old s).0 ≡ (p.efi_success, log_format_tcg_2))
        × (bit_and
              (capabilities p protocol s).1.supported_event_logs
              (get_eventlog_format_high protocol old s).0.1
            ≡ 0)
  unfolding get_eventlog_format_high Tcg2.get_capability
  format_high_unsupported protocol old s ok logs lacks = ground arith
