-- ===== src/Programs/PropertyCases.antt =====
-- The cases of the `switch` over properties in example/tpm2-get-caps-fixed.c, with what each prints.
use tpm2_tcti_uefi.Base.{ℕ, List, [], ◌∷◌, String}
use tpm2_tcti_uefi.Platform.{Output, num, wchars, quotient, print}
use tpm2_tcti_uefi.Programs.PropertyText.{Unpack, get_uint32_as_wchars, print_tpma_modes}

module _ (constant : String → ℕ) (unpack : Unpack) where
  -- The cases of the `switch` up to the limits on handles, in its order.
  abbrev pub first_cases : List (ℕ × (ℕ → List Output))
  first_cases =
      (
        constant "TPM2_PT_FAMILY_INDICATOR",
        λ value.
            print "TPM2_PT_FAMILY_INDICATOR:\n  raw: 0x08%x\n  value: \"%s\"\n"
              (num value ∷ wchars (get_uint32_as_wchars unpack value) ∷ [])
            ∷ [],
      )
      ∷ (
        constant "TPM2_PT_LEVEL",
        λ value. print "TPM2_PT_LEVEL:\n  value: %d\n" (num value ∷ []) ∷ [],
      )
      ∷ (
        constant "TPM2_PT_REVISION",
        λ value. print "TPM2_PT_REVISION:\n  value: %.2f\n" (quotient value 100 ∷ []) ∷ [],
      )
      ∷ (
        constant "TPM2_PT_DAY_OF_YEAR",
        λ value. print "TPM2_PT_DAY_OF_YEAR:\n  value: 0x%X\n" (num value ∷ []) ∷ [],
      )
      ∷ (
        constant "TPM2_PT_YEAR",
        λ value. print "TPM2_PT_YEAR:\n  value: 0x%X\n" (num value ∷ []) ∷ [],
      )
      ∷ (
        constant "TPM2_PT_MANUFACTURER",
        λ value.
            print "TPM2_PT_MANUFACTURER:\n  raw: 0x%X\n  value: \"%s\"\n"
              (num value ∷ wchars (get_uint32_as_wchars unpack value) ∷ [])
            ∷ [],
      )
      ∷ (
        constant "TPM2_PT_VENDOR_STRING_1",
        λ value.
            print "TPM2_PT_VENDOR_STRING_1:\n  raw: 0x%X\n  value: \"%s\"\n"
              (num value ∷ wchars (get_uint32_as_wchars unpack value) ∷ [])
            ∷ [],
      )
      ∷ (
        constant "TPM2_PT_VENDOR_STRING_2",
        λ value.
            print "TPM2_PT_VENDOR_STRING_2:\n  raw: 0x%X\n  value: \"%s\"\n"
              (num value ∷ wchars (get_uint32_as_wchars unpack value) ∷ [])
            ∷ [],
      )
      ∷ (
        constant "TPM2_PT_VENDOR_STRING_3",
        λ value.
            print "TPM2_PT_VENDOR_STRING_3:\n  raw: 0x%X\n  value: \"%s\"\n"
              (num value ∷ wchars (get_uint32_as_wchars unpack value) ∷ [])
            ∷ [],
      )
      ∷ (
        constant "TPM2_PT_VENDOR_STRING_4",
        λ value.
            print "TPM2_PT_VENDOR_STRING_4:\n  raw: 0x%X\n  value: \"%s\"\n"
              (num value ∷ wchars (get_uint32_as_wchars unpack value) ∷ [])
            ∷ [],
      )
      ∷ (
        constant "TPM2_PT_VENDOR_TPM_TYPE",
        λ value. print "TPM2_PT_VENDOR_TPM_TYPE:\n  value: 0x%X\n" (num value ∷ []) ∷ [],
      )
      ∷ (
        constant "TPM2_PT_FIRMWARE_VERSION_1",
        λ value. print "TPM2_PT_FIRMWARE_VERSION_1:\n  value: 0x%X\n" (num value ∷ []) ∷ [],
      )
      ∷ (
        constant "TPM2_PT_FIRMWARE_VERSION_2",
        λ value. print "TPM2_PT_FIRMWARE_VERSION_2:\n  value: 0x%X\n" (num value ∷ []) ∷ [],
      )
      ∷ (
        constant "TPM2_PT_INPUT_BUFFER",
        λ value. print "TPM2_PT_INPUT_BUFFER:\n  value: 0x%X\n" (num value ∷ []) ∷ [],
      )
      ∷ (
        constant "TPM2_PT_HR_TRANSIENT_MIN",
        λ value. print "TPM2_PT_TPM2_HR_TRANSIENT_MIN:\n  value: 0x%X\n" (num value ∷ []) ∷ [],
      )
      ∷ (
        constant "TPM2_PT_HR_PERSISTENT_MIN",
        λ value. print "TPM2_PT_TPM2_HR_PERSISTENT_MIN:\n  value: 0x%X\n" (num value ∷ []) ∷ [],
      )
      ∷ (
        constant "TPM2_PT_HR_LOADED_MIN",
        λ value. print "TPM2_PT_HR_LOADED_MIN:\n  value: 0x%X\n" (num value ∷ []) ∷ [],
      )
      ∷ []

  -- The cases behind them.
  abbrev pub other_cases : List (ℕ × (ℕ → List Output))
  other_cases =
      (
        constant "TPM2_PT_ACTIVE_SESSIONS_MAX",
        λ value. print "TPM2_PT_ACTIVE_SESSIONS_MAX:\n  value: 0x%X\n" (num value ∷ []) ∷ [],
      )
      ∷ (
        constant "TPM2_PT_PCR_COUNT",
        λ value. print "TPM2_PT_PCR_COUNT:\n  value: 0x%X\n" (num value ∷ []) ∷ [],
      )
      ∷ (
        constant "TPM2_PT_PCR_SELECT_MIN",
        λ value. print "TPM2_PT_PCR_SELECT_MIN:\n  value: 0x%X\n" (num value ∷ []) ∷ [],
      )
      ∷ (
        constant "TPM2_PT_CONTEXT_GAP_MAX",
        λ value. print "TPM2_PT_CONTEXT_GAP_MAX:\n  value: 0x%X\n" (num value ∷ []) ∷ [],
      )
      ∷ (
        constant "TPM2_PT_NV_COUNTERS_MAX",
        λ value. print "TPM2_PT_NV_COUNTERS_MAX:\n  value: 0x%X\n" (num value ∷ []) ∷ [],
      )
      ∷ (
        constant "TPM2_PT_NV_INDEX_MAX",
        λ value. print "TPM2_PT_NV_INDEX_MAX:\n  value: 0x%X\n" (num value ∷ []) ∷ [],
      )
      ∷ (
        constant "TPM2_PT_MEMORY",
        λ value. print "TPM2_PT_MEMORY:\n  value: 0x%X\n" (num value ∷ []) ∷ [],
      )
      ∷ (
        constant "TPM2_PT_CLOCK_UPDATE",
        λ value. print "TPM2_PT_CLOCK_UPDATE:\n  value: 0x%X\n" (num value ∷ []) ∷ [],
      )
      ∷ (
        constant "TPM2_PT_CONTEXT_HASH",
        λ value. print "TPM2_PT_CONTEXT_HASH:\n  value: 0x%X\n" (num value ∷ []) ∷ [],
      )
      ∷ (
        constant "TPM2_PT_CONTEXT_SYM",
        λ value. print "TPM2_PT_CONTEXT_SYM:\n  value: 0x%X\n" (num value ∷ []) ∷ [],
      )
      ∷ (
        constant "TPM2_PT_CONTEXT_SYM_SIZE",
        λ value. print "TPM2_PT_CONTEXT_SYM_SIZE:\n  value: 0x%X\n" (num value ∷ []) ∷ [],
      )
      ∷ (
        constant "TPM2_PT_ORDERLY_COUNT",
        λ value. print "TPM2_PT_ORDERLY_COUNT:\n  value: 0x%X\n" (num value ∷ []) ∷ [],
      )
      ∷ (
        constant "TPM2_PT_MAX_COMMAND_SIZE",
        λ value. print "TPM2_PT_MAX_COMMAND_SIZE:\n  value: 0x%X\n" (num value ∷ []) ∷ [],
      )
      ∷ (
        constant "TPM2_PT_MAX_RESPONSE_SIZE",
        λ value. print "TPM2_PT_MAX_RESPONSE_SIZE:\n  value: 0x%X\n" (num value ∷ []) ∷ [],
      )
      ∷ (
        constant "TPM2_PT_MAX_DIGEST",
        λ value. print "TPM2_PT_MAX_DIGEST:\n  value: 0x%X\n" (num value ∷ []) ∷ [],
      )
      ∷ (
        constant "TPM2_PT_MAX_OBJECT_CONTEXT",
        λ value. print "TPM2_PT_MAX_OBJECT_CONTEXT:\n  value: 0x%X\n" (num value ∷ []) ∷ [],
      )
      ∷ (
        constant "TPM2_PT_MAX_SESSION_CONTEXT",
        λ value. print "TPM2_PT_MAX_SESSION_CONTEXT:\n  value: 0x%X\n" (num value ∷ []) ∷ [],
      )
      ∷ (
        constant "TPM2_PT_PS_FAMILY_INDICATOR",
        λ value. print "TPM2_PT_PS_FAMILY_INDICATOR:\n  value: 0x%X\n" (num value ∷ []) ∷ [],
      )
      ∷ (
        constant "TPM2_PT_PS_LEVEL",
        λ value. print "TPM2_PT_PS_LEVEL:\n  value: 0x%X\n" (num value ∷ []) ∷ [],
      )
      ∷ (
        constant "TPM2_PT_PS_REVISION",
        λ value. print "TPM2_PT_PS_REVISION:\n  value: 0x%X\n" (num value ∷ []) ∷ [],
      )
      ∷ (
        constant "TPM2_PT_PS_DAY_OF_YEAR",
        λ value. print "TPM2_PT_PS_DAY_OF_YEAR:\n  value: 0x%X\n" (num value ∷ []) ∷ [],
      )
      ∷ (
        constant "TPM2_PT_PS_YEAR",
        λ value. print "TPM2_PT_PS_YEAR:\n  value: 0x%X\n" (num value ∷ []) ∷ [],
      )
      ∷ (
        constant "TPM2_PT_SPLIT_MAX",
        λ value. print "TPM2_PT_SPLIT_MAX:\n  value: 0x%X\n" (num value ∷ []) ∷ [],
      )
      ∷ (
        constant "TPM2_PT_TOTAL_COMMANDS",
        λ value. print "TPM2_PT_TOTAL_COMMANDS:\n  value: 0x%X\n" (num value ∷ []) ∷ [],
      )
      ∷ (
        constant "TPM2_PT_LIBRARY_COMMANDS",
        λ value. print "TPM2_PT_LIBRARY_COMMANDS:\n  value: 0x%X\n" (num value ∷ []) ∷ [],
      )
      ∷ (
        constant "TPM2_PT_VENDOR_COMMANDS",
        λ value. print "TPM2_PT_VENDOR_COMMANDS:\n  value: 0x%X\n" (num value ∷ []) ∷ [],
      )
      ∷ (
        constant "TPM2_PT_NV_BUFFER_MAX",
        λ value. print "TPM2_PT_NV_BUFFER_MAX:\n  value: 0x%X\n" (num value ∷ []) ∷ [],
      )
      ∷ (constant "TPM2_PT_MODES", λ value. print_tpma_modes constant value)
      ∷ []
