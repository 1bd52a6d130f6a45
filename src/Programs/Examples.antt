-- ===== src/Programs/Examples.antt =====
-- The theorems on the example programs at the sample platform.
use tpm2_tcti_uefi.Base.{
  ℕ, ◌≡◌, ◌↔◌, refl, ◌+◌, ◌*◌, ltb, if◌then◌else◌, List, [], ◌∷◌, true, some, arith,
}
use tpm2_tcti_uefi.Platform.{Machine}
use tpm2_tcti_uefi.Sample.{caps, platform, machine, tpm, tpm-IsTpm}
use tpm2_tcti_uefi.EventLog.Memory.{Memory, IsMemory}
use tpm2_tcti_uefi.EventLog.Print.{Lines}
use tpm2_tcti_uefi.Tcg2.{zero_capability}
use tpm2_tcti_uefi.Programs.Caps.{get_capability_tcg2}
use tpm2_tcti_uefi.Programs.PropertyText.{
  Unpack, IsUnpack, get_uint32_as_wchars, get_uint32_as_wchars_lem,
}
use tpm2_tcti_uefi.Programs.PcrBanks.{too_old, too_old_iff}
use tpm2_tcti_uefi.Programs.ReadLog.{
  prettyprint_eventlog, prettyprint_eventlog_total, efi_main, efi_main_total, IsLowLog,
}

abbrev unmarshal : List ℕ → ℕ → ℕ
unmarshal (a ∷ b ∷ c ∷ d ∷ []) old = a * 16777216 + b * 65536 + c * 256 + d
unmarshal _ old = old

-- A compiler whose char is signed.
abbrev unpack : Unpack
unpack = record { unmarshal = unmarshal; widen = λ c. if ltb c 128 then c else c + 0xff00 }

unpack-IsUnpack : IsUnpack unpack
unpack-IsUnpack = record { big_endian = λ a b c d old. refl; ascii = λ c h. ground arith }

-- The manufacturer "IBM ".
get_uint32_as_wchars_lem_example :
    get_uint32_as_wchars unpack 0x49424d20 ≡ 0x49 ∷ 0x42 ∷ 0x4d ∷ 0x20 ∷ []
get_uint32_as_wchars_lem_example =
    get_uint32_as_wchars_lem unpack unpack-IsUnpack 0x49 0x42 0x4d 0x20 (omega arith) (omega arith)
      (omega arith) (omega arith)

capability_read :
    get_capability_tcg2 platform 0x1000 (zero_capability 36) machine ≡ ((0, caps), machine)
unfolding get_capability_tcg2
capability_read = refl

too_old_iff_example : (too_old 1 0 ≡ true) ↔ (◌≡◌ {A = ℕ} 1 0)
too_old_iff_example = too_old_iff 1 0

-- A memory of zeroes with a log of TCG 1.2 of one event.
abbrev memory : Memory
memory a = 0

memory-IsMemory : IsMemory memory
memory-IsMemory a = omega arith

prettyprint_eventlog_total_example :
    (r : Lines) × (prettyprint_eventlog tpm memory 4096 4096 1 [] ≡ some r)
prettyprint_eventlog_total_example =
    prettyprint_eventlog_total tpm memory tpm-IsTpm memory-IsMemory 4096 4096 1 [] (omega arith)
      (omega arith)

low_log : IsLowLog platform
low_log protocol format old g ok = (omega arith, omega arith)

efi_main_total_example :
    (x : ℕ × Machine ℕ) × (efi_main platform tpm (λ g. memory) machine ≡ some x)
efi_main_total_example =
    efi_main_total platform tpm (λ g. memory) tpm-IsTpm (λ g. memory-IsMemory) low_log machine
