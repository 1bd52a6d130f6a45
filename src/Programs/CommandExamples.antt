-- ===== src/Programs/CommandExamples.antt =====
-- The theorems on the programs that issue commands, at the sample services. The sample TPM refuses
-- TPM2_GetCapability and asks for every TPM2_NV_Write to be repeated.
use tpm2_tcti_uefi.Base.{ℕ, ◌≡◌, ◌⊎◌, ◌+◌, ◌^◌, [], ◌∷◌, arith, replicate}
use tpm2_tcti_uefi.Platform.{num, str, print, dump_hex}
use tpm2_tcti_uefi.Sample.{platform, lawful, tpm}
use tpm2_tcti_uefi.Sample.Services.{
  library, library-IsLibrary, commands, commands-AreKeeping, zero_context, world,
}
use tpm2_tcti_uefi.Tcti.{initialise}
use tpm2_tcti_uefi.Util.Pcr.{Selections, is_pcr_selected}
use tpm2_tcti_uefi.Util.Names.{get_alg_name, get_alg_size}
use tpm2_tcti_uefi.Pool.{World, tcti, sapi}
use tpm2_tcti_uefi.Tss2.Commands.{Digests}
use tpm2_tcti_uefi.Tss2.Session.{EndsClean}
use tpm2_tcti_uefi.Programs.PropertyText.{Unpack}
use tpm2_tcti_uefi.Programs.NvOps
use tpm2_tcti_uefi.Programs.NvClean.{efi_main-Ends}
use tpm2_tcti_uefi.Programs.CapsMain
use tpm2_tcti_uefi.Programs.CapsMain.{efi_main-gives_back}
use tpm2_tcti_uefi.Programs.Pcrs.{first_data, visited}
use tpm2_tcti_uefi.Programs.PcrText.{visited-text}

abbrev aborted : ℕ
aborted = 2 ^ 63 + 21

efi_main-Ends_example :
    EndsClean platform library
      (λ status. (status ≡ 0) ⊎ (status ≡ aborted))
      aborted
      (NvOps.efi_main platform library commands)
      world
efi_main-Ends_example = efi_main-Ends commands lawful library-IsLibrary commands-AreKeeping world

abbrev unpack : Unpack
unpack = record { unmarshal = λ bytes old. old; widen = λ c. c }

efi_main-gives_back_example :
    EndsClean platform library
      (λ status. status ≡ 0)
      aborted
      (CapsMain.efi_main platform library commands unpack)
      world
efi_main-gives_back_example =
    efi_main-gives_back commands unpack lawful library-IsLibrary commands-AreKeeping world

-- A SAPI context at 2 over a TCTI context at 1.
abbrev ready_world : World ℕ ℕ
ready_world = record world {
  blocks = (2, sapi 1) ∷ (1, tcti (initialise platform (zero_context 16) 104)) ∷ [];
}

-- PCRs 0 and 3 of SHA-1 and PCR 0 of SHA-256, but two digests only.
abbrev two_banks : Selections
two_banks = record {
  count = 2;
  banks =
      record { hash = 4; sizeof_select = 3; pcr_select = 9 ∷ 0 ∷ 0 ∷ 0 ∷ [] }
      ∷ record { hash = 0xb; sizeof_select = 3; pcr_select = 1 ∷ 0 ∷ 0 ∷ 0 ∷ [] }
      ∷ [];
}

abbrev two_digests : Digests
two_digests = record {
  count = 2;
  digests =
      record { size = 20; buffer = replicate 20 1 }
      ∷ record { size = 32; buffer = replicate 32 2 }
      ∷ [];
}

-- The second digest is too long for its algorithm.
visited-text_example :
    (visited tpm two_banks
      (record (first_data tpm 3) { digest_i = 0; tpml_digests = two_digests })
      []).1
    ≡ print "PCR bank: %s\n" (str "EFI_TCG2_BOOT_HASH_ALG_SHA1" ∷ [])
      ∷ print "  PCR: %u\n" (num 0 ∷ [])
      ∷ dump_hex 4 0 20 (replicate 20 1)
      ∷ print "ERROR: algorithm and digest size disagre?\n" []
      ∷ print "  PCR: %u\n" (num 3 ∷ [])
      ∷ dump_hex 4 0 32 (replicate 32 2)
      ∷ []
unfolding is_pcr_selected get_alg_name get_alg_size
visited-text_example =
    visited-text tpm two_banks two_digests (first_data tpm 3) [] (omega arith) (omega arith)
      (omega arith)
