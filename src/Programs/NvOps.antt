-- ===== src/Programs/NvOps.antt =====
-- example/tpm2-nv-ops.c: an NV index of the TPM is defined, written with random bytes, and removed
-- again. A buffer that is initialised shows the bytes of its initialiser, not the zeros behind them.
use tpm2_tcti_uefi.Base.{
  ℕ, zero, suc, ◌+◌, List, [], ◌∷◌, ◌++◌, get_or, set, take, drop, replicate, bit_or, ◌==◌,
  if◌then◌else◌,
}
use tpm2_tcti_uefi.Platform.{num, print, Platform}
use tpm2_tcti_uefi.Pool.{Act, pure, ◌>>=◌, ◌>>◌, say}
use tpm2_tcti_uefi.Tss2.{sys_uefi_init, sys_uefi_teardown_full}
use tpm2_tcti_uefi.Tss2.External.{Library}
use tpm2_tcti_uefi.Tss2.Commands.{Sized, AuthCommand, NvPublic, Commands}
use tpm2_tcti_uefi.Tss2.Call.{call}
use tpm2_tcti_uefi.Programs.Compat.{memmove}

-- `for (i = 0; i < n; i++) dst[i] = src[i]`, from `i` on with the rounds that are left.
abbrev pub copy_bytes : ℕ → ℕ → List ℕ → List ℕ → List ℕ
copy_bytes zero i src dst = dst
copy_bytes (suc left) i src dst = copy_bytes left (i + 1) src (set dst i (get_or src i 0))

abbrev pub nv_index : ℕ
nv_index = 0x01000000

abbrev af_fe : List ℕ
af_fe =
    0xaf ∷ 0xfe ∷ 0xaf ∷ 0xfe ∷ 0xaf ∷ 0xfe ∷ 0xaf ∷ 0xfe ∷ 0xaf ∷ 0xfe ∷ 0xaf ∷ 0xfe ∷ 0xaf ∷ 0xfe
    ∷ 0xaf ∷ 0xfe ∷ []

abbrev pub index_auth : Sized
index_auth = record { size = 16; buffer = af_fe }

module _ {F S : Type 0} (p : Platform F) (l : Library F S) (k : Commands F S) where
  abbrev pub create_auths : AuthCommand
  create_auths = record {
    count = 1;
    session_handle = k.constant "TPM2_RH_PW";
    hmac = record { size = 0; buffer = 0x12 ∷ 0x34 ∷ [] };
  }

  abbrev pub index_auths : AuthCommand
  index_auths = record { count = 1; session_handle = k.constant "TPM2_RH_PW"; hmac = index_auth }

  abbrev pub index_public : NvPublic
  index_public = record {
    nv_index = nv_index;
    name_alg = k.constant "TPM2_ALG_SHA256";
    attributes =
        bit_or
          (bit_or (bit_or (k.constant "TPMA_NV_OWNERWRITE") (k.constant "TPMA_NV_AUTHWRITE"))
            (k.constant "TPMA_NV_AUTHREAD"))
          (k.constant "TPMA_NV_OWNERREAD");
    auth_policy = record { size = 0; buffer = [] };
    data_size = 32;
  }

  -- `data.buffer` behind memset, memcpy and memmove.
  abbrev pub prepared : List ℕ
  prepared =
      let cleared = replicate 5 0 ++ drop 5 k.uninitialised_buffer in
      let copied = take 5 cleared ++ (take 5 cleared ++ drop 10 cleared) in
      take 5 copied ++ memmove p (drop 5 copied) copied 5

  -- The commands from the last on, each followed by the next one, to `exit_cleanup`: the return
  -- code is that of the last command issued.
  unfoldable pub second_random : ℕ → Sized → Act F S ℕ
  second_random sys_ctx random_data = do
    got ← call l sys_ctx (k.get_random 32 random_data)
    if got.0 == p.rc_success
        then (do say (print "Tss2_Sys_GetRandom returned TSS2_RC_SUCCESS\n" []); pure got.0)
        else (do say (print "Failed to Tss2_Sys_GetRandom: 0x%x\n" (num got.0 ∷ [])); pure got.0)

  unfoldable pub undefine_space : ℕ → Sized → Act F S ℕ
  undefine_space sys_ctx random_data = do
    undefined_space ←
        call l sys_ctx (k.nv_undefine_space (k.constant "TPM2_RH_OWNER") nv_index create_auths)
    if undefined_space.0 == p.rc_success
        then (do
          say (print "Tss2_Sys_NV_UndefineSpace returned TSS2_RC_SUCCESS\n" [])
          second_random sys_ctx random_data)
        else (do
          say (print "Failed to Tss2_Sys_NV_UndefineSpace: 0x%x\n" (num undefined_space.0 ∷ []))
          pure undefined_space.0)

  abbrev pub written : ℕ → Sized → ℕ → Act F S ℕ
  written sys_ctx random_data rc =
      if rc == p.rc_success
      then (do
        say (print "Tss2_Sys_NV_Write returned TSS2_RC_SUCCESS\n" [])
        undefine_space sys_ctx random_data)
      else (do say (print "Failed to Tss2_Sys_NV_Write: 0x%x\n" (num rc ∷ [])); pure rc)

  unfoldable pub write : ℕ → Sized → Sized → Act F S ℕ
  write sys_ctx random_data content = do
    first ← call l sys_ctx (k.nv_write nv_index nv_index index_auths content 0)
    if first.0 == k.constant "TPM2_RC_RETRY"
        then (do
          say (print "Tss2_Sys_NV_Write TPM asked for TPM2_RC_RETRY\n" [])
          again ← call l sys_ctx (k.nv_write nv_index nv_index index_auths content 0)
          written sys_ctx random_data again.0)
        else written sys_ctx random_data first.0

  unfoldable pub define_space : ℕ → Sized → Sized → Act F S ℕ
  define_space sys_ctx random_data content = do
    defined ←
        call l sys_ctx
          (k.nv_define_space (k.constant "TPM2_RH_OWNER") create_auths index_auth index_public)
    if defined.0 == p.rc_success
        then (do
          say (print "Tss2_Sys_NV_DefineSpace returned TSS2_RC_SUCCESS\n" [])
          write sys_ctx random_data content)
        else (do
          say (print "Failed to Tss2_Sys_NV_DefineSpace: 0x%x\n" (num defined.0 ∷ []))
          pure defined.0)

  -- From the first Tss2_Sys_GetRandom on; its message names another command.
  unfoldable pub run_commands : ℕ → Act F S ℕ
  run_commands sys_ctx = do
    got ← call l sys_ctx (k.get_random 32 (record { size = 32; buffer = [] }))
    if got.0 == p.rc_success
        then (do
          say (print "Tss2_Sys_GetRandom returned TSS2_RC_SUCCESS\n" [])
          define_space sys_ctx got.1 (record {
            size = got.1.size;
            buffer = copy_bytes got.1.size 0 got.1.buffer prepared;
          }))
        else (do
          say (print "Failed to Tss2_Sys_NV_DefineSpace: 0x%x\n" (num got.0 ∷ []))
          pure got.0)

  -- `efi_main` of the program, behind `InitializeLib`.
  unfoldable pub efi_main : Act F S ℕ
  efi_main = do
    made ← sys_uefi_init p l p.uninitialised
    if made.0 == p.rc_success
        then (do
          rc ← run_commands made.1
          sys_uefi_teardown_full p l made.1
          pure (if rc == p.rc_success then p.efi_success else k.efi_aborted))
        else pure k.efi_aborted
