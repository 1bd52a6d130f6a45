-- ===== src/Tss2/Commands.antt =====
-- The TPM commands that the programs issue through the system API of tpm2-tss, as parameters, with
-- the structures of the TPM that they pass. A command works on the SAPI context and, through its
-- entry points, on the TCTI context and the firmware; it returns a code and its OUT results.
use tpm2_tcti_uefi.Base.{ℕ, ◌≡◌, List, String}
use tpm2_tcti_uefi.Platform.{Machine, M}
use tpm2_tcti_uefi.Tcti.{Context}
use tpm2_tcti_uefi.Util.Pcr.{Selections}
use tpm2_tcti_uefi.Programs.CapsFixed.{Property}
use tpm2_tcti_uefi.Tss2.External.{Library}

-- A TPM2B structure: a size, and the bytes of the buffer.
pub record Sized : Type 0 where
  pub size : ℕ
  pub buffer : List ℕ

-- TPML_DIGEST
pub record Digests : Type 0 where
  pub count : ℕ
  pub digests : List Sized

-- TSS2L_SYS_AUTH_COMMAND with one TPMS_AUTH_COMMAND
pub record AuthCommand : Type 0 where
  pub count : ℕ
  pub session_handle : ℕ
  pub hmac : Sized

-- TPM2B_NV_PUBLIC
pub record NvPublic : Type 0 where
  pub nv_index : ℕ
  pub name_alg : ℕ
  pub attributes : ℕ
  pub auth_policy : Sized
  pub data_size : ℕ

abbrev pub Service : Type 0 → Type 0 → Type 0 → Type 0
Service F S A = S → Context → M F (ℕ × A × S × Context)

pub record Commands (F S : Type 0) : Type 0 where
  -- the constants of tss2/tss2_tpm2_types.h by their names, and EFI_ABORTED
  pub constant : String → ℕ
  pub efi_aborted : ℕ
  -- what an uninitialised buffer holds
  pub uninitialised_buffer : List ℕ
  -- Tss2_Sys_GetRandom: the number of bytes, and the old contents of the result
  pub get_random : ℕ → Sized → Service F S Sized
  -- Tss2_Sys_NV_DefineSpace, Tss2_Sys_NV_Write, Tss2_Sys_NV_UndefineSpace
  pub nv_define_space : ℕ → AuthCommand → Sized → NvPublic → Service F S (Unit {0})
  pub nv_write : ℕ → ℕ → AuthCommand → Sized → ℕ → Service F S (Unit {0})
  pub nv_undefine_space : ℕ → ℕ → AuthCommand → Service F S (Unit {0})
  -- Tss2_Sys_PCR_Read: the selection, and the old contents of the three results
  pub pcr_read : Selections → ℕ → Selections → Digests → Service F S (ℕ × Selections × Digests)
  -- Tss2_Sys_GetCapability of properties: capability, first property and count, and the old
  -- contents of `moreData` and of the properties
  pub get_properties : ℕ → ℕ → ℕ → ℕ → List Property → Service F S (ℕ × List Property)

module _ {F S : Type 0} (l : Library F S) where
  -- A command leaves the SAPI context over the same TCTI context, and does not replace the entry
  -- point that ends that one.
  abbrev pub Keeps : {A : Type 0} → Service F S A → Type 0
  Keeps f =
      (x : S) (c : Context) (s : Machine F)
      → ((old : ℕ) → l.sys_get_tcti_context (f x c s).0.2 old ≡ l.sys_get_tcti_context x old)
        × ((f x c s).0.3.finalize_entry ≡ c.finalize_entry)

  pub record AreKeeping (k : Commands F S) : Type 0 where
    pub get_random_keeps : (n : ℕ) (old : Sized) → Keeps (k.get_random n old)
    pub nv_define_space_keeps :
        (h : ℕ) (a : AuthCommand) (v : Sized) (i : NvPublic) → Keeps (k.nv_define_space h a v i)
    pub nv_write_keeps :
        (h i : ℕ) (a : AuthCommand) (v : Sized) (o : ℕ) → Keeps (k.nv_write h i a v o)
    pub nv_undefine_space_keeps : (h i : ℕ) (a : AuthCommand) → Keeps (k.nv_undefine_space h i a)
    pub pcr_read_keeps :
        (b : Selections) (u : ℕ) (o : Selections) (d : Digests) → Keeps (k.pcr_read b u o d)
    pub get_properties_keeps :
        (a b n m : ℕ) (old : List Property) → Keeps (k.get_properties a b n m old)
