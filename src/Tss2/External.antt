-- ===== src/Tss2/External.antt =====
-- What example/tss2-util.c and the programs over it take from outside: AllocatePool and FreePool,
-- the system API of tpm2-tss (Tss2_Sys_*) and the macro Tss2_Tcti_Finalize. A context of the system
-- API is a value of a type `S` of the library's own.
use tpm2_tcti_uefi.Base.{ℕ, ◌≡◌, ◌≤◌, ◌-◌, Bool, false, List, length, Option, ◌==◌}
use tpm2_tcti_uefi.Platform.{Platform}
use tpm2_tcti_uefi.Tcti.{Context}
use tpm2_tcti_uefi.Pool.{contains}

-- TSS2_ABI_VERSION
pub record AbiVersion : Type 0 where
  pub tss_creator : ℕ
  pub tss_family : ℕ
  pub tss_level : ℕ
  pub tss_version : ℕ

pub record Library (F S : Type 0) : Type 0 where
  -- AllocatePool: the live blocks and a size, to an address or 0 for NULL; FreePool.
  pub allocate_pool : List ℕ → ℕ → F → ℕ × F
  pub free_pool : ℕ → F → F
  -- what a new block of a size reads as
  pub fresh_tcti : ℕ → F → Context
  pub fresh_sapi : ℕ → F → S
  -- whether Tss2_Tcti_Finalize calls the entry point of a context
  pub finalize_calls : Context → Bool
  pub sys_get_context_size : ℕ → ℕ
  -- Tss2_Sys_Initialize: the size, the TCTI context by address and contents, the version
  pub sys_initialize : ℕ → ℕ → Option Context → AbiVersion → S → ℕ × S
  -- Tss2_Sys_GetTctiContext: the return code and `*tctiContext`, from its old contents
  pub sys_get_tcti_context : S → ℕ → ℕ × ℕ
  pub sys_finalize : S → S

module _ {F S : Type 0} (p : Platform F) (l : Library F S) where
  -- AllocatePool gives out no block that is live; a block for a TCTI context holds the bytes of the
  -- buffer behind the structure; a SAPI context that was initialised knows its TCTI context.
  pub record IsLibrary : Type 0 where
    pub fresh :
        (live : List ℕ) (n : ℕ) (g : F)
        → ((l.allocate_pool live n g).0 == 0) ≡ false
        → contains (l.allocate_pool live n g).0 live ≡ false
    pub fresh_room :
        (n : ℕ) (g : F)
        → p.sizeof_context ≤ n
        → length (l.fresh_tcti n g).cmd_buf ≡ n - p.sizeof_context
    pub initialize_stores :
        (n a : ℕ) (c : Option Context) (v : AbiVersion) (x : S) (old : ℕ)
        → (l.sys_initialize n a c v x).0 ≡ p.rc_success
        → l.sys_get_tcti_context (l.sys_initialize n a c v x).1 old ≡ (p.rc_success, a)
