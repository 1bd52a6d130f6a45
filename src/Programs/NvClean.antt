-- ===== src/Programs/NvClean.antt =====
-- example/tpm2-nv-ops.c gives back what it has allocated, whatever the TPM answers.
use tpm2_tcti_uefi.Base.{ℕ, ◌≡◌, ◌⊎◌, inl, inr, ◌==◌, if◌then◌else◌, refl, Bool-cases}
use tpm2_tcti_uefi.Platform.{Platform, IsLawful}
use tpm2_tcti_uefi.Pool.{Blocks, World}
use tpm2_tcti_uefi.Tss2.External.{Library, IsLibrary}
use tpm2_tcti_uefi.Tss2.Commands.{Sized, Commands, AreKeeping}
use tpm2_tcti_uefi.Tss2.Session.{EndsClean, session-EndsClean}
use tpm2_tcti_uefi.Tss2.Stays.{Stays, pure-Stays, say-Stays, if-Stays, call-Stays}
use tpm2_tcti_uefi.Programs.NvOps.{
  second_random, undefine_space, write, define_space, run_commands, efi_main, written,
}

module _ {F S : Type 0} (p : Platform F) (l : Library F S) (k : Commands F S)
    (keeping : AreKeeping l k) (blocks : Blocks S) (sys : ℕ) where
  second_random-Stays : (old : Sized) → Stays p l blocks sys (second_random p l k sys old)
  unfolding second_random
  second_random-Stays old =
      call-Stays _ _ (keeping.get_random_keeps 32 old)
        (λ r. if-Stays _ (say-Stays _ (pure-Stays _)) (say-Stays _ (pure-Stays _)))

  undefine_space-Stays : (old : Sized) → Stays p l blocks sys (undefine_space p l k sys old)
  unfolding undefine_space
  undefine_space-Stays old =
      call-Stays _ _ (keeping.nv_undefine_space_keeps _ _ _)
        (λ r. if-Stays _ (say-Stays _ (second_random-Stays old)) (say-Stays _ (pure-Stays _)))

  written-Stays : (old : Sized) (rc : ℕ) → Stays p l blocks sys (written p l k sys old rc)
  written-Stays old rc =
      if-Stays _ (say-Stays _ (undefine_space-Stays old)) (say-Stays _ (pure-Stays _))

  write-Stays : (old content : Sized) → Stays p l blocks sys (write p l k sys old content)
  unfolding write
  write-Stays old content = call-Stays _ _ (keeping.nv_write_keeps _ _ _ _ _) (λ r.
      if-Stays _
        (say-Stays _
          (call-Stays _ _ (keeping.nv_write_keeps _ _ _ _ _) (λ q. written-Stays old q.0)))
        (written-Stays old r.0))

  define_space-Stays :
      (old content : Sized) → Stays p l blocks sys (define_space p l k sys old content)
  unfolding define_space
  define_space-Stays old content =
      call-Stays _ _ (keeping.nv_define_space_keeps _ _ _ _)
        (λ r. if-Stays _ (say-Stays _ (write-Stays old content)) (say-Stays _ (pure-Stays _)))

  pub run_commands-Stays : Stays p l blocks sys (run_commands p l k sys)
  unfolding run_commands
  run_commands-Stays =
      call-Stays _ _ (keeping.get_random_keeps _ _)
        (λ r. if-Stays _ (say-Stays _ (define_space-Stays r.1 _)) (say-Stays _ (pure-Stays _)))

module _ {F S : Type 0} {p : Platform F} {l : Library F S} (k : Commands F S) (lawful : IsLawful p)
    (ok : IsLibrary p l) (keeping : AreKeeping l k) where
  abbrev OneOfTwo : ℕ → Type 0
  OneOfTwo status = (status ≡ p.efi_success) ⊎ (status ≡ k.efi_aborted)

  abbrev status_of : ℕ → ℕ
  status_of rc = if rc == p.rc_success then p.efi_success else k.efi_aborted

  status_of-OneOfTwo : (rc : ℕ) → OneOfTwo (status_of rc)
  status_of-OneOfTwo rc = elim (Bool-cases (rc == p.rc_success)) [
    | inl e ↦ inl (rw e refl)
    | inr e ↦ inr (rw e refl)
  ]

  -- If the commands leave the contexts in place, the program ends, whatever the TPM answers. If
  -- `sys_uefi_init` succeeds, it ends with EFI_SUCCESS or EFI_ABORTED, never uses or frees a block that is
  -- not live, and gives back every block that it has allocated, on every path. If `sys_uefi_init` fails,
  -- it ends with EFI_ABORTED in the world that this call left: with the blocks of before, or with one
  -- more that holds a TCTI context.
  pub efi_main-Ends :
      (w : World F S)
      → EndsClean p l
          (λ status. (status ≡ p.efi_success) ⊎ (status ≡ k.efi_aborted))
          k.efi_aborted
          (efi_main p l k)
          w
  unfolding efi_main
  efi_main-Ends w =
      session-EndsClean lawful ok OneOfTwo k.efi_aborted status_of status_of-OneOfTwo
        (run_commands p l k) w (run_commands-Stays p l k keeping w.blocks)
