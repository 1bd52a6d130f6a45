-- ===== src/Tss2/Examples.antt =====
-- The theorems on the helpers of example/tss2-util.c at the sample services.
use tpm2_tcti_uefi.Base.{ℕ, ◌≡◌, ◌≢◌, ◌⊎◌, [], ◌∷◌, refl, arith}
use tpm2_tcti_uefi.Platform.{Machine, num, print}
use tpm2_tcti_uefi.Sample.{platform, lawful, machine}
use tpm2_tcti_uefi.Sample.Services.{
  library, library-IsLibrary, failing_library, failing_library-IsLibrary, zero_context, commands,
  commands-AreKeeping, world,
}
use tpm2_tcti_uefi.Tcti.{init, initialise, sizeof_tcti_context}
use tpm2_tcti_uefi.Tcg2
use tpm2_tcti_uefi.Tcti.Init.{Answers}
use tpm2_tcti_uefi.Pool.{World, returned, tcti, sapi, find, put, contains, remove, after}
use tpm2_tcti_uefi.Pool.Laws.{Returns}
use tpm2_tcti_uefi.Tss2.{tcti_uefi_init, sys_uefi_init, sys_uefi_teardown_full}
use tpm2_tcti_uefi.Tss2.Handshake.{HasValid, tcti_uefi_init-HasValid}
use tpm2_tcti_uefi.Tss2.{allocate, sys_uefi_init_from_tcti_ctx}
use tpm2_tcti_uefi.Tss2.Init.{HasTcti}
use tpm2_tcti_uefi.Tss2.Leaks.{sys_uefi_init_leaks, session-balanced}
use tpm2_tcti_uefi.Programs.NvOps.{run_commands}
use tpm2_tcti_uefi.Programs.NvClean.{run_commands-Stays}

abbrev failure : Machine ℕ
failure = record machine {
  output = print "Failed to initialize SAPI context: 0x%x\n" (num 0x80001 ∷ []) ∷ [];
}

answers : Answers platform machine
answers = record {
  found = refl;
  capable = refl;
  command_fits = omega arith;
  response_fits = omega arith;
  not_empty = omega arith;
}

tcti_uefi_init-HasValid_example :
    Returns
      (λ r.
        ((◌≢◌ {A = ℕ} 1 0) × (◌≡◌ {A = ℕ × ℕ} r.0 (0, 1)) × HasValid 16 1 [] r.1.blocks)
        ⊎ ((◌≡◌ {A = ℕ} 1 0) × (◌≡◌ {A = ℕ × ℕ} r.0 (0xa0001, 0)) × (r.1.blocks ≡ [])))
      (tcti_uefi_init platform library 0 world)
tcti_uefi_init-HasValid_example = tcti_uefi_init-HasValid lawful library-IsLibrary 0 world answers

-- The blocks that `sys_uefi_init` makes of none.
abbrev tcti_world : World ℕ ℕ
tcti_world = record world { blocks = (1, tcti (initialise platform (zero_context 16) 104)) ∷ [] }

abbrev session_world : World ℕ ℕ
session_world = record world { blocks = (2, sapi 1) ∷ tcti_world.blocks }

tcti_made : tcti_uefi_init platform failing_library 99 world ≡ returned ((0, 1), tcti_world)
unfolding tcti_uefi_init allocate init sizeof_tcti_context Tcg2.get_protocol Tcg2.get_max_buf
    Tcg2.get_capability find put
tcti_made = refl

not_made :
    sys_uefi_init platform failing_library 5 world
    ≡ returned ((0x80001, 5), record tcti_world { machine = failure })
unfolding sys_uefi_init sys_uefi_init_from_tcti_ctx tcti_uefi_init allocate init sizeof_tcti_context
    Tcg2.get_protocol Tcg2.get_max_buf Tcg2.get_capability find put contains remove
not_made = refl

made : sys_uefi_init platform library 5 world ≡ returned ((0, 2), session_world)
unfolding sys_uefi_init sys_uefi_init_from_tcti_ctx tcti_uefi_init allocate init sizeof_tcti_context
    Tcg2.get_protocol Tcg2.get_max_buf Tcg2.get_capability find put
made = refl

sys_uefi_init_leaks_example : (◌≡◌ {A = ℕ} 5 5) × HasTcti [] 1 tcti_world.blocks
sys_uefi_init_leaks_example =
    sys_uefi_init_leaks lawful failing_library-IsLibrary 5 1 world tcti_world
      (record tcti_world { machine = failure }) (0x80001, 5) tcti_made not_made (omega arith)

session-balanced_example :
    Returns
      (λ r. r.1.blocks ≡ [])
      (after
        (run_commands platform library commands 2 session_world)
        (λ a. sys_uefi_teardown_full platform library 2))
session-balanced_example =
    session-balanced lawful library-IsLibrary 5 world session_world 2
      (run_commands platform library commands 2) made
      (run_commands-Stays platform library commands commands-AreKeeping [] 2)
