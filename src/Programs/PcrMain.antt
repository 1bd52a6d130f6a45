-- ===== src/Programs/PcrMain.antt =====
-- example/tpm2-get-pcrs.c from start to end: the loop over the selection of all active PCRs, and what
-- the program leaves behind.
use tpm2_tcti_uefi.Base.{◌≡◌, ◌≢◌, ℕ, ◌≤◌, ◌<◌, ◌⊎◌, true, false}
use tpm2_tcti_uefi.Platform.{Machine, Platform}
use tpm2_tcti_uefi.Tpm.{Tpm}
use tpm2_tcti_uefi.Tcg2
use tpm2_tcti_uefi.Util.Pcr.{count_algs_in_bitmap}
use tpm2_tcti_uefi.Pool.{World, returned}
use tpm2_tcti_uefi.Pool.Laws.{Returns}
use tpm2_tcti_uefi.Tss2.{sys_uefi_init}
use tpm2_tcti_uefi.Tss2.External.{Library}
use tpm2_tcti_uefi.Tss2.Ready.{IsReady}
use tpm2_tcti_uefi.Tss2.Commands.{Commands}
use tpm2_tcti_uefi.Programs.Pcrs.{efi_main}

-- The first three bytes of a PCR_SELECT hold more than 16 PCRs, and its four bytes no more than 32.
abbrev pub HasUsualPcrs : Tpm → Type 0
HasUsualPcrs t = (16 < t.max_pcrs) × (t.max_pcrs ≤ 32)

-- The firmware reports at most 16 active banks, as many as a TPML_PCR_SELECTION has entries.
abbrev pub HasFewBanks : {F : Type 0} → Platform F → Type 0
HasFewBanks {F} p =
    (protocol old : ℕ) (g : F)
    → p.efi_error (p.get_active_pcr_banks protocol old g).0 ≡ false
    → count_algs_in_bitmap (p.get_active_pcr_banks protocol old g).1 ≤ 16

module _ {F S : Type 0} (p : Platform F) (t : Tpm) (l : Library F S) (k : Commands F S) where
  -- What the two calls of the protocol give, and the world behind them.
  abbrev pub located_in : World F S → (ℕ × ℕ) × Machine F
  located_in w = Tcg2.get_protocol p p.uninitialised w.machine

  abbrev pub active_in : World F S → (ℕ × ℕ) × Machine F
  active_in w = Tcg2.get_active_pcr_banks p (located_in w).0.1 0 (located_in w).1

  abbrev pub queried : World F S → World F S
  queried w = record w { machine = (active_in w).1 }

  -- How the program ends: with the error of one of the two calls and nothing allocated; or, if
  -- `sys_uefi_init` fails, with EFI_ABORTED in the world that this left; or else with the 0 or 1 of
  -- `prettyprint_pcrs_all`, and both contexts that `sys_uefi_init` made live.
  abbrev pub Leftover : ℕ → World F S → Type 0
  Leftover fuel w =
      ((p.efi_error (located_in w).0.0 ≡ true)
        × (efi_main p t l k fuel w
            ≡ returned ((located_in w).0.0, record w { machine = (located_in w).1 })))
      ⊎ (((p.efi_error (located_in w).0.0 ≡ false)
            × (p.efi_error (active_in w).0.0 ≡ true)
            × (efi_main p t l k fuel w ≡ returned ((active_in w).0.0, queried w)))
          ⊎ ((p.efi_error (located_in w).0.0 ≡ false)
              × (p.efi_error (active_in w).0.0 ≡ false)
              × ((made : ℕ × ℕ) × (w1 : World F S) × (sys_uefi_init p l p.uninitialised (queried w)
                    ≡ returned (made, w1))
                  × (((made.0 ≢ p.rc_success)
                        × (efi_main p t l k fuel w ≡ returned (k.efi_aborted, w1)))
                      ⊎ ((made.0 ≡ p.rc_success)
                          × Returns
                              (λ r.
                                ((r.0 ≡ 0) ⊎ (r.0 ≡ 1)) × IsReady p l w.blocks made.1 r.1.blocks)
                              (efi_main p t l k fuel w))))))
