-- ===== src/Programs/Pcrs.antt =====
-- example/tpm2-get-pcrs.c: all PCRs of the active banks are read and printed. A command of the TPM
-- returns some of them, and what it returned is taken out of the selection of the next one.
use tpm2_tcti_uefi.Base.{
  ℕ, zero, suc, ◌+◌, true, false, Option, none, some, List, [], ◌∷◌, ◌++◌, get_or, replicate, ltb,
  leb, length, ◌==◌, if◌then◌else◌,
}
use tpm2_tcti_uefi.Platform.{M, num, str, print, dump_hex, Platform}
use tpm2_tcti_uefi.Tpm.{Tpm}
use tpm2_tcti_uefi.Tcg2
use tpm2_tcti_uefi.Util.Names.{get_alg_size, get_alg_name}
use tpm2_tcti_uefi.Util.Pcr.{
  Selection, Selections, Callback, deselect_pcr, foreach_selection, select_all_active_pcrs,
  count_algs_in_bitmap,
}
use tpm2_tcti_uefi.EventLog.Print.{Lines}
use tpm2_tcti_uefi.Pool.{starved, undefined, Act, pure, ◌>>=◌, ◌>>◌, lift, say}
use tpm2_tcti_uefi.Tss2.{sys_uefi_init}
use tpm2_tcti_uefi.Tss2.External.{Library}
use tpm2_tcti_uefi.Tss2.Commands.{Sized, Digests, Commands}
use tpm2_tcti_uefi.Tss2.Call.{call}

-- callback_data_t
pub record CallbackData : Type 0 where
  pub digest_i : ℕ
  pub last_alg : ℕ
  pub tpml_digests : Digests
  pub pcr_select : Selections

abbrev pub no_digest : Sized
no_digest = record { size = 0; buffer = [] }

-- The loop over the first banks of a selection, with the rounds that are left.
abbrev pub deselect_in : ℕ → ℕ → ℕ → List Selection → List Selection
deselect_in zero alg pcr banks = banks
deselect_in (suc left) alg pcr [] = []
deselect_in (suc left) alg pcr (bank ∷ banks) =
    (if bank.hash == alg
      then record bank { pcr_select = deselect_pcr bank.pcr_select pcr }
      else bank)
    ∷ deselect_in left alg pcr banks

module _ (t : Tpm) where
  -- What a call of the callback prints of the digest `d`.
  abbrev pub pcr_text : ℕ → ℕ → ℕ → Sized → Lines
  pcr_text last_alg alg pcr d =
      (if get_alg_size t alg == d.size
        then []
        else print "ERROR: algorithm and digest size disagre?\n" [] ∷ [])
      ++ (if last_alg == alg
          then []
          else print "PCR bank: %s\n" (str (get_alg_name t alg) ∷ []) ∷ [])
      ++ (print "  PCR: %u\n" (num pcr ∷ []) ∷ dump_hex 4 0 d.size d.buffer ∷ [])

  -- `none` is a NULL pointer; what is printed goes along.
  unfoldable pub selected_digest_callback : Callback (Option CallbackData × Lines)
  selected_digest_callback alg pcr (none, lines) =
      (false, (none, lines ++ (print "ERROR: cbdata cannot be NULL.\n" [] ∷ [])))
  selected_digest_callback alg pcr (some cbdata, lines) =
      let digest = get_or cbdata.tpml_digests.digests cbdata.digest_i no_digest in
      let after = record cbdata {
        digest_i = cbdata.digest_i + 1;
        last_alg = alg;
        pcr_select = record cbdata.pcr_select {
          banks = deselect_in cbdata.pcr_select.count alg pcr cbdata.pcr_select.banks;
        };
      } in
      (
        ltb after.digest_i after.tpml_digests.count,
        (some after, lines ++ pcr_text cbdata.last_alg alg pcr digest),
      )

  -- What a round leaves of the callback data, and prints.
  unfoldable pub visited : Selections → CallbackData → Lines → Option CallbackData × Lines
  visited pcr_select_out cbdata lines =
      foreach_selection selected_digest_callback t pcr_select_out (some cbdata, lines)

  abbrev pub data_of : CallbackData → Option CallbackData → CallbackData
  data_of old none = old
  data_of old (some cbdata) = cbdata

  abbrev pub print_visited : {F : Type 0} → Selections → CallbackData → M F CallbackData
  print_visited pcr_select_out cbdata s =
      let (d, lines) = visited pcr_select_out cbdata s.output in
      (data_of cbdata d, record s { output = lines })

-- `{ 0}`
abbrev pub no_selections : Selections
no_selections = record {
  count = 0;
  banks = replicate 16 (record { hash = 0; sizeof_select = 0; pcr_select = 0 ∷ 0 ∷ 0 ∷ 0 ∷ [] });
}

abbrev pub no_digests : Digests
no_digests = record { count = 0; digests = replicate 8 no_digest }

module _ (t : Tpm) where
  -- The callback data that the loop starts with.
  abbrev pub first_data : ℕ → CallbackData
  first_data active_banks = record {
    digest_i = 0;
    last_alg = 0;
    tpml_digests = no_digests;
    pcr_select = select_all_active_pcrs t active_banks no_selections;
  }

module _ {F S : Type 0} (p : Platform F) (t : Tpm) (l : Library F S) (k : Commands F S) where
  -- The do-while loop on fuel.
  unfoldable pub read_rounds : ℕ → ℕ → ℕ → Selections → CallbackData → Act F S ℕ
  read_rounds zero sys_ctx update_count pcr_select_out cbdata = λ w. starved
  read_rounds (suc fuel) sys_ctx update_count pcr_select_out cbdata = do
    read ← call l sys_ctx (k.pcr_read cbdata.pcr_select update_count pcr_select_out no_digests)
    if read.0 == p.rc_success
        then (do
          after ←
              lift
                (print_visited t read.1.1 (record cbdata { digest_i = 0; tpml_digests = read.1.2 }))
          elim (ltb 0 after.tpml_digests.count) [
            | true ↦ read_rounds fuel sys_ctx read.1.0 read.1.1 after
            | false ↦ pure 0
          ])
        else (do
          say (print "ERROR: Tss2_Sys_PCR_Read failed with RC: 0x%x\n" (num read.0 ∷ []))
          pure 1)

  -- `select_all_active_pcrs` writes an entry for each bit of the bitmap, without a test for the end of
  -- the array.
  unfoldable pub prettyprint_pcrs_all : ℕ → ℕ → ℕ → Act F S ℕ
  prettyprint_pcrs_all fuel sys_ctx active_banks =
      if leb (count_algs_in_bitmap active_banks) (length no_selections.banks)
      then read_rounds fuel sys_ctx 0 no_selections (first_data t active_banks)
      else λ w. undefined

  -- `efi_main` of the program, behind `InitializeLib`. It tears nothing down.
  unfoldable pub efi_main : ℕ → Act F S ℕ
  efi_main fuel = do
    located ← lift (Tcg2.get_protocol p p.uninitialised)
    if p.efi_error located.0 then pure located.0 else (do
      active ← lift (Tcg2.get_active_pcr_banks p located.1 0)
      if p.efi_error active.0 then pure active.0 else (do
        made ← sys_uefi_init p l p.uninitialised
        if made.0 == p.rc_success
            then prettyprint_pcrs_all fuel made.1 active.1
            else pure k.efi_aborted))
