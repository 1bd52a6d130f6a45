-- ===== src/Programs/ReadLog.antt =====
-- example/tcg2-get-eventlog.c: the choice of the printing by the format, and `efi_main`. What the
-- memory holds is a function of the firmware's state, since GetEventLog hands out the log there.
use tpm2_tcti_uefi.Base.{
  ℕ, ◌≡◌, ◌<◌, ◌^◌, [], ◌∷◌, ◌++◌, false, Option, none, some, ◌==◌, if◌then◌else◌, Bool-cases, inl,
  inr, refl,
}
use tpm2_tcti_uefi.Platform.{LogLocation, num, print, Machine, M, pure, ◌>>=◌, ◌>>◌, emit, Platform}
use tpm2_tcti_uefi.Tpm.{Tpm, IsTpm}
use tpm2_tcti_uefi.Tcg2
use tpm2_tcti_uefi.Tcg2.{tcg2_protocol_guid}
use tpm2_tcti_uefi.Util.Names.{is_set}
use tpm2_tcti_uefi.Util.Format.{get_eventlog_format_high, log_format_tcg_1_2, log_format_tcg_2}
use tpm2_tcti_uefi.EventLog.Memory.{Memory, IsMemory}
use tpm2_tcti_uefi.EventLog.Progress.{foreach_event2_total}
use tpm2_tcti_uefi.EventLog.Print.{Lines, prettyprint_tpm2_eventlog, prettyprint_event_callback}
use tpm2_tcti_uefi.EventLog.Tpm12.{prettyprint_tpm12_eventlog, prettyprint_tpm12_eventlog_total}

module _ (t : Tpm) (m : Memory) where
  unfoldable pub prettyprint_eventlog : ℕ → ℕ → ℕ → Lines → Option Lines
  prettyprint_eventlog first last format lines =
      if format == log_format_tcg_2
      then prettyprint_tpm2_eventlog t m first last lines
      else if format == log_format_tcg_1_2
      then prettyprint_tpm12_eventlog m first last lines
      else some (lines ++ (print "ERROR: Unknown format: 0x%x\n" (num format ∷ []) ∷ []))

  tpm2_eventlog_total :
      IsTpm t
      → IsMemory m
      → (first last : ℕ) (lines : Lines) → last < 2 ^ 63
      → (r : Lines) × (prettyprint_tpm2_eventlog t m first last lines ≡ some r)
  unfolding prettyprint_tpm2_eventlog
  tpm2_eventlog_total h ok first last lines low = elim (Bool-cases (first == 0)) [
    | inl empty ↦ rw empty (_, refl)
    | inr full ↦
        let opened =
          lines ++ (print "TPM2 EventLog, EFI_TCG2_EVENT_LOG_FORMAT_TCG_2 format\n" [] ∷ []) in
        let (r, e) =
          foreach_event2_total t m h ok (some (prettyprint_event_callback t m)) first last opened
            low in
        rw (full, e) (_, refl)
  ]

  -- The printing of a log below 2^63 ends, for every contents of the memory and every format.
  pub prettyprint_eventlog_total :
      IsTpm t
      → IsMemory m
      → (first last format : ℕ) (lines : Lines) → first < 2 ^ 63
      → last < 2 ^ 63
      → (r : Lines) × (prettyprint_eventlog first last format lines ≡ some r)
  unfolding prettyprint_eventlog
  prettyprint_eventlog_total h ok first last format lines lf lo =
      elim (Bool-cases (format == log_format_tcg_2)) [
        | inl tcg_2 ↦ rw tcg_2 (tpm2_eventlog_total h ok first last lines lo)
        | inr other ↦ rw other (elim (Bool-cases (format == log_format_tcg_1_2)) [
          | inl tcg_1_2 ↦ rw tcg_1_2 (prettyprint_tpm12_eventlog_total m ok first last lines lf lo)
          | inr unknown ↦ rw unknown (_, refl)
        ])
      ]

-- What `efi_main` has found when it comes to the printing: a status to return at once, or a log.
pub data Found : Type 0 where
  returned : ℕ → Found
  log : ℕ → ℕ → LogLocation → Found

module _ {F : Type 0} (p : Platform F) where
  -- What is relied on of GetEventLog: where it succeeds, the log is below 2^63.
  abbrev pub IsLowLog : Type 0
  IsLowLog =
      (protocol format : ℕ) (old : LogLocation) (g : F)
      → p.efi_error (p.get_event_log protocol format old g).0 ≡ false
      → ((p.get_event_log protocol format old g).1.first < 2 ^ 63)
        × ((p.get_event_log protocol format old g).1.last < 2 ^ 63)

  get_eventlog-low :
      IsLowLog
      → (protocol format : ℕ) (old : LogLocation) (s : Machine F)
      → let r = (Tcg2.get_eventlog p protocol format old s).0 in
        p.efi_error r.0 ≡ false → (r.1.first < 2 ^ 63) × (r.1.last < 2 ^ 63)
  unfolding Tcg2.get_eventlog
  get_eventlog-low low protocol format old s = low protocol format old s.firmware

module _ {F : Type 0} (p : Platform F) (t : Tpm) (memory : F → Memory) where
  -- `efi_main` up to the printing.
  find_log : M F Found
  find_log = do
    (located, protocol) ← Tcg2.get_protocol p p.uninitialised
    if p.efi_error located then pure (returned located) else (do
      (chosen, format) ← get_eventlog_format_high p protocol 0
      if p.efi_error chosen
          then pure (returned chosen)
          else if format == 0
          then (do
            emit (
                print "ERROR: TCG2 UEFI protocol doesn't support a log format known to this tool.\n"
                  [])
            pure (returned 1))
          else (do
            (status, location) ← Tcg2.get_eventlog p protocol format p.uninitialised_location
            if p.efi_error status then pure (returned status) else (do
              if is_set location.truncated
                  then emit (print "WARNING: Eventlog has been truncated\n" [])
                  else pure tt
              pure (log status format location))))

  print_found : Found × Machine F → Option (ℕ × Machine F)
  print_found (returned status, s) = some (status, s)
  print_found (log status format location, s) =
      elim (prettyprint_eventlog t (memory s.firmware) location.first location.last format
        s.output) [ none ↦ none | some lines ↦ some (status, record s { output = lines }) ]

  -- `efi_main` of the program, behind `InitializeLib`; `none` means that a walk has run out of fuel.
  unfoldable pub efi_main : Machine F → Option (ℕ × Machine F)
  unfolding find_log print_found
  efi_main s = print_found (find_log s)

  abbrev IsLow : Found → Type 0
  IsLow (returned status) = Unit
  IsLow (log status format location) = (location.first < 2 ^ 63) × (location.last < 2 ^ 63)

  print_found_total :
      IsTpm t
      → ((g : F) → IsMemory (memory g))
      → (r : Found × Machine F) → IsLow r.0
      → (x : ℕ × Machine F) × (print_found r ≡ some x)
  unfolding print_found
  print_found_total h ok (returned status, s) low = (_, refl)
  print_found_total h ok (log status format location, s) low =
      let (lines, e) =
        prettyprint_eventlog_total t (memory s.firmware) h (ok s.firmware) location.first
          location.last format s.output low.0 low.1 in
      rw (print_found, e) (_, refl)

  find_log-IsLow : IsLowLog p → (s : Machine F) → IsLow (find_log s).0
  unfolding find_log
  find_log-IsLow low s =
      let (located, s1) = Tcg2.get_protocol p p.uninitialised s in
      let (chosen, s2) = get_eventlog_format_high p located.1 0 s1 in
      let (found, s3) = Tcg2.get_eventlog p located.1 chosen.1 p.uninitialised_location s2 in
      let within = get_eventlog-low p low located.1 chosen.1 p.uninitialised_location s2 in
      elim (Bool-cases (p.efi_error located.0)) [
        | inl e ↦ rw (find_log, e) tt
        | inr a ↦ elim (Bool-cases (p.efi_error chosen.0)) [
          | inl e ↦ rw (find_log, a, e) tt
          | inr b ↦ elim (Bool-cases (chosen.1 == 0)) [
            | inl e ↦ rw (find_log, a, b, e) tt
            | inr c ↦ elim (Bool-cases (p.efi_error found.0)) [
              | inl e ↦ rw (find_log, a, b, c, e) tt
              | inr d ↦ rw (find_log, a, b, c, d) (within d)
            ]
          ]
        ]
      ]

  -- The program ends, with a status, whatever the memory holds and whatever the firmware answers,
  -- if a log is below 2^63.
  pub efi_main_total :
      IsTpm t
      → ((g : F) → IsMemory (memory g))
      → IsLowLog p
      → (s : Machine F) → (x : ℕ × Machine F) × (efi_main s ≡ some x)
  unfolding efi_main
  efi_main_total h ok low s = print_found_total h ok (find_log s) (find_log-IsLow low s)
