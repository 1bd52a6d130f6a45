-- ===== src/EventLog/Tpm12.antt =====
-- example/tcg2-get-eventlog.c: the walk over a log of TCG 1.2 and its printing. A TCG_PCR_EVENT is
-- packed, with a digest of 20 bytes at 8, EventSize at 28 and one byte of Event at 32.
use tpm2_tcti_uefi.Base.{
  ℕ, zero, suc, ◌≡◌, ◌≤◌, ◌<◌, ◌+◌, ◌-◌, ◌^◌, true, false, Option, none, some, [], ◌∷◌, ◌++◌, ltb,
  ◌==◌, if◌then◌else◌, Bool-cases, inl, inr, arith, refl,
}
use tpm2_tcti_uefi.Platform.{num, str, print, dump_hex}
use tpm2_tcti_uefi.Util.Names.{eventtype_to_string}
use tpm2_tcti_uefi.EventLog.Memory.{Memory, null, offset, bytes_at, u32_at, u32_at-lt, IsMemory}
use tpm2_tcti_uefi.EventLog.Print.{Lines}

abbrev pub pcr_event_size : ℕ
pcr_event_size = 33

abbrev pub tpm12_event_size : Memory → ℕ → ℕ
tpm12_event_size m event = u32_at m (event + 28)

module _ (m : Memory) where
  unfoldable pub prettyprint_tpm12_event : ℕ → Lines → Lines
  prettyprint_tpm12_event event lines =
      lines
      ++ (print "TCG_PCR_EVENT: 0x%x\n" (num event ∷ [])
          ∷ print "  PCRIndex: %d\n" (num (u32_at m event) ∷ [])
          ∷ print "  EventType: %s (0x%08x)\n"
              (str (eventtype_to_string (u32_at m (event + 4))) ∷ num (u32_at m (event + 4)) ∷ [])
          ∷ print "  Digest: \n" []
          ∷ dump_hex 4 0 20 (bytes_at m (event + 8) 20)
          ∷ print "  EventSize: %d\n" (num (tpm12_event_size m event) ∷ [])
          ∷ print "  Event: \n" []
          ∷ dump_hex 4 0 (tpm12_event_size m event)
              (bytes_at m (event + 32) (tpm12_event_size m event))
          ∷ [])

  unfoldable pub tpm12_event_next : ℕ → ℕ → Lines → ℕ × Lines
  tpm12_event_next current last lines =
      let next = offset current (pcr_event_size + tpm12_event_size m current - 1) in
      if current == last
      then (null, lines)
      else if ltb last next
      then (null, lines ++ (print "Error: current element is beyond the end of the log\n" [] ∷ []))
      else (next, lines)

  -- The do-while loop on fuel: `none` means that the fuel ran out.
  unfoldable pub visit_tpm12_events : ℕ → ℕ → ℕ → Lines → Option Lines
  visit_tpm12_events zero event last lines = none
  visit_tpm12_events (suc fuel) event last lines =
      let (next, printed) = tpm12_event_next event last (prettyprint_tpm12_event event lines) in
      elim (next == null) [
        | true ↦ some printed
        | false ↦ visit_tpm12_events fuel next last printed
      ]

  unfoldable pub prettyprint_tpm12_eventlog : ℕ → ℕ → Lines → Option Lines
  unfolding visit_tpm12_events
  prettyprint_tpm12_eventlog first last lines =
      if first == null
      then some (lines ++ (print "TPM2 EventLog is empty." [] ∷ []))
      else visit_tpm12_events (last + 1 - first + 1) first last
          (lines ++ (print "TPM2 EventLog, EFI_TCG2_EVENT_LOG_FORMAT_TCG_1_2 format\n" [] ∷ []))

  -- The walk goes on only to an event behind the current one and not behind the last.
  next_within :
      IsMemory m
      → (current last : ℕ) (lines : Lines) → current < 2 ^ 63
      → let next = (tpm12_event_next current last lines).0 in
        (next == null) ≡ false → (current + 32 ≤ next) × (next ≤ last)
  unfolding tpm12_event_next
  next_within ok current last lines low go =
      let size = u32_at-lt m ok (current + 28) in (ground (arith, size), ground (arith, size))

  visit_tpm12_events_total :
      IsMemory m
      → (fuel event last : ℕ) (lines : Lines) → event < 2 ^ 63
      → last < 2 ^ 63
      → 0 < fuel
      → last + 1 < fuel + event
      → (r : Lines) × (visit_tpm12_events fuel event last lines ≡ some r)
  unfolding visit_tpm12_events
  visit_tpm12_events_total ok zero event last lines le lo f g = absurd (omega arith)
  visit_tpm12_events_total ok (suc fuel) event last lines le lo f g =
      let step = tpm12_event_next event last (prettyprint_tpm12_event event lines) in
      elim (Bool-cases (step.0 == null)) [
        | inl stop ↦ rw (stop, visit_tpm12_events) (step.1, refl)
        | inr on ↦
            rw (on, visit_tpm12_events)
              (let w = next_within ok event last (prettyprint_tpm12_event event lines) le on in
                visit_tpm12_events_total ok fuel step.0 last step.1 (omega (arith, w.1)) lo
                  (omega (arith, w.0, w.1)) (omega (arith, w.0, w.1)))
      ]

  -- The printing of a log of TCG 1.2 below 2^63 ends, for every contents of the memory.
  pub prettyprint_tpm12_eventlog_total :
      IsMemory m
      → (first last : ℕ) (lines : Lines) → first < 2 ^ 63
      → last < 2 ^ 63
      → (r : Lines) × (prettyprint_tpm12_eventlog first last lines ≡ some r)
  unfolding prettyprint_tpm12_eventlog
  prettyprint_tpm12_eventlog_total ok first last lines lf lo = elim (Bool-cases (first == null)) [
    | inl empty ↦ rw empty (_, refl)
    | inr full ↦ rw full (
        visit_tpm12_events_total ok (last + 1 - first + 1) first last _ lf lo (omega arith)
          (omega arith))
  ]
