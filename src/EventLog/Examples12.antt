-- ===== src/EventLog/Examples12.antt =====
-- The theorem on the log of TCG 1.2 at a log of two events in memory.
use tpm2_tcti_uefi.Base.{
  ℕ, ◌≡◌, refl, ◌+◌, ◌-◌, List, [], ◌∷◌, ◌++◌, some, replicate, get_or, arith,
}
use tpm2_tcti_uefi.Platform.{print}
use tpm2_tcti_uefi.EventLog.Memory.{Memory}
use tpm2_tcti_uefi.EventLog.Encoding.{Holds, held}
use tpm2_tcti_uefi.EventLog.Tpm12.{prettyprint_tpm12_eventlog}
use tpm2_tcti_uefi.EventLog.Render12.{
  PcrEvent, IsPcrEvent, encode, log_text, prettyprint_tpm12_eventlog-text,
}

abbrev first_event : PcrEvent
first_event = record { pcr = 7; kind = 4; digest = replicate 20 0xab; body = 1 ∷ 2 ∷ [] }

abbrev second_event : PcrEvent
second_event = record { pcr = 0; kind = 8; digest = replicate 20 0; body = 9 ∷ [] }

first-IsPcrEvent : IsPcrEvent first_event
first-IsPcrEvent = record {
  pcr_fits = omega arith;
  kind_fits = omega arith;
  digest_fits = refl;
  body_fits = omega arith;
}

second-IsPcrEvent : IsPcrEvent second_event
second-IsPcrEvent = record {
  pcr_fits = omega arith;
  kind_fits = omega arith;
  digest_fits = refl;
  body_fits = omega arith;
}

abbrev log_bytes : List ℕ
log_bytes = encode (first_event ∷ second_event ∷ [])

abbrev memory : Memory
memory a = get_or log_bytes (a - 4096) 0

log_held : Holds memory 4096 log_bytes
log_held =
    held memory 4096 log_bytes (λ i lt. let e : 4096 + i - 4096 ≡ i = omega arith in rw e refl)

prettyprint_tpm12_eventlog-text_example :
    prettyprint_tpm12_eventlog memory 4096 4130 []
    ≡ some (
        (print "TPM2 EventLog, EFI_TCG2_EVENT_LOG_FORMAT_TCG_1_2 format\n" [] ∷ [])
        ++ log_text 4096 (first_event ∷ second_event ∷ []))
prettyprint_tpm12_eventlog-text_example =
    prettyprint_tpm12_eventlog-text memory first_event (second_event ∷ []) 4096 4130 []
      (omega arith) refl (omega arith) (first-IsPcrEvent, (second-IsPcrEvent, tt)) log_held
