-- ===== src/EventLog/Examples.antt =====
-- The theorems on the event log at a log of two events in memory, and a run of the printing.
use tpm2_tcti_uefi.Base.{
  ℕ, ◌≡◌, refl, ◌+◌, ◌-◌, List, [], ◌∷◌, ◌++◌, Bool, true, some, replicate, get_or, arith,
}
use tpm2_tcti_uefi.Platform.{print}
use tpm2_tcti_uefi.Sample.{tpm, tpm-IsTpm}
use tpm2_tcti_uefi.Util.Names.{get_alg_size}
use tpm2_tcti_uefi.Util.Pcr.Select.{AreBytes, get_or-lt}
use tpm2_tcti_uefi.EventLog.Memory.{Memory, IsMemory, u16_at, u32_at, event_size}
use tpm2_tcti_uefi.EventLog.Walk.{Callback, sizeof_digest2, get_next_event, foreach_event2}
use tpm2_tcti_uefi.EventLog.Progress.{body_of, get_next_event_lem, foreach_event2_total}
use tpm2_tcti_uefi.EventLog.Encoding.{
  Event, encode_event, encode, Holds, IsEvent, Holds-front, held,
}
use tpm2_tcti_uefi.EventLog.RoundTrip.{get_next_event-encode, starts, walk, foreach_event2-walk}
use tpm2_tcti_uefi.EventLog.Print.{prettyprint_tpm2_eventlog}
use tpm2_tcti_uefi.EventLog.Render.{log_text, prettyprint_tpm2_eventlog-text}

-- An event with a SHA1 digest, and one with none.
abbrev measured : Event
measured = record {
  pcr = 7;
  kind = 4;
  digests = record { algorithm = 4; hash = replicate 20 0xab } ∷ [];
  body = 1 ∷ 2 ∷ [];
}

abbrev bare : Event
bare = record { pcr = 0; kind = 3; digests = []; body = 9 ∷ [] }

abbrev log_bytes : List ℕ
log_bytes = encode (measured ∷ bare ∷ [])

abbrev memory : Memory
memory a = get_or log_bytes (a - 4096) 0

are_bytes : AreBytes log_bytes
are_bytes = omega arith

memory-IsMemory : IsMemory memory
memory-IsMemory a = get_or-lt log_bytes (a - 4096) are_bytes

measured-IsEvent : IsEvent tpm measured
unfolding get_alg_size
measured-IsEvent = record {
  pcr_fits = omega arith;
  kind_fits = omega arith;
  count_fits = omega arith;
  digests_ok = (omega arith, refl, tt);
  size_fits = omega arith;
}

bare-IsEvent : IsEvent tpm bare
bare-IsEvent = record {
  pcr_fits = omega arith;
  kind_fits = omega arith;
  count_fits = omega arith;
  digests_ok = tt;
  size_fits = omega arith;
}

log_held : Holds memory 4096 log_bytes
log_held =
    held memory 4096 log_bytes (λ i lt. let e : 4096 + i - 4096 ≡ i = omega arith in rw e refl)

measured_held : Holds memory 4096 (encode_event measured)
measured_held = Holds-front memory 4096 (encode_event measured) (encode (bare ∷ [])) log_held

get_next_event_lem_example :
    get_next_event tpm memory 4096
    ≡ body_of tpm memory 4096 + 4 + event_size memory (body_of tpm memory 4096)
get_next_event_lem_example =
    get_next_event_lem tpm memory tpm-IsTpm memory-IsMemory 4096 (omega arith)

get_next_event-encode_example : get_next_event tpm memory 4096 ≡ 4096 + 40
get_next_event-encode_example =
    get_next_event-encode tpm memory tpm-IsTpm memory-IsMemory 4096 measured (omega arith)
      measured-IsEvent measured_held

-- Counts the events.
abbrev tally : Callback ℕ
tally a n = (true, n + 1)

foreach_event2_total_example :
    (r : Bool × ℕ) × (foreach_event2 tpm memory 4096 4136 (some tally) 0 ≡ some r)
foreach_event2_total_example =
    foreach_event2_total tpm memory tpm-IsTpm memory-IsMemory (some tally) 4096 4136 0 (omega arith)

foreach_event2-walk_example :
    foreach_event2 tpm memory 4096 4136 (some tally) 0
    ≡ some (walk tpm memory tally (starts tpm memory 4096 (measured ∷ bare ∷ [])) 0)
foreach_event2-walk_example =
    foreach_event2-walk tpm memory tpm-IsTpm memory-IsMemory tally measured (bare ∷ []) 4096 4136 0
      (omega arith) refl (omega arith) (measured-IsEvent, (bare-IsEvent, tt)) log_held

counted : foreach_event2 tpm memory 4096 4136 (some tally) 0 ≡ some (true, 2)
unfolding foreach_event2 get_next_event u16_at u32_at sizeof_digest2 get_alg_size
counted = refl

prettyprint_tpm2_eventlog-text_example :
    prettyprint_tpm2_eventlog tpm memory 4096 4136 []
    ≡ some (
        (print "TPM2 EventLog, EFI_TCG2_EVENT_LOG_FORMAT_TCG_2 format\n" [] ∷ [])
        ++ log_text tpm (measured ∷ bare ∷ [])
        ++ (print "TPM2 EventLog end\n" [] ∷ []))
prettyprint_tpm2_eventlog-text_example =
    prettyprint_tpm2_eventlog-text tpm memory tpm-IsTpm memory-IsMemory measured (bare ∷ []) 4096
      4136 [] (omega arith) refl (omega arith) (omega arith) (measured-IsEvent, (bare-IsEvent, tt))
      log_held
