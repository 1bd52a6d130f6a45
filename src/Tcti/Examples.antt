-- ===== src/Tcti/Examples.antt =====
-- The theorems on the TCTI at a sample platform, and runs of its operations.
use tpm2_tcti_uefi.Base.{
  ℕ, ◌≡◌, ◌≢◌, ◌↔◌, refl, ◌+◌, ◌-◌, ◌^◌, ◌<◌, List, [], ◌∷◌, ◌++◌, none, some, replicate, arith,
  false,
}
use tpm2_tcti_uefi.Platform.{Platform, IsLawful}
use tpm2_tcti_uefi.Tcg2
use tpm2_tcti_uefi.Tcti.{
  Context, null, uefi_transmit, uefi_receive, uefi_finalize, uefi_magic, uefi_version, transmitting,
  receiving, transmit, receive, init, sizeof_tcti_context, finalize,
}
use tpm2_tcti_uefi.Tcti.Valid.{IsValid}
use tpm2_tcti_uefi.Tcti.Transmit.{
  Accepts, transmit-success_iff, transmit_accepted, transmit_refused,
}
use tpm2_tcti_uefi.Tcti.Receive.{
  Reaches, Completes, receive_exchange, receive-success_iff, receive_refused, receive_failure_code,
}
use tpm2_tcti_uefi.Tcti.Init.{
  Answers, init-IsValid, init_query-success_iff, init_handshake, init_wraps,
}
use tpm2_tcti_uefi.Tcti.Calls.{Call, transmitted, received, finalized}
use tpm2_tcti_uefi.Tcti.Spec
use tpm2_tcti_uefi.Tcti.Session.{step, run, Refines}
use tpm2_tcti_uefi.Tcti.Refine.{run-Refines}
use tpm2_tcti_uefi.Tcti.Protocol.{Alternates, marks, run-Alternates}
use tpm2_tcti_uefi.Sample.{platform, lawful, machine}

abbrev blank : Context
blank = record {
  magic = 0;
  version = 0;
  transmit_entry = null;
  receive_entry = null;
  finalize_entry = null;
  cancel_entry = null;
  get_poll_handles_entry = null;
  set_locality_entry = null;
  make_sticky_entry = null;
  state = receiving;
  size = 0;
  cmd_buf = replicate 16 0;
}

abbrev ready : Context
ready = record {
  magic = uefi_magic;
  version = uefi_version;
  transmit_entry = uefi_transmit;
  receive_entry = uefi_receive;
  finalize_entry = uefi_finalize;
  cancel_entry = null;
  get_poll_handles_entry = null;
  set_locality_entry = null;
  make_sticky_entry = null;
  state = transmitting;
  size = 16;
  cmd_buf = replicate 16 0;
}

-- TPM2_GetRandom of 8 bytes.
abbrev command : List ℕ
command = 0x80 ∷ 0x01 ∷ 0 ∷ 0 ∷ 0 ∷ 12 ∷ 0 ∷ 0 ∷ 1 ∷ 0x7b ∷ 0 ∷ 8 ∷ []

abbrev waiting : Context
waiting = record ready { cmd_buf = command ++ (0 ∷ 0 ∷ 0 ∷ 0 ∷ []); state = receiving }

abbrev block : ℕ
block = 0xffffffff

init-ready : (init platform (some blank) (some 104) machine).0.context ≡ some ready
unfolding init
init-ready = refl

ready-IsValid : IsValid ready
ready-IsValid = omega arith

accepts : Accepts ready 12
accepts = record { cast = refl; turn = refl; longer_than_header = omega arith; fits = omega arith }

reaches : Reaches platform waiting block
reaches = record { blocking = refl; cast = refl; turn = refl }

transmit-success_iff_example :
    ((transmit platform (some ready) 12 (some command) machine).0.0 ≡ 0) ↔ Accepts ready 12
transmit-success_iff_example = transmit-success_iff lawful ready 12 command machine

transmit_accepted_example :
    transmit platform (some ready) 12 (some command) machine ≡ ((0, some waiting), machine)
transmit_accepted_example =
    transmit_accepted lawful ready 12 command machine ready-IsValid (omega arith) accepts

too_short : (transmit platform (some ready) 10 (some command) machine).0.0 ≢ 0
unfolding transmit
too_short e = absurd (omega arith)

transmit_refused_example :
    ((transmit platform (some ready) 10 (some command) machine).0.1 ≡ some ready)
    × ((transmit platform (some ready) 10 (some command) machine).1.firmware ≡ 0)
transmit_refused_example = transmit_refused lawful (some ready) 10 (some command) machine too_short

receive_exchange_example :
    receive platform (some waiting) (some 4) (some (1 ∷ 1 ∷ 1 ∷ 1 ∷ [])) block machine ≡ (
      record {
        rc = 0;
        context = some (record waiting { state = transmitting });
        size = some 4;
        response = some (0x80 ∷ 0x01 ∷ []);
      },
      record { firmware = 1; output = [] },
    )
receive_exchange_example =
    receive_exchange lawful waiting 4 block (1 ∷ 1 ∷ 1 ∷ 1 ∷ []) machine reaches (omega arith)
      (omega arith) refl refl

receive-success_iff_example :
    ((receive platform (some waiting) (some 4) none block machine).0.rc ≡ 0)
    ↔ (Reaches platform waiting block × Completes platform waiting 4 none 0)
receive-success_iff_example = receive-success_iff lawful waiting 4 block none machine

out_of_turn : (receive platform (some ready) (some 4) none block machine).0.rc ≢ 0
unfolding receive
out_of_turn e = absurd (omega arith)

receive_refused_example :
    ((receive platform (some ready) (some 4) none block machine).0.context ≡ some ready)
    × ((receive platform (some ready) (some 4) none block machine).0.size ≡ some 4)
receive_refused_example =
    receive_refused lawful (some ready) (some 4) none block machine out_of_turn

-- A firmware that finds every response buffer too small.
abbrev small : Platform ℕ
small = record platform { submit_command = λ protocol size input room old g. (2 ^ 63 + 5, old, g) }

small-lawful : IsLawful small
small-lawful = record {
  success_no_error = lawful.success_no_error;
  general_failure_fails = lawful.general_failure_fails;
  not_implemented_fails = lawful.not_implemented_fails;
  bad_context_fails = lawful.bad_context_fails;
  bad_reference_fails = lawful.bad_reference_fails;
  bad_sequence_fails = lawful.bad_sequence_fails;
  bad_value_fails = lawful.bad_value_fails;
  insufficient_buffer_fails = lawful.insufficient_buffer_fails;
  io_error_fails = lawful.io_error_fails;
  copy_mem_copies = lawful.copy_mem_copies;
  sizeof_context_fits = lawful.sizeof_context_fits;
}

receive_failure_code_example :
    (receive small (some waiting) (some 1) (some (7 ∷ [])) block machine).0.rc ≡ 0xa0006
receive_failure_code_example =
    receive_failure_code small-lawful waiting 1 block (7 ∷ []) machine reaches_small refl
      (2 ^ 63 + 5) refl (omega arith)
  where
    reaches_small : Reaches small waiting block
    reaches_small = record { blocking = refl; cast = refl; turn = refl }

answers : Answers platform machine
answers = record {
  found = refl;
  capable = refl;
  command_fits = omega arith;
  response_fits = omega arith;
  not_empty = omega arith;
}

init-IsValid_example : IsValid ready × (ready.state ≡ transmitting)
unfolding init
init-IsValid_example =
    init-IsValid lawful blank 104 machine (omega arith) (omega arith) refl ready init-ready

init_query-success_iff_example :
    ((init platform none (some 5) machine).0.rc ≡ 0)
    ↔ ((false ≡ false) × (false ≡ false) × (0 < 16))
init_query-success_iff_example = init_query-success_iff lawful 5 machine (omega arith) (omega arith)

query-104 : (init platform none (some 5) machine).0.size ≡ some 104
unfolding init sizeof_tcti_context Tcg2.get_protocol Tcg2.get_max_buf Tcg2.get_capability
query-104 = refl

second-ready :
    (init platform (some blank) (some 104) (init platform none (some 5) machine).1).0.context
    ≡ some ready
unfolding init sizeof_tcti_context Tcg2.get_protocol Tcg2.get_max_buf Tcg2.get_capability
second-ready = refl

init_handshake_example :
    ((init platform none (some 5) machine).0.rc ≡ 0)
    × (◌≡◌ {A = ℕ} 104 104)
    × IsValid ready
    × (ready.state ≡ transmitting)
    × (◌≡◌ {A = ℕ} ready.size 16)
init_handshake_example =
    init_handshake lawful 5 machine answers blank refl 104 query-104 ready second-ready

-- The context over a block of 20 bytes, less than the structure takes.
abbrev cramped : Context
cramped = record ready { size = 2 ^ 64 - 68 }

init-cramped : (init platform (some blank) (some 20) machine).0.context ≡ some cramped
unfolding init
init-cramped = refl

init_wraps_example :
    ((init platform (some blank) (some 20) machine).0.rc ≡ 0)
    × ((transmit platform (some cramped) 4096 (some command) machine).0.0 ≡ 0)
init_wraps_example =
    init_wraps lawful blank 20 machine (omega arith) cramped init-cramped 4096 command (omega arith)
      (omega arith)

abbrev script : List Call
script =
    Call.transmit 12 (some command)
    ∷ Call.transmit 12 (some command)
    ∷ Call.receive (some 4) none block
    ∷ Call.receive (some 4) (some (1 ∷ 1 ∷ 1 ∷ 1 ∷ [])) 0
    ∷ Call.receive (some 4) (some (1 ∷ 1 ∷ 1 ∷ 1 ∷ [])) block
    ∷ Call.finalize
    ∷ Call.transmit 12 (some command)
    ∷ []

run-script :
    (run platform (some ready) script machine).0.0
    ≡ transmitted 0
      ∷ transmitted 0xa0007
      ∷ received 0 (some 16) none
      ∷ received 0xa0002 (some 4) (some (1 ∷ 1 ∷ 1 ∷ 1 ∷ []))
      ∷ received 0 (some 4) (some (0x80 ∷ 0x01 ∷ []))
      ∷ finalized
      ∷ transmitted 0xa0007
      ∷ []
unfolding run step transmit receive finalize Tcg2.get_protocol Tcg2.submit_command
run-script = refl

run-Refines_example :
    Refines platform
      (run platform (some ready) script machine)
      (Spec.run platform (Spec.idle (replicate 16 0)) script 0)
run-Refines_example =
    run-Refines lawful script ready machine (record { valid = ready-IsValid; small = omega arith })
      (omega arith)

run-Alternates_example :
    Alternates transmitting (marks platform (run platform (some ready) script machine).0.0)
run-Alternates_example = run-Alternates lawful script ready machine
