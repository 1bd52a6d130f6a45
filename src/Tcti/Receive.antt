-- ===== src/Tcti/Receive.antt =====
-- `tcti_uefi_receive`: the exchange with the TPM, the size query, and the refusals.
use tpm2_tcti_uefi.Base.{
  ℕ, ◌≡◌, ◌≢◌, ◌↔◌, true, false, ◌<◌, ◌%◌, ◌^◌, List, [], ◌∷◌, Option, none, some, arith, ◌==◌,
  if◌then◌else◌,
}
use tpm2_tcti_uefi.Platform.{Machine, Platform, IsLawful}
use tpm2_tcti_uefi.Tcg2
use tpm2_tcti_uefi.Tcg2.{tcg2_protocol_guid}
use tpm2_tcti_uefi.Tcti.{Context, receiving, transmitting, has_cast, receive, status_rc}

module _ {F : Type 0} (p : Platform F) where
  -- What LibLocateProtocol answers: status, address, and the firmware after it.
  abbrev pub located : F → ℕ × ℕ × F
  located g = p.locate_protocol tcg2_protocol_guid g

  -- What SubmitCommand answers to the `size` bytes of `block`: status, response bytes, firmware.
  abbrev pub answered : List ℕ → ℕ → ℕ → List ℕ → F → ℕ × List ℕ × F
  answered block size room response g =
      p.submit_command (located g).1 size block room response (located g).2

  -- The failures of SubmitCommand that have a code of their own.
  abbrev pub failure_codes : List (ℕ × ℕ)
  failure_codes =
      (p.efi_invalid_parameter, p.rc_bad_value)
      ∷ (p.efi_buffer_too_small, p.rc_insufficient_buffer)
      ∷ (p.efi_device_error, p.rc_io_error)
      ∷ []

  abbrev pub code_of : List (ℕ × ℕ) → ℕ → ℕ
  code_of [] status = p.rc_general_failure
  code_of ((st, rc) ∷ rest) status = if status == st then rc else code_of rest status

  -- A call that reaches the exchange, or the size query.
  pub record Reaches (c : Context) (timeout : ℕ) : Type 0 where
    pub blocking : timeout ≡ p.timeout_block
    pub cast : has_cast c ≡ true
    pub turn : c.state ≡ receiving

  -- What the firmware has to do for a call that reaches the exchange to succeed.
  abbrev pub Completes : Context → ℕ → Option (List ℕ) → F → Type 0
  Completes c size none g = Unit
  Completes c size (some bytes) g =
      (p.efi_error (located g).0 ≡ false)
      × ((answered c.cmd_buf (c.size % 2 ^ 32) (size % 2 ^ 32) bytes g).0 ≡ p.efi_success)

module _ {F : Type 0} {p : Platform F} (lawful : IsLawful p) where
  -- In the RECEIVE state a blocking call hands the whole buffer to the TPM, where both sizes are
  -- below 4 GiB: if the protocol is
  -- found and the command succeeds, the response is what the firmware wrote, the size stays what
  -- the caller passed, and the context is ready to transmit again. Nothing is printed.
  pub receive_exchange :
      (c : Context) (size timeout : ℕ) (response : List ℕ) (s : Machine F)
      → Reaches p c timeout
      → c.size < 2 ^ 32
      → size < 2 ^ 32
      → p.efi_error (located p s.firmware).0 ≡ false
      → (answered p c.cmd_buf c.size size response s.firmware).0 ≡ p.efi_success
      → receive p (some c) (some size) (some response) timeout s ≡ (
        record {
          rc = p.rc_success;
          context = some (record c { state = transmitting });
          size = some size;
          response = some (answered p c.cmd_buf c.size size response s.firmware).1;
        },
        record s { firmware = (answered p c.cmd_buf c.size size response s.firmware).2 },
      )
  unfolding receive Tcg2.get_protocol Tcg2.submit_command
  receive_exchange c size timeout response s r hc hs found done =
      ground (arith, lawful.success_no_error)

  -- With no response buffer a call that reaches the exchange reports the size of the buffer and
  -- changes neither the context nor the machine.
  pub receive_query :
      (c : Context) (size timeout : ℕ) (s : Machine F)
      → Reaches p c timeout
      → receive p (some c) (some size) none timeout s
        ≡ (record { rc = p.rc_success; context = some c; size = some c.size; response = none }, s)
  unfolding receive
  receive_query c size timeout s r = ground arith

  -- A call returns TSS2_RC_SUCCESS exactly if it reaches the exchange and either has no response
  -- buffer, or the protocol is found and the firmware reports EFI_SUCCESS for the command.
  pub receive-success_iff :
      (c : Context) (size timeout : ℕ) (response : Option (List ℕ)) (s : Machine F)
      → ((receive p (some c) (some size) response timeout s).0.rc ≡ p.rc_success)
        ↔ (Reaches p c timeout × Completes p c size response s.firmware)
  unfolding receive Tcg2.get_protocol Tcg2.submit_command status_rc
  receive-success_iff c size timeout none s = (
    λ e.
        ground (
          arith, lawful.not_implemented_fails, lawful.bad_context_fails, lawful.bad_sequence_fails,
        ),
    λ h. ground arith,
  )
  receive-success_iff c size timeout (some bytes) s = (
    λ e. ground (
      arith, lawful.not_implemented_fails, lawful.bad_context_fails, lawful.bad_sequence_fails,
      lawful.bad_value_fails, lawful.insufficient_buffer_fails, lawful.io_error_fails,
      lawful.general_failure_fails,
    ),
    λ h. ground arith,
  )

  -- A call that does not return TSS2_RC_SUCCESS leaves the context and the size as they were, so a
  -- failed exchange can be tried again.
  pub receive_refused :
      (c : Option Context) (size : Option ℕ) (response : Option (List ℕ)) (timeout : ℕ)
      (s : Machine F)
      → (receive p c size response timeout s).0.rc ≢ p.rc_success
      → ((receive p c size response timeout s).0.context ≡ c)
        × ((receive p c size response timeout s).0.size ≡ size)
  unfolding receive Tcg2.get_protocol Tcg2.submit_command
  receive_refused none size response timeout s h = ground arith
  receive_refused (some c) none response timeout s h = ground arith
  receive_refused (some c) (some size) response timeout s h = ground arith

  -- A command that the firmware does not carry out, in a call that reaches the exchange and finds
  -- the protocol, is reported by the code of its status: EFI_INVALID_PARAMETER,
  -- EFI_BUFFER_TOO_SMALL and EFI_DEVICE_ERROR have one each, and every other status is a general
  -- failure.
  pub receive_failure_code :
      (c : Context) (size timeout : ℕ) (bytes : List ℕ) (s : Machine F)
      → Reaches p c timeout
      → p.efi_error (located p s.firmware).0 ≡ false
      → (status : ℕ)
      → status ≡ (answered p c.cmd_buf (c.size % 2 ^ 32) (size % 2 ^ 32) bytes s.firmware).0
      → status ≢ p.efi_success
      → (receive p (some c) (some size) (some bytes) timeout s).0.rc
        ≡ code_of p (failure_codes p) status
  unfolding receive Tcg2.get_protocol Tcg2.submit_command status_rc
  receive_failure_code c size timeout bytes s r found status e fails = ground arith
