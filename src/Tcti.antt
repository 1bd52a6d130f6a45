-- ===== src/Tcti.antt =====
-- src/tcti-uefi.h and src/tcti-uefi.c: the TCTI context and its operations. A pointer argument is
-- an `Option`, with `none` for NULL; an operation that writes through pointers returns what they
-- then point to. `size_t` has 64 bits, as on x86_64 and aarch64.
pub mod Valid
pub mod Transmit
pub mod Receive
pub mod Init
pub mod Calls
pub mod Spec
pub mod Session
pub mod Protocol
pub mod Refine
mod Examples
use tpm2_tcti_uefi.Base.{
  ℕ, ◌+◌, ◌-◌, ◌%◌, ◌^◌, Bool, true, false, ◌&&◌, ◌||◌, Option, none, some, List, [], ◌∷◌, ltb, leb,
  ◌==◌, if◌then◌else◌,
}
use tpm2_tcti_uefi.Platform.{print, M, pure, ◌>>=◌, ◌>>◌, emit, Platform}
use tpm2_tcti_uefi.Tcg2

abbrev pub header_size : ℕ
header_size = 10

abbrev pub uefi_magic : ℕ
uefi_magic = 0x3a2e16965be011f2

abbrev pub uefi_version : ℕ
uefi_version = 2

-- tcti_uefi_state_t
pub data State : Type 0 where
  final : State
  receiving : State
  transmitting : State

abbrev pub is_receiving : State → Bool
is_receiving receiving = true
is_receiving _ = false

abbrev pub is_transmitting : State → Bool
is_transmitting transmitting = true
is_transmitting _ = false

-- A function pointer of the common part: NULL, a function of this file, or any other address.
pub data Entry : Type 0 where
  null : Entry
  uefi_transmit : Entry
  uefi_receive : Entry
  uefi_finalize : Entry
  other : ℕ → Entry

-- TSS2_TCTI_UEFI_CONTEXT. `cmd_buf` holds the bytes that lie behind the structure in its block of
-- memory; `size` is what the context believes their number to be.
pub record Context : Type 0 where
  pub magic : ℕ
  pub version : ℕ
  pub transmit_entry : Entry
  pub receive_entry : Entry
  pub finalize_entry : Entry
  pub cancel_entry : Entry
  pub get_poll_handles_entry : Entry
  pub set_locality_entry : Entry
  pub make_sticky_entry : Entry
  pub state : State
  pub size : ℕ
  pub cmd_buf : List ℕ

-- `tcti_uefi_context_cast` of a context that is not NULL: whether it returns it.
abbrev pub has_cast : Context → Bool
has_cast c = c.magic == uefi_magic && c.version == uefi_version

unfoldable pub context_cast : Option Context → Option Context
context_cast none = none
context_cast (some c) = if has_cast c then some c else none

-- What a call of `tcti_uefi_receive` returns and leaves behind its pointers.
pub record Received : Type 0 where
  pub rc : ℕ
  pub context : Option Context
  pub size : Option ℕ
  pub response : Option (List ℕ)

-- What a call of `Tss2_Tcti_Uefi_Init` returns and leaves behind its pointers.
pub record Initialised : Type 0 where
  pub rc : ℕ
  pub context : Option Context
  pub size : Option ℕ

module _ {F : Type 0} (p : Platform F) where
  -- `tcti_uefi_transmit` behind the checks for NULL.
  transmit_to : Context → ℕ → List ℕ → M F (ℕ × Context)
  transmit_to c size command =
      if has_cast c
      then (if is_transmitting c.state
          then (if ltb c.size size || leb size header_size
              then pure (p.rc_bad_value, c)
              else pure (
                p.rc_success,
                record c { cmd_buf = p.copy_mem c.cmd_buf command size; state = receiving },
              ))
          else pure (p.rc_bad_sequence, c))
      else (do
        emit (print "upcast to TSS2_TCTI_UEFI_CONTEXT failed\n" [])
        pure (p.rc_bad_context, c))

  unfoldable pub transmit : Option Context → ℕ → Option (List ℕ) → M F (ℕ × Option Context)
  unfolding transmit_to
  transmit none size command = pure (p.rc_bad_reference, none)
  transmit (some c) size none = pure (p.rc_bad_reference, some c)
  transmit (some c) size (some command) = do
    (rc, c') ← transmit_to c size command
    pure (rc, some c')

  -- The `switch` over the status of the command, each case with its message.
  unfoldable pub status_rc : ℕ → M F ℕ
  status_rc status =
      if status == p.efi_invalid_parameter
      then (do emit (print "EFI_INVALID_PARAMTER\n" []); pure p.rc_bad_value)
      else if status == p.efi_buffer_too_small
      then (do emit (print "EFI_BUFFER_TOO_SMALL\n" []); pure p.rc_insufficient_buffer)
      else if status == p.efi_device_error
      then (do emit (print "EFI_DEVICE_ERROR\n" []); pure p.rc_io_error)
      else if status == p.efi_access_denied
      then (do emit (print "EFI_ACCESS_DENIED\n" []); pure p.rc_general_failure)
      else (do emit (print "Unexpected EFI error code\n" []); pure p.rc_general_failure)

  -- `tcti_uefi_receive` from the look-up of the protocol on. The sizes are converted to UINT32 by
  -- the call of `tcg2_submit_command`.
  submit : Context → ℕ → List ℕ → M F Received
  submit c size response = do
    (located, protocol) ← Tcg2.get_protocol p p.uninitialised
    if p.efi_error located
        then pure (record {
          rc = p.rc_general_failure;
          context = some c;
          size = some size;
          response = some response;
        })
        else (do
          (status, bytes) ←
              Tcg2.submit_command p protocol (c.size % 2 ^ 32) c.cmd_buf (size % 2 ^ 32) response
          if status == p.efi_success
              then pure (record {
                rc = p.rc_success;
                context = some (record c { state = transmitting });
                size = some size;
                response = some bytes;
              })
              else (do
                rc ← status_rc status
                pure (record {
                  rc = rc;
                  context = some c;
                  size = some size;
                  response = some bytes;
                })))

  -- `tcti_uefi_receive` behind the checks for NULL. A `timeout` is an int32_t bit pattern.
  receive_from : Context → ℕ → Option (List ℕ) → ℕ → M F Received
  unfolding submit
  receive_from c size response timeout =
      if timeout == p.timeout_block
      then (if has_cast c
          then (if is_receiving c.state
              then elim response [
                | none ↦ pure (record {
                  rc = p.rc_success;
                  context = some c;
                  size = some c.size;
                  response = none;
                })
                | some bytes ↦ submit c size bytes
              ]
              else pure (record {
                rc = p.rc_bad_sequence;
                context = some c;
                size = some size;
                response = response;
              }))
          else pure (record {
            rc = p.rc_bad_context;
            context = some c;
            size = some size;
            response = response;
          }))
      else pure (record {
        rc = p.rc_not_implemented;
        context = some c;
        size = some size;
        response = response;
      })

  unfoldable pub receive : Option Context → Option ℕ → Option (List ℕ) → ℕ → M F Received
  unfolding receive_from
  receive none size response timeout =
      pure (record { rc = p.rc_bad_reference; context = none; size = size; response = response })
  receive (some c) none response timeout =
      pure (record { rc = p.rc_bad_reference; context = some c; size = none; response = response })
  receive (some c) (some size) response timeout = receive_from c size response timeout

  unfoldable pub finalize : Option Context → M F (Option Context)
  finalize none = do emit (print "Invalid parameter" []); pure none
  finalize (some c) = pure (some (if has_cast c then record c { state = final } else c))

  unfoldable pub sizeof_tcti_context : M F ℕ
  sizeof_tcti_context = do
    (status, protocol) ← Tcg2.get_protocol p p.uninitialised
    if p.efi_error status then pure 0 else (do
      max_buf ← Tcg2.get_max_buf p protocol
      pure (if max_buf == 0 then 0 else (max_buf + p.sizeof_context) % 2 ^ 64))

  -- What `Tss2_Tcti_Uefi_Init` makes of the memory that it is given.
  unfoldable pub initialise : Context → ℕ → Context
  initialise c size = record c {
    magic = uefi_magic;
    version = uefi_version;
    transmit_entry = uefi_transmit;
    receive_entry = uefi_receive;
    finalize_entry = uefi_finalize;
    cancel_entry = null;
    get_poll_handles_entry = null;
    set_locality_entry = null;
    make_sticky_entry = null;
    state = transmitting;
    size = (size + 2 ^ 64 - p.sizeof_context) % 2 ^ 64;
  }

  -- `Tss2_Tcti_Uefi_Init`; its third parameter `conf` is not used.
  unfoldable pub init : Option Context → Option ℕ → M F Initialised
  unfolding initialise
  init context none = pure (record { rc = p.rc_bad_value; context = context; size = none })
  init none (some size) = do
    needed ← sizeof_tcti_context
    pure (record {
      rc = if needed == 0 then p.rc_general_failure else p.rc_success;
      context = none;
      size = some needed;
    })
  init (some c) (some size) =
      pure (record { rc = p.rc_success; context = some (initialise c size); size = some size })
