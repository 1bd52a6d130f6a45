-- ===== src/Tcti/Transmit.antt =====
-- `tcti_uefi_transmit`: when it accepts a command, and what it does with it.
use tpm2_tcti_uefi.Base.{
  ℕ, ◌≡◌, ◌≢◌, ◌↔◌, true, ◌≤◌, ◌<◌, List, ◌++◌, length, take, drop, Option, none, some, arith,
}
use tpm2_tcti_uefi.Platform.{Machine, Platform, IsLawful}
use tpm2_tcti_uefi.Tcti.{Context, receiving, transmitting, has_cast, header_size, transmit}
use tpm2_tcti_uefi.Tcti.Valid.{IsValid}

-- When a command is taken.
pub record Accepts (c : Context) (size : ℕ) : Type 0 where
  pub cast : has_cast c ≡ true
  pub turn : c.state ≡ transmitting
  pub longer_than_header : header_size < size
  pub fits : size ≤ c.size

module _ {F : Type 0} {p : Platform F} (lawful : IsLawful p) where
  -- `tcti_uefi_transmit` returns TSS2_RC_SUCCESS exactly on a context of this implementation that
  -- is in the TRANSMIT state, for a command longer than a TPM header that fits the buffer.
  pub transmit-success_iff :
      (c : Context) (size : ℕ) (command : List ℕ) (s : Machine F)
      → ((transmit p (some c) size (some command) s).0.0 ≡ p.rc_success) ↔ Accepts c size
  unfolding transmit
  transmit-success_iff c size command s = (
    λ e.
        ground (arith, lawful.bad_context_fails, lawful.bad_sequence_fails, lawful.bad_value_fails),
    λ a. ground arith,
  )

  -- A taken command, as long as the call says, is the front of the buffer of a valid context
  -- afterwards; the bytes behind it
  -- stay, the context waits for the exchange, and the machine is not touched.
  pub transmit_accepted :
      (c : Context) (size : ℕ) (command : List ℕ) (s : Machine F)
      → IsValid c
      → size ≤ length command
      → Accepts c size
      → transmit p (some c) size (some command) s ≡ (
        (
          p.rc_success,
          some (record c { cmd_buf = take size command ++ drop size c.cmd_buf; state = receiving }),
        ),
        s,
      )
  unfolding transmit
  transmit_accepted c size command s v enough a =
      ground (arith, lawful.copy_mem_copies c.cmd_buf command size)

  -- A call that does not return TSS2_RC_SUCCESS leaves the context as it was and makes no call of
  -- the firmware, whatever pointers it is given.
  pub transmit_refused :
      (c : Option Context) (size : ℕ) (command : Option (List ℕ)) (s : Machine F)
      → (transmit p c size command s).0.0 ≢ p.rc_success
      → ((transmit p c size command s).0.1 ≡ c)
        × ((transmit p c size command s).1.firmware ≡ s.firmware)
  unfolding transmit
  transmit_refused none size command s h = ground arith
  transmit_refused (some c) size none s h = ground arith
  transmit_refused (some c) size (some command) s h = ground arith
