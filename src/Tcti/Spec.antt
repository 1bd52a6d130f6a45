-- ===== src/Tcti/Spec.antt =====
-- The contract of the TCTI as a session: one command at a time is stored and then exchanged. A
-- session is closed, idle, or has a command pending, and holds the bytes of its buffer. It knows of
-- no magic number, no entry points and no separate size, and prints nothing.
use tpm2_tcti_uefi.Base.{
  ℕ, List, [], ◌∷◌, ◌++◌, length, take, drop, Option, none, some, ltb, leb, ◌||◌, ◌==◌,
  if◌then◌else◌,
}
use tpm2_tcti_uefi.Platform.{Platform}
use tpm2_tcti_uefi.Tcti.{header_size}
use tpm2_tcti_uefi.Tcti.Receive.{located, answered, failure_codes, code_of}
use tpm2_tcti_uefi.Tcti.Calls.{Call, Reply, transmitted, received, finalized}

pub data Session : Type 0 where
  idle : List ℕ → Session
  pending : List ℕ → Session
  closed : List ℕ → Session

abbrev pub buffer : Session → List ℕ
buffer (idle block) = block
buffer (pending block) = block
buffer (closed block) = block

module _ {F : Type 0} (p : Platform F) where
  -- A command that does not fit, or has no body behind its header, is refused.
  unfoldable pub store : Session → ℕ → List ℕ → Reply × Session
  store (idle block) size command =
      if ltb (length block) size || leb size header_size
      then (transmitted p.rc_bad_value, idle block)
      else (transmitted p.rc_success, pending (take size command ++ drop size block))
  store (pending block) size command = (transmitted p.rc_bad_sequence, pending block)
  store (closed block) size command = (transmitted p.rc_bad_sequence, closed block)

  -- The exchange of the pending block. Only its success ends the pending state.
  unfoldable pub exchange : List ℕ → ℕ → List ℕ → F → Reply × Session × F
  exchange block size bytes g =
      let (status, response, h) = answered p block (length block) size bytes g in
      if p.efi_error (located p g).0
      then (received p.rc_general_failure (some size) (some bytes), pending block, (located p g).2)
      else if status == p.efi_success
      then (received p.rc_success (some size) (some response), idle block, h)
      else (
        received (code_of p (failure_codes p) status) (some size) (some response),
        pending block,
        h,
      )

  unfoldable pub collect : Session → ℕ → Option (List ℕ) → F → Reply × Session × F
  unfolding exchange
  collect (pending block) size none g =
      (received p.rc_success (some (length block)) none, pending block, g)
  collect (pending block) size (some bytes) g = exchange block size bytes g
  collect (idle block) size response g =
      (received p.rc_bad_sequence (some size) response, idle block, g)
  collect (closed block) size response g =
      (received p.rc_bad_sequence (some size) response, closed block, g)

  unfoldable pub step : Session → Call → F → Reply × Session × F
  unfolding store collect
  step a (Call.transmit size none) g = (transmitted p.rc_bad_reference, a, g)
  step a (Call.transmit size (some command)) g = let (r, b) = store a size command in (r, b, g)
  step a (Call.receive none response timeout) g = (received p.rc_bad_reference none response, a, g)
  step a (Call.receive (some size) response timeout) g =
      if timeout == p.timeout_block
      then collect a size response g
      else (received p.rc_not_implemented (some size) response, a, g)
  step a Call.finalize g = (finalized, closed (buffer a), g)

  unfoldable pub run : Session → List Call → F → List Reply × Session × F
  run a [] g = ([], a, g)
  run a (k ∷ ks) g = let (r, b, h) = step a k g in let (rs, c, i) = run b ks h in (r ∷ rs, c, i)
