-- ===== src/Tcti/Calls.antt =====
-- What a client can ask of a TCTI context, and what it sees of each call.
use tpm2_tcti_uefi.Base.{ℕ, Option, List}

pub data Call : Type 0 where
  transmit : ℕ → Option (List ℕ) → Call
  receive : Option ℕ → Option (List ℕ) → ℕ → Call
  finalize : Call

pub data Reply : Type 0 where
  transmitted : ℕ → Reply
  received : ℕ → Option ℕ → Option (List ℕ) → Reply
  finalized : Reply
