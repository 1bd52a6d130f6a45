-- ===== src/Tcti/Session.antt =====
-- A sequence of calls on one context, and its refinement of the session of `Spec`.
use tpm2_tcti_uefi.Base.{ℕ, ◌≡◌, ◌<◌, ◌≤◌, ◌^◌, List, [], ◌∷◌, length, Option, none, some}
use tpm2_tcti_uefi.Platform.{Machine, M, pure, ◌>>=◌, Platform}
use tpm2_tcti_uefi.Tcti.{
  Context, State, final, receiving, transmitting, transmit, receive, finalize,
}
use tpm2_tcti_uefi.Tcti.Valid.{IsValid}
use tpm2_tcti_uefi.Tcti.Calls.{Call, Reply, transmitted, received, finalized}
use tpm2_tcti_uefi.Tcti.Spec.{Session, idle, pending, closed}

abbrev view_as : State → List ℕ → Session
view_as final block = closed block
view_as receiving block = pending block
view_as transmitting block = idle block

-- What a context is to its client.
abbrev pub view : Context → Session
view c = view_as c.state c.cmd_buf

-- The memory that a call hands over: `command` has the bytes that `size` says, and a response
-- buffer is smaller than 4 GiB.
abbrev pub IsProper : Call → Type 0
IsProper (Call.transmit size none) = Unit
IsProper (Call.transmit size (some command)) = size ≤ length command
IsProper (Call.receive none response timeout) = Unit
IsProper (Call.receive (some size) response timeout) = size < 2 ^ 32
IsProper Call.finalize = Unit

abbrev pub AllProper : List Call → Type 0
AllProper [] = Unit
AllProper (k ∷ ks) = IsProper k × AllProper ks

module _ {F : Type 0} (p : Platform F) where
  -- One call through the pointer to a context.
  unfoldable pub step : Option Context → Call → M F (Reply × Option Context)
  step c (Call.transmit size command) = do
    (rc, d) ← transmit p c size command
    pure (transmitted rc, d)
  step c (Call.receive size response timeout) = do
    r ← receive p c size response timeout
    pure (received r.rc r.size r.response, r.context)
  step c Call.finalize = do d ← finalize p c; pure (finalized, d)

  unfoldable pub run : Option Context → List Call → M F (List Reply × Option Context)
  run c [] = pure ([], c)
  run c (k ∷ ks) = do (r, d) ← step c k; (rs, e) ← run d ks; pure (r ∷ rs, e)

  -- A result of the code seen as a result of the session.
  pub record Refines {R : Type 0} (result : (R × Option Context) × Machine F)
      (spec : R × Session × F) : Type 0 where
    pub context : Context
    pub holds : result.0.1 ≡ some context
    pub valid : IsValid context
    pub reply : result.0.0 ≡ spec.0
    pub shows : view context ≡ spec.1
    pub firmware : result.1.firmware ≡ spec.2
