-- ===== src/Tcti/Protocol.antt =====
-- The order that the states of a context impose on its client: a command is stored, then it is
-- answered, then the next one is stored; after `tcti_uefi_finalize` there is neither.
use tpm2_tcti_uefi.Base.{◌≡◌, refl, List, [], ◌∷◌, ◌++◌, none, some, arith, ◌==◌, if◌then◌else◌}
use tpm2_tcti_uefi.Platform.{Machine, Platform, IsLawful}
use tpm2_tcti_uefi.Tcg2
use tpm2_tcti_uefi.Tcti.{
  Context, State, final, receiving, transmitting, transmit, receive, finalize, status_rc, has_cast,
}
use tpm2_tcti_uefi.Tcti.Valid.{or_else}
use tpm2_tcti_uefi.Tcti.Calls.{Call, Reply, transmitted, received, finalized}
use tpm2_tcti_uefi.Tcti.Session.{step, run}

-- What a reply says was done.
pub data Mark : Type 0 where
  stored : Mark
  answered : Mark
  ended : Mark

-- From a state, the marks that may follow: `tcti_uefi_finalize` may come at any time, and then there
-- is nothing but that.
abbrev pub Alternates : State → List Mark → Type 0
Alternates st [] = Unit
Alternates transmitting (ended ∷ ms) = Alternates final ms
Alternates receiving (ended ∷ ms) = Alternates final ms
Alternates final (ended ∷ ms) = Alternates final ms
Alternates transmitting (stored ∷ ms) = Alternates receiving ms
Alternates receiving (answered ∷ ms) = Alternates transmitting ms
Alternates _ (m ∷ ms) = ⊥

module _ {F : Type 0} (p : Platform F) where
  abbrev pub mark : Reply → List Mark
  mark (transmitted rc) = if rc == p.rc_success then stored ∷ [] else []
  mark (received rc size none) = []
  mark (received rc size (some bytes)) = if rc == p.rc_success then answered ∷ [] else []
  mark finalized = ended ∷ []

  abbrev pub marks : List Reply → List Mark
  marks [] = []
  marks (r ∷ rs) = mark r ++ marks rs

-- The state that a client finds: one that is no context of this implementation takes no command and
-- has no response, as if it had been finalized.
abbrev pub phase : Context → State
phase c = if has_cast c then c.state else final

Alternates-ended : (st : State) (ms : List Mark) → Alternates final ms → Alternates st (ended ∷ ms)
Alternates-ended transmitting ms h = h
Alternates-ended receiving ms h = h
Alternates-ended final ms h = h

module _ {F : Type 0} {p : Platform F} (lawful : IsLawful p) where
  -- The pointer that a call is given is the pointer that it leaves.
  step-some :
      (c : Context) (k : Call) (s : Machine F)
      → (d : Context) × ((step p (some c) k s).0.1 ≡ some d)
  unfolding step transmit receive finalize Tcg2.get_protocol Tcg2.submit_command
  step-some c (Call.transmit size none) s = (c, refl)
  step-some c (Call.transmit size (some command)) s =
      (or_else c (step p (some c) (Call.transmit size (some command)) s).0.1, ground arith)
  step-some c (Call.receive none response timeout) s = (c, refl)
  step-some c (Call.receive (some size) none timeout) s =
      (or_else c (step p (some c) (Call.receive (some size) none timeout) s).0.1, ground arith)
  step-some c (Call.receive (some size) (some bytes) timeout) s = (
    or_else c (step p (some c) (Call.receive (some size) (some bytes) timeout) s).0.1,
    ground arith,
  )
  step-some c Call.finalize s = (or_else c (step p (some c) Call.finalize s).0.1, refl)

  step-Alternates :
      (c : Context) (k : Call) (s : Machine F) (d : Context) (ms : List Mark)
      → (step p (some c) k s).0.1 ≡ some d
      → Alternates (phase d) ms
      → Alternates (phase c) (mark p (step p (some c) k s).0.0 ++ ms)
  unfolding step transmit receive finalize Tcg2.get_protocol Tcg2.submit_command status_rc
  step-Alternates c (Call.transmit size none) s d ms e h = ground (
    arith, lawful.general_failure_fails, lawful.not_implemented_fails, lawful.bad_context_fails,
    lawful.bad_reference_fails, lawful.bad_sequence_fails, lawful.bad_value_fails,
    lawful.insufficient_buffer_fails, lawful.io_error_fails,
  )
  step-Alternates c (Call.transmit size (some command)) s d ms e h = ground (
    arith, lawful.general_failure_fails, lawful.not_implemented_fails, lawful.bad_context_fails,
    lawful.bad_reference_fails, lawful.bad_sequence_fails, lawful.bad_value_fails,
    lawful.insufficient_buffer_fails, lawful.io_error_fails,
  )
  step-Alternates c (Call.receive none response timeout) s d ms e h = ground (
    arith, lawful.general_failure_fails, lawful.not_implemented_fails, lawful.bad_context_fails,
    lawful.bad_reference_fails, lawful.bad_sequence_fails, lawful.bad_value_fails,
    lawful.insufficient_buffer_fails, lawful.io_error_fails,
  )
  step-Alternates c (Call.receive (some size) none timeout) s d ms e h = ground (
    arith, lawful.general_failure_fails, lawful.not_implemented_fails, lawful.bad_context_fails,
    lawful.bad_reference_fails, lawful.bad_sequence_fails, lawful.bad_value_fails,
    lawful.insufficient_buffer_fails, lawful.io_error_fails,
  )
  step-Alternates c (Call.receive (some size) (some bytes) timeout) s d ms e h = ground (
    arith, lawful.general_failure_fails, lawful.not_implemented_fails, lawful.bad_context_fails,
    lawful.bad_reference_fails, lawful.bad_sequence_fails, lawful.bad_value_fails,
    lawful.insufficient_buffer_fails, lawful.io_error_fails,
  )
  step-Alternates c Call.finalize s d ms e h =
      let shut : phase d ≡ final = ground arith in Alternates-ended (phase c) ms (rw shut at h)

  -- Whatever a client calls, with whatever arguments, on a context in whatever state: a command is
  -- stored only when none is pending, a response is given only to a pending one, and after a call of
  -- `tcti_uefi_finalize` no command is stored and no response is given. If the context does not have
  -- the magic and the version of this implementation, neither is ever the case.
  pub run-Alternates :
      (ks : List Call) (c : Context) (s : Machine F)
      → Alternates (phase c) (marks p (run p (some c) ks s).0.0)
  unfolding run
  run-Alternates [] c s = tt
  run-Alternates (k ∷ ks) c s =
      let (d, e) = step-some c k s in
      step-Alternates c k s d _ e (rw e (run-Alternates ks d (step p (some c) k s).1))
