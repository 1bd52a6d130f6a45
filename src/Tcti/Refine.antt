-- ===== src/Tcti/Refine.antt =====
-- A valid context behaves as the session that it shows.
use tpm2_tcti_uefi.Base.{ℕ, ◌≡◌, refl, ◌<◌, ◌^◌, List, [], ◌∷◌, Option, none, some, arith}
use tpm2_tcti_uefi.Platform.{Machine, Platform, IsLawful}
use tpm2_tcti_uefi.Tcg2
use tpm2_tcti_uefi.Tcti.{Context, transmit, receive, finalize, status_rc}
use tpm2_tcti_uefi.Tcti.Valid.{or_else, IsValid, length-overwrite}
use tpm2_tcti_uefi.Tcti.Calls.{Call}
use tpm2_tcti_uefi.Tcti.Spec
use tpm2_tcti_uefi.Tcti.Session.{view, IsProper, AllProper, step, run, Refines}

-- A context that a TCTI client holds: valid, with a buffer below 4 GiB.
pub record IsUsable (c : Context) : Type 0 where
  pub valid : IsValid c
  pub small : c.size < 2 ^ 32

module _ {F : Type 0} {p : Platform F} (lawful : IsLawful p) where
  transmit-Refines :
      (c : Context) (size : ℕ) (command : Option (List ℕ)) (s : Machine F)
      → IsUsable c
      → IsProper (Call.transmit size command)
      → Refines p
          (step p (some c) (Call.transmit size command) s)
          (Spec.step p (view c) (Call.transmit size command) s.firmware)
  unfolding step transmit Spec.step
  transmit-Refines c size none s u proper = record {
    context = c;
    holds = refl;
    valid = u.valid;
    reply = refl;
    shows = refl;
    firmware = refl;
  }
  transmit-Refines c size (some command) s u proper = record {
    context = or_else c (step p (some c) (Call.transmit size (some command)) s).0.1;
    holds = ground arith;
    valid = ground (
      arith,
      lawful.copy_mem_copies c.cmd_buf command size,
      length-overwrite c.cmd_buf command size,
    );
    reply = ground arith;
    shows = ground (arith, lawful.copy_mem_copies c.cmd_buf command size);
    firmware = ground arith;
  }

  receive-Refines :
      (c : Context) (size : Option ℕ) (response : Option (List ℕ)) (timeout : ℕ) (s : Machine F)
      → IsUsable c
      → IsProper (Call.receive size response timeout)
      → Refines p
          (step p (some c) (Call.receive size response timeout) s)
          (Spec.step p (view c) (Call.receive size response timeout) s.firmware)
  unfolding step receive Spec.step Tcg2.get_protocol Tcg2.submit_command status_rc
  receive-Refines c none response timeout s u proper = record {
    context = c;
    holds = refl;
    valid = u.valid;
    reply = refl;
    shows = refl;
    firmware = refl;
  }
  receive-Refines c (some size) none timeout s u proper = record {
    context = or_else c (step p (some c) (Call.receive (some size) none timeout) s).0.1;
    holds = ground arith;
    valid = ground arith;
    reply = ground arith;
    shows = ground arith;
    firmware = ground arith;
  }
  receive-Refines c (some size) (some bytes) timeout s u proper = record {
    context = or_else c (step p (some c) (Call.receive (some size) (some bytes) timeout) s).0.1;
    holds = ground arith;
    valid = ground arith;
    reply = ground arith;
    shows = ground arith;
    firmware = ground arith;
  }

  -- One call of a client, whichever it is, answers as the session does and shows what the session
  -- becomes, with the firmware in the same state.
  pub step-Refines :
      (c : Context) (k : Call) (s : Machine F)
      → IsUsable c
      → IsProper k
      → Refines p (step p (some c) k s) (Spec.step p (view c) k s.firmware)
  unfolding step finalize Spec.step
  step-Refines c (Call.transmit size command) s u proper =
      transmit-Refines c size command s u proper
  step-Refines c (Call.receive size response timeout) s u proper =
      receive-Refines c size response timeout s u proper
  step-Refines c Call.finalize s u proper = record {
    context = or_else c (step p (some c) Call.finalize s).0.1;
    holds = refl;
    valid = ground arith;
    reply = refl;
    shows = ground arith;
    firmware = refl;
  }

  -- No call changes the size that a context records.
  size-step :
      (c : Context) (k : Call) (s : Machine F) (d : Context)
      → (step p (some c) k s).0.1 ≡ some d
      → d.size ≡ c.size
  unfolding step transmit receive finalize Tcg2.get_protocol Tcg2.submit_command
  size-step c (Call.transmit size none) s d e = ground arith
  size-step c (Call.transmit size (some command)) s d e = ground arith
  size-step c (Call.receive none response timeout) s d e = ground arith
  size-step c (Call.receive (some size) none timeout) s d e = ground arith
  size-step c (Call.receive (some size) (some bytes) timeout) s d e = ground arith
  size-step c Call.finalize s d e = ground arith

  step-IsUsable :
      (c : Context) (k : Call) (s : Machine F)
      (r : Refines p (step p (some c) k s) (Spec.step p (view c) k s.firmware))
      → IsUsable c
      → IsUsable r.context
  step-IsUsable c k s r u = record {
    valid = r.valid;
    small = ground (arith, size-step c k s r.context r.holds);
  }

  -- No sequence of calls tells a valid context with a buffer below 4 GiB from its session, if each
  -- command is as long as the call says and each response size is below 4 GiB: the replies are
  -- those of the session, the context stays valid and shows the session's end, and the firmware
  -- ends alike.
  pub run-Refines :
      (ks : List Call) (c : Context) (s : Machine F)
      → IsUsable c
      → AllProper ks
      → Refines p (run p (some c) ks s) (Spec.run p (view c) ks s.firmware)
  unfolding run Spec.run
  run-Refines [] c s u proper = record {
    context = c;
    holds = refl;
    valid = u.valid;
    reply = refl;
    shows = refl;
    firmware = refl;
  }
  run-Refines (k ∷ ks) c s u proper =
      let first = step-Refines c k s u proper.0 in
      let rest =
        run-Refines ks first.context (step p (some c) k s).1 (step-IsUsable c k s first u)
          proper.1 in
      record {
        context = rest.context;
        holds = rw first.holds rest.holds;
        valid = rest.valid;
        reply = rw first.holds (cc (first.reply, rest.reply, first.shows, first.firmware));
        shows = (cc (rest.shows, first.shows, first.firmware));
        firmware = rw first.holds (cc (rest.firmware, first.shows, first.firmware));
      }
