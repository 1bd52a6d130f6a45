-- ===== src/Tss2/Call.antt =====
-- A command of the system API on a SAPI context by its address.
use tpm2_tcti_uefi.Base.{ℕ, ◌∷◌, Option, none, some, refl, ◌∙◌}
use tpm2_tcti_uefi.Platform.{Machine, Platform}
use tpm2_tcti_uefi.Tcti.{Context}
use tpm2_tcti_uefi.Pool.{Content, tcti, sapi, Blocks, World, returned, undefined, find, put, Act}
use tpm2_tcti_uefi.Pool.Laws.{Returns, Returns-mono, find-here, find-there, put-here, put-there}
use tpm2_tcti_uefi.Tss2.External.{Library}
use tpm2_tcti_uefi.Tss2.Commands.{Service, Keeps}
use tpm2_tcti_uefi.Tss2.Ready.{IsReady}

module _ {F S : Type 0} (l : Library F S) {A : Type 0} where
  -- The command on the two contexts, once they are found.
  on_both : ℕ → ℕ → Service F S A → S → Option (Content S) → Act F S (ℕ × A)
  on_both sys over f x none w = undefined
  on_both sys over f x (some (sapi y)) w = undefined
  on_both sys over f x (some (tcti c)) w =
      let ((rc, a, x', c'), s) = f x c w.machine in
      returned
        ((rc, a), record { machine = s; blocks = put over (tcti c') (put sys (sapi x') w.blocks) })

  on_sapi : ℕ → Service F S A → Option (Content S) → Act F S (ℕ × A)
  unfolding on_both
  on_sapi sys f none w = undefined
  on_sapi sys f (some (tcti c)) w = undefined
  on_sapi sys f (some (sapi x)) w =
      let over = (l.sys_get_tcti_context x 0).1 in on_both sys over f x (find over w.blocks) w

  -- A call with the pointer `sys`.
  unfoldable pub call : ℕ → Service F S A → Act F S (ℕ × A)
  unfolding on_sapi
  call sys f w = on_sapi sys f (find sys w.blocks) w

module _ {F S : Type 0} (p : Platform F) (l : Library F S) {A : Type 0} where
  -- A command on a ready SAPI context comes back, leaves it ready, and answers as promised.
  pub call-answers :
      (Q : ℕ → A → Type 0) (blocks : Blocks S) (sys : ℕ) (f : Service F S A) (w : World F S)
      → IsReady p l blocks sys w.blocks
      → Keeps l f
      → ((x : S) (c : Context) (s : Machine F) → Q (f x c s).0.0 (f x c s).0.1)
      → Returns (λ r. IsReady p l blocks sys r.1.blocks × Q r.0.0 r.0.1) (call l sys f w)
  unfolding call on_sapi on_both
  call-answers Q blocks sys f w ready keeps promise =
      let x = ready.system in
      let c = ready.context in
      let over = ready.over in
      let r = f x c w.machine in
      let kept = keeps x c w.machine in
      let after : IsReady p l blocks sys ((sys, sapi r.0.2) ∷ (over, tcti r.0.3) ∷ blocks) =
        record {
          over = over;
          system = r.0.2;
          context = r.0.3;
          holds = refl;
          sys_not_null = ready.sys_not_null;
          over_not_null = ready.over_not_null;
          apart = ready.apart;
          knows = λ old. kept.0 old ∙ ready.knows old;
          ends = kept.1 ∙ ready.ends;
        } in
      rw
        (
          call,
          ready.holds,
          find-here sys (sapi x),
          ready.knows 0,
          find-there sys (sapi x) _ over ready.apart,
          find-here over (tcti c),
          put-here sys (sapi x),
          put-there sys (sapi r.0.2) _ over ready.apart,
          put-here over (tcti c),
        )
        (after, promise x c w.machine)

  pub call-IsReady :
      (blocks : Blocks S) (sys : ℕ) (f : Service F S A) (w : World F S)
      → IsReady p l blocks sys w.blocks
      → Keeps l f
      → Returns (λ r. IsReady p l blocks sys r.1.blocks) (call l sys f w)
  call-IsReady blocks sys f w ready keeps =
      Returns-mono _ (λ r. IsReady p l blocks sys r.1.blocks) (call l sys f w)
        (call-answers (λ rc a. Unit {0}) blocks sys f w ready keeps (λ x c s. tt)) (λ r h. h.0)
