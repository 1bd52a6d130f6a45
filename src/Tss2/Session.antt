-- ===== src/Tss2/Session.antt =====
-- A program that makes both contexts, does something with them, and tears both down.
use tpm2_tcti_uefi.Base.{ℕ, ◌≡◌, ◌≢◌, ◌⊎◌, inl, inr, true, false, ◌==◌, if◌then◌else◌, arith, refl}
use tpm2_tcti_uefi.Platform.{Platform, IsLawful}
use tpm2_tcti_uefi.Pool.{World, returned, Act, after, pure, ◌>>=◌, ◌>>◌}
use tpm2_tcti_uefi.Pool.Laws.{Returns, after-Returns, of_Returns}
use tpm2_tcti_uefi.Tss2.{sys_uefi_init, sys_uefi_teardown_full}
use tpm2_tcti_uefi.Tss2.External.{Library, IsLibrary}
use tpm2_tcti_uefi.Tss2.Init.{HasTcti}
use tpm2_tcti_uefi.Tss2.Ready.{IsReady, sys_uefi_init-cases}
use tpm2_tcti_uefi.Tss2.Stays.{Stays}
use tpm2_tcti_uefi.Tss2.Teardown.{sys_uefi_teardown_full-Returns}

module _ {F S : Type 0} (p : Platform F) (l : Library F S) where
  -- How a program ends of which `sys_uefi_init` is the first call. If that succeeds, the program comes
  -- back with a status such that `Q`, and the live blocks are those of before. If not, the program
  -- is aborted at once in the world that `sys_uefi_init` left: with the blocks of before, or with one
  -- more that holds a TCTI context.
  abbrev pub EndsClean : (ℕ → Type 0) → ℕ → Act F S ℕ → World F S → Type 0
  EndsClean Q aborted program w =
      (made : ℕ × ℕ) × (w1 : World F S) × (sys_uefi_init p l p.uninitialised w
        ≡ returned (made, w1))
      × (((made.0 ≡ p.rc_success) × Returns (λ r. Q r.0 × (r.1.blocks ≡ w.blocks)) (program w))
          ⊎ ((made.0 ≢ p.rc_success)
              × (program w ≡ returned (aborted, w1))
              × ((w1.blocks ≡ w.blocks) ⊎ ((a : ℕ) × HasTcti w.blocks a w1.blocks))))

module _ {F S : Type 0} {p : Platform F} {l : Library F S} (lawful : IsLawful p)
    (ok : IsLibrary p l) (Q : ℕ → Type 0) (aborted : ℕ) {A : Type 0} (status : A → ℕ)
    (on_end : (a : A) → Q (status a)) (body : ℕ → Act F S A) (w : World F S)
    (stays : (sys : ℕ) → Stays p l w.blocks sys (body sys)) where
  abbrev Clean : ℕ × World F S → Type 0
  Clean r = Q r.0 × (r.1.blocks ≡ w.blocks)

  finish-Clean :
      (w1 : World F S) (sys : ℕ)
      → IsReady p l w.blocks sys w1.blocks
      → Returns Clean (after (body sys w1) (λ a. sys_uefi_teardown_full p l sys >> pure (status a)))
  finish-Clean w1 sys ready =
      after-Returns _ Clean (body sys w1) _ ((stays sys).stay w1 ready) (λ r h.
        after-Returns _ Clean (sys_uefi_teardown_full p l sys r.1) _
          (sys_uefi_teardown_full-Returns p l w.blocks sys r.1 h) (λ q e. (on_end r.0, e.0)))

  -- The program of the two initialised contexts, the body and the teardown.
  abbrev program : Act F S ℕ
  program = do
    made ← sys_uefi_init p l p.uninitialised
    if made.0 == p.rc_success
        then (body made.1 >>= λ a. sys_uefi_teardown_full p l made.1 >> pure (status a))
        else pure aborted

  pub session-EndsClean : EndsClean p l Q aborted program w
  session-EndsClean =
      let (r, came, cases) =
        of_Returns _ (sys_uefi_init p l p.uninitialised w)
          (sys_uefi_init-cases lawful ok p.uninitialised w) in
      (
        r.0,
        r.1,
        came,
        elim cases [
          | inl ready ↦
              (let e : (r.0.0 == p.rc_success) ≡ true = ground (arith, ready.0) in
                inl (ready.0, rw (came, e) (finish-Clean r.1 r.0.1 ready.1)))
          | inr failed ↦
              (let e : (r.0.0 == p.rc_success) ≡ false = ground (arith, failed.0) in
                inr (failed.0, rw (came, e) refl, failed.2))
        ],
      )
