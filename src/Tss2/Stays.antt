-- ===== src/Tss2/Stays.antt =====
-- Actions that come back and leave a ready SAPI context ready, and rules to show it of `do` blocks.
use tpm2_tcti_uefi.Base.{ℕ, List, [], ◌∷◌, ◌++◌, Bool, true, false, if◌then◌else◌}
use tpm2_tcti_uefi.Platform.{Output, Platform}
use tpm2_tcti_uefi.Pool.{Blocks, World, Act, pure, ◌>>=◌, ◌>>◌, say, lines}
use tpm2_tcti_uefi.Pool.Laws.{Returns, after-Returns}
use tpm2_tcti_uefi.Tss2.External.{Library}
use tpm2_tcti_uefi.Tss2.Commands.{Service, Keeps}
use tpm2_tcti_uefi.Tss2.Call.{call, call-IsReady}
use tpm2_tcti_uefi.Tss2.Ready.{IsReady}

module _ {F S : Type 0} (p : Platform F) (l : Library F S) (blocks : Blocks S) (sys : ℕ) where
  pub record Stays {A : Type 0} (m : Act F S A) : Type 0 where
    pub stay :
        (w : World F S)
        → IsReady p l blocks sys w.blocks
        → Returns (λ r. IsReady p l blocks sys r.1.blocks) (m w)

module _ {F S : Type 0} {p : Platform F} {l : Library F S} {blocks : Blocks S} {sys : ℕ} where
  pub pure-Stays : {A : Type 0} (a : A) → Stays p l blocks sys (pure {F = F} {S = S} a)
  pure-Stays a = record { stay = λ w h. h }

  pub say-Stays :
      {A : Type 0} (o : Output) {m : Act F S A}
      → Stays p l blocks sys m
      → Stays p l blocks sys (say o >> m)
  say-Stays o h = record {
    stay = λ w ready.
        h.stay (record w { machine = record w.machine { output = w.machine.output ++ (o ∷ []) } })
          ready;
  }

  pub lines-Stays : (os : List Output) → Stays p l blocks sys (lines {F = F} {S = S} os)
  lines-Stays os = record { stay = λ w ready. ready }

  pub if-Stays :
      {A : Type 0} (b : Bool) {m n : Act F S A}
      → Stays p l blocks sys m
      → Stays p l blocks sys n
      → Stays p l blocks sys (if b then m else n)
  if-Stays true hm hn = hm
  if-Stays false hm hn = hn

  pub call-Stays :
      {A B : Type 0} (f : Service F S A) (g : ℕ × A → Act F S B)
      → Keeps l f
      → ((r : ℕ × A) → Stays p l blocks sys (g r))
      → Stays p l blocks sys (call l sys f >>= g)
  call-Stays f g keeps then_stays = record {
    stay = λ w ready.
        after-Returns _ (λ r. IsReady p l blocks sys r.1.blocks) (call l sys f w) g
          (call-IsReady p l blocks sys f w ready keeps) (λ r h. (then_stays r.0).stay r.1 h);
  }
