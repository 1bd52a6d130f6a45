-- ===== src/Pool.antt =====
-- What the programs that use the TSS2 libraries run on: the machine and the blocks of AllocatePool
-- that have not been given to FreePool, each with the context that it holds. An action can also go
-- wrong: it is `undefined` where the C code would use or free a block that is not live, or one that
-- holds another kind of context, or would write beyond an array, and `starved` where a loop runs out
-- of fuel.
pub mod Laws
use tpm2_tcti_uefi.Base.{
  ℕ, Bool, true, false, List, [], ◌∷◌, ◌++◌, Option, none, some, ◌==◌, ◌||◌, if◌then◌else◌,
}
use tpm2_tcti_uefi.Platform.{Output, Machine, M, emit}
use tpm2_tcti_uefi.Tcti.{Context}

pub data Content (S : Type 0) : Type 0 where
  tcti : Context → Content S
  sapi : S → Content S

abbrev pub Blocks : Type 0 → Type 0
Blocks S = List (ℕ × Content S)

pub record World (F S : Type 0) : Type 0 where
  pub machine : Machine F
  pub blocks : Blocks S

pub data Outcome (A : Type 0) : Type 0 where
  returned : A → Outcome A
  undefined : Outcome A
  starved : Outcome A

module _ {S : Type 0} where
  abbrev pub addresses : Blocks S → List ℕ
  addresses [] = []
  addresses ((a, x) ∷ blocks) = a ∷ addresses blocks

  unfoldable pub find : ℕ → Blocks S → Option (Content S)
  find a [] = none
  find a ((b, x) ∷ blocks) = let rest = find a blocks in if b == a then some x else rest

  unfoldable pub put : ℕ → Content S → Blocks S → Blocks S
  put a y [] = []
  put a y ((b, x) ∷ blocks) =
      let rest = put a y blocks in if b == a then (b, y) ∷ blocks else (b, x) ∷ rest

  unfoldable pub remove : ℕ → Blocks S → Blocks S
  remove a [] = []
  remove a ((b, x) ∷ blocks) =
      let rest = remove a blocks in if b == a then blocks else (b, x) ∷ rest

unfoldable pub contains : ℕ → List ℕ → Bool
contains a [] = false
contains a (b ∷ bs) = b == a || contains a bs

abbrev pub Act : Type 0 → Type 0 → Type 0 → Type 0
Act F S A = World F S → Outcome (A × World F S)

abbrev pub pure : {F S A : Type 0} → A → Act F S A
pure a w = returned (a, w)

-- What comes after an outcome.
abbrev pub after :
    {F S A B : Type 0} → Outcome (A × World F S) → (A → Act F S B) → Outcome (B × World F S)
after (returned (a, w)) f = f a w
after undefined f = undefined
after starved f = starved

infixl 5 ◌>>=◌ ◌>>◌
abbrev pub ◌>>=◌ : {F S A B : Type 0} → Act F S A → (A → Act F S B) → Act F S B
◌>>=◌ m f w = after (m w) f

abbrev pub ◌>>◌ : {F S B : Type 0} → Act F S (Unit {0}) → Act F S B → Act F S B
◌>>◌ m k w = after (m w) (λ u. k)

module _ {F S A : Type 0} where
  -- An action of the machine alone.
  abbrev pub lift : M F A → Act F S A
  lift m w = let (a, s) = m w.machine in returned (a, record w { machine = s })

  -- What a function that is handed the context at an address does to it.
  abbrev pub tcti_in : ℕ → (Context → M F (A × Context)) → Option (Content S) → Act F S A
  tcti_in a f none w = undefined
  tcti_in a f (some (sapi x)) w = undefined
  tcti_in a f (some (tcti c)) w =
      let ((r, d), s) = f c w.machine in
      returned (r, record { machine = s; blocks = put a (tcti d) w.blocks })

  abbrev pub with_tcti : ℕ → (Context → M F (A × Context)) → Act F S A
  with_tcti a f w = tcti_in a f (find a w.blocks) w

  abbrev pub sapi_in : ℕ → (S → A × S) → Option (Content S) → Act F S A
  sapi_in a f none w = undefined
  sapi_in a f (some (tcti c)) w = undefined
  sapi_in a f (some (sapi x)) w =
      let (r, y) = f x in returned (r, record w { blocks = put a (sapi y) w.blocks })

  abbrev pub with_sapi : ℕ → (S → A × S) → Act F S A
  with_sapi a f w = sapi_in a f (find a w.blocks) w

abbrev pub say : {F S : Type 0} → Output → Act F S (Unit {0})
say o = lift (emit o)

-- Several of them in a row.
abbrev pub lines : {F S : Type 0} → List Output → Act F S (Unit {0})
lines os = lift (λ s. (tt, record s { output = s.output ++ os }))

-- The TCTI context at an address that is passed on: none for NULL or a block that is not one.
abbrev pub context_in : {S : Type 0} → Option (Content S) → Option Context
context_in none = none
context_in (some (tcti c)) = some c
context_in (some (sapi x)) = none

abbrev pub context_at : {F S : Type 0} → ℕ → Act F S (Option Context)
context_at a w = returned (context_in (find a w.blocks), w)
