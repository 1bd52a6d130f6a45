-- ===== src/Pool/Laws.antt =====
-- The blocks at the front of the list, by their addresses.
use tpm2_tcti_uefi.Base.{ℕ, ◌≡◌, true, false, List, ◌∷◌, some, ◌==◌, arith, refl}
use tpm2_tcti_uefi.Pool.{
  Act, after, Content, Blocks, World, Outcome, returned, undefined, starved, find, put, remove,
  contains,
}

-- The action comes back, and with a result and a world such that `P`.
abbrev pub Returns : {A : Type 0} → (A → Type 0) → Outcome A → Type 0
Returns P (returned a) = P a
Returns P undefined = ⊥
Returns P starved = ⊥

-- What an action comes back with.
pub of_Returns :
    {A : Type 0} (P : A → Type 0) (o : Outcome A) → Returns P o → (a : A) × (o ≡ returned a) × P a
of_Returns P (returned a) h = (a, refl, h)
of_Returns P undefined h = absurd h
of_Returns P starved h = absurd h

module _ {S : Type 0} (a : ℕ) (x : Content S) (blocks : Blocks S) where
  pub find-here : find a ((a, x) ∷ blocks) ≡ some x
  unfolding find
  find-here = ground arith

  pub put-here : (y : Content S) → put a y ((a, x) ∷ blocks) ≡ (a, y) ∷ blocks
  unfolding put
  put-here y = ground arith

  pub remove-here : remove a ((a, x) ∷ blocks) ≡ blocks
  unfolding remove
  remove-here = ground arith

  module _ (b : ℕ) (other : (a == b) ≡ false) where
    pub find-there : find b ((a, x) ∷ blocks) ≡ find b blocks
    unfolding find
    find-there = ground arith

    pub put-there : (y : Content S) → put b y ((a, x) ∷ blocks) ≡ (a, x) ∷ put b y blocks
    unfolding put
    put-there y = ground arith

    pub remove-there : remove b ((a, x) ∷ blocks) ≡ (a, x) ∷ remove b blocks
    unfolding remove
    remove-there = ground arith

pub contains-here : (a : ℕ) (live : List ℕ) → contains a (a ∷ live) ≡ true
unfolding contains
contains-here a live = ground arith

-- A block that is not live is another than each live one.
pub not-contains :
    (a b : ℕ) (live : List ℕ)
    → contains a (b ∷ live) ≡ false
    → ((b == a) ≡ false) × (contains a live ≡ false)
unfolding contains
not-contains a b live h = (ground arith, ground arith)

-- The rule for `>>=`.
pub after-Returns :
    {F S A B : Type 0} (P : A × World F S → Type 0) (Q : B × World F S → Type 0)
    (o : Outcome (A × World F S)) (f : A → Act F S B)
    → Returns P o
    → ((r : A × World F S) → P r → Returns Q (f r.0 r.1))
    → Returns Q (after o f)
after-Returns P Q (returned r) f h k = k r h
after-Returns P Q undefined f h k = absurd h
after-Returns P Q starved f h k = absurd h

pub Returns-mono :
    {A : Type 0} (P Q : A → Type 0) (o : Outcome A)
    → Returns P o
    → ((a : A) → P a → Q a)
    → Returns Q o
Returns-mono P Q (returned a) h k = k a h
Returns-mono P Q undefined h k = h
Returns-mono P Q starved h k = h

-- What an action comes back with is what it returns.
pub Returns-self :
    {A : Type 0} (P : A → Type 0) (o : Outcome A)
    → Returns P o
    → Returns (λ a. P a × (o ≡ returned a)) o
Returns-self P (returned a) h = (h, refl)
Returns-self P undefined h = h
Returns-self P starved h = h
