-- ===== src/Base/Bits.antt =====
-- Finite tables over small ranges, and `bit_and` as arithmetic. No code of the repository is
-- modelled here.
use Prim.Native.Nat.{
  ℕ, zero, suc, ◌+◌, ◌*◌, ◌-◌, ◌/◌, ◌%◌, ◌^◌, ◌≤◌, ◌<◌, min, digits, bit_and, bit_and-bitwise,
}
use mathlib.Core.Path.{◌≡◌, refl}
use mathlib.Core.Bool.{Bool, true, ◌&&◌}
use native.Mathlib.Nat.{pow-suc, one-le-pow}
use native.Mathlib.Omega.{arith}

-- A test passes at every number below a bound.
unfoldable pub passes : (ℕ → Bool) → ℕ → Bool
passes test zero = true
passes test (suc bound) = passes test bound && test bound

pub test-passes :
    (test : ℕ → Bool) (x bound : ℕ) → x < bound → passes test bound ≡ true → test x ≡ true
unfolding passes
test-passes test x (suc bound) small all = ground (arith, test-passes test x bound)
test-passes test x zero small all = absurd (omega arith)

-- The digit recursion that `bit_and` stands for, whose fuel is its first number.
abbrev meet : ℕ → ℕ → ℕ → ℕ
meet fuel a b = digits (λ x. 0) min fuel a b

meet-zero : (b fuel : ℕ) → meet fuel 0 b ≡ 0
meet-zero b zero = refl
meet-zero b (suc fuel) = refl

-- Fuel of the first argument's own size is as good as any larger.
meet-own : (b a fuel : ℕ) (enough : a ≤ fuel) → meet fuel a b ≡ meet a a b
meet-own b a fuel enough = meet_agree fuel a b a (enough, omega arith)
  where
    meet_agree : (f a b g : ℕ) → (a ≤ f) × (a ≤ g) → meet f a b ≡ meet g a b
    meet_agree f zero b g h = omega (arith, meet-zero b f, meet-zero b g)
    meet_agree (suc f) (suc a) b (suc g) h =
        let half : (suc a / 2 ≤ f) × (suc a / 2 ≤ g) = (omega arith, omega arith) in
        let halves = meet_agree f (suc a / 2) (b / 2) g half in omega arith
    meet_agree zero (suc a) b g h = absurd (omega (arith, h.0))
    meet_agree (suc f) (suc a) b zero h = absurd (omega (arith, h.1))

-- The lowest digit of `bit_and`, and the rest.
pub and_step : (a b : ℕ) → bit_and a b ≡ 2 * bit_and (a / 2) (b / 2) + min (a % 2) (b % 2)
and_step (suc a) b =
    let half = suc a / 2 in
    let rest = meet-own (b / 2) half a (omega arith) in
    omega (arith, bit_and-bitwise half (b / 2), rest, bit_and-bitwise (suc a) b)
and_step zero b = omega (arith, bit_and-bitwise 0 (b / 2), bit_and-bitwise 0 b)

pub and-zero : (a : ℕ) → bit_and a 0 ≡ 0
and-zero a = nothing a (a + 1) (omega arith)
  where
    nothing : (a bound : ℕ) → a < bound → bit_and a 0 ≡ 0
    nothing a zero h = absurd (omega arith)
    nothing zero (suc bound) h = refl
    nothing (suc a) (suc bound) h =
        let halved = nothing (suc a / 2) bound (omega arith) in omega (arith, and_step (suc a) 0)

-- A mask of `k` low ones keeps a number that has no higher digit.
pub and_ones : (k a : ℕ) → a < 2 ^ k → bit_and a (2 ^ k - 1) ≡ a
and_ones zero a h = ground (arith, and-zero a)
and_ones (suc k) a h = ground (
  arith,
  and_step a (2 ^ suc k - 1),
  pow-suc 2 k,
  one-le-pow k 2,
  and_ones k (a / 2) (omega (arith, pow-suc 2 k)),
)
