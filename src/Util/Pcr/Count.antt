-- ===== src/Util/Pcr/Count.antt =====
-- `count_algs_in_bitmap` is the number of ones of the bitmap.
use native.Mathlib.Nat.{div-div-eq-div-mul, pow-suc, zero-add}
use native.Mathlib.Numerals.{add-one}
use tpm2_tcti_uefi.Base.{ℕ, zero, suc, ◌≡◌, ◌≤◌, ◌+◌, ◌/◌, ◌%◌, ◌^◌, bit_and, arith, refl, ◌∙◌}
use tpm2_tcti_uefi.Base.Bits.{and_step, and-zero}
use tpm2_tcti_uefi.Util.Pcr.{count_bits, count_algs_in_bitmap}

-- The ones among the `n` lowest binary digits.
unfoldable pub ones : ℕ → ℕ → ℕ
ones zero b = 0
ones (suc n) b = b % 2 + ones n (b / 2)

pub ones-le : (n b : ℕ) → ones n b ≤ n
unfolding ones
ones-le zero b = omega arith
ones-le (suc n) b = omega (arith, ones-le n (b / 2))

count_bits-ones : (n i b acc : ℕ) → count_bits n i b acc ≡ acc + ones n (b / 2 ^ i)
unfolding count_bits ones
count_bits-ones zero i b acc = omega arith
count_bits-ones (suc n) i b acc =
    let low = bit_and (b / 2 ^ i) 1 in
    let shifted : b / 2 ^ i / 2 ≡ b / 2 ^ (i + 1) =
      rw (add-one, div-div-eq-div-mul, pow-suc) refl in
    rw shifted (
      omega (
        arith,
        count_bits-ones n (i + 1) b (acc + low),
        and_step (b / 2 ^ i) 1,
        and-zero (b / 2 ^ i / 2),
      ))

-- `count_algs_in_bitmap` counts the ones among the 32 digits of its bitmap.
pub count_algs-ones : (b : ℕ) → count_algs_in_bitmap b ≡ ones 32 b
unfolding count_algs_in_bitmap
count_algs-ones b =
    let same : b / 2 ^ 0 ≡ b = omega arith in count_bits-ones 32 0 b 0 ∙ rw (same, zero-add)
