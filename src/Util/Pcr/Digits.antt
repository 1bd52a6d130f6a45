-- ===== src/Util/Pcr/Digits.antt =====
-- The bits of an algorithm bitmap: how the code reads and clears them, and what one round of
-- `select_all_active_pcrs` takes from them.
use tpm2_tcti_uefi.Base.{
  ℕ, ◌≡◌, ◌<◌, ◌-◌, ◌*◌, ◌/◌, ◌%◌, ◌^◌, List, [], ◌∷◌, Bool-cases, inl, inr, if◌then◌else◌, arith,
  refl, ◌∙◌, bit_and, ◌==◌,
}
use tpm2_tcti_uefi.Base.Bits.{and_step, and-zero, and_ones}
use tpm2_tcti_uefi.Tpm.{Tpm}
use tpm2_tcti_uefi.Util.Names.{is_set}
use tpm2_tcti_uefi.Util.Pcr.{clear, next_bank}

-- The digit of weight 2 ^ k of a bitmap, as the masks of the five algorithms read and clear it.
mask_1 : (b : ℕ) → bit_and b 1 ≡ b % 2
mask_1 b = omega (arith, and_step b 1, and-zero (b / 2))

mask_2 : (b : ℕ) → bit_and b 2 ≡ 2 * (b / 2 % 2)
mask_2 b = omega (arith, and_step b 2, mask_1 (b / 2))

mask_4 : (b : ℕ) → bit_and b 4 ≡ 4 * (b / 4 % 2)
mask_4 b = omega (arith, and_step b 4, mask_2 (b / 2))

mask_8 : (b : ℕ) → bit_and b 8 ≡ 8 * (b / 8 % 2)
mask_8 b = omega (arith, and_step b 8, mask_4 (b / 2))

mask_16 : (b : ℕ) → bit_and b 16 ≡ 16 * (b / 16 % 2)
mask_16 b = omega (arith, and_step b 16, mask_8 (b / 2))

-- Clearing the lowest digit of a number of `k + 1` digits, then those above it one by one.
clear_1 : (b : ℕ) → b < 2 ^ 32 → clear b 1 ≡ b - b % 2
clear_1 b h = omega (arith, and_step b (2 ^ 32 - 2), and_ones 31 (b / 2) (omega arith))

clear_2 : (b : ℕ) → b < 2 ^ 32 → clear b 2 ≡ b - 2 * (b / 2 % 2)
clear_2 b h = omega (
  arith,
  and_step b (2 ^ 32 - 3),
  and_step (b / 2) (2 ^ 31 - 2),
  and_ones 30 (b / 2 / 2) (omega arith),
)

clear_4 : (b : ℕ) → b < 2 ^ 32 → clear b 4 ≡ b - 4 * (b / 4 % 2)
clear_4 b h = omega (
  arith,
  and_step b (2 ^ 32 - 5),
  and_step (b / 2) (2 ^ 31 - 3),
  and_step (b / 2 / 2) (2 ^ 30 - 2),
  and_ones 29 (b / 2 / 2 / 2) (omega arith),
)

clear_8 : (b : ℕ) → b < 2 ^ 32 → clear b 8 ≡ b - 8 * (b / 8 % 2)
clear_8 b h = omega (
  arith,
  and_step b (2 ^ 32 - 9),
  and_step (b / 2) (2 ^ 31 - 5),
  and_step (b / 2 / 2) (2 ^ 30 - 3),
  and_step (b / 2 / 2 / 2) (2 ^ 29 - 2),
  and_ones 28 (b / 2 / 2 / 2 / 2) (omega arith),
)

clear_16 : (b : ℕ) → b < 2 ^ 32 → clear b 16 ≡ b - 16 * (b / 16 % 2)
clear_16 b h = omega (
  arith,
  and_step b (2 ^ 32 - 17),
  and_step (b / 2) (2 ^ 31 - 9),
  and_step (b / 2 / 2) (2 ^ 30 - 5),
  and_step (b / 2 / 2 / 2) (2 ^ 29 - 3),
  and_step (b / 2 / 2 / 2 / 2) (2 ^ 28 - 2),
  and_ones 27 (b / 2 / 2 / 2 / 2 / 2) (omega arith),
)

-- The tests of the code, as tests of binary digits.
test_1 : (b : ℕ) → is_set (bit_and b 1) ≡ (b % 2 == 1)
test_1 b = rw mask_1 (ground arith)

test_2 : (b : ℕ) → is_set (bit_and b 2) ≡ (b / 2 % 2 == 1)
test_2 b = rw mask_2 (ground arith)

test_4 : (b : ℕ) → is_set (bit_and b 4) ≡ (b / 4 % 2 == 1)
test_4 b = rw mask_4 (ground arith)

test_8 : (b : ℕ) → is_set (bit_and b 8) ≡ (b / 8 % 2 == 1)
test_8 b = rw mask_8 (ground arith)

test_16 : (b : ℕ) → is_set (bit_and b 16) ≡ (b / 16 % 2 == 1)
test_16 b = rw mask_16 (ground arith)

-- Two bitmaps have the same five low digits, but for those that the second has lost.
record Loses (b c : ℕ) (d0 d1 d2 d3 d4 : ℕ) : Type 0 where
  digit_1 : c % 2 ≡ d0
  digit_2 : c / 2 % 2 ≡ d1
  digit_4 : c / 4 % 2 ≡ d2
  digit_8 : c / 8 % 2 ≡ d3
  digit_16 : c / 16 % 2 ≡ d4
  below : c < 2 ^ 32

module _ (b : ℕ) (h : b < 2 ^ 32) where
  Loses-1 : Loses b (clear b 1) 0 (b / 2 % 2) (b / 4 % 2) (b / 8 % 2) (b / 16 % 2)
  Loses-1 = omega (arith, clear_1 b h)

  Loses-2 : Loses b (clear b 2) (b % 2) 0 (b / 4 % 2) (b / 8 % 2) (b / 16 % 2)
  Loses-2 = omega (arith, clear_2 b h)

  Loses-4 : Loses b (clear b 4) (b % 2) (b / 2 % 2) 0 (b / 8 % 2) (b / 16 % 2)
  Loses-4 = omega (arith, clear_4 b h)

  Loses-8 : Loses b (clear b 8) (b % 2) (b / 2 % 2) (b / 4 % 2) 0 (b / 16 % 2)
  Loses-8 = omega (arith, clear_8 b h)

  Loses-16 : Loses b (clear b 16) (b % 2) (b / 2 % 2) (b / 4 % 2) (b / 8 % 2) 0
  Loses-16 = omega (arith, clear_16 b h)

module _ (t : Tpm) where
  -- The algorithms of five digits, in their order.
  abbrev pub algorithms : ℕ → ℕ → ℕ → ℕ → ℕ → List ℕ
  algorithms d0 d1 d2 d3 d4 =
      let sm3 : List ℕ = if d4 == 1 then t.alg_sm3_256 ∷ [] else [] in
      let sha512 : List ℕ = if d3 == 1 then t.alg_sha512 ∷ sm3 else sm3 in
      let sha384 : List ℕ = if d2 == 1 then t.alg_sha384 ∷ sha512 else sha512 in
      let sha256 : List ℕ = if d1 == 1 then t.alg_sha256 ∷ sha384 else sha384 in
      if d0 == 1 then t.alg_sha1 ∷ sha256 else sha256

  -- The known algorithms of a bitmap: those of its five low bits.
  unfoldable pub known : ℕ → List ℕ
  known b = algorithms (b % 2) (b / 2 % 2) (b / 4 % 2) (b / 8 % 2) (b / 16 % 2)

  -- What one round takes from the known algorithms.
  abbrev pub Takes : ℕ → ℕ → ℕ × ℕ → List ℕ → Type 0
  Takes b hash (h, c) [] = (h ≡ hash) × (c ≡ b)
  Takes b hash (h, c) (k ∷ ks) = (h ≡ k) × (known c ≡ ks) × (c < 2 ^ 32)

  known-Loses :
      (b c d0 d1 d2 d3 d4 : ℕ) → Loses b c d0 d1 d2 d3 d4 → known c ≡ algorithms d0 d1 d2 d3 d4
  unfolding known
  known-Loses b c d0 d1 d2 d3 d4 l = rw (l.digit_1, l.digit_2, l.digit_4, l.digit_8, l.digit_16)

  pub next_bank-known : (b hash : ℕ) → b < 2 ^ 32 → Takes b hash (next_bank t b hash) (known b)
  unfolding next_bank known
  next_bank-known b hash h =
      rw (test_1, test_2, test_4, test_8, test_16)
        (elim (Bool-cases (b % 2 == 1)) [
          | inl e ↦ rw e (refl, known-Loses b _ _ _ _ _ _ (Loses-1 b h), (Loses-1 b h).below)
          | inr n1 ↦ rw n1 (elim (Bool-cases (b / 2 % 2 == 1)) [
            | inl e ↦
                rw e (refl, known-Loses b _ _ _ _ _ _ (Loses-2 b h) ∙ rw n1, (Loses-2 b h).below)
            | inr n2 ↦ rw n2 (elim (Bool-cases (b / 4 % 2 == 1)) [
              | inl e ↦
                  rw e (
                    refl,
                    known-Loses b _ _ _ _ _ _ (Loses-4 b h) ∙ rw (n1, n2),
                    (Loses-4 b h).below,
                  )
              | inr n4 ↦ rw n4 (elim (Bool-cases (b / 8 % 2 == 1)) [
                | inl e ↦ rw e (
                  refl,
                  known-Loses b _ _ _ _ _ _ (Loses-8 b h) ∙ rw (n1, n2, n4),
                  (Loses-8 b h).below,
                )
                | inr n8 ↦ rw n8 (elim (Bool-cases (b / 16 % 2 == 1)) [
                  | inl e ↦ rw e (
                    refl,
                    known-Loses b _ _ _ _ _ _ (Loses-16 b h) ∙ rw (n1, n2, n4, n8),
                    (Loses-16 b h).below,
                  )
                  | inr n16 ↦ rw n16 (refl, refl)
                ])
              ])
            ])
          ])
        ])
