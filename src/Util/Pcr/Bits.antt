-- ===== src/Util/Pcr/Bits.antt =====
-- The bits of a byte, by a table over all bytes and bit numbers.
use tpm2_tcti_uefi.Base.{
  ℕ, ◌≡◌, refl, ◌<◌, ◌-◌, ◌^◌, Bool, true, not, ◌&&◌, ◌||◌, bit_and, bit_or, ◌==◌, arith, ltb,
}
use tpm2_tcti_uefi.Base.Bits.{passes, test-passes}
use tpm2_tcti_uefi.Util.Names.{is_set}

-- Two truth values agree.
abbrev agree : Bool → Bool → Bool
agree true b = b
agree _ b = not b

abbrev pub bit : ℕ → ℕ → Bool
bit b k = is_set (bit_and b (2 ^ k))

abbrev byte_law : ℕ → ℕ → ℕ → Bool
byte_law b k j =
    agree (bit (bit_or b (2 ^ k)) j) (k == j || bit b j)
    && agree (bit (bit_and b (0xff - 2 ^ k)) j) (not (k == j) && bit b j)
    && ltb (bit_or b (2 ^ k)) 256
    && ltb (bit_and b (0xff - 2 ^ k)) 256

abbrev rows : ℕ → Bool
rows b = passes (λ k. passes (byte_law b k) 8) 8

table : passes rows 256 ≡ true
unfolding passes
table = refl

byte_law_holds : (b k j : ℕ) → b < 256 → k < 8 → j < 8 → byte_law b k j ≡ true
byte_law_holds b k j hb hk hj =
    let row = test-passes rows b 256 hb table in
    let entry = test-passes (λ k. passes (byte_law b k) 8) k 8 hk row in
    test-passes (byte_law b k) j 8 hj entry

module _ (b k j : ℕ) (hb : b < 256) (hk : k < 8) (hj : j < 8) where
  -- Setting bit `k` of a byte sets that bit and keeps the others.
  pub bit-set : bit (bit_or b (2 ^ k)) j ≡ (k == j || bit b j)
  bit-set = ground (arith, byte_law_holds b k j hb hk hj)

  -- Clearing bit `k` of a byte clears that bit and keeps the others.
  pub bit-clear : bit (bit_and b (0xff - 2 ^ k)) j ≡ (not (k == j) && bit b j)
  bit-clear = ground (arith, byte_law_holds b k j hb hk hj)

  -- Either leaves a byte.
  pub byte-set : bit_or b (2 ^ k) < 256
  byte-set = ground (arith, byte_law_holds b k j hb hk hj)

  pub byte-clear : bit_and b (0xff - 2 ^ k) < 256
  byte-clear = ground (arith, byte_law_holds b k j hb hk hj)
