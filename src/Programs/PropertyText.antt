-- ===== src/Programs/PropertyText.antt =====
-- example/tpm2-get-caps-fixed.c: the characters and the modes of a property as text. Parameters are
-- the constants of tss2/tss2_tpm2_types.h, by their names, and what `Unpack` holds. The byte order is
-- little-endian, as on x86_64 and aarch64.
use tpm2_tcti_uefi.Base.{
  ℕ, ◌≡◌, ◌+◌, ◌*◌, ◌/◌, ◌%◌, ◌<◌, List, [], ◌∷◌, ◌++◌, String, bit_and, if◌then◌else◌, arith, refl,
}
use tpm2_tcti_uefi.Platform.{Output, num, print}
use tpm2_tcti_uefi.Util.Names.{is_set}

-- What the unpacking of characters takes from outside: Tss2_MU_UINT32_Unmarshal, from the bytes and
-- the old contents of its destination to the new ones, and the conversion of a char to a wchar_t, which
-- is the compiler's: a char is signed on some platforms and not on others.
pub record Unpack : Type 0 where
  pub unmarshal : List ℕ → ℕ → ℕ
  pub widen : ℕ → ℕ

-- As documented, the number is read as a big-endian one; a char of ASCII is the same wchar_t for every
-- compiler.
pub record IsUnpack (u : Unpack) : Type 0 where
  pub big_endian :
      (a b c d old : ℕ)
      → u.unmarshal (a ∷ b ∷ c ∷ d ∷ []) old ≡ a * 16777216 + b * 65536 + c * 256 + d
  pub ascii : (c : ℕ) → c < 128 → u.widen c ≡ c

-- The bytes of a UINT32 in memory.
abbrev pub bytes_of : ℕ → List ℕ
bytes_of n = (n % 256) ∷ (n / 256 % 256) ∷ (n / 65536 % 256) ∷ (n / 16777216 % 256) ∷ []

module _ (u : Unpack) where
  abbrev widen_all : List ℕ → List ℕ
  widen_all [] = []
  widen_all (c ∷ cs) = u.widen c ∷ widen_all cs

  -- The contents of the static buffer, without the NUL behind them.
  unfoldable pub get_uint32_as_wchars : ℕ → List ℕ
  get_uint32_as_wchars value = widen_all (bytes_of (u.unmarshal (bytes_of value) 0))

-- The number of four characters, the first one in its most significant byte.
abbrev pub packed : ℕ → ℕ → ℕ → ℕ → ℕ
packed a b c d = a * 16777216 + b * 65536 + c * 256 + d

-- If the library reads big-endian numbers and a compiler keeps ASCII, then of a property with four ASCII
-- characters packed into it, the first in the most significant byte, the text is just these four:
-- none is trimmed, spaces included.
pub get_uint32_as_wchars_lem :
    (u : Unpack)
    → IsUnpack u
    → (a b c d : ℕ) → a < 128
    → b < 128
    → c < 128
    → d < 128
    → get_uint32_as_wchars u (packed a b c d) ≡ a ∷ b ∷ c ∷ d ∷ []
unfolding get_uint32_as_wchars
get_uint32_as_wchars_lem u lawful a b c d ha hb hc hd =
    let v = packed a b c d in
    let e0 : v % 256 ≡ d = omega arith in
    let e1 : v / 256 % 256 ≡ c = omega arith in
    let e2 : v / 65536 % 256 ≡ b = omega arith in
    let e3 : v / 16777216 % 256 ≡ a = omega arith in
    let n = packed d c b a in
    let f0 : n % 256 ≡ a = omega arith in
    let f1 : n / 256 % 256 ≡ b = omega arith in
    let f2 : n / 65536 % 256 ≡ c = omega arith in
    let f3 : n / 16777216 % 256 ≡ d = omega arith in
    let read = lawful.big_endian d c b a 0 in
    rw
      (
        e0,
        e1,
        e2,
        e3,
        read,
        f0,
        f1,
        f2,
        f3,
        lawful.ascii a ha,
        lawful.ascii b hb,
        lawful.ascii c hc,
        lawful.ascii d hd,
      )
      refl

module _ (constant : String → ℕ) where
  unfoldable pub print_tpma_modes : ℕ → List Output
  print_tpma_modes modes =
      (print "TPM2_PT_MODES:\n  raw: 0x%X\n" (num modes ∷ []) ∷ [])
      ++ (if is_set (bit_and modes (constant "TPMA_MODES_FIPS_140_2"))
          then print "  value: TPMA_MODES_FIPS_140_2\n" [] ∷ []
          else [])
      ++ (if is_set (bit_and modes (constant "TPMA_MODES_RESERVED1_MASK"))
          then print "  value: TPMA_MODES_RESERVED1 (these bits shouldn't be set)\n" [] ∷ []
          else [])
