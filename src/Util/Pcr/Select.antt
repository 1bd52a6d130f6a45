-- ===== src/Util/Pcr/Select.antt =====
-- `select_pcr` and `deselect_pcr` against `is_pcr_selected`.
use tpm2_tcti_uefi.Base.{
  ℕ, zero, suc, ◌≡◌, ◌<◌, ◌/◌, ◌%◌, List, [], ◌∷◌, not, ◌&&◌, ◌||◌, ◌==◌, ◌^◌, ◌-◌, if◌then◌else◌,
  bit_or, bit_and, length, get_or, set, length-set, get_or-set_self, get_or-set_ne, arith, inl, inr,
  Bool-cases,
}
use tpm2_tcti_uefi.Util.Pcr.{is_pcr_selected, select_pcr, deselect_pcr}
use tpm2_tcti_uefi.Util.Pcr.Bits.{bit-set, bit-clear, byte-set, byte-clear}

-- Every element is a byte.
abbrev pub AreBytes : List ℕ → Type 0
AreBytes [] = Unit
AreBytes (b ∷ bs) = (b < 256) × AreBytes bs

pub get_or-lt : (bs : List ℕ) (i : ℕ) → AreBytes bs → get_or bs i 0 < 256
get_or-lt [] i h = omega arith
get_or-lt (b ∷ bs) zero h = h.0
get_or-lt (b ∷ bs) (suc i) h = get_or-lt bs i h.1

AreBytes-set : (bs : List ℕ) (i v : ℕ) → AreBytes bs → v < 256 → AreBytes (set bs i v)
AreBytes-set [] i v h hv = tt
AreBytes-set (b ∷ bs) zero v h hv = (hv, h.1)
AreBytes-set (b ∷ bs) (suc i) v h hv = (h.0, AreBytes-set bs i v h.1 hv)

-- Reading one byte after writing another.
get_or-set :
    (bs : List ℕ) (i j v : ℕ)
    → i < length bs
    → get_or (set bs i v) j 0 ≡ (if i == j then v else get_or bs j 0)
get_or-set bs i j v room = elim (Bool-cases (i == j)) [
  | inl same ↦ let e : j ≡ i = ground arith in rw (same, e) (get_or-set_self bs i v 0 room)
  | inr other ↦ rw other (get_or-set_ne bs v 0 (ground arith))
]

module _ (bytes : List ℕ) (pcr q : ℕ) (are : AreBytes bytes) (room : pcr / 8 < length bytes) where
  abbrev byte : ℕ
  byte = get_or bytes (pcr / 8) 0

  -- In an array of bytes that has the byte of the PCR: after `select_pcr` exactly the PCR itself
  -- and those selected before are selected.
  pub is_pcr_selected-select_pcr :
      is_pcr_selected (select_pcr bytes pcr) q ≡ (pcr == q || is_pcr_selected bytes q)
  unfolding is_pcr_selected select_pcr
  is_pcr_selected-select_pcr =
      rw (get_or-set bytes (pcr / 8) (q / 8) (bit_or byte (2 ^ (pcr % 8))) room) (
        ground (
          arith,
          bit-set byte (pcr % 8) (q % 8) (get_or-lt bytes (pcr / 8) are) (omega arith)
              (omega arith),
        ))

  -- In an array of bytes that has the byte of the PCR: after `deselect_pcr` exactly those selected
  -- before, less the PCR itself, are selected.
  pub is_pcr_selected-deselect_pcr :
      is_pcr_selected (deselect_pcr bytes pcr) q ≡ (not (pcr == q) && is_pcr_selected bytes q)
  unfolding is_pcr_selected deselect_pcr
  is_pcr_selected-deselect_pcr =
      rw (get_or-set bytes (pcr / 8) (q / 8) (bit_and byte (0xff - 2 ^ (pcr % 8))) room) (
        ground (
          arith,
          bit-clear byte (pcr % 8) (q % 8) (get_or-lt bytes (pcr / 8) are) (omega arith)
              (omega arith),
        ))

  -- Both keep the length of the array and leave bytes.
  pub select_pcr-AreBytes :
      AreBytes (select_pcr bytes pcr)
      × AreBytes (deselect_pcr bytes pcr)
      × (length (select_pcr bytes pcr) ≡ length bytes)
      × (length (deselect_pcr bytes pcr) ≡ length bytes)
  unfolding select_pcr deselect_pcr
  select_pcr-AreBytes =
      let small = get_or-lt bytes (pcr / 8) are in
      let k : pcr % 8 < 8 = omega arith in
      (
        AreBytes-set bytes (pcr / 8) _ are (byte-set byte (pcr % 8) 0 small k (omega arith)),
        AreBytes-set bytes (pcr / 8) _ are (byte-clear byte (pcr % 8) 0 small k (omega arith)),
        length-set bytes (pcr / 8) _,
        length-set bytes (pcr / 8) _,
      )
