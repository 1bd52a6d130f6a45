-- ===== src/Util/Pcr.antt =====
-- example/util.c: PCR selections. A selection is the byte array `pcrSelect`; `pcr` is a uint8_t.
-- An access outside the array reads 0 and writes nothing: the theorems ask that the byte be there.
pub mod Bits
pub mod Select
pub mod Foreach
pub mod Room
pub mod Count
pub mod Digits
pub mod Banks
use tpm2_tcti_uefi.Base.{
  ℕ, zero, suc, ◌+◌, ◌-◌, ◌*◌, ◌/◌, ◌%◌, ◌^◌, Bool, true, false, List, [], ◌∷◌, get_or, set, drop,
  bit_and, bit_or, if◌then◌else◌,
}
use tpm2_tcti_uefi.Tpm.{Tpm}
use tpm2_tcti_uefi.Util.Names.{
  is_set, boot_hash_sha1, boot_hash_sha256, boot_hash_sha384, boot_hash_sha512, boot_hash_sm3_256,
}

unfoldable pub is_pcr_selected : List ℕ → ℕ → Bool
is_pcr_selected pcr_selection pcr =
    is_set (bit_and (get_or pcr_selection (pcr / 8) 0) (2 ^ (pcr % 8)))

unfoldable pub select_pcr : List ℕ → ℕ → List ℕ
select_pcr pcr_selection pcr =
    set pcr_selection (pcr / 8) (bit_or (get_or pcr_selection (pcr / 8) 0) (2 ^ (pcr % 8)))

-- `~(1 << k)` cut to a BYTE is 0xff - 2 ^ k.
unfoldable pub deselect_pcr : List ℕ → ℕ → List ℕ
deselect_pcr pcr_selection pcr =
    set pcr_selection (pcr / 8) (bit_and (get_or pcr_selection (pcr / 8) 0) (0xff - 2 ^ (pcr % 8)))

-- TPMS_PCR_SELECTION and TPML_PCR_SELECTION; `banks` is the array `pcrSelections`.
pub record Selection : Type 0 where
  pub hash : ℕ
  pub sizeof_select : ℕ
  pub pcr_select : List ℕ

pub record Selections : Type 0 where
  pub count : ℕ
  pub banks : List Selection

abbrev pub no_selection : Selection
no_selection = record { hash = 0; sizeof_select = 0; pcr_select = [] }

-- PCR_SELECTION_CALLBACK over the caller's `data`: whether to go on, and the data after it.
abbrev pub Callback : Type 0 → Type 0
Callback D = ℕ → ℕ → D → Bool × D

module _ {D : Type 0} (callback : Callback D) where
  -- The inner loop, with the rounds that are left: `false` is the `return` out of the function.
  visit_pcrs : Selection → ℕ → ℕ → D → Bool × D
  visit_pcrs bank zero pcr d = (true, d)
  visit_pcrs bank (suc left) pcr d =
      let (go_on, d') =
        if is_pcr_selected bank.pcr_select pcr then callback bank.hash pcr d else (true, d) in
      elim go_on [ true ↦ visit_pcrs bank left (pcr + 1) d' | false ↦ (false, d') ]

  -- The outer loop, over the indices from `i` on.
  visit_banks : ℕ → List Selection → ℕ → ℕ → D → Bool × D
  visit_banks max_pcrs banks zero i d = (true, d)
  visit_banks max_pcrs banks (suc left) i d =
      let (go_on, d') = visit_pcrs (get_or banks i no_selection) max_pcrs 0 d in
      elim go_on [ true ↦ visit_banks max_pcrs banks left (i + 1) d' | false ↦ (false, d') ]

  unfoldable pub foreach_selection : Tpm → Selections → D → D
  unfolding visit_banks visit_pcrs
  foreach_selection t pcr_selection d =
      (visit_banks t.max_pcrs pcr_selection.banks pcr_selection.count 0 d).1

-- `for (i = 0; i < 32; ++i) bitcount += (bitmap >> i) & 1`
count_bits : ℕ → ℕ → ℕ → ℕ → ℕ
count_bits zero i bitmap bitcount = bitcount
count_bits (suc left) i bitmap bitcount =
    count_bits left (i + 1) bitmap (bitcount + bit_and (bitmap / 2 ^ i) 1)

unfoldable pub count_algs_in_bitmap : ℕ → ℕ
unfolding count_bits
count_algs_in_bitmap bitmap = count_bits 32 0 bitmap 0

-- `active_banks &= ~(bit)` on a UINT32.
abbrev pub clear : ℕ → ℕ → ℕ
clear active_banks bit = bit_and active_banks (2 ^ 32 - 1 - bit)

module _ (t : Tpm) where
  -- The hash that one round writes, unchanged if no known bit is left, and the bitmap after it.
  unfoldable pub next_bank : ℕ → ℕ → ℕ × ℕ
  next_bank active_banks hash =
      if is_set (bit_and active_banks boot_hash_sha1)
      then (t.alg_sha1, clear active_banks boot_hash_sha1)
      else if is_set (bit_and active_banks boot_hash_sha256)
      then (t.alg_sha256, clear active_banks boot_hash_sha256)
      else if is_set (bit_and active_banks boot_hash_sha384)
      then (t.alg_sha384, clear active_banks boot_hash_sha384)
      else if is_set (bit_and active_banks boot_hash_sha512)
      then (t.alg_sha512, clear active_banks boot_hash_sha512)
      else if is_set (bit_and active_banks boot_hash_sm3_256)
      then (t.alg_sm3_256, clear active_banks boot_hash_sm3_256)
      else (hash, active_banks)

  -- The loop, with the rounds that are left. The array is all there is here: a write behind its end,
  -- which the C code does not test for, is left out. Users rule it out or say that it is undefined.
  fill_banks : ℕ → ℕ → ℕ → List Selection → List Selection
  unfolding next_bank
  fill_banks zero i active_banks banks = banks
  fill_banks (suc left) i active_banks banks =
      let old = get_or banks i no_selection in
      let (hash, active) = next_bank active_banks old.hash in
      fill_banks left (i + 1) active (
        set banks i (record {
          hash = hash;
          sizeof_select = 3;
          pcr_select = 0xff ∷ 0xff ∷ 0xff ∷ drop 3 old.pcr_select;
        }))

  unfoldable pub select_all_active_pcrs : ℕ → Selections → Selections
  unfolding fill_banks count_algs_in_bitmap
  select_all_active_pcrs active_banks selections =
      let count = count_algs_in_bitmap active_banks in
      record { count = count; banks = fill_banks count 0 active_banks selections.banks }
