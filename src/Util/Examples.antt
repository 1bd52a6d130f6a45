-- ===== src/Util/Examples.antt =====
-- The theorems on the shared helpers at sample inputs, and the cases of test/example-util_unit.c.
use tpm2_tcti_uefi.Base.{
  ℕ, ◌≡◌, ◌↔◌, refl, ◌≤◌, ◌+◌, List, [], ◌∷◌, true, false, not, ◌&&◌, ◌||◌, ◌==◌, length, take,
  drop, replicate, bit_and, arith, max,
}
use mathlib.Core.List.{map}
use tpm2_tcti_uefi.Tcg2
use tpm2_tcti_uefi.Tcg2.Laws.{get_max_buf_lem}
use tpm2_tcti_uefi.Sample.{platform, machine, tpm, tpm-IsTpm}
use tpm2_tcti_uefi.Util.Names.{get_alg_size, get_alg_name, alg_size_zero_iff}
use tpm2_tcti_uefi.Util.Format.{get_eventlog_format_high, format_high_unsupported}
use tpm2_tcti_uefi.Util.Pcr.{
  Selections, Callback, is_pcr_selected, select_pcr, deselect_pcr, foreach_selection,
  count_algs_in_bitmap, select_all_active_pcrs,
}
use tpm2_tcti_uefi.Util.Pcr.Select.{is_pcr_selected-select_pcr, is_pcr_selected-deselect_pcr}
use tpm2_tcti_uefi.Util.Pcr.Foreach.{pairs, walk, foreach_selection-walk}
use tpm2_tcti_uefi.Util.Pcr.Count.{ones, count_algs-ones}
use tpm2_tcti_uefi.Util.Pcr.Digits.{known}
use tpm2_tcti_uefi.Util.Pcr.Banks.{overwrite, SelectsAll, select_all-known}

alg_size_zero_iff_example : (get_alg_size tpm 5 ≡ 0) ↔ (get_alg_name tpm 5 ≡ "UNKNOWN_ALGORITHM")
alg_size_zero_iff_example = alg_size_zero_iff tpm tpm-IsTpm 5

-- The sample firmware supports the log of TCG 1.2 only.
format_high_unsupported_example :
    ((get_eventlog_format_high platform 0x1000 0 machine).0 ≡ (0, 2))
    × (bit_and 1 (get_eventlog_format_high platform 0x1000 0 machine).0.1 ≡ 0)
format_high_unsupported_example =
    format_high_unsupported platform 0x1000 0 machine refl (omega arith) refl

get_max_buf_lem_example : Tcg2.get_max_buf platform 0x1000 machine ≡ (max 16 12, machine)
get_max_buf_lem_example = get_max_buf_lem platform 0x1000 machine

abbrev some_bits : List ℕ
some_bits = 0x81 ∷ 0x00 ∷ 0x02 ∷ []

is_pcr_selected-select_pcr_example :
    is_pcr_selected (select_pcr some_bits 14) 17 ≡ (14 == 17 || is_pcr_selected some_bits 17)
is_pcr_selected-select_pcr_example =
    is_pcr_selected-select_pcr some_bits 14 17 (omega arith) (omega arith)

is_pcr_selected-deselect_pcr_example :
    is_pcr_selected (deselect_pcr some_bits 7) 7 ≡ (not (7 == 7) && is_pcr_selected some_bits 7)
is_pcr_selected-deselect_pcr_example =
    is_pcr_selected-deselect_pcr some_bits 7 7 (omega arith) (omega arith)

count_algs-ones_example : count_algs_in_bitmap 0xf0f0f4f0 ≡ ones 32 0xf0f0f4f0
count_algs-ones_example = count_algs-ones 0xf0f0f4f0

-- `count_alg_bitmap_17`
count_alg_bitmap_17 : count_algs_in_bitmap 0xf0f0f4f0 ≡ 17
unfolding count_algs_in_bitmap
count_alg_bitmap_17 = refl

-- `pcr21_not_set`, `deselect_pcr20`
pcr21_not_set : is_pcr_selected (0xff ∷ 0xff ∷ 0xdf ∷ []) 21 ≡ false
unfolding is_pcr_selected
pcr21_not_set = refl

deselect_pcr20 : is_pcr_selected (deselect_pcr (0xff ∷ 0xff ∷ 0xff ∷ []) 20) 20 ≡ false
unfolding is_pcr_selected deselect_pcr
deselect_pcr20 = refl

abbrev two_banks : Selections
two_banks = record {
  count = 2;
  banks =
      record { hash = 4; sizeof_select = 3; pcr_select = some_bits }
      ∷ record { hash = 0xb; sizeof_select = 3; pcr_select = some_bits }
      ∷ [];
}

abbrev sum_pcrs : Callback ℕ
sum_pcrs hash pcr total = (true, total + pcr)

foreach_selection-walk_example :
    foreach_selection sum_pcrs tpm two_banks 0 ≡ (walk sum_pcrs (pairs 32 two_banks.banks) 0).1
foreach_selection-walk_example = foreach_selection-walk sum_pcrs tpm two_banks 0 (omega arith)

abbrev empty : Selections
empty = record {
  count = 0;
  banks = replicate 16 (record { hash = 0; sizeof_select = 0; pcr_select = 0 ∷ 0 ∷ 0 ∷ 0 ∷ [] });
}

count_9 : count_algs_in_bitmap 9 ≡ 2
unfolding count_algs_in_bitmap
count_9 = refl

room_for_2 : count_algs_in_bitmap 9 ≤ length empty.banks
room_for_2 = omega (arith, count_9)

select_all-known_example :
    let n = count_algs_in_bitmap 9 in
    let after = select_all_active_pcrs tpm 9 empty in
    (after.count ≡ n)
    × (map (λ e. e.hash) (take n after.banks)
        ≡ overwrite (known tpm 9) (map (λ e. e.hash) (take n empty.banks)))
    × SelectsAll tpm (take n after.banks)
    × (drop n after.banks ≡ drop n empty.banks)
select_all-known_example = select_all-known tpm 9 empty room_for_2 (omega arith)

-- `select_all_pcrs_2_algs`
select_all_pcrs_2_algs :
    map (λ e. e.hash) (take 2 (select_all_active_pcrs tpm 9 empty).banks) ≡ 0x4 ∷ 0xd ∷ []
unfolding select_all_active_pcrs
select_all_pcrs_2_algs = refl
