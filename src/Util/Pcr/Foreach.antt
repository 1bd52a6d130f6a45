-- ===== src/Util/Pcr/Foreach.antt =====
-- `foreach_selection` against a walk over the list of the selected PCRs.
use mathlib.Core.List.{map}
use tpm2_tcti_uefi.Base.{
  ℕ, zero, suc, ◌≡◌, ◌≤◌, ◌<◌, ◌+◌, List, [], ◌∷◌, ◌++◌, Bool, true, false, length, get_or, take,
  drop, if◌then◌else◌, arith, refl, ap,
}
use native.Mathlib.Numerals.{towards_suc}
use tpm2_tcti_uefi.Tpm.{Tpm}
use tpm2_tcti_uefi.Util.Pcr.{
  Selection, Selections, no_selection, Callback, is_pcr_selected, visit_pcrs, visit_banks,
  foreach_selection,
}

-- `i`, `i + 1`, ... , `n` numbers.
abbrev pub range_from : ℕ → ℕ → List ℕ
range_from zero i = []
range_from (suc n) i = i ∷ range_from n (i + 1)

abbrev pub keep : (ℕ → Bool) → List ℕ → List ℕ
keep test [] = []
keep test (x ∷ xs) = let rest = keep test xs in if test x then x ∷ rest else rest

-- The selected PCRs of a bank, in order, each with the hash of the bank.
abbrev pub bank_pairs : ℕ → Selection → List (ℕ × ℕ)
bank_pairs max_pcrs bank =
    map (λ q. (bank.hash, q)) (keep (is_pcr_selected bank.pcr_select) (range_from max_pcrs 0))

abbrev pub pairs : ℕ → List Selection → List (ℕ × ℕ)
pairs max_pcrs [] = []
pairs max_pcrs (bank ∷ banks) = bank_pairs max_pcrs bank ++ pairs max_pcrs banks

module _ {A : Type 0} (missing : A) where
  pub take-drop :
      (n i : ℕ) (xs : List A)
      → i < length xs
      → take (suc n) (drop i xs) ≡ get_or xs i missing ∷ take n (drop (i + 1) xs)
  take-drop n i [] h = absurd (omega arith)
  take-drop n zero (x ∷ xs) h = refl
  take-drop n (suc i) (x ∷ xs) h =
      simp towards_suc (simp towards_suc at (take-drop n i xs (omega arith)))

module _ {D : Type 0} (callback : Callback D) where
  -- Hands each pair to the callback until it says stop.
  unfoldable pub walk : List (ℕ × ℕ) → D → Bool × D
  walk [] d = (true, d)
  walk ((hash, pcr) ∷ rest) d =
      let (go_on, d') = callback hash pcr d in
      elim go_on [ true ↦ walk rest d' | false ↦ (false, d') ]

  abbrev after : List (ℕ × ℕ) → Bool × D → Bool × D
  after ps (true, d) = walk ps d
  after ps (false, d) = (false, d)

  walk-append : (ps qs : List (ℕ × ℕ)) (d : D) → walk (ps ++ qs) d ≡ after qs (walk ps d)
  unfolding walk
  walk-append [] qs d = refl
  walk-append ((hash, pcr) ∷ ps) qs d = ground (arith, walk-append ps qs (callback hash pcr d).1)

  visit_pcrs-walk :
      (bank : Selection) (n i : ℕ) (d : D)
      → visit_pcrs callback bank n i d
        ≡ walk
            (map (λ q. (bank.hash, q)) (keep (is_pcr_selected bank.pcr_select) (range_from n i)))
            d
  unfolding visit_pcrs walk
  visit_pcrs-walk bank zero i d = refl
  visit_pcrs-walk bank (suc n) i d = ground (
    arith,
    visit_pcrs-walk bank n (i + 1) (callback bank.hash i d).1,
    visit_pcrs-walk bank n (i + 1) d,
  )

  visit_banks-walk :
      (max_pcrs : ℕ) (banks : List Selection) (n i : ℕ) (d : D)
      → i + n ≤ length banks
      → visit_banks callback max_pcrs banks n i d ≡ walk (pairs max_pcrs (take n (drop i banks))) d
  unfolding visit_banks walk
  visit_banks-walk max_pcrs banks zero i d h = refl
  visit_banks-walk max_pcrs banks (suc n) i d h =
      let bank = get_or banks i no_selection in
      let d' = (visit_pcrs callback bank max_pcrs 0 d).1 in
      rw (take-drop no_selection n i banks (omega arith), walk-append)
        (ground (
          arith,
          visit_pcrs-walk bank max_pcrs 0 d,
          visit_banks-walk max_pcrs banks n (i + 1) d' (omega arith),
        ))

  -- If the array has `count` banks, `foreach_selection` hands the callback each selected PCR of the
  -- first `count` banks, with the hash of its bank, bank by bank and in ascending order, until the
  -- callback returns false.
  pub foreach_selection-walk :
      (t : Tpm) (selections : Selections) (d : D)
      → selections.count ≤ length selections.banks
      → foreach_selection callback t selections d
        ≡ (walk (pairs t.max_pcrs (take selections.count selections.banks)) d).1
  unfolding foreach_selection
  foreach_selection-walk t selections d h =
      ap (λ r. r.1)
        (visit_banks-walk t.max_pcrs selections.banks selections.count 0 d (omega arith))
