-- ===== src/Programs/PcrRound.antt =====
-- One round of example/tpm2-get-pcrs.c: what the callback leaves of the selection.
use mathlib.Core.List.{map}
use tpm2_tcti_uefi.Base.{
  ℕ, zero, suc, ◌≡◌, ◌≤◌, ◌<◌, ◌+◌, ◌==◌, Bool, true, false, ◌&&◌, ◌||◌, List, [], ◌∷◌, ◌++◌,
  length, length-append, take, if◌then◌else◌, arith, Bool-cases, inl, inr,
}
use tpm2_tcti_uefi.Util.Pcr.{Selection, is_pcr_selected}
use tpm2_tcti_uefi.Util.Pcr.Foreach.{range_from, keep, bank_pairs, pairs}
use tpm2_tcti_uefi.Util.Pcr.Room.{
  HasRoom, AllRoom, selected, without, without-HasRoom, bank_pairs-le, bank_pairs-lt,
}
use tpm2_tcti_uefi.Programs.Pcrs.{deselect_in}

-- Whether one of the first banks, as many as the count says, has the hash and selects the PCR.
abbrev pub asked : ℕ → List Selection → ℕ → ℕ → Bool
asked zero banks alg pcr = false
asked (suc left) [] alg pcr = false
asked (suc left) (bank ∷ banks) alg pcr =
    (bank.hash == alg && is_pcr_selected bank.pcr_select pcr) || asked left banks alg pcr

module _ (max_pcrs : ℕ) where
  module _ (alg pcr : ℕ) (real : pcr < max_pcrs) where
    abbrev after_one : Selection → Selection
    after_one bank = if bank.hash == alg then without max_pcrs bank pcr else bank

    after_one-HasRoom :
        (bank : Selection) → HasRoom max_pcrs bank → HasRoom max_pcrs (after_one bank)
    after_one-HasRoom bank room = elim (Bool-cases (bank.hash == alg)) [
      | inl e ↦ rw e (without-HasRoom max_pcrs bank pcr room real)
      | inr e ↦ rw e room
    ]

    after_one-le :
        (bank : Selection)
        → HasRoom max_pcrs bank
        → length (bank_pairs max_pcrs (after_one bank)) ≤ length (bank_pairs max_pcrs bank)
    after_one-le bank room = elim (Bool-cases (bank.hash == alg)) [
      | inl e ↦ rw e (bank_pairs-le max_pcrs bank pcr room real)
      | inr e ↦ rw e (omega arith)
    ]

    pub deselect_in-AllRoom :
        (n : ℕ) (banks : List Selection)
        → AllRoom max_pcrs banks
        → AllRoom max_pcrs (deselect_in n alg pcr banks)
    deselect_in-AllRoom zero banks all = all
    deselect_in-AllRoom (suc n) [] all = tt
    deselect_in-AllRoom (suc n) (bank ∷ banks) all =
        (after_one-HasRoom bank all.0, deselect_in-AllRoom n banks all.1)

    pub deselect_in-le :
        (n : ℕ) (banks : List Selection)
        → AllRoom max_pcrs banks
        → selected max_pcrs (take n (deselect_in n alg pcr banks))
          ≤ selected max_pcrs (take n banks)
    deselect_in-le zero banks all = omega arith
    deselect_in-le (suc n) [] all = omega arith
    deselect_in-le (suc n) (bank ∷ banks) all = omega (
      arith,
      after_one-le bank all.0,
      deselect_in-le n banks all.1,
      length-append (bank_pairs max_pcrs bank) (pairs max_pcrs (take n banks)),
      length-append (bank_pairs max_pcrs (after_one bank))
          (pairs max_pcrs (take n (deselect_in n alg pcr banks))),
    )

    pub deselect_in-lt :
        (n : ℕ) (banks : List Selection)
        → AllRoom max_pcrs banks
        → asked n banks alg pcr ≡ true
        → selected max_pcrs (take n (deselect_in n alg pcr banks))
          < selected max_pcrs (take n banks)
    deselect_in-lt zero banks all a = absurd (ground arith)
    deselect_in-lt (suc n) [] all a = absurd (ground arith)
    deselect_in-lt (suc n) (bank ∷ banks) all a =
        let now = length-append (bank_pairs max_pcrs bank) (pairs max_pcrs (take n banks)) in
        let then_ =
          length-append (bank_pairs max_pcrs (after_one bank))
            (pairs max_pcrs (take n (deselect_in n alg pcr banks))) in
        elim (Bool-cases (bank.hash == alg && is_pcr_selected bank.pcr_select pcr)) [
          | inl here ↦
              (let hash : (bank.hash == alg) ≡ true = ground arith in
                let on : is_pcr_selected bank.pcr_select pcr ≡ true = ground arith in
                let less : length (bank_pairs max_pcrs (after_one bank))
                    < length (bank_pairs max_pcrs bank) =
                  rw hash (bank_pairs-lt max_pcrs bank pcr all.0 real on) in
                omega (arith, less, deselect_in-le n banks all.1, now, then_))
          | inr there ↦
              (let behind : asked n banks alg pcr ≡ true = ground arith in
                omega
                  (arith, after_one-le bank all.0, deselect_in-lt n banks all.1 behind, now, then_))
        ]

  -- The pairs that a walk meets have real PCRs.
  abbrev pub AllReal : List (ℕ × ℕ) → Type 0
  AllReal [] = Unit
  AllReal ((alg, pcr) ∷ ps) = (pcr < max_pcrs) × AllReal ps

  AllReal-append : (ps qs : List (ℕ × ℕ)) → AllReal ps → AllReal qs → AllReal (ps ++ qs)
  AllReal-append [] qs a b = b
  AllReal-append ((alg, pcr) ∷ ps) qs a b = (a.0, AllReal-append ps qs a.1 b)

  keep-AllReal :
      (f : ℕ → Bool) (alg n i : ℕ)
      → i + n ≤ max_pcrs
      → AllReal (map (λ q. (alg, q)) (keep f (range_from n i)))
  keep-AllReal f alg zero i h = tt
  keep-AllReal f alg (suc n) i h = elim (Bool-cases (f i)) [
    | inl e ↦ rw e (omega arith, keep-AllReal f alg n (i + 1) (omega arith))
    | inr e ↦ rw e (keep-AllReal f alg n (i + 1) (omega arith))
  ]

  pub pairs-AllReal : (banks : List Selection) → AllReal (pairs max_pcrs banks)
  pairs-AllReal [] = tt
  pairs-AllReal (bank ∷ banks) =
      AllReal-append (bank_pairs max_pcrs bank) (pairs max_pcrs banks)
        (keep-AllReal (is_pcr_selected bank.pcr_select) bank.hash max_pcrs 0 (omega arith))
        (pairs-AllReal banks)
