-- ===== src/Util/Pcr/Room.antt =====
-- How many PCRs a selection selects, and that deselecting one makes it fewer. A selection has room if
-- its array holds bytes, one bit at least for each PCR.
use mathlib.Core.List.{map}
use tpm2_tcti_uefi.Base.{
  ℕ, zero, suc, ◌≡◌, ◌≤◌, ◌<◌, ◌+◌, ◌*◌, List, [], ◌∷◌, Bool, true, false, ◌==◌, length,
  length-append, length-drop, length-set, ◌∙◌, get_or, set, drop, arith, refl, ap, Bool-cases, inl,
  inr,
}
use tpm2_tcti_uefi.Tpm.{Tpm}
use tpm2_tcti_uefi.Util.Pcr.{
  Selection, Selections, no_selection, is_pcr_selected, deselect_pcr, next_bank, fill_banks,
  select_all_active_pcrs, count_algs_in_bitmap,
}
use tpm2_tcti_uefi.Util.Pcr.Select.{AreBytes, is_pcr_selected-deselect_pcr, select_pcr-AreBytes}
use tpm2_tcti_uefi.Util.Pcr.Foreach.{range_from, keep, bank_pairs, pairs}

abbrev pub HasRoom : ℕ → Selection → Type 0
HasRoom max_pcrs bank = AreBytes bank.pcr_select × (max_pcrs ≤ 8 * length bank.pcr_select)

abbrev pub AllRoom : ℕ → List Selection → Type 0
AllRoom max_pcrs [] = Unit
AllRoom max_pcrs (bank ∷ banks) = HasRoom max_pcrs bank × AllRoom max_pcrs banks

-- The number of PCRs that the banks select.
abbrev pub selected : ℕ → List Selection → ℕ
selected max_pcrs banks = length (pairs max_pcrs banks)

length-map : {A B : Type 0} (f : A → B) (xs : List A) → length (map f xs) ≡ length xs
length-map f [] = refl
length-map f (x ∷ xs) = ap suc (length-map f xs)

length-keep : (f : ℕ → Bool) (xs : List ℕ) → length (keep f xs) ≤ length xs
length-keep f [] = omega arith
length-keep f (x ∷ xs) = ground (arith, length-keep f xs)

length-range_from : (n i : ℕ) → length (range_from n i) ≡ n
length-range_from zero i = refl
length-range_from (suc n) i = ap suc (length-range_from n (i + 1))

-- A narrower test keeps no more.
module _ (f g : ℕ → Bool) (max_pcrs : ℕ)
    (narrower : (x : ℕ) → x < max_pcrs → g x ≡ true → f x ≡ true) where
  keep-le :
      (n i : ℕ)
      → i + n ≤ max_pcrs
      → length (keep g (range_from n i)) ≤ length (keep f (range_from n i))
  keep-le zero i h = omega arith
  keep-le (suc n) i h = ground (arith, keep-le n (i + 1), narrower i)

  keep-lt :
      (n i q : ℕ)
      → i + n ≤ max_pcrs
      → i ≤ q
      → q < i + n
      → f q ≡ true
      → g q ≡ false
      → length (keep g (range_from n i)) < length (keep f (range_from n i))
  keep-lt zero i q h a b hf hg = absurd (omega arith)
  keep-lt (suc n) i q h a b hf hg = elim (Bool-cases (i == q)) [
    | inl here ↦
        (let e : i ≡ q = ground arith in
          let fi : f i ≡ true = rw e hf in
          let gi : g i ≡ false = rw e hg in
          rw (fi, gi) (omega (arith, keep-le n (i + 1) (omega arith))))
    | inr further ↦
        (let later : i < q = ground arith in
          ground (
            arith,
            keep-lt n (i + 1) q (omega arith) (omega arith) (omega arith) hf hg,
            narrower i,
          ))
  ]

module _ (max_pcrs : ℕ) where
  length-bank_pairs :
      (bank : Selection)
      → length (bank_pairs max_pcrs bank)
        ≡ length (keep (is_pcr_selected bank.pcr_select) (range_from max_pcrs 0))
  length-bank_pairs bank =
      length-map (λ q. (bank.hash, q))
        (keep (is_pcr_selected bank.pcr_select) (range_from max_pcrs 0))

  -- Each bank selects no more than there are PCRs.
  pub selected-le :
      max_pcrs ≤ 32 → (banks : List Selection) → selected max_pcrs banks ≤ 32 * length banks
  selected-le small [] = omega arith
  selected-le small (bank ∷ banks) = omega (
    arith,
    length-append (bank_pairs max_pcrs bank) (pairs max_pcrs banks),
    length-bank_pairs bank,
    length-keep (is_pcr_selected bank.pcr_select) (range_from max_pcrs 0),
    length-range_from max_pcrs 0,
    selected-le small banks,
  )

  abbrev pub without : Selection → ℕ → Selection
  without bank pcr = record bank { pcr_select = deselect_pcr bank.pcr_select pcr }

  module _ (bank : Selection) (pcr : ℕ) (room : HasRoom max_pcrs bank) (real : pcr < max_pcrs) where
    narrower :
        (x : ℕ)
        → x < max_pcrs
        → is_pcr_selected (without bank pcr).pcr_select x ≡ true
        → is_pcr_selected bank.pcr_select x ≡ true
    narrower x h e =
        ground
          (arith, is_pcr_selected-deselect_pcr bank.pcr_select pcr x room.0 (omega (arith, room.1)))

    pub without-HasRoom : HasRoom max_pcrs (without bank pcr)
    without-HasRoom =
        let kept = select_pcr-AreBytes bank.pcr_select pcr pcr room.0 (omega (arith, room.1)) in
        (kept.1, omega (arith, room.1, kept.3))

    pub bank_pairs-le :
        length (bank_pairs max_pcrs (without bank pcr)) ≤ length (bank_pairs max_pcrs bank)
    bank_pairs-le = omega (
      arith,
      length-bank_pairs bank,
      length-bank_pairs (without bank pcr),
      keep-le (is_pcr_selected bank.pcr_select) (is_pcr_selected (without bank pcr).pcr_select)
          max_pcrs narrower max_pcrs 0 (omega arith),
    )

    pub bank_pairs-lt :
        is_pcr_selected bank.pcr_select pcr ≡ true
        → length (bank_pairs max_pcrs (without bank pcr)) < length (bank_pairs max_pcrs bank)
    bank_pairs-lt on =
        let off : is_pcr_selected (without bank pcr).pcr_select pcr ≡ false = ground (
          arith,
          is_pcr_selected-deselect_pcr bank.pcr_select pcr pcr room.0 (omega (arith, room.1)),
        ) in
        omega (
          arith,
          length-bank_pairs bank,
          length-bank_pairs (without bank pcr),
          keep-lt (is_pcr_selected bank.pcr_select) (is_pcr_selected (without bank pcr).pcr_select)
              max_pcrs narrower max_pcrs 0 pcr (omega arith) (omega arith) (omega arith) on off,
        )

module _ (max_pcrs : ℕ) where
  AllRoom-get :
      (banks : List Selection) (i : ℕ)
      → i < length banks
      → AllRoom max_pcrs banks
      → HasRoom max_pcrs (get_or banks i no_selection)
  AllRoom-get [] i h all = absurd (omega arith)
  AllRoom-get (bank ∷ banks) zero h all = all.0
  AllRoom-get (bank ∷ banks) (suc i) h all = AllRoom-get banks i (omega arith) all.1

  AllRoom-set :
      (banks : List Selection) (i : ℕ) (bank : Selection)
      → AllRoom max_pcrs banks
      → (i < length banks → HasRoom max_pcrs bank)
      → AllRoom max_pcrs (set banks i bank)
  AllRoom-set [] i bank all room = tt
  AllRoom-set (b ∷ banks) zero bank all room = (room (omega arith), all.1)
  AllRoom-set (b ∷ banks) (suc i) bank all room =
      (all.0, AllRoom-set banks i bank all.1 (λ h. room (omega arith)))

  -- Three bytes over the front of an array that has them keep its room.
  overwritten :
      (old : Selection) (h : ℕ)
      → HasRoom max_pcrs old
      → 3 ≤ length old.pcr_select
      → HasRoom max_pcrs (record {
        hash = h;
        sizeof_select = 3;
        pcr_select = 0xff ∷ 0xff ∷ 0xff ∷ drop 3 old.pcr_select;
      })
  overwritten old h room three = (
    (omega arith, (omega arith, (omega arith, AreBytes-drop 3 old.pcr_select room.0))),
    omega (arith, length-drop 3 old.pcr_select, room.1),
  )
    where
      AreBytes-drop : (n : ℕ) (bs : List ℕ) → AreBytes bs → AreBytes (drop n bs)
      AreBytes-drop zero bs are = are
      AreBytes-drop (suc n) [] are = tt
      AreBytes-drop (suc n) (b ∷ bs) are = AreBytes-drop n bs are.1

  module _ (t : Tpm) (more : 16 < max_pcrs) where
    fill_banks-AllRoom :
        (left i active : ℕ) (banks : List Selection)
        → AllRoom max_pcrs banks
        → AllRoom max_pcrs (fill_banks t left i active banks)
          × (length (fill_banks t left i active banks) ≡ length banks)
    unfolding fill_banks
    fill_banks-AllRoom zero i active banks all = (all, refl)
    fill_banks-AllRoom (suc left) i active banks all =
        let old = get_or banks i no_selection in
        let (hash, active') = next_bank t active old.hash in
        let bank : Selection = record {
          hash = hash;
          sizeof_select = 3;
          pcr_select = 0xff ∷ 0xff ∷ 0xff ∷ drop 3 old.pcr_select;
        } in
        let rest = fill_banks-AllRoom left (i + 1) active' (set banks i bank) (
          AllRoom-set banks i bank all (λ h.
            let room = AllRoom-get banks i h all in
            overwritten old hash room (omega (arith, room.1)))) in
        (rest.0, rest.1 ∙ length-set banks i bank)

    -- `select_all_active_pcrs` keeps the room of each array and their number.
    pub select_all-AllRoom :
        (active_banks : ℕ) (selections : Selections)
        → AllRoom max_pcrs selections.banks
        → AllRoom max_pcrs (select_all_active_pcrs t active_banks selections).banks
          × (length (select_all_active_pcrs t active_banks selections).banks
              ≡ length selections.banks)
    unfolding select_all_active_pcrs
    select_all-AllRoom active_banks selections all =
        fill_banks-AllRoom (count_algs_in_bitmap active_banks) 0 active_banks selections.banks all
