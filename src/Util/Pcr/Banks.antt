-- ===== src/Util/Pcr/Banks.antt =====
-- `select_all_active_pcrs`: which banks it writes.
use mathlib.Core.List.{map}
use tpm2_tcti_uefi.Base.{
  ℕ, suc, ◌≡◌, ◌≤◌, ◌<◌, ◌+◌, ◌^◌, List, [], ◌∷◌, ◌++◌, length, get_or, set, take, drop, arith,
  refl, ap, ap₂, sym, ◌∙◌, append_assoc, length-append, get_or-append_here, set-append_here,
  take-append_drop, take-append_front, drop-append_front, length-take,
}
use tpm2_tcti_uefi.Tpm.{Tpm}
use tpm2_tcti_uefi.Util.Pcr.{
  Selection, Selections, no_selection, next_bank, fill_banks, select_all_active_pcrs,
  count_algs_in_bitmap,
}
use tpm2_tcti_uefi.Util.Pcr.Digits.{known, next_bank-known}

module _ (t : Tpm) where
  -- One entry that a round writes over an old one.
  abbrev written : ℕ → Selection → Selection
  written b old = record {
    hash = (next_bank t b old.hash).0;
    sizeof_select = 3;
    pcr_select = 0xff ∷ 0xff ∷ 0xff ∷ drop 3 old.pcr_select;
  }

  -- The rounds over a list of entries.
  fill_list : ℕ → List Selection → List Selection
  fill_list b [] = []
  fill_list b (e ∷ es) = written b e ∷ fill_list (next_bank t b e.hash).1 es

  fill_banks-zero : (i b : ℕ) (banks : List Selection) → fill_banks t 0 i b banks ≡ banks
  unfolding fill_banks
  fill_banks-zero i b banks = refl

  fill_banks-suc :
      (n i b : ℕ) (banks : List Selection)
      → fill_banks t (suc n) i b banks
        ≡ fill_banks t n
            (i + 1)
            (next_bank t b (get_or banks i no_selection).hash).1
            (set banks i (written b (get_or banks i no_selection)))
  unfolding fill_banks
  fill_banks-suc n i b banks = refl

  fill_banks-fill_list :
      (es before behind : List Selection) (b : ℕ)
      → fill_banks t (length es) (length before) b (before ++ (es ++ behind))
        ≡ before ++ (fill_list b es ++ behind)
  unfolding fill_list
  fill_banks-fill_list [] before behind b = fill_banks-zero (length before) b (before ++ behind)
  fill_banks-fill_list (e ∷ es) before behind b =
      let w = written b e in
      let grown : length before + 1 ≡ length (before ++ (w ∷ [])) =
        sym (length-append before (w ∷ [])) in
      let b' = (next_bank t b e.hash).1 in
      let rest = fill_banks-fill_list es (before ++ (w ∷ [])) behind b' in
      let moved =
        rw
          (
            append_assoc before (w ∷ []) (es ++ behind),
            append_assoc before (w ∷ []) (fill_list b' es ++ behind),
            ← grown,
          )
          at rest in
      rw (fill_banks-suc, get_or-append_here, set-append_here) moved

-- `hs` over the front of `olds`.
abbrev pub overwrite : List ℕ → List ℕ → List ℕ
overwrite [] olds = olds
overwrite (h ∷ hs) [] = []
overwrite (h ∷ hs) (o ∷ olds) = h ∷ overwrite hs olds

module _ (t : Tpm) where
  hash-fill_list :
      (es : List Selection) (b : ℕ) (ks : List ℕ)
      → b < 2 ^ 32
      → known t b ≡ ks
      → map (λ e. e.hash) (fill_list t b es) ≡ overwrite ks (map (λ e. e.hash) es)
  unfolding fill_list
  hash-fill_list [] b [] h e = refl
  hash-fill_list [] b (k ∷ ks) h e = refl
  hash-fill_list (x ∷ es) b [] h e =
      let taken = rw e at (next_bank-known t b x.hash h) in
      ap₂ ◌∷◌ taken.0 (rw taken.1 (hash-fill_list es b [] h e))
  hash-fill_list (x ∷ es) b (k ∷ ks) h e =
      let taken = rw e at (next_bank-known t b x.hash h) in
      ap₂ ◌∷◌ taken.0 (hash-fill_list es _ ks taken.2 taken.1)

  -- Every written entry selects the first 24 PCRs.
  abbrev pub SelectsAll : List Selection → Type 0
  SelectsAll [] = Unit
  SelectsAll (e ∷ es) =
      (e.sizeof_select ≡ 3) × (take 3 e.pcr_select ≡ 0xff ∷ 0xff ∷ 0xff ∷ []) × SelectsAll es

  SelectsAll-fill_list : (es : List Selection) (b : ℕ) → SelectsAll (fill_list t b es)
  unfolding fill_list
  SelectsAll-fill_list [] b = tt
  SelectsAll-fill_list (e ∷ es) b = (refl, refl, SelectsAll-fill_list es _)

  module _ (b : ℕ) (s : Selections) (room : count_algs_in_bitmap b ≤ length s.banks) where
    abbrev front : List Selection
    front = take (count_algs_in_bitmap b) s.banks

    length-front : length front ≡ count_algs_in_bitmap b
    length-front = omega (arith, length-take (count_algs_in_bitmap b) s.banks)

    banks-select_all :
        (select_all_active_pcrs t b s).banks
        ≡ fill_list t b front ++ drop (count_algs_in_bitmap b) s.banks
    unfolding select_all_active_pcrs
    banks-select_all =
        let whole = fill_banks-fill_list t front [] (drop (count_algs_in_bitmap b) s.banks) b in
        rw (length-front, take-append_drop) at whole

    length-fill_list : (es : List Selection) (c : ℕ) → length (fill_list t c es) ≡ length es
    unfolding fill_list
    length-fill_list [] c = refl
    length-fill_list (e ∷ es) c = ap suc (length-fill_list es (next_bank t c e.hash).1)

    written-front :
        take (count_algs_in_bitmap b) (select_all_active_pcrs t b s).banks ≡ fill_list t b front
    written-front =
        let n = length-fill_list front b ∙ length-front in
        let behind = drop (count_algs_in_bitmap b) s.banks in
        rw banks-select_all (rw n at (take-append_front (fill_list t b front) behind))

    kept-behind :
        drop (count_algs_in_bitmap b) (select_all_active_pcrs t b s).banks
        ≡ drop (count_algs_in_bitmap b) s.banks
    kept-behind =
        let n = length-fill_list front b ∙ length-front in
        let behind = drop (count_algs_in_bitmap b) s.banks in
        rw banks-select_all (rw n at (drop-append_front (fill_list t b front) behind))

    -- If the array has an entry for each bit of the UINT32 bitmap, `select_all_active_pcrs` writes
    -- that many, each with the first 24
    -- PCRs. The first entries get the hashes of the known algorithms, in the order of their bits;
    -- an entry for a bit of no known algorithm keeps the hash that was in the array before. The
    -- entries behind are not touched.
    pub select_all-known :
        b < 2 ^ 32
        → let n = count_algs_in_bitmap b in
          let after = select_all_active_pcrs t b s in
          (after.count ≡ n)
          × (map (λ e. e.hash) (take n after.banks)
              ≡ overwrite (known t b) (map (λ e. e.hash) (take n s.banks)))
          × SelectsAll (take n after.banks)
          × (drop n after.banks ≡ drop n s.banks)
    unfolding select_all_active_pcrs
    select_all-known h = (
      refl,
      rw written-front (hash-fill_list front b (known t b) h refl),
      rw written-front (SelectsAll-fill_list front b),
      kept-behind,
    )
