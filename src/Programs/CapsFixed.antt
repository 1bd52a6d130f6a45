-- ===== src/Programs/CapsFixed.antt =====
-- example/tpm2-get-caps-fixed.c: the printing of the fixed properties of a TPM, with the parameters
-- of `PropertyText`.
use tpm2_tcti_uefi.Base.{ℕ, List, [], ◌∷◌, ◌++◌, String}
use tpm2_tcti_uefi.Platform.{Output, num, print}
use tpm2_tcti_uefi.Util.Names.{switch}
use tpm2_tcti_uefi.Programs.PropertyText.{Unpack}
use tpm2_tcti_uefi.Programs.PropertyCases.{first_cases, other_cases}

-- TPMS_TAGGED_PROPERTY
pub record Property : Type 0 where
  pub property : ℕ
  pub value : ℕ

module _ (constant : String → ℕ) (unpack : Unpack) where
  abbrev pub property_cases : List (ℕ × (ℕ → List Output))
  property_cases = first_cases constant unpack ++ other_cases constant unpack

  -- What one round of the loop prints.
  unfoldable pub dump_property : Property → List Output
  dump_property p =
      switch property_cases (λ value. print "Unknown property: 0x%x\n" (num p.property ∷ []) ∷ [])
        p.property p.value

  -- The array and its count are one list here.
  unfoldable pub dump_tpm_properties_fixed : List Property → List Output
  dump_tpm_properties_fixed [] = []
  dump_tpm_properties_fixed (p ∷ ps) = dump_property p ++ dump_tpm_properties_fixed ps
