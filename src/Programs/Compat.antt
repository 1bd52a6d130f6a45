-- ===== src/Programs/Compat.antt =====
-- example/compat.c: the functions of the C library that the linked libraries want.
use tpm2_tcti_uefi.Base.{ℕ, ◌≡◌, ◌≤◌, ◌↔◌, ◌⊎◌, inl, inr, List, [], ◌∷◌, arith}
use tpm2_tcti_uefi.Platform.{Platform}
use tpm2_tcti_uefi.Util.Names.{switch}

-- An int is its bit pattern.
unfoldable pub isspace : ℕ → ℕ
isspace c =
    switch ((b' ', 1) ∷ (b'\t', 1) ∷ (b'\n', 1) ∷ (0x0b, 1) ∷ (0x0c, 1) ∷ (b'\r', 1) ∷ []) 0 c

-- The bytes at `dest` afterwards; what `src` points to is read before they are written.
abbrev pub memmove : {F : Type 0} → Platform F → List ℕ → List ℕ → ℕ → List ℕ
memmove p dest src count = p.copy_mem dest src count

-- `isspace` is 1 for the space and the codes from 9 to 13, and 0 for every other number.
pub isspace_iff :
    (c : ℕ)
    → ((isspace c ≡ 1) ↔ ((c ≡ 32) ⊎ ((9 ≤ c) × (c ≤ 13)))) × ((isspace c ≡ 1) ⊎ (isspace c ≡ 0))
unfolding isspace
isspace_iff c =
    ((λ e. ground arith, λ e. elim e [ inl a ↦ ground arith | inr b ↦ ground arith ]), ground arith)
