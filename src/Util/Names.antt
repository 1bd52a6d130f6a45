-- ===== src/Util/Names.antt =====
-- example/util.c: the names and sizes that belong to the numbers of the TCG2 protocol and of the
-- TPM (`bitmap_val_str`, `tcg2_algorithm_bitmap_prettyprint`, `eventtype_to_string`,
-- `get_alg_size`, `get_alg_name`).
use tpm2_tcti_uefi.Base.{
  ℕ, ◌≡◌, ◌↔◌, ◌+◌, ◌≤◌, List, [], ◌∷◌, Bool, false, refl, ◌≢◌, not, ◌==◌, if◌then◌else◌, bit_and,
  String, arith,
}
use text.Mathlib.Text.{◌==◌ as str_eq}
use text.Mathlib.TextEquality.{eq_iff}
use tpm2_tcti_uefi.Platform.{M, str, print, ◌>>◌, emit}
use tpm2_tcti_uefi.Tpm.{Tpm, IsTpm}

-- A `switch` over numbers, its cases in order and its default.
abbrev pub switch {ℓ} : {A : Type ℓ} → List (ℕ × A) → A → ℕ → A
switch [] d n = d
switch ((k, a) ∷ cases) d n = if n == k then a else switch cases d n

-- The conversion of a number to a truth value.
abbrev pub is_set : ℕ → Bool
is_set n = not (n == 0)

unfoldable pub bitmap_val_str : ℕ → ℕ → String
bitmap_val_str member selector = if is_set (bit_and member selector) then "true" else "false"

-- values for EFI_TCG2_EVENT_ALGORITHM_BITMAP
abbrev pub boot_hash_sha1 : ℕ
boot_hash_sha1 = 0x00000001

abbrev pub boot_hash_sha256 : ℕ
boot_hash_sha256 = 0x00000002

abbrev pub boot_hash_sha384 : ℕ
boot_hash_sha384 = 0x00000004

abbrev pub boot_hash_sha512 : ℕ
boot_hash_sha512 = 0x00000008

abbrev pub boot_hash_sm3_256 : ℕ
boot_hash_sm3_256 = 0x00000010

unfoldable pub algorithm_bitmap_prettyprint : {F : Type 0} → ℕ → M F (Unit {0})
unfolding bitmap_val_str
algorithm_bitmap_prettyprint bitmap = do
  emit (
      print "    EFI_TCG2_BOOT_HASH_ALG_SHA1: %s\n"
        (str (bitmap_val_str bitmap boot_hash_sha1) ∷ []))
  emit (
      print "    EFI_TCG2_BOOT_HASH_ALG_SHA256: %s\n"
        (str (bitmap_val_str bitmap boot_hash_sha256) ∷ []))
  emit (
      print "    EFI_TCG2_BOOT_HASH_ALG_SHA384: %s\n"
        (str (bitmap_val_str bitmap boot_hash_sha384) ∷ []))
  emit (
      print "    EFI_TCG2_BOOT_HASH_ALG_SHA512: %s\n"
        (str (bitmap_val_str bitmap boot_hash_sha512) ∷ []))
  emit (
      print "    EFI_TCG2_BOOT_HASH_ALG_SM3_256: %s\n"
        (str (bitmap_val_str bitmap boot_hash_sm3_256) ∷ []))

-- EV_EFI_EVENT_BASE
abbrev event_base : ℕ
event_base = 0x80000000

-- The event types, EV_* of src/tcg2-protocol.h, and their names in the order of the cases.
abbrev pub event_names : List (ℕ × String)
event_names =
    (0x0, "EV_PREBOOT_CERT")
    ∷ (0x1, "EV_POST_CODE")
    ∷ (0x2, "EV_UNUSED")
    ∷ (0x3, "EV_NO_ACTION")
    ∷ (0x4, "EV_SEPARATOR")
    ∷ (0x5, "EV_ACTION")
    ∷ (0x6, "EV_EVENT_TAG")
    ∷ (0x7, "EV_S_CRTM_CONTENTS")
    ∷ (0x8, "EV_S_CRTM_VERSION")
    ∷ (0x9, "EV_CPU_MICROCODE")
    ∷ (0xa, "EV_PLATFORM_CONFIG_FLAGS")
    ∷ (0xb, "EV_TABLE_OF_DEVICES")
    ∷ (0xc, "EV_COMPACT_HASH")
    ∷ (0xd, "EV_IPL")
    ∷ (0xe, "EV_IPL_PARTITION_DATA")
    ∷ (0xf, "EV_NONHOST_CODE")
    ∷ (0x10, "EV_NONHOST_CONFIG")
    ∷ (0x11, "EV_NONHOST_INFO")
    ∷ (0x12, "EV_OMIT_BOOT_DEVICE_EVENTS")
    ∷ (event_base + 0x1, "EV_EFI_VARIABLE_DRIVER_CONFIG")
    ∷ (event_base + 0x2, "EV_EFI_VARIABLE_BOOT")
    ∷ (event_base + 0x3, "EV_EFI_BOOT_SERVICES_APPLICATION")
    ∷ (event_base + 0x4, "EV_EFI_BOOT_SERVICES_DRIVER")
    ∷ (event_base + 0x5, "EV_EFI_RUNTIME_SERVICES_DRIVER")
    ∷ (event_base + 0x6, "EV_EFI_GPT_EVENT")
    ∷ (event_base + 0x7, "EV_EFI_ACTION")
    ∷ (event_base + 0x8, "EV_EFI_PLATFORM_FIRMWARE_BLOB")
    ∷ (event_base + 0x9, "EV_EFI_HANDOFF_TABLES")
    ∷ (event_base + 0xe0, "EV_EFI_VARIABLE_AUTHORITY")
    ∷ []

unfoldable pub eventtype_to_string : ℕ → String
eventtype_to_string event_type = switch event_names "Unknown event type" event_type

-- The names of the algorithms are not the name for the others.
not_unknown :
    (name : String)
    → str_eq name "UNKNOWN_ALGORITHM" ≡ false
    → ◌≢◌ {A = String} name "UNKNOWN_ALGORITHM"
not_unknown name h e = cc (h, (eq_iff name "UNKNOWN_ALGORITHM").1 e)

module _ (t : Tpm) where
  unfoldable pub get_alg_size : ℕ → ℕ
  get_alg_size alg_id =
      switch
        ((t.alg_sha1, t.sha1_digest_size)
          ∷ (t.alg_sha256, t.sha256_digest_size)
          ∷ (t.alg_sha384, t.sha384_digest_size)
          ∷ (t.alg_sha512, t.sha512_digest_size)
          ∷ (t.alg_sm3_256, t.sm3_256_digest_size)
          ∷ [])
        0 alg_id

  unfoldable pub get_alg_name : ℕ → String
  get_alg_name alg_id =
      switch
        ((t.alg_sha1, "EFI_TCG2_BOOT_HASH_ALG_SHA1")
          ∷ (t.alg_sha256, "EFI_TCG2_BOOT_HASH_ALG_SHA256")
          ∷ (t.alg_sha384, "EFI_TCG2_BOOT_HASH_ALG_SHA384")
          ∷ (t.alg_sha512, "EFI_TCG2_BOOT_HASH_ALG_SHA512")
          ∷ (t.alg_sm3_256, "EFI_TCG2_BOOT_HASH_ALG_SM3_256")
          ∷ [])
        "UNKNOWN_ALGORITHM" alg_id

  -- If no digest size of a known algorithm is 0, an algorithm has size 0 exactly if it has no name.
  pub alg_size_zero_iff :
      IsTpm t
      → (alg_id : ℕ) → (get_alg_size alg_id ≡ 0) ↔ (get_alg_name alg_id ≡ "UNKNOWN_ALGORITHM")
  unfolding get_alg_size get_alg_name
  alg_size_zero_iff h alg_id = (
    λ e. ground arith,
    λ e. ground (
      arith,
      not_unknown "EFI_TCG2_BOOT_HASH_ALG_SHA1" refl,
      not_unknown "EFI_TCG2_BOOT_HASH_ALG_SHA256" refl,
      not_unknown "EFI_TCG2_BOOT_HASH_ALG_SHA384" refl,
      not_unknown "EFI_TCG2_BOOT_HASH_ALG_SHA512" refl,
      not_unknown "EFI_TCG2_BOOT_HASH_ALG_SM3_256" refl,
    ),
  )

  pub get_alg_size-le : IsTpm t → (alg_id : ℕ) → get_alg_size alg_id ≤ 64
  unfolding get_alg_size
  get_alg_size-le h alg_id = ground arith
