-- ===== src/Platform.antt =====
-- What the code takes from outside the repository: the constants and macros of the UEFI headers
-- (gnu-efi or EDK2) and of the TSS2 headers, CopyMem, and the firmware behind EFI_TCG2_PROTOCOL.
-- They are one parameter, a `Platform`; `IsLawful` states what is relied on of it.
-- Also here: the structures of src/tcg2-protocol.h that cross that boundary, and the machine state
-- that the code runs on.
use tpm2_tcti_uefi.Base.{
  ℕ, ◌≡◌, ◌≢◌, Bool, false, ◌≤◌, ◌<◌, ◌^◌, List, [], ◌∷◌, ◌++◌, length, take, drop, String,
}

-- EFI_TCG2_VERSION
pub record Version : Type 0 where
  pub major : ℕ
  pub minor : ℕ

-- EFI_TCG2_BOOT_SERVICE_CAPABILITY
pub record Capability : Type 0 where
  pub size : ℕ
  pub structure_version : Version
  pub protocol_version : Version
  pub hash_algorithm_bitmap : ℕ
  pub supported_event_logs : ℕ
  pub tpm_present_flag : ℕ
  pub max_command_size : ℕ
  pub max_response_size : ℕ
  pub manufacturer_id : ℕ
  pub number_of_pcr_banks : ℕ
  pub active_pcr_banks : ℕ

-- The three results of GetEventLog.
pub record LogLocation : Type 0 where
  pub first : ℕ
  pub last : ℕ
  pub truncated : ℕ

-- EFI_GUID
pub record Guid : Type 0 where
  pub time_low : ℕ
  pub time_mid : ℕ
  pub time_high : ℕ
  pub node : List ℕ

-- An argument of Print (a number, a text, wide characters, or a number divided by another as a
-- float), and a call of Print or of DumpHex (indent, offset, size, bytes).
pub data Arg : Type 0 where
  num : ℕ → Arg
  str : String → Arg
  wchars : List ℕ → Arg
  quotient : ℕ → ℕ → Arg

pub data Output : Type 0 where
  print : String → List Arg → Output
  dump_hex : ℕ → ℕ → ℕ → List ℕ → Output

-- The state that every function runs on: the firmware's own state, which only its services change,
-- and what has been printed so far.
pub record Machine (F : Type 0) : Type 0 where
  pub firmware : F
  pub output : List Output

abbrev pub M : Type 0 → Type 0 → Type 0
M F A = Machine F → A × Machine F

abbrev pub pure : {F A : Type 0} → A → M F A
pure a s = (a, s)

infixl 5 ◌>>=◌ ◌>>◌
abbrev pub ◌>>=◌ : {F A B : Type 0} → M F A → (A → M F B) → M F B
◌>>=◌ m f s = f (m s).0 (m s).1

abbrev pub ◌>>◌ : {F B : Type 0} → M F (Unit {0}) → M F B → M F B
◌>>◌ m k s = k (m s).1

abbrev pub emit : {F : Type 0} → Output → M F (Unit {0})
emit o s = (tt, record s { output = s.output ++ (o ∷ []) })

-- The services of the firmware. A protocol is known by its address, the `This` of its functions.
-- A function with OUT parameters takes their old contents and returns the new ones.
pub record Platform (F : Type 0) : Type 0 where
  -- EFI_ERROR and the EFI_STATUS codes
  pub efi_error : ℕ → Bool
  pub efi_success : ℕ
  pub efi_invalid_parameter : ℕ
  pub efi_buffer_too_small : ℕ
  pub efi_device_error : ℕ
  pub efi_access_denied : ℕ
  -- TSS2_RC codes, and TSS2_TCTI_TIMEOUT_BLOCK as an int32_t bit pattern
  pub rc_success : ℕ
  pub rc_general_failure : ℕ
  pub rc_not_implemented : ℕ
  pub rc_bad_context : ℕ
  pub rc_bad_reference : ℕ
  pub rc_bad_sequence : ℕ
  pub rc_bad_value : ℕ
  pub rc_insufficient_buffer : ℕ
  pub rc_io_error : ℕ
  pub timeout_block : ℕ
  -- sizeof (TSS2_TCTI_UEFI_CONTEXT) and sizeof (EFI_TCG2_BOOT_SERVICE_CAPABILITY)
  pub sizeof_context : ℕ
  pub sizeof_capability : ℕ
  -- CopyMem: destination and source bytes and a count, to the new destination
  pub copy_mem : List ℕ → List ℕ → ℕ → List ℕ
  -- what an uninitialised local variable holds
  pub uninitialised : ℕ
  pub uninitialised_location : LogLocation
  pub locate_protocol : Guid → F → ℕ × ℕ × F
  pub get_capability : ℕ → Capability → F → ℕ × Capability × F
  pub get_event_log : ℕ → ℕ → LogLocation → F → ℕ × LogLocation × F
  pub submit_command : ℕ → ℕ → List ℕ → ℕ → List ℕ → F → ℕ × List ℕ × F
  pub get_active_pcr_banks : ℕ → ℕ → F → ℕ × ℕ × F

module _ {F : Type 0} (p : Platform F) where
  -- The UEFI and TSS2 specifications: success is no error, and the codes differ from success.
  -- CopyMem copies the first bytes and keeps the rest; SubmitCommand fills the caller's buffer in
  -- place; the context structure has a size that a size_t holds.
  pub record IsLawful : Type 0 where
    pub success_no_error : p.efi_error p.efi_success ≡ false
    pub general_failure_fails : p.rc_general_failure ≢ p.rc_success
    pub not_implemented_fails : p.rc_not_implemented ≢ p.rc_success
    pub bad_context_fails : p.rc_bad_context ≢ p.rc_success
    pub bad_reference_fails : p.rc_bad_reference ≢ p.rc_success
    pub bad_sequence_fails : p.rc_bad_sequence ≢ p.rc_success
    pub bad_value_fails : p.rc_bad_value ≢ p.rc_success
    pub insufficient_buffer_fails : p.rc_insufficient_buffer ≢ p.rc_success
    pub io_error_fails : p.rc_io_error ≢ p.rc_success
    pub copy_mem_copies :
        (dst src : List ℕ) (n : ℕ)
        → n ≤ length dst
        → n ≤ length src
        → p.copy_mem dst src n ≡ take n src ++ drop n dst
    pub sizeof_context_fits : p.sizeof_context < 2 ^ 32
