-- ===== src/Sample.antt =====
-- A platform and a TPM with the constants of gnu-efi and of tpm2-tss on x86_64, and a firmware that
-- answers every service: its state counts the commands it has carried out. They show that what the
-- theorems assume can be met, and the tests run on them.
pub mod Services
use tpm2_tcti_uefi.Base.{
  ℕ, ◌≡◌, refl, ◌≤◌, ◌+◌, ◌^◌, List, [], ◌++◌, length, take, drop, leb, arith,
}
use tpm2_tcti_uefi.Platform.{Capability, LogLocation, Machine, Platform, IsLawful}
use tpm2_tcti_uefi.Tpm.{Tpm, IsTpm}

abbrev pub caps : Capability
caps = record {
  size = 36;
  structure_version = record { major = 1; minor = 1 };
  protocol_version = record { major = 1; minor = 0 };
  hash_algorithm_bitmap = 3;
  supported_event_logs = 1;
  tpm_present_flag = 1;
  max_command_size = 16;
  max_response_size = 12;
  manufacturer_id = 7;
  number_of_pcr_banks = 2;
  active_pcr_banks = 3;
}

abbrev location : LogLocation
location = record { first = 4096; last = 4096; truncated = 0 }

-- The firmware finds the protocol at 0x1000 and answers a command with its first two bytes.
abbrev pub platform : Platform ℕ
platform = record {
  efi_error = λ status. leb (2 ^ 63) status;
  efi_success = 0;
  efi_invalid_parameter = 2 ^ 63 + 2;
  efi_buffer_too_small = 2 ^ 63 + 5;
  efi_device_error = 2 ^ 63 + 7;
  efi_access_denied = 2 ^ 63 + 15;
  rc_success = 0;
  rc_general_failure = 0xa0001;
  rc_not_implemented = 0xa0002;
  rc_bad_context = 0xa0003;
  rc_bad_reference = 0xa0005;
  rc_bad_sequence = 0xa0007;
  rc_bad_value = 0xa000b;
  rc_insufficient_buffer = 0xa0006;
  rc_io_error = 0xa000a;
  timeout_block = 0xffffffff;
  sizeof_context = 88;
  sizeof_capability = 36;
  copy_mem = λ dst src n. take n src ++ drop n dst;
  uninitialised = 99;
  uninitialised_location = record { first = 9; last = 9; truncated = 9 };
  locate_protocol = λ guid g. (0, 0x1000, g);
  get_capability = λ protocol old g. (0, caps, g);
  get_event_log = λ protocol format old g. (0, location, g);
  submit_command = λ protocol size block room old g. (0, take 2 block, g + 1);
  get_active_pcr_banks = λ protocol old g. (0, 3, g);
}

copies :
    (dst src : List ℕ) (n : ℕ)
    → n ≤ length dst
    → n ≤ length src
    → platform.copy_mem dst src n ≡ take n src ++ drop n dst
copies dst src n d s = refl

pub lawful : IsLawful platform
lawful = record {
  success_no_error = refl;
  general_failure_fails = omega arith;
  not_implemented_fails = omega arith;
  bad_context_fails = omega arith;
  bad_reference_fails = omega arith;
  bad_sequence_fails = omega arith;
  bad_value_fails = omega arith;
  insufficient_buffer_fails = omega arith;
  io_error_fails = omega arith;
  copy_mem_copies = copies;
  sizeof_context_fits = omega arith;
}

abbrev pub machine : Machine ℕ
machine = record { firmware = 0; output = [] }

abbrev pub tpm : Tpm
tpm = record {
  alg_sha1 = 0x4;
  alg_sha256 = 0xb;
  alg_sha384 = 0xc;
  alg_sha512 = 0xd;
  alg_sm3_256 = 0x12;
  sha1_digest_size = 20;
  sha256_digest_size = 32;
  sha384_digest_size = 48;
  sha512_digest_size = 64;
  sm3_256_digest_size = 32;
  max_pcrs = 32;
}

pub tpm-IsTpm : IsTpm tpm
tpm-IsTpm = omega arith
