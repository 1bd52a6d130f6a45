-- ===== src/Tpm.antt =====
-- The constants of tss2/tss2_tpm2_types.h that the example programs use, as a parameter: the
-- algorithm identifiers, the digest sizes, and the bounds of a PCR selection.
use tpm2_tcti_uefi.Base.{ℕ, ◌<◌, ◌≤◌}

pub record Tpm : Type 0 where
  pub alg_sha1 : ℕ
  pub alg_sha256 : ℕ
  pub alg_sha384 : ℕ
  pub alg_sha512 : ℕ
  pub alg_sm3_256 : ℕ
  pub sha1_digest_size : ℕ
  pub sha256_digest_size : ℕ
  pub sha384_digest_size : ℕ
  pub sha512_digest_size : ℕ
  pub sm3_256_digest_size : ℕ
  pub max_pcrs : ℕ

-- What the TPM library specification says of them: digests are not empty and at most 64 bytes, and
-- the PCR numbers fit the uint8_t that counts them.
pub record IsTpm (t : Tpm) : Type 0 where
  pub sha1_pos : 0 < t.sha1_digest_size
  pub sha256_pos : 0 < t.sha256_digest_size
  pub sha384_pos : 0 < t.sha384_digest_size
  pub sha512_pos : 0 < t.sha512_digest_size
  pub sm3_256_pos : 0 < t.sm3_256_digest_size
  pub sha1_small : t.sha1_digest_size ≤ 64
  pub sha256_small : t.sha256_digest_size ≤ 64
  pub sha384_small : t.sha384_digest_size ≤ 64
  pub sha512_small : t.sha512_digest_size ≤ 64
  pub sm3_256_small : t.sm3_256_digest_size ≤ 64
  pub max_pcrs_fit : t.max_pcrs < 256
