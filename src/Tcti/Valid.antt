-- ===== src/Tcti/Valid.antt =====
-- The invariant of a TCTI context: the magic and the version of this implementation, and a size
-- that is the number of bytes behind the structure.
use tpm2_tcti_uefi.Base.{
  ℕ, ◌≡◌, true, ◌≤◌, ◌++◌, List, Option, none, some, length, take, drop, length-append, length-take,
  length-drop, arith,
}
use tpm2_tcti_uefi.Tcti.{Context, uefi_magic, uefi_version, has_cast}

-- The context behind a pointer, or the given one behind NULL.
abbrev pub or_else : Context → Option Context → Context
or_else c none = c
or_else c (some d) = d

pub record IsValid (c : Context) : Type 0 where
  pub magic_ok : c.magic ≡ uefi_magic
  pub version_ok : c.version ≡ uefi_version
  pub capacity : c.size ≡ length c.cmd_buf

pub has_cast_of_valid : {c : Context} → IsValid c → has_cast c ≡ true
has_cast_of_valid v = ground arith

-- Copying `n` bytes over the front of a buffer that has room keeps its length.
pub length-overwrite :
    (dst src : List ℕ) (n : ℕ)
    → n ≤ length dst
    → n ≤ length src
    → length (take n src ++ drop n dst) ≡ length dst
length-overwrite dst src n d s =
    omega (arith, length-append (take n src) (drop n dst), length-take n src, length-drop n dst)
