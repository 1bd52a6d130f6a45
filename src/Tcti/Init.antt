-- ===== src/Tcti/Init.antt =====
-- `Tss2_Tcti_Uefi_Init`: the size query, the initialisation, and the two in a row.
use tpm2_tcti_uefi.Base.{
  ℕ, ◌≡◌, ◌↔◌, false, ◌+◌, ◌-◌, ◌≤◌, ◌<◌, ◌^◌, max, List, length, none, some, arith,
}
use tpm2_tcti_uefi.Platform.{Capability, Machine, Platform, IsLawful}
use tpm2_tcti_uefi.Tcg2
use tpm2_tcti_uefi.Tcg2.Laws.{capabilities, get_max_buf_lem}
use tpm2_tcti_uefi.Tcti.{Context, header_size, transmitting, transmit, init, sizeof_tcti_context}
use tpm2_tcti_uefi.Tcti.Valid.{IsValid}
use tpm2_tcti_uefi.Tcti.Receive.{located}

module _ {F : Type 0} (p : Platform F) where
  -- The machine after LibLocateProtocol.
  abbrev pub after_locating : Machine F → Machine F
  after_locating s = record s { firmware = (located p s.firmware).2 }

  -- The capabilities that the size query reads.
  abbrev pub reported : Machine F → ℕ × Capability × F
  reported s = capabilities p (located p s.firmware).1 (after_locating s)

  -- The firmware answers the size query: the protocol is there, GetCapability succeeds, and the
  -- two sizes are UINT16, not both 0.
  pub record Answers (s : Machine F) : Type 0 where
    pub found : p.efi_error (located p s.firmware).0 ≡ false
    pub capable : p.efi_error (reported s).0 ≡ false
    pub command_fits : (reported s).1.max_command_size < 2 ^ 16
    pub response_fits : (reported s).1.max_response_size < 2 ^ 16
    pub not_empty : 0 < max (reported s).1.max_command_size (reported s).1.max_response_size

  abbrev pub max_buf : Machine F → ℕ
  max_buf s = max (reported s).1.max_command_size (reported s).1.max_response_size

module _ {F : Type 0} {p : Platform F} (lawful : IsLawful p) where
  sizeof_tcti_context_lem :
      (s : Machine F) → Answers p s → (sizeof_tcti_context p s).0 ≡ max_buf p s + p.sizeof_context
  unfolding sizeof_tcti_context Tcg2.get_protocol
  sizeof_tcti_context_lem s a = ground (
    arith,
    get_max_buf_lem p (located p s.firmware).1 (after_locating p s),
    lawful.sizeof_context_fits,
  )

  sizeof_tcti_context-firmware :
      (s : Machine F) → Answers p s → (sizeof_tcti_context p s).1.firmware ≡ (reported p s).2
  unfolding sizeof_tcti_context Tcg2.get_protocol
  sizeof_tcti_context-firmware s a =
      ground (arith, get_max_buf_lem p (located p s.firmware).1 (after_locating p s))

  -- What the size query writes, and the firmware behind it, where the firmware answers it.
  pub init-query_size :
      (any : ℕ) (s : Machine F)
      → Answers p s
      → ((init p none (some any) s).0.rc ≡ p.rc_success)
        × ((init p none (some any) s).0.size ≡ some (p.sizeof_context + max_buf p s))
        × (p.sizeof_context + max_buf p s < 2 ^ 64)
        × ((init p none (some any) s).1.firmware ≡ (reported p s).2)
  unfolding init
  init-query_size any s a = ground (
    arith,
    sizeof_tcti_context_lem s a,
    sizeof_tcti_context-firmware s a,
    lawful.sizeof_context_fits,
  )

  -- With sizes that are UINT16, the size query returns TSS2_RC_SUCCESS exactly if the protocol is
  -- found, its capabilities are to be had, and one of the two buffer sizes is not 0.
  pub init_query-success_iff :
      (any : ℕ) (s : Machine F)
      → (reported p s).1.max_command_size < 2 ^ 16
      → (reported p s).1.max_response_size < 2 ^ 16
      → ((init p none (some any) s).0.rc ≡ p.rc_success) ↔ (
          (p.efi_error (located p s.firmware).0 ≡ false)
          × (p.efi_error (reported p s).0 ≡ false)
          × (0 < max_buf p s))
  unfolding init sizeof_tcti_context Tcg2.get_protocol
  init_query-success_iff any s hc hr = (
    λ e. ground (
      arith,
      get_max_buf_lem p (located p s.firmware).1 (after_locating p s),
      lawful.sizeof_context_fits,
      lawful.general_failure_fails,
    ),
    λ h. ground (
      arith,
      get_max_buf_lem p (located p s.firmware).1 (after_locating p s),
      lawful.sizeof_context_fits,
    ),
  )

  -- A context that is initialised over a block of `size` bytes is valid and ready to transmit, if
  -- the block has room for the structure.
  pub init-IsValid :
      (c : Context) (size : ℕ) (s : Machine F)
      → p.sizeof_context ≤ size
      → size < 2 ^ 64
      → length c.cmd_buf ≡ size - p.sizeof_context
      → (d : Context) → (init p (some c) (some size) s).0.context ≡ some d
      → IsValid d × (d.state ≡ transmitting)
  unfolding init
  init-IsValid c size s room fits block d e = ground arith

  -- The two calls in a row, where the firmware answers the query and the block has room for the
  -- largest command and response behind the structure: the query succeeds and writes the size that
  -- a block needs, and over a block of that size the second call makes a valid context whose buffer
  -- holds the larger of the largest command and the largest response.
  pub init_handshake :
      (any : ℕ) (s : Machine F)
      → Answers p s
      → (c : Context) → length c.cmd_buf ≡ max_buf p s
      → (n : ℕ) → (init p none (some any) s).0.size ≡ some n
      → (d : Context) → (init p (some c) (some n) (init p none (some any) s).1).0.context ≡ some d
      → ((init p none (some any) s).0.rc ≡ p.rc_success)
        × (n ≡ p.sizeof_context + max_buf p s)
        × IsValid d
        × (d.state ≡ transmitting)
        × (d.size ≡ max_buf p s)
  unfolding init
  init_handshake any s a c block n e d f =
      ground (arith, sizeof_tcti_context_lem s a, lawful.sizeof_context_fits)

  -- A `*size` below that of the structure is accepted and wraps: the context then takes a command
  -- of every length from 11 to 2^63 bytes, though the block has no byte behind the structure.
  pub init_wraps :
      (c : Context) (size : ℕ) (s : Machine F)
      → size < p.sizeof_context
      → (d : Context) → (init p (some c) (some size) s).0.context ≡ some d
      → (n : ℕ) (command : List ℕ) → header_size < n
      → n ≤ 2 ^ 63
      → ((init p (some c) (some size) s).0.rc ≡ p.rc_success)
        × ((transmit p (some d) n (some command) s).0.0 ≡ p.rc_success)
  unfolding init transmit
  init_wraps c size s small d e n command h k = ground (arith, lawful.sizeof_context_fits)
