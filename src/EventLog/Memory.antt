-- ===== src/EventLog/Memory.antt =====
-- Memory as bytes by address, little-endian reads, and the layout of the packed structures of
-- src/tcg2-protocol.h. A pointer is a 64-bit address and NULL is 0; pointer arithmetic wraps.
use tpm2_tcti_uefi.Base.{ℕ, zero, suc, ◌+◌, ◌*◌, ◌%◌, ◌^◌, ◌<◌, List, [], ◌∷◌, arith}

abbrev pub Memory : Type 0
Memory = ℕ → ℕ

abbrev pub null : ℕ
null = 0

-- Pointer arithmetic.
abbrev pub offset : ℕ → ℕ → ℕ
offset a n = (a + n) % 2 ^ 64

-- A UINT16 and a UINT32 at an address.
unfoldable pub u16_at : Memory → ℕ → ℕ
u16_at m a = m a + 256 * m (a + 1)

unfoldable pub u32_at : Memory → ℕ → ℕ
u32_at m a = m a + 256 * m (a + 1) + 65536 * m (a + 2) + 16777216 * m (a + 3)

unfoldable pub bytes_at : Memory → ℕ → ℕ → List ℕ
bytes_at m a zero = []
bytes_at m a (suc n) = m a ∷ bytes_at m (a + 1) n

-- TCG_DIGEST2: AlgorithmId, and the offset of Digest.
abbrev pub algorithm_id : Memory → ℕ → ℕ
algorithm_id m digest = u16_at m digest

abbrev pub digest2_header : ℕ
digest2_header = 2

-- TCG_EVENT2: EventSize, and the offset of Event.
abbrev pub event_size : Memory → ℕ → ℕ
event_size m event = u32_at m event

abbrev pub event2_header : ℕ
event2_header = 4

-- TCG_EVENT_HEADER2: PCRIndex, EventType, DigestCount, and the offset of Digests.
abbrev pub pcr_index : Memory → ℕ → ℕ
pcr_index m hdr = u32_at m hdr

abbrev pub event_type : Memory → ℕ → ℕ
event_type m hdr = u32_at m (hdr + 4)

abbrev pub digest_count : Memory → ℕ → ℕ
digest_count m hdr = u32_at m (hdr + 8)

abbrev pub header2_size : ℕ
header2_size = 12

-- The bytes of memory are bytes.
abbrev pub IsMemory : Memory → Type 0
IsMemory m = (a : ℕ) → m a < 256

pub u32_at-lt : (m : Memory) → IsMemory m → (a : ℕ) → u32_at m a < 2 ^ 32
unfolding u32_at
u32_at-lt m h a = omega (arith, h a, h (a + 1), h (a + 2), h (a + 3))
