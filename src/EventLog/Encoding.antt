-- ===== src/EventLog/Encoding.antt =====
-- The events of a TCG 2 log as values, and how firmware lays them out in memory: the packed
-- structures TCG_EVENT_HEADER2, TCG_DIGEST2 and TCG_EVENT2 one behind the other.
use tpm2_tcti_uefi.Base.{
  get_or, ℕ, suc, ◌≡◌, ◌<◌, ◌+◌, ◌/◌, ◌%◌, ◌^◌, List, [], ◌∷◌, ◌++◌, length, arith,
}
use tpm2_tcti_uefi.Tpm.{Tpm}
use tpm2_tcti_uefi.Util.Names.{get_alg_size}
use tpm2_tcti_uefi.EventLog.Memory.{Memory, u16_at, u32_at}

pub record Digest : Type 0 where
  pub algorithm : ℕ
  pub hash : List ℕ

pub record Event : Type 0 where
  pub pcr : ℕ
  pub kind : ℕ
  pub digests : List Digest
  pub body : List ℕ

abbrev pub le16 : ℕ → List ℕ
le16 n = (n % 256) ∷ (n / 256 % 256) ∷ []

abbrev pub le32 : ℕ → List ℕ
le32 n = (n % 256) ∷ (n / 256 % 256) ∷ (n / 65536 % 256) ∷ (n / 16777216 % 256) ∷ []

abbrev pub encode_digests : List Digest → List ℕ
encode_digests [] = []
encode_digests (d ∷ ds) = le16 d.algorithm ++ (d.hash ++ encode_digests ds)

abbrev pub encode_event : Event → List ℕ
encode_event e =
    le32 e.pcr
    ++ (le32 e.kind
        ++ (le32 (length e.digests)
            ++ (encode_digests e.digests ++ (le32 (length e.body) ++ e.body))))

abbrev pub encode : List Event → List ℕ
encode [] = []
encode (e ∷ es) = encode_event e ++ encode es

-- The bytes lie in memory from an address on.
abbrev pub Holds : Memory → ℕ → List ℕ → Type 0
Holds m a [] = Unit
Holds m a (b ∷ bs) = (m a ≡ b) × Holds m (a + 1) bs

module _ (t : Tpm) where
  -- A digest has the size of its algorithm, and numbers fit their fields.
  abbrev pub AreDigests : List Digest → Type 0
  AreDigests [] = Unit
  AreDigests (d ∷ ds) =
      (d.algorithm < 2 ^ 16) × (length d.hash ≡ get_alg_size t d.algorithm) × AreDigests ds

  pub record IsEvent (e : Event) : Type 0 where
    pub pcr_fits : e.pcr < 2 ^ 32
    pub kind_fits : e.kind < 2 ^ 32
    pub count_fits : length e.digests < 2 ^ 32
    pub digests_ok : AreDigests e.digests
    pub size_fits : length e.body < 2 ^ 32

  abbrev pub AreEvents : List Event → Type 0
  AreEvents [] = Unit
  AreEvents (e ∷ es) = IsEvent e × AreEvents es

module _ (m : Memory) where
  Holds-append :
      (a : ℕ) (xs ys : List ℕ) → Holds m a (xs ++ ys) → Holds m a xs × Holds m (a + length xs) ys
  Holds-append a [] ys h = (tt, let e : a + 0 ≡ a = omega arith in rw e h)
  Holds-append a (x ∷ xs) ys h =
      let rest = Holds-append (a + 1) xs ys h.1 in
      let e : a + suc (length xs) ≡ a + 1 + length xs = omega arith in ((h.0, rest.0), rw e rest.1)

  pub Holds-front : (a : ℕ) (xs ys : List ℕ) → Holds m a (xs ++ ys) → Holds m a xs
  Holds-front a xs ys h = (Holds-append a xs ys h).0

  pub Holds-behind :
      (a b : ℕ) (xs ys : List ℕ) → Holds m a (xs ++ ys) → b ≡ a + length xs → Holds m b ys
  Holds-behind a b xs ys h e = rw e (Holds-append a xs ys h).1

  -- Reading back a number.
  pub u16_at-le16 : (a n : ℕ) → n < 2 ^ 16 → Holds m a (le16 n) → u16_at m a ≡ n
  unfolding u16_at
  u16_at-le16 a n fits h = omega arith

  pub u32_at-le32 : (a n : ℕ) → n < 2 ^ 32 → Holds m a (le32 n) → u32_at m a ≡ n
  unfolding u32_at
  u32_at-le32 a n fits h =
      let two : a + 2 ≡ a + 1 + 1 = omega arith in
      let three : a + 3 ≡ a + 1 + 1 + 1 = omega arith in rw (two, three) (omega arith)

-- Bytes that can be read one by one are held.
pub held :
    (m : Memory) (a : ℕ) (bs : List ℕ)
    → ((i : ℕ) → i < length bs → m (a + i) ≡ get_or bs i 0)
    → Holds m a bs
held m a [] h = tt
held m a (b ∷ bs) h =
    let here : a + 0 ≡ a = omega arith in
    let first : m a ≡ b = rw here at (h 0 (omega arith)) in
    (
      first,
      held m (a + 1) bs (λ i lt.
          let there : a + suc i ≡ a + 1 + i = omega arith in rw there at (h (suc i) (omega arith))),
    )
