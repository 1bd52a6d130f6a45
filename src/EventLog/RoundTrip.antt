-- ===== src/EventLog/RoundTrip.antt =====
-- A log that firmware has laid out as in `Encoding` is walked event by event.
use tpm2_tcti_uefi.Base.{
  ℕ, zero, suc, ◌≡◌, ◌≤◌, ◌<◌, ◌+◌, ◌-◌, ◌^◌, List, [], ◌∷◌, ◌++◌, length, length-append, arith,
  refl, Bool, true, false, some,
}
use tpm2_tcti_uefi.Tpm.{Tpm, IsTpm}
use tpm2_tcti_uefi.Util.Names.{get_alg_size}
use tpm2_tcti_uefi.EventLog.Memory.{
  Memory, IsMemory, algorithm_id, event_size, digest_count, pcr_index, event_type,
}
use tpm2_tcti_uefi.EventLog.Walk.{Callback, get_next_event, visit_events, foreach_event2}
use tpm2_tcti_uefi.EventLog.Progress.{digests_size, body_of, get_next_event_lem}
use tpm2_tcti_uefi.EventLog.Encoding.{
  Digest, Event, le16, le32, encode_digests, encode_event, encode, Holds, AreDigests, IsEvent,
  AreEvents, Holds-front, Holds-behind, u16_at-le16, u32_at-le32,
}

module _ (t : Tpm) (m : Memory) where
  digests_size-encode :
      (ds : List Digest) (a : ℕ)
      → AreDigests t ds
      → Holds m a (encode_digests ds)
      → digests_size t m (length ds) a ≡ length (encode_digests ds)
  unfolding digests_size
  digests_size-encode [] a ok h = refl
  digests_size-encode (d ∷ ds) a ok h =
      let alg : algorithm_id m a ≡ d.algorithm =
        u16_at-le16 m a d.algorithm ok.0 (Holds-front m a (le16 d.algorithm) _ h) in
      let behind =
        Holds-behind m (a + 1 + 1) (a + (2 + get_alg_size t d.algorithm)) d.hash (encode_digests ds)
          h.1.1 (omega (arith, ok.1)) in
      rw alg (
        omega (
          arith,
          ok.1,
          length-append d.hash (encode_digests ds),
          digests_size-encode ds (a + (2 + get_alg_size t d.algorithm)) ok.2 behind,
        ))

  -- The fields that the code reads of a laid out event, and where its parts lie.
  pub record Reads (a : ℕ) (e : Event) : Type 0 where
    pub pcr_read : pcr_index m a ≡ e.pcr
    pub kind_read : event_type m a ≡ e.kind
    pub count_read : digest_count m a ≡ length e.digests
    pub digests_here : Holds m (a + 12) (encode_digests e.digests)
    pub body_here : body_of t m a ≡ a + 12 + length (encode_digests e.digests)
    pub size_read : event_size m (body_of t m a) ≡ length e.body
    pub body_bytes : Holds m (body_of t m a + 4) e.body

  pub Reads-Holds : (a : ℕ) (e : Event) → IsEvent t e → Holds m a (encode_event e) → Reads a e
  Reads-Holds a e ok h =
      let size = le32 (length e.body) ++ e.body in
      let digests = encode_digests e.digests ++ size in
      let count = le32 (length e.digests) ++ digests in
      let at_kind = Holds-behind m a (a + 4) (le32 e.pcr) (le32 e.kind ++ count) h (omega arith) in
      let at_count = Holds-behind m (a + 4) (a + 8) (le32 e.kind) count at_kind (omega arith) in
      let at_digests =
        Holds-behind m (a + 8) (a + 12) (le32 (length e.digests)) digests at_count (omega arith) in
      let n = a + 12 + length (encode_digests e.digests) in
      let at_size = Holds-behind m (a + 12) n (encode_digests e.digests) size at_digests refl in
      let at_body = Holds-behind m n (n + 4) (le32 (length e.body)) e.body at_size (omega arith) in
      let here = Holds-front m (a + 12) (encode_digests e.digests) size at_digests in
      let count_read : digest_count m a ≡ length e.digests =
        u32_at-le32 m (a + 8) (length e.digests) ok.count_fits
          (Holds-front m (a + 8) (le32 (length e.digests)) digests at_count) in
      let body_here : body_of t m a ≡ n =
        rw (count_read, digests_size-encode e.digests (a + 12) ok.digests_ok here) in
      record {
        pcr_read =
            u32_at-le32 m a e.pcr ok.pcr_fits
              (Holds-front m a (le32 e.pcr) (le32 e.kind ++ count) h);
        kind_read =
            u32_at-le32 m (a + 4) e.kind ok.kind_fits
              (Holds-front m (a + 4) (le32 e.kind) count at_kind);
        count_read = count_read;
        digests_here = here;
        body_here = body_here;
        size_read = rw body_here (
            u32_at-le32 m n (length e.body) ok.size_fits
              (Holds-front m n (le32 (length e.body)) e.body at_size));
        body_bytes = rw body_here at_body;
      }

  -- `get_next_event` of an event that is laid out below 2^63 is the address behind its last byte.
  pub get_next_event-encode :
      IsTpm t
      → IsMemory m
      → (a : ℕ) (e : Event) → a < 2 ^ 63
      → IsEvent t e
      → Holds m a (encode_event e)
      → get_next_event t m a ≡ a + length (encode_event e)
  get_next_event-encode h ok a e low is holds =
      let r = Reads-Holds a e is holds in
      omega (
        arith,
        get_next_event_lem t m h ok a low,
        r.body_here,
        r.size_read,
        length-append (encode_digests e.digests) (le32 (length e.body) ++ e.body),
      )

  -- The addresses of events that lie one behind the other, and that of the last one.
  abbrev pub starts : ℕ → List Event → List ℕ
  starts a [] = []
  starts a (e ∷ es) = a ∷ starts (a + length (encode_event e)) es

  abbrev pub last_start : ℕ → Event → List Event → ℕ
  last_start a e [] = a
  last_start a e (f ∷ es) = last_start (a + length (encode_event e)) f es

  le-last_start : (a : ℕ) (e : Event) (es : List Event) → a ≤ last_start a e es
  le-last_start a e [] = omega arith
  le-last_start a e (f ∷ es) = omega (arith, le-last_start (a + length (encode_event e)) f es)

  module _ {D : Type 0} (callback : Callback D) where
    -- Hands each address to the callback until it says stop.
    unfoldable pub walk : List ℕ → D → Bool × D
    walk [] d = (true, d)
    walk (a ∷ rest) d =
        let (go_on, d') = callback a d in elim go_on [ true ↦ walk rest d' | false ↦ (false, d') ]

    -- Behind the last event the loop ends.
    past :
        (fuel event event_last : ℕ) (d : D)
        → event_last < event
        → 0 < fuel
        → visit_events t m callback fuel event event_last d ≡ some (true, d)
    unfolding visit_events
    past zero event event_last d h f = absurd (omega arith)
    past (suc fuel) event event_last d h f = ground arith

    visit_events-walk :
        IsTpm t
        → IsMemory m
        → (es : List Event) (e : Event) (fuel a : ℕ) (d : D) → 0 < a
        → last_start a e es < 2 ^ 63
        → last_start a e es + 1 < fuel + a
        → AreEvents t (e ∷ es)
        → Holds m a (encode (e ∷ es))
        → visit_events t m callback fuel a (last_start a e es) d ≡ some (walk (starts a (e ∷ es)) d)
    unfolding visit_events walk
    visit_events-walk h ok [] e zero a d pos low g are holds = absurd (omega arith)
    visit_events-walk h ok [] e (suc fuel) a d pos low g are holds =
        let next =
          get_next_event-encode h ok a e low are.0 (Holds-front m a (encode_event e) [] holds) in
        ground (arith, next, past fuel (a + length (encode_event e)) a (callback a d).1)
    visit_events-walk h ok (f ∷ es) e zero a d pos low g are holds =
        absurd (omega (arith, le-last_start a e (f ∷ es)))
    visit_events-walk h ok (f ∷ es) e (suc fuel) a d pos low g are holds =
        let size = length (encode_event e) in
        let front = Holds-front m a (encode_event e) (encode (f ∷ es)) holds in
        let behind = Holds-behind m a (a + size) (encode_event e) (encode (f ∷ es)) holds refl in
        let within = le-last_start (a + size) f es in
        let next = get_next_event-encode h ok a e (omega arith) are.0 front in
        let rest =
          visit_events-walk h ok es f fuel (a + size) (callback a d).1 (omega arith) low
            (omega arith) are.1 behind in
        ground (arith, within, next, rest)

  -- A log of events laid out from `first` on, the last of which begins at `last` below 2^63: the
  -- walk hands the callback the address of each event, in their order, until the callback returns
  -- false.
  pub foreach_event2-walk :
      IsTpm t
      → IsMemory m
      → {D : Type 0} (callback : Callback D) (e : Event) (es : List Event) (first last : ℕ) (d : D)
      → 0 < first
      → last ≡ last_start first e es
      → last < 2 ^ 63
      → AreEvents t (e ∷ es)
      → Holds m first (encode (e ∷ es))
      → foreach_event2 t m first last (some callback) d
        ≡ some (walk callback (starts first (e ∷ es)) d)
  unfolding foreach_event2
  foreach_event2-walk h ok callback e es first last d pos eq low are holds =
      let within = le-last_start first e es in
      let fuel = last_start first e es + 1 - first + 1 in
      let whole =
        visit_events-walk callback h ok es e fuel first d pos (omega arith) (omega arith) are
          holds in
      rw eq (ground (arith, within, whole))
