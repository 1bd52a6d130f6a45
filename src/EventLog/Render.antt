-- ===== src/EventLog/Render.antt =====
-- What is printed of a log is the text of its events.
use tpm2_tcti_uefi.Base.{
  ℕ, suc, ◌≡◌, ◌<◌, ◌+◌, ◌%◌, ◌^◌, List, [], ◌∷◌, ◌++◌, length, length-append, append_assoc,
  append-nil, arith, refl, ap₂, ◌∙◌, true, false, some, ◌==◌,
}
use native.Mathlib.Nat.{zero-add}
use tpm2_tcti_uefi.Platform.{num, str, print, dump_hex}
use tpm2_tcti_uefi.Tpm.{Tpm, IsTpm}
use tpm2_tcti_uefi.Util.Names.{get_alg_name, eventtype_to_string}
use tpm2_tcti_uefi.EventLog.Memory.{Memory, IsMemory, bytes_at, algorithm_id, event_size}
use tpm2_tcti_uefi.EventLog.Walk.{visit_digests, get_next_digest, sizeof_digest2, foreach_digest2}
use tpm2_tcti_uefi.EventLog.Encoding.{
  Digest, Event, le16, le32, encode_digests, encode_event, encode, Holds, AreDigests, IsEvent,
  AreEvents, Holds-front, Holds-behind, u16_at-le16,
}
use tpm2_tcti_uefi.EventLog.RoundTrip.{
  Reads, Reads-Holds, starts, last_start, walk, foreach_event2-walk,
}
use tpm2_tcti_uefi.EventLog.Print.{
  Lines, prettyprint_digest, prettyprint_digest_callback, prettyprint_event_header,
  prettyprint_eventbuf, prettyprint_event, prettyprint_event_callback, prettyprint_tpm2_eventlog,
}

-- Reading back bytes.
pub bytes_at-Holds :
    (m : Memory) (a : ℕ) (bs : List ℕ) → Holds m a bs → bytes_at m a (length bs) ≡ bs
unfolding bytes_at
bytes_at-Holds m a [] h = refl
bytes_at-Holds m a (b ∷ bs) h = ap₂ ◌∷◌ h.0 (bytes_at-Holds m (a + 1) bs h.1)

module _ (t : Tpm) where
  -- The text of a digest, of the digests of an event, of an event, and of a log.
  abbrev pub digest_text : Digest → Lines
  digest_text d =
      print "    AlgorithmId: %s (0x%x)\n" (str (get_alg_name t d.algorithm) ∷ num d.algorithm ∷ [])
      ∷ print "    Digest: %d bytes\n" (num (length d.hash) ∷ [])
      ∷ dump_hex 4 0 (length d.hash) d.hash
      ∷ []

  abbrev pub digests_text : List Digest → Lines
  digests_text [] = []
  digests_text (d ∷ ds) = digest_text d ++ digests_text ds

  abbrev pub header_text : Event → Lines
  header_text e =
      print "  PCRIndex: %d\n" (num e.pcr ∷ [])
      ∷ print "  EventType: %s (0x%x)\n" (str (eventtype_to_string e.kind) ∷ num e.kind ∷ [])
      ∷ print "  DigestCount: %d\n" (num (length e.digests) ∷ [])
      ∷ []

  abbrev pub body_text : Event → Lines
  body_text e =
      print "  Event: %u bytes\n" (num (length e.body) ∷ [])
      ∷ dump_hex 2 0 (length e.body) e.body
      ∷ []

  abbrev pub event_text : Event → Lines
  event_text e = header_text e ++ (digests_text e.digests ++ body_text e)

  abbrev pub log_text : List Event → Lines
  log_text [] = []
  log_text (e ∷ es) = event_text e ++ log_text es

module _ (t : Tpm) (m : Memory) where
  digest_printed :
      (a : ℕ) (d : Digest) (rest : List Digest) (lines : Lines)
      → AreDigests t (d ∷ rest)
      → Holds m a (encode_digests (d ∷ rest))
      → prettyprint_digest t m a lines ≡ lines ++ digest_text t d
  unfolding prettyprint_digest
  digest_printed a d rest lines ok h =
      let alg : algorithm_id m a ≡ d.algorithm =
        u16_at-le16 m a d.algorithm ok.0 (Holds-front m a (le16 d.algorithm) _ h) in
      let at_hash : Holds m (a + 2) (d.hash ++ encode_digests rest) =
        Holds-behind m a (a + 2) (le16 d.algorithm) (d.hash ++ encode_digests rest) h refl in
      let hash = bytes_at-Holds m (a + 2) d.hash (Holds-front m (a + 2) d.hash _ at_hash) in
      rw (alg, ← ok.1, hash)

  digests_go :
      (n a size next : ℕ) (lines after : Lines)
      → 0 < a
      → prettyprint_digest t m a lines ≡ after
      → get_next_digest t m a ≡ next
      → visit_digests t m (prettyprint_digest_callback t m) (suc n) a true (some size, lines)
        ≡ visit_digests t m
            (prettyprint_digest_callback t m)
            n
            next
            true
            (some ((size + sizeof_digest2 t m a) % 2 ^ 64), after)
  unfolding visit_digests prettyprint_digest_callback
  digests_go n a size next lines after pos printed there = ground arith

  digests_printed :
      (ds : List Digest) (a size : ℕ) (lines : Lines)
      → 0 < a
      → a + length (encode_digests ds) < 2 ^ 64
      → size + length (encode_digests ds) < 2 ^ 64
      → AreDigests t ds
      → Holds m a (encode_digests ds)
      → visit_digests t m (prettyprint_digest_callback t m) (length ds) a true (some size, lines)
        ≡ (true, (some (size + length (encode_digests ds)), lines ++ digests_text t ds))
  unfolding visit_digests prettyprint_digest_callback get_next_digest sizeof_digest2
  digests_printed [] a size lines pos fa fs ok h = ground (arith, append-nil lines)
  digests_printed (d ∷ ds) a size lines pos fa fs ok h =
      let alg : algorithm_id m a ≡ d.algorithm =
        u16_at-le16 m a d.algorithm ok.0 (Holds-front m a (le16 d.algorithm) _ h) in
      let n = 2 + length d.hash in
      let long = length-append d.hash (encode_digests ds) in
      let next : get_next_digest t m a ≡ a + n = rw (alg, ← ok.1) (omega (arith, long)) in
      let sum : (size + sizeof_digest2 t m a) % 2 ^ 64 ≡ size + n =
        rw (alg, ← ok.1) (omega (arith, long)) in
      let behind =
        Holds-behind m (a + 1 + 1) (a + n) d.hash (encode_digests ds) h.1.1 (omega arith) in
      let rest =
        digests_printed ds (a + n) (size + n) (lines ++ digest_text t d) (omega arith)
          (omega (arith, long)) (omega (arith, long)) ok.2 behind in
      let total : size + n + length (encode_digests ds) ≡ size + length (encode_digests (d ∷ ds)) =
        omega (arith, long) in
      digests_go (length ds) a size (a + n) lines (lines ++ digest_text t d) pos
        (digest_printed a d ds lines ok h) next
      ∙ rw (sum, rest, total, append_assoc)

  header_printed :
      (a : ℕ) (e : Event) (lines : Lines)
      → Reads t m a e
      → prettyprint_event_header t m a lines ≡ lines ++ header_text t e
  unfolding prettyprint_event_header
  header_printed a e lines r = rw (r.pcr_read, r.kind_read, r.count_read)

  body_printed :
      (a n : ℕ) (bs : List ℕ) (lines : Lines)
      → event_size m n ≡ length bs
      → Holds m (n + 4) bs
      → prettyprint_eventbuf t m n lines
        ≡ lines
          ++ (print "  Event: %u bytes\n" (num (length bs) ∷ []) ∷ dump_hex 2 0 (length bs) bs ∷ [])
  unfolding prettyprint_eventbuf
  body_printed a n bs lines size h = rw (size, bytes_at-Holds m (n + 4) bs h)

  -- Printing a laid out event appends its text.
  pub event_printed :
      (a : ℕ) (e : Event) (lines : Lines)
      → 0 < a
      → a + length (encode_event e) < 2 ^ 64
      → IsEvent t e
      → Holds m a (encode_event e)
      → prettyprint_event t m a lines ≡ lines ++ event_text t e
  unfolding prettyprint_event foreach_digest2
  event_printed a e lines pos fits is h =
      let r = Reads-Holds t m a e is h in
      let len = length (encode_digests e.digests) in
      let long = length-append (encode_digests e.digests) (le32 (length e.body) ++ e.body) in
      let start : (a + 12) % 2 ^ 64 ≡ a + 12 = omega (arith, long) in
      let body : (a + 12 + len) % 2 ^ 64 ≡ a + 12 + len = omega (arith, long) in
      let digests =
        digests_printed e.digests (a + 12) 0 (lines ++ header_text t e) (omega arith)
          (omega (arith, long)) (omega (arith, long)) is.digests_ok r.digests_here in
      let here : (a == 0) ≡ false = ground arith in
      let at_body = rw r.body_here at r.body_bytes in
      let size = rw r.body_here at r.size_read in
      rw
        (
          prettyprint_event,
          here,
          header_printed a e lines r,
          r.count_read,
          start,
          digests,
          zero-add,
          start,
          body,
        )
        (body_printed a (a + 12 + len) e.body _ size at_body ∙ simp append_assoc)

  events_printed :
      (es : List Event) (a : ℕ) (lines : Lines)
      → 0 < a
      → a + length (encode es) < 2 ^ 64
      → AreEvents t es
      → Holds m a (encode es)
      → walk t m (prettyprint_event_callback t m) (starts t m a es) lines
        ≡ (true, lines ++ log_text t es)
  unfolding walk prettyprint_event_callback
  events_printed [] a lines pos fits are h = ground (arith, append-nil lines)
  events_printed (e ∷ es) a lines pos fits are h =
      let size = length (encode_event e) in
      let long = length-append (encode_event e) (encode es) in
      let here =
        event_printed a e lines pos (omega (arith, long)) are.0
          (Holds-front m a (encode_event e) (encode es) h) in
      let behind = Holds-behind m a (a + size) (encode_event e) (encode es) h refl in
      let rest =
        events_printed es (a + size) (lines ++ event_text t e) (omega arith) (omega (arith, long))
          are.1 behind in
      rw here (rest ∙ rw append_assoc)

  -- What `prettyprint_tpm2_eventlog` prints of a log of events whose fields hold their values, that
  -- is laid out in memory below 2^64 from `first` on, its last event below 2^63,
  -- its last event at `last`, is the text of the events, in order and each once, between the
  -- opening and the closing line.
  pub prettyprint_tpm2_eventlog-text :
      IsTpm t
      → IsMemory m
      → (e : Event) (es : List Event) (first last : ℕ) (lines : Lines) → 0 < first
      → last ≡ last_start t m first e es
      → last < 2 ^ 63
      → first + length (encode (e ∷ es)) < 2 ^ 64
      → AreEvents t (e ∷ es)
      → Holds m first (encode (e ∷ es))
      → prettyprint_tpm2_eventlog t m first last lines
        ≡ some (
            lines
            ++ (print "TPM2 EventLog, EFI_TCG2_EVENT_LOG_FORMAT_TCG_2 format\n" [] ∷ [])
            ++ log_text t (e ∷ es)
            ++ (print "TPM2 EventLog end\n" [] ∷ []))
  unfolding prettyprint_tpm2_eventlog
  prettyprint_tpm2_eventlog-text h ok e es first last lines pos at low fits are holds =
      let opening = print "TPM2 EventLog, EFI_TCG2_EVENT_LOG_FORMAT_TCG_2 format\n" [] ∷ [] in
      let here : (first == 0) ≡ false = ground arith in
      rw (
        prettyprint_tpm2_eventlog,
        here,
        foreach_event2-walk t m h ok (prettyprint_event_callback t m) e es first last _ pos at low
            are holds,
        events_printed (e ∷ es) first (lines ++ opening) pos fits are holds,
      )
