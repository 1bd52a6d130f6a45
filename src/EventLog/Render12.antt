-- ===== src/EventLog/Render12.antt =====
-- What is printed of a log of TCG 1.2 is the text of its events.
use tpm2_tcti_uefi.Base.{
  ℕ, zero, suc, ◌≡◌, ◌≤◌, ◌<◌, ◌+◌, ◌-◌, ◌^◌, List, [], ◌∷◌, ◌++◌, length, length-append,
  append_assoc, append-nil, arith, refl, ◌∙◌, false, some, ◌==◌,
}
use tpm2_tcti_uefi.Platform.{num, str, print, dump_hex}
use tpm2_tcti_uefi.Util.Names.{eventtype_to_string}
use tpm2_tcti_uefi.EventLog.Memory.{Memory, bytes_at, u32_at}
use tpm2_tcti_uefi.EventLog.Encoding.{le32, Holds, Holds-front, Holds-behind, u32_at-le32}
use tpm2_tcti_uefi.EventLog.Print.{Lines}
use tpm2_tcti_uefi.EventLog.Render.{bytes_at-Holds}
use tpm2_tcti_uefi.EventLog.Tpm12.{
  prettyprint_tpm12_event, tpm12_event_next, visit_tpm12_events, prettyprint_tpm12_eventlog,
}

-- An event as a value, and how firmware lays it out.
pub record PcrEvent : Type 0 where
  pub pcr : ℕ
  pub kind : ℕ
  pub digest : List ℕ
  pub body : List ℕ

pub record IsPcrEvent (e : PcrEvent) : Type 0 where
  pub pcr_fits : e.pcr < 2 ^ 32
  pub kind_fits : e.kind < 2 ^ 32
  pub digest_fits : length e.digest ≡ 20
  pub body_fits : length e.body < 2 ^ 32

abbrev pub encode_one : PcrEvent → List ℕ
encode_one e = le32 e.pcr ++ (le32 e.kind ++ (e.digest ++ (le32 (length e.body) ++ e.body)))

abbrev pub encode : List PcrEvent → List ℕ
encode [] = []
encode (e ∷ es) = encode_one e ++ encode es

abbrev pub AreEvents : List PcrEvent → Type 0
AreEvents [] = Unit
AreEvents (e ∷ es) = IsPcrEvent e × AreEvents es

abbrev pub last_start : ℕ → PcrEvent → List PcrEvent → ℕ
last_start a e [] = a
last_start a e (f ∷ es) = last_start (a + length (encode_one e)) f es

-- The text of an event at an address, and of events one behind the other.
abbrev pub event_text : ℕ → PcrEvent → Lines
event_text a e =
    print "TCG_PCR_EVENT: 0x%x\n" (num a ∷ [])
    ∷ print "  PCRIndex: %d\n" (num e.pcr ∷ [])
    ∷ print "  EventType: %s (0x%08x)\n" (str (eventtype_to_string e.kind) ∷ num e.kind ∷ [])
    ∷ print "  Digest: \n" []
    ∷ dump_hex 4 0 20 e.digest
    ∷ print "  EventSize: %d\n" (num (length e.body) ∷ [])
    ∷ print "  Event: \n" []
    ∷ dump_hex 4 0 (length e.body) e.body
    ∷ []

abbrev pub log_text : ℕ → List PcrEvent → Lines
log_text a [] = []
log_text a (e ∷ es) = event_text a e ++ log_text (a + length (encode_one e)) es

le-last_start : (a : ℕ) (e : PcrEvent) (es : List PcrEvent) → a ≤ last_start a e es
le-last_start a e [] = omega arith
le-last_start a e (f ∷ es) = omega (arith, le-last_start (a + length (encode_one e)) f es)

length-encode_one : (e : PcrEvent) → IsPcrEvent e → length (encode_one e) ≡ 32 + length e.body
length-encode_one e ok =
    omega (arith, ok.digest_fits, length-append e.digest (le32 (length e.body) ++ e.body))

module _ (m : Memory) where
  -- The fields that the code reads of a laid out event.
  record Reads (a : ℕ) (e : PcrEvent) : Type 0 where
    pcr_read : u32_at m a ≡ e.pcr
    kind_read : u32_at m (a + 4) ≡ e.kind
    digest_read : bytes_at m (a + 8) 20 ≡ e.digest
    size_read : u32_at m (a + 28) ≡ length e.body
    body_read : bytes_at m (a + 32) (length e.body) ≡ e.body

  Reads-Holds : (a : ℕ) (e : PcrEvent) → IsPcrEvent e → Holds m a (encode_one e) → Reads a e
  Reads-Holds a e ok h =
      let size = le32 (length e.body) ++ e.body in
      let digest = e.digest ++ size in
      let at_kind = Holds-behind m a (a + 4) (le32 e.pcr) (le32 e.kind ++ digest) h (omega arith) in
      let at_digest = Holds-behind m (a + 4) (a + 8) (le32 e.kind) digest at_kind (omega arith) in
      let at_size =
        Holds-behind m (a + 8) (a + 28) e.digest size at_digest (omega (arith, ok.digest_fits)) in
      let at_body =
        Holds-behind m (a + 28) (a + 32) (le32 (length e.body)) e.body at_size (omega arith) in
      let whole =
        bytes_at-Holds m (a + 8) e.digest (Holds-front m (a + 8) e.digest size at_digest) in
      record {
        pcr_read =
            u32_at-le32 m a e.pcr ok.pcr_fits
              (Holds-front m a (le32 e.pcr) (le32 e.kind ++ digest) h);
        kind_read =
            u32_at-le32 m (a + 4) e.kind ok.kind_fits
              (Holds-front m (a + 4) (le32 e.kind) digest at_kind);
        digest_read = rw ok.digest_fits at whole;
        size_read =
            u32_at-le32 m (a + 28) (length e.body) ok.body_fits
              (Holds-front m (a + 28) (le32 (length e.body)) e.body at_size);
        body_read = bytes_at-Holds m (a + 32) e.body at_body;
      }

  event_printed :
      (a : ℕ) (e : PcrEvent) (lines : Lines)
      → Reads a e
      → prettyprint_tpm12_event m a lines ≡ lines ++ event_text a e
  unfolding prettyprint_tpm12_event
  event_printed a e lines r =
      rw (r.pcr_read, r.kind_read, r.digest_read, r.size_read, r.body_read) refl

  next_at :
      (a last : ℕ) (e : PcrEvent) (lines : Lines)
      → Reads a e
      → IsPcrEvent e
      → a + length (encode_one e) ≤ last
      → last < 2 ^ 63
      → tpm12_event_next m a last lines ≡ (a + length (encode_one e), lines)
  unfolding tpm12_event_next
  next_at a last e lines r ok le low = ground (arith, r.size_read, length-encode_one e ok)

  end_at : (a : ℕ) (lines : Lines) → tpm12_event_next m a a lines ≡ (0, lines)
  unfolding tpm12_event_next
  end_at a lines = ground arith

  -- One round of the loop, to the end and to a next event.
  round_end :
      (fuel a : ℕ) (lines : Lines)
      → visit_tpm12_events m (suc fuel) a a lines ≡ some (prettyprint_tpm12_event m a lines)
  unfolding visit_tpm12_events
  round_end fuel a lines = ground (arith, end_at a (prettyprint_tpm12_event m a lines))

  round_on :
      (fuel a next last : ℕ) (lines : Lines)
      → 0 < next
      → tpm12_event_next m a last (prettyprint_tpm12_event m a lines)
        ≡ (next, prettyprint_tpm12_event m a lines)
      → visit_tpm12_events m (suc fuel) a last lines
        ≡ visit_tpm12_events m fuel next last (prettyprint_tpm12_event m a lines)
  unfolding visit_tpm12_events
  round_on fuel a next last lines pos e = ground arith

  visit_tpm12_events-text :
      (es : List PcrEvent) (e : PcrEvent) (fuel a : ℕ) (lines : Lines)
      → last_start a e es < 2 ^ 63
      → last_start a e es < fuel + a
      → AreEvents (e ∷ es)
      → Holds m a (encode (e ∷ es))
      → visit_tpm12_events m fuel a (last_start a e es) lines ≡ some (lines ++ log_text a (e ∷ es))
  visit_tpm12_events-text [] e zero a lines low g are holds = absurd (omega arith)
  visit_tpm12_events-text [] e (suc fuel) a lines low g are holds =
      let r = Reads-Holds a e are.0 (Holds-front m a (encode_one e) [] holds) in
      round_end fuel a lines ∙ rw (event_printed a e lines r, append-nil) refl
  visit_tpm12_events-text (f ∷ es) e zero a lines low g are holds =
      absurd (omega (arith, le-last_start a e (f ∷ es)))
  visit_tpm12_events-text (f ∷ es) e (suc fuel) a lines low g are holds =
      let size = length (encode_one e) in
      let last = last_start (a + size) f es in
      let long = length-encode_one e are.0 in
      let r = Reads-Holds a e are.0 (Holds-front m a (encode_one e) (encode (f ∷ es)) holds) in
      let behind = Holds-behind m a (a + size) (encode_one e) (encode (f ∷ es)) holds refl in
      let within = le-last_start (a + size) f es in
      let printed = prettyprint_tpm12_event m a lines in
      let rest =
        visit_tpm12_events-text es f fuel (a + size) (lines ++ event_text a e) low
          (omega (arith, long)) are.1 behind in
      round_on fuel a (a + size) last lines (omega (arith, long))
        (next_at a last e printed r are.0 within low)
      ∙ rw (event_printed a e lines r) (rest ∙ rw append_assoc)

  -- What is printed of a log of TCG 1.2 of events whose fields hold their values, that is laid out
  -- in memory from `first` on, its last event at `last` below 2^63, is the text of the events with
  -- their addresses, in order and each once, behind the opening line.
  pub prettyprint_tpm12_eventlog-text :
      (e : PcrEvent) (es : List PcrEvent) (first last : ℕ) (lines : Lines)
      → 0 < first
      → last ≡ last_start first e es
      → last < 2 ^ 63
      → AreEvents (e ∷ es)
      → Holds m first (encode (e ∷ es))
      → prettyprint_tpm12_eventlog m first last lines
        ≡ some (
            (lines ++ (print "TPM2 EventLog, EFI_TCG2_EVENT_LOG_FORMAT_TCG_1_2 format\n" [] ∷ []))
            ++ log_text first (e ∷ es))
  unfolding prettyprint_tpm12_eventlog
  prettyprint_tpm12_eventlog-text e es first last lines pos eq low are holds =
      let opened =
        lines ++ (print "TPM2 EventLog, EFI_TCG2_EVENT_LOG_FORMAT_TCG_1_2 format\n" [] ∷ []) in
      let here : (first == 0) ≡ false = ground arith in
      let whole =
        visit_tpm12_events-text es e (last_start first e es + 1 - first + 1) first opened
          (omega arith) (omega (arith, le-last_start first e es)) are holds in
      rw (here, eq) whole
