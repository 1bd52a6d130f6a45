-- ===== src/EventLog/Print.antt =====
-- example/util.c: the printing of the events of a TCG 2 log, and `prettyprint_tpm2_eventlog` of
-- example/tcg2-get-eventlog.c. What is printed is appended to a list of lines. The conversions
-- PRIx16, PRIx32 and PRIu32 of the format texts are written as `x` and `u`.
use tpm2_tcti_uefi.Base.{
  ℕ, ◌+◌, ◌%◌, ◌^◌, Bool, true, Option, none, some, List, [], ◌∷◌, ◌++◌, ◌==◌, if◌then◌else◌,
}
use tpm2_tcti_uefi.Platform.{Output, num, str, print, dump_hex}
use tpm2_tcti_uefi.Tpm.{Tpm}
use tpm2_tcti_uefi.Util.Names.{get_alg_size, get_alg_name, eventtype_to_string}
use tpm2_tcti_uefi.EventLog.Memory.{
  Memory, null, offset, bytes_at, algorithm_id, digest2_header, event_size, event2_header,
  pcr_index, event_type, digest_count, header2_size,
}
use tpm2_tcti_uefi.EventLog.Walk.{Callback, sizeof_digest2, foreach_digest2, foreach_event2}

abbrev pub Lines : Type 0
Lines = List Output

module _ (t : Tpm) (m : Memory) where
  unfoldable pub prettyprint_digest : ℕ → Lines → Lines
  prettyprint_digest digest lines =
      let alg_id = algorithm_id m digest in
      let digest_size = get_alg_size t alg_id in
      lines
      ++ (print "    AlgorithmId: %s (0x%x)\n" (str (get_alg_name t alg_id) ∷ num alg_id ∷ [])
          ∷ print "    Digest: %d bytes\n" (num digest_size ∷ [])
          ∷ dump_hex 4 0 digest_size (bytes_at m (digest + digest2_header) digest_size)
          ∷ [])

  -- The caller's data is a `size_t *`; what is printed goes along.
  unfoldable pub prettyprint_digest_callback : Callback (Option ℕ × Lines)
  prettyprint_digest_callback digest (none, lines) = (true, (none, prettyprint_digest digest lines))
  prettyprint_digest_callback digest (some size, lines) =
      (true, (some ((size + sizeof_digest2 t m digest) % 2 ^ 64), prettyprint_digest digest lines))

  unfoldable pub prettyprint_event_header : ℕ → Lines → Lines
  prettyprint_event_header hdr lines =
      lines
      ++ (print "  PCRIndex: %d\n" (num (pcr_index m hdr) ∷ [])
          ∷ print "  EventType: %s (0x%x)\n"
              (str (eventtype_to_string (event_type m hdr)) ∷ num (event_type m hdr) ∷ [])
          ∷ print "  DigestCount: %d\n" (num (digest_count m hdr) ∷ [])
          ∷ [])

  unfoldable pub prettyprint_eventbuf : ℕ → Lines → Lines
  prettyprint_eventbuf event lines =
      lines
      ++ (print "  Event: %u bytes\n" (num (event_size m event) ∷ [])
          ∷ dump_hex 2 0 (event_size m event)
              (bytes_at m (event + event2_header) (event_size m event))
          ∷ [])

  -- `prettyprint_tpm2_event` behind the digests.
  print_body : ℕ → Bool × (Option ℕ × Lines) → Lines
  print_body hdr (true, (some digests_size, lines)) =
      prettyprint_eventbuf (offset (offset hdr header2_size) digests_size) lines
  print_body hdr (_, (_, lines)) = lines

  unfoldable pub prettyprint_event : ℕ → Lines → Lines
  unfolding print_body
  prettyprint_event hdr lines =
      if hdr == null
      then lines
      else print_body hdr (
          foreach_digest2 t m prettyprint_digest_callback hdr
            (some 0, prettyprint_event_header hdr lines))

  unfoldable pub prettyprint_event_callback : Callback Lines
  prettyprint_event_callback hdr lines = (true, prettyprint_event hdr lines)

  -- `prettyprint_tpm2_eventlog`; `none` means that the walk has run out of fuel.
  end_of_log : Option (Bool × Lines) → Option Lines
  end_of_log none = none
  end_of_log (some (done, lines)) = some (lines ++ (print "TPM2 EventLog end\n" [] ∷ []))

  unfoldable pub prettyprint_tpm2_eventlog : ℕ → ℕ → Lines → Option Lines
  unfolding end_of_log
  prettyprint_tpm2_eventlog first last lines =
      if first == null
      then some (lines ++ (print "TPM2 EventLog is empty.\n" [] ∷ []))
      else end_of_log (
          foreach_event2 t m first last (some prettyprint_event_callback)
            (lines ++ (print "TPM2 EventLog, EFI_TCG2_EVENT_LOG_FORMAT_TCG_2 format\n" [] ∷ [])))
