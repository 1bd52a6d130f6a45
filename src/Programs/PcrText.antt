-- ===== src/Programs/PcrText.antt =====
-- What a round of example/tpm2-get-pcrs.c prints: the n-th digest that the command returned belongs to
-- the n-th PCR that it selected.
use tpm2_tcti_uefi.Base.{
  ℕ, zero, suc, ◌≡◌, ◌≤◌, ◌<◌, ◌+◌, ◌-◌, true, false, List, [], ◌∷◌, ◌++◌, append-nil, append_assoc,
  some, length, take, drop, get_or, ltb, arith, refl, sym, ap, ◌∙◌, ◌==◌, if◌then◌else◌,
}
use tpm2_tcti_uefi.Platform.{num, str, print, dump_hex}
use tpm2_tcti_uefi.Tpm.{Tpm}
use tpm2_tcti_uefi.Util.Names.{get_alg_size, get_alg_name}
use tpm2_tcti_uefi.Util.Pcr.{Selections}
use tpm2_tcti_uefi.Util.Pcr.Foreach.{pairs, walk, take-drop, foreach_selection-walk}
use tpm2_tcti_uefi.EventLog.Print.{Lines}
use tpm2_tcti_uefi.Tss2.Commands.{Sized, Digests}
use tpm2_tcti_uefi.Programs.Pcrs.{
  CallbackData, no_digest, deselect_in, pcr_text, selected_digest_callback, visited,
}

module _ (t : Tpm) where
  -- What is expected in front of a digest: a complaint about a size that is not the algorithm's, and the
  -- name of the bank at its first PCR.
  abbrev pub complaint : ℕ → Sized → Lines
  complaint alg d =
      if d.size == get_alg_size t alg
      then []
      else (print "ERROR: algorithm and digest size disagre?\n" [] ∷ [])

  abbrev pub heading : ℕ → ℕ → Lines
  heading last alg =
      if alg == last then [] else (print "PCR bank: %s\n" (str (get_alg_name t alg) ∷ []) ∷ [])

  -- The text of the PCRs with their digests, as long as there are both, behind the hash `last`.
  abbrev pub report : ℕ → List (ℕ × ℕ) → List Sized → Lines
  report last [] digests = []
  report last ((alg, pcr) ∷ ps) [] = []
  report last ((alg, pcr) ∷ ps) (d ∷ digests) =
      complaint alg d
      ++ (heading last alg
          ++ (print "  PCR: %u\n" (num pcr ∷ [])
              ∷ dump_hex 4 0 d.size d.buffer
              ∷ report alg ps digests))

  -- What the callback prints of a digest is the first part of the report.
  pcr_text-report :
      (last alg pcr : ℕ) (d : Sized) (ps : List (ℕ × ℕ)) (digests : List Sized)
      → pcr_text t last alg pcr d ++ report alg ps digests
        ≡ report last ((alg, pcr) ∷ ps) (d ∷ digests)
  pcr_text-report last alg pcr d ps digests = ground arith

  report-no_digests : (last : ℕ) (ps : List (ℕ × ℕ)) → report last ps [] ≡ []
  report-no_digests last [] = refl
  report-no_digests last ((alg, pcr) ∷ ps) = refl

  -- With `left` and one more digests to go.
  walk-text :
      (left : ℕ) (ps : List (ℕ × ℕ)) (cbdata : CallbackData) (lines : Lines)
      → cbdata.digest_i + suc left ≡ cbdata.tpml_digests.count
      → cbdata.tpml_digests.count ≤ length cbdata.tpml_digests.digests
      → (walk (selected_digest_callback t) ps (some cbdata, lines)).1.1
        ≡ lines
          ++ report cbdata.last_alg ps
              (take (suc left) (drop cbdata.digest_i cbdata.tpml_digests.digests))
  unfolding walk selected_digest_callback
  walk-text left [] cbdata lines here fits = sym (append-nil lines)
  walk-text zero ((alg, pcr) ∷ ps) cbdata lines here fits =
      let ds = cbdata.tpml_digests.digests in
      let i = cbdata.digest_i in
      let off : ltb (i + 1) cbdata.tpml_digests.count ≡ false = ground arith in
      let text = pcr_text t cbdata.last_alg alg pcr (get_or ds i no_digest) in
      let split = take-drop no_digest 0 i ds (omega arith) in
      let last_part =
        sym (append-nil text)
        ∙ ap (λ r. text ++ r) (sym (report-no_digests alg ps))
        ∙ pcr_text-report cbdata.last_alg alg pcr (get_or ds i no_digest) ps [] in
      rw (walk, off, split) (ap (λ x. lines ++ x) last_part)
  walk-text (suc left) ((alg, pcr) ∷ ps) cbdata lines here fits =
      let ds = cbdata.tpml_digests.digests in
      let i = cbdata.digest_i in
      let on : ltb (i + 1) cbdata.tpml_digests.count ≡ true = ground arith in
      let text = pcr_text t cbdata.last_alg alg pcr (get_or ds i no_digest) in
      let split = take-drop no_digest (suc left) i ds (omega arith) in
      let rest = take (suc left) (drop (i + 1) ds) in
      let after : CallbackData = record cbdata {
        digest_i = i + 1;
        last_alg = alg;
        pcr_select = record cbdata.pcr_select {
          banks = deselect_in cbdata.pcr_select.count alg pcr cbdata.pcr_select.banks;
        };
      } in
      rw (walk, on, split)
        (walk-text left ps after (lines ++ text) (omega (arith, here)) fits
          ∙ append_assoc lines text (report alg ps rest)
          ∙ ap (λ x. lines ++ x)
              (pcr_text-report cbdata.last_alg alg pcr (get_or ds i no_digest) ps rest))

  -- If the counts of a returned selection and of the returned digests do not exceed their arrays, and
  -- there is a digest, a round prints behind `lines` the selected PCRs, bank by bank, until the PCRs or
  -- the digests end. For the n-th PCR this is an error line if the size of the n-th digest is not that
  -- of the bank's algorithm, the name of the algorithm if it is not that of the PCR before, the number
  -- of the PCR, and a dump of the n-th digest.
  pub visited-text :
      (out : Selections) (digests : Digests) (cbdata : CallbackData) (lines : Lines)
      → out.count ≤ length out.banks
      → 0 < digests.count
      → digests.count ≤ length digests.digests
      → (visited t out (record cbdata { digest_i = 0; tpml_digests = digests }) lines).1
        ≡ lines
          ++ report cbdata.last_alg
              (pairs t.max_pcrs (take out.count out.banks))
              (take digests.count digests.digests)
  unfolding visited
  visited-text out digests cbdata lines fits some_digest holds =
      let n = digests.count in
      let ps = pairs t.max_pcrs (take out.count out.banks) in
      let read = record cbdata { digest_i = 0; tpml_digests = digests } in
      let all : suc (n - 1) ≡ n = omega arith in
      rw
        (visited, foreach_selection-walk (selected_digest_callback t) t out (some read, lines) fits)
        (rw all at (walk-text (n - 1) ps read lines (omega arith) holds))
