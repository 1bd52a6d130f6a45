-- ===== src/Programs/PcrLeaves.antt =====
-- What one round of the loop of example/tpm2-get-pcrs.c leaves to read: a round that reads a digest
-- takes a PCR out of the selection.
use tpm2_tcti_uefi.Base.{
  ℕ, ◌≡◌, ◌≤◌, ◌<◌, ◌+◌, inl, inr, true, List, [], ◌∷◌, Option, some, length, take, ltb, arith,
  refl, Bool-cases,
}
use tpm2_tcti_uefi.Tpm.{Tpm}
use tpm2_tcti_uefi.Util.Pcr.{Selections}
use tpm2_tcti_uefi.Util.Pcr.Foreach.{pairs, walk, foreach_selection-walk}
use tpm2_tcti_uefi.Util.Pcr.Room.{AllRoom, selected}
use tpm2_tcti_uefi.EventLog.Print.{Lines}
use tpm2_tcti_uefi.Programs.Pcrs.{CallbackData, deselect_in, selected_digest_callback, visited}
use tpm2_tcti_uefi.Programs.PcrRound.{
  asked, AllReal, pairs-AllReal, deselect_in-AllRoom, deselect_in-le, deselect_in-lt,
}

module _ (t : Tpm) where
  -- The PCRs that are still to be read.
  abbrev pub to_read : Selections → ℕ
  to_read selection = selected t.max_pcrs (take selection.count selection.banks)

  -- The callback data stays there, over the same digests, with arrays of the right size and at most
  -- `n` PCRs to read.
  pub record Leaves (cbdata : CallbackData) (n : ℕ) (d : Option CallbackData) : Type 0 where
    pub after : CallbackData
    pub here : d ≡ some after
    pub same_digests : after.tpml_digests ≡ cbdata.tpml_digests
    pub room : AllRoom t.max_pcrs after.pcr_select.banks
    pub fewer : to_read after.pcr_select ≤ n

  -- The callback data after one call, and what is printed by then.
  abbrev next : ℕ → ℕ → CallbackData → CallbackData
  next alg pcr cbdata = record cbdata {
    digest_i = cbdata.digest_i + 1;
    last_alg = alg;
    pcr_select = record cbdata.pcr_select {
      banks = deselect_in cbdata.pcr_select.count alg pcr cbdata.pcr_select.banks;
    };
  }

  abbrev result : List (ℕ × ℕ) → CallbackData → Lines → Option CallbackData
  result ps cbdata lines = (walk (selected_digest_callback t) ps (some cbdata, lines)).1.0

  -- A walk goes on behind its first pair, or stops there.
  step-Leaves :
      (alg pcr n : ℕ) (ps : List (ℕ × ℕ)) (cbdata : CallbackData) (lines : Lines)
      → AllRoom t.max_pcrs (next alg pcr cbdata).pcr_select.banks
      → to_read (next alg pcr cbdata).pcr_select ≤ n
      → ((more : Lines)
          → Leaves
              (next alg pcr cbdata)
              (to_read (next alg pcr cbdata).pcr_select)
              (result ps (next alg pcr cbdata) more))
      → Leaves cbdata n (result ((alg, pcr) ∷ ps) cbdata lines)
  unfolding walk selected_digest_callback
  step-Leaves alg pcr n ps cbdata lines room few rest =
      let more = (selected_digest_callback t alg pcr (some cbdata, lines)).1.1 in
      let r = rest more in
      elim (Bool-cases (ltb (cbdata.digest_i + 1) cbdata.tpml_digests.count)) [
        | inl on ↦
            rw (result, walk, on)
              (record {
                after = r.after;
                here = r.here;
                same_digests = r.same_digests;
                room = r.room;
                fewer = omega (arith, r.fewer);
              })
        | inr off ↦
            rw (result, walk, off)
              (record {
                after = next alg pcr cbdata;
                here = refl;
                same_digests = refl;
                room = room;
                fewer = few;
              })
      ]

  walk-Leaves :
      (ps : List (ℕ × ℕ)) (cbdata : CallbackData) (lines : Lines)
      → AllReal t.max_pcrs ps
      → AllRoom t.max_pcrs cbdata.pcr_select.banks
      → Leaves cbdata (to_read cbdata.pcr_select) (result ps cbdata lines)
  unfolding walk
  walk-Leaves [] cbdata lines real room = record {
    after = cbdata;
    here = refl;
    same_digests = refl;
    room = room;
    fewer = omega arith;
  }
  walk-Leaves ((alg, pcr) ∷ ps) cbdata lines real room =
      let n = cbdata.pcr_select.count in
      let banks = cbdata.pcr_select.banks in
      let kept = deselect_in-AllRoom t.max_pcrs alg pcr real.0 n banks room in
      step-Leaves alg pcr (to_read cbdata.pcr_select) ps cbdata lines kept
        (deselect_in-le t.max_pcrs alg pcr real.0 n banks room)
        (λ more. walk-Leaves ps (next alg pcr cbdata) more real.1 kept)

  -- Where the first pair was still to be read, one PCR at least has been read.
  walk-reads :
      (alg pcr : ℕ) (ps : List (ℕ × ℕ)) (cbdata : CallbackData) (lines : Lines)
      → AllReal t.max_pcrs ((alg, pcr) ∷ ps)
      → AllRoom t.max_pcrs cbdata.pcr_select.banks
      → asked cbdata.pcr_select.count cbdata.pcr_select.banks alg pcr ≡ true
      → (n : ℕ) → to_read cbdata.pcr_select ≤ n + 1
      → Leaves cbdata n (result ((alg, pcr) ∷ ps) cbdata lines)
  walk-reads alg pcr ps cbdata lines real room wanted n few =
      let count = cbdata.pcr_select.count in
      let banks = cbdata.pcr_select.banks in
      let kept = deselect_in-AllRoom t.max_pcrs alg pcr real.0 count banks room in
      step-Leaves alg pcr n ps cbdata lines kept
        (omega (arith, deselect_in-lt t.max_pcrs alg pcr real.0 count banks room wanted))
        (λ more. walk-Leaves ps (next alg pcr cbdata) more real.1 kept)

  pub round-Leaves :
      (out : Selections) (cbdata : CallbackData) (lines : Lines)
      → out.count ≤ length out.banks
      → AllRoom t.max_pcrs cbdata.pcr_select.banks
      → Leaves cbdata (to_read cbdata.pcr_select) (visited t out cbdata lines).0
  unfolding visited
  round-Leaves out cbdata lines fits room =
      let ps = pairs t.max_pcrs (take out.count out.banks) in
      rw
        (
          visited,
          foreach_selection-walk (selected_digest_callback t) t out (some cbdata, lines) fits,
        )
        (walk-Leaves ps cbdata lines (pairs-AllReal t.max_pcrs (take out.count out.banks)) room)

  pub round-reads :
      (out : Selections) (cbdata : CallbackData) (lines : Lines)
      → out.count ≤ length out.banks
      → AllRoom t.max_pcrs cbdata.pcr_select.banks
      → (alg pcr : ℕ) (ps : List (ℕ × ℕ))
      → pairs t.max_pcrs (take out.count out.banks) ≡ (alg, pcr) ∷ ps
      → asked cbdata.pcr_select.count cbdata.pcr_select.banks alg pcr ≡ true
      → (n : ℕ) → to_read cbdata.pcr_select ≤ n + 1
      → (0 < to_read cbdata.pcr_select) × Leaves cbdata n (visited t out cbdata lines).0
  unfolding visited
  round-reads out cbdata lines fits room alg pcr ps e wanted n few =
      let real : AllReal t.max_pcrs ((alg, pcr) ∷ ps) =
        rw e at (pairs-AllReal t.max_pcrs (take out.count out.banks)) in
      let drops =
        deselect_in-lt t.max_pcrs alg pcr real.0 cbdata.pcr_select.count cbdata.pcr_select.banks
          room wanted in
      let walked =
        foreach_selection-walk (selected_digest_callback t) t out (some cbdata, lines) fits in
      (
        omega (arith, drops),
        rw (visited, walked, e) (walk-reads alg pcr ps cbdata lines real room wanted n few),
      )
