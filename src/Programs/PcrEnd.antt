-- ===== src/Programs/PcrEnd.antt =====
-- The loop of example/tpm2-get-pcrs.c ends: each round that reads a digest takes a PCR out of the
-- selection.
use tpm2_tcti_uefi.Base.{
  ℕ, zero, suc, ◌≡◌, ◌≤◌, ◌<◌, ◌-◌, ◌==◌, ◌⊎◌, inl, inr, Bool, true, false, List, ◌∷◌, Option,
  length, take, ltb, arith, refl, Bool-cases,
}
use tpm2_tcti_uefi.Platform.{Machine, Platform}
use tpm2_tcti_uefi.Tpm.{Tpm}
use tpm2_tcti_uefi.Tcti.{Context}
use tpm2_tcti_uefi.Util.Pcr.{Selections}
use tpm2_tcti_uefi.Util.Pcr.Foreach.{pairs}
use tpm2_tcti_uefi.Util.Pcr.Room.{AllRoom}
use tpm2_tcti_uefi.Pool.{Blocks, World, Act, pure}
use tpm2_tcti_uefi.Pool.Laws.{Returns, after-Returns}
use tpm2_tcti_uefi.Tss2.External.{Library}
use tpm2_tcti_uefi.Tss2.Commands.{Digests, Commands, AreKeeping}
use tpm2_tcti_uefi.Tss2.Call.{call, call-answers}
use tpm2_tcti_uefi.Tss2.Ready.{IsReady}
use tpm2_tcti_uefi.Programs.Pcrs.{CallbackData, data_of, visited, read_rounds, no_digests}
use tpm2_tcti_uefi.Programs.PcrRound.{asked}
use tpm2_tcti_uefi.Programs.PcrLeaves.{to_read, Leaves, round-Leaves, round-reads}

-- What the TPM specification says of TPM2_PCR_Read: a successful answer fits its structure and lists
-- PCRs that were asked for, none only if it has no digest.
module _ {F S : Type 0} (p : Platform F) (t : Tpm) (k : Commands F S) where
  pub record Answers (asked_for : Selections) (out : Selections) (digests : Digests) : Type 0 where
    pub fits : out.count ≤ length out.banks
    pub nothing_or_asked :
        (digests.count ≡ 0)
        ⊎ ((alg pcr : ℕ) × (ps : List (ℕ × ℕ)) × (pairs t.max_pcrs (take out.count out.banks)
              ≡ (alg, pcr) ∷ ps)
            × (asked asked_for.count asked_for.banks alg pcr ≡ true))

  abbrev pub AnswersReads : Type 0
  AnswersReads =
      (b : Selections) (u : ℕ) (o : Selections) (d : Digests) (x : S) (c : Context) (s : Machine F)
      → (k.pcr_read b u o d x c s).0.0 ≡ p.rc_success
      → Answers b (k.pcr_read b u o d x c s).0.1.1 (k.pcr_read b u o d x c s).0.1.2

module _ {F S : Type 0} (p : Platform F) (t : Tpm) (l : Library F S) (k : Commands F S)
    (keeping : AreKeeping l k) (answers : AnswersReads p t k) (blocks : Blocks S) (sys : ℕ) where
  abbrev Ended : ℕ × World F S → Type 0
  Ended r = ((r.0 ≡ 0) ⊎ (r.0 ≡ 1)) × IsReady p l blocks sys r.1.blocks

  -- The end of a round: the next one, or the result.
  abbrev tail : ℕ → ℕ → Selections → CallbackData → Act F S ℕ
  tail fuel update_count out after = elim (ltb 0 after.tpml_digests.count) [
    | true ↦ read_rounds p t l k fuel sys update_count out after
    | false ↦ pure 0
  ]

  by_test :
      (b : Bool) (m n : Act F S ℕ) (w : World F S)
      → (b ≡ true → Returns Ended (m w))
      → Returns Ended (n w)
      → Returns Ended (elim b as (λ x. Act F S ℕ) [ true ↦ m | false ↦ n ] w)
  by_test true m n w hm hn = hm refl
  by_test false m n w hm hn = hn

  tail-Ended :
      (fuel update_count : ℕ) (out : Selections) (after : CallbackData) (w : World F S)
      → IsReady p l blocks sys w.blocks
      → (ltb 0 after.tpml_digests.count ≡ true
          → Returns Ended (read_rounds p t l k fuel sys update_count out after w))
      → Returns Ended (tail fuel update_count out after w)
  tail-Ended fuel update_count out after w ready further =
      by_test (ltb 0 after.tpml_digests.count) (read_rounds p t l k fuel sys update_count out after)
        (pure 0) w further (inl refl, ready)

  -- Where a round has left `d`.
  tail_of-Ended :
      (fuel update_count n : ℕ) (out : Selections) (read : CallbackData) (d : Option CallbackData)
      (w : World F S)
      → Leaves t read n d
      → IsReady p l blocks sys w.blocks
      → ((after : CallbackData)
          → ltb 0 read.tpml_digests.count ≡ true
          → to_read t after.pcr_select ≤ n
          → AllRoom t.max_pcrs after.pcr_select.banks
          → Returns Ended (read_rounds p t l k fuel sys update_count out after w))
      → Returns Ended (tail fuel update_count out (data_of t read d) w)
  tail_of-Ended fuel update_count n out read d w left ready further = rw left.here (
      tail-Ended fuel update_count out left.after w ready
        (λ on. further left.after (rw left.same_digests at on) left.fewer left.room))

  -- The loop ends if it has fuel for one round more than there are PCRs to read.
  pub read_rounds-Ended :
      (fuel update_count : ℕ) (out : Selections) (cbdata : CallbackData) (w : World F S)
      → to_read t cbdata.pcr_select < fuel
      → AllRoom t.max_pcrs cbdata.pcr_select.banks
      → IsReady p l blocks sys w.blocks
      → Returns Ended (read_rounds p t l k fuel sys update_count out cbdata w)
  unfolding read_rounds
  read_rounds-Ended zero update_count out cbdata w few room ready = absurd (omega arith)
  read_rounds-Ended (suc fuel) update_count out cbdata w few room ready =
      after-Returns _ Ended
        (call l sys (k.pcr_read cbdata.pcr_select update_count out no_digests) w) _
        (call-answers p l (λ rc a. rc ≡ p.rc_success → Answers p t k cbdata.pcr_select a.1 a.2)
          blocks sys _ w ready
          (keeping.pcr_read_keeps cbdata.pcr_select update_count out no_digests)
          (answers cbdata.pcr_select update_count out no_digests))
        (λ r h. elim (Bool-cases (r.0.0 == p.rc_success)) [
          | inr e ↦ rw e (inr refl, h.0)
          | inl e ↦
              (let ans = h.1 (ground arith) in
                let read = record cbdata { digest_i = 0; tpml_digests = r.0.1.2 } in
                let lines = r.1.machine.output in
                let found = visited t r.0.1.1 read lines in
                let w2 = record r.1 { machine = record r.1.machine { output = found.1 } } in
                rw e (elim ans.nothing_or_asked [
                  | inl none_read ↦
                      tail_of-Ended fuel r.0.1.0 (to_read t cbdata.pcr_select) r.0.1.1 read found.0
                        w2 (round-Leaves t r.0.1.1 read lines ans.fits room) h.0
                        (λ after on few' room'. absurd (ground arith))
                  | inr (alg, pcr, ps, there, wanted) ↦
                      (let (pos, left) =
                          round-reads t r.0.1.1 read lines ans.fits room alg pcr ps there wanted
                            (fuel - 1) (omega arith) in
                        tail_of-Ended fuel r.0.1.0 (fuel - 1) r.0.1.1 read found.0 w2 left h.0
                          (λ after on few' room'.
                            read_rounds-Ended fuel r.0.1.0 r.0.1.1 after w2 (omega arith) room'
                              h.0))
                ]))
        ])
