-- ===== src/EventLog/Walk.antt =====
-- example/util.c: `get_next_digest`, `sizeof_digest2`, `foreach_digest2`,
-- `digest2_accumulator_callback`, `get_next_event` and `foreach_event2`.
use tpm2_tcti_uefi.Base.{
  ℕ, zero, suc, ◌+◌, ◌-◌, ◌%◌, ◌^◌, Bool, true, false, not, ◌&&◌, ◌||◌, Option, none, some, leb,
  ◌==◌, if◌then◌else◌,
}
use tpm2_tcti_uefi.Tpm.{Tpm}
use tpm2_tcti_uefi.Util.Names.{get_alg_size}
use tpm2_tcti_uefi.EventLog.Memory.{
  Memory, null, offset, algorithm_id, digest2_header, event_size, event2_header, digest_count,
  header2_size,
}

-- DIGEST2_CALLBACK and EVENT2_CALLBACK: from an address and the caller's `data`, whether to go on,
-- and the data afterwards.
abbrev pub Callback : Type 0 → Type 0
Callback D = ℕ → D → Bool × D

module _ (t : Tpm) (m : Memory) where
  unfoldable pub get_next_digest : ℕ → ℕ
  get_next_digest digest = offset digest (digest2_header + get_alg_size t (algorithm_id m digest))

  unfoldable pub sizeof_digest2 : ℕ → ℕ
  sizeof_digest2 digest = digest2_header + get_alg_size t (algorithm_id m digest)

  module _ {D : Type 0} (callback : Callback D) where
    -- The loop over the digests, with the rounds that are left.
    unfoldable pub visit_digests : ℕ → ℕ → Bool → D → Bool × D
    visit_digests zero digest ret d = (ret, d)
    visit_digests (suc left) digest ret d =
        let (go_on, d') = callback digest d in
        elim (digest == null) [
          | true ↦ (ret, d)
          | false ↦ elim go_on [
            | true ↦ visit_digests left (get_next_digest digest) true d'
            | false ↦ (false, d')
          ]
        ]

    unfoldable pub foreach_digest2 : ℕ → D → Bool × D
    unfolding visit_digests
    foreach_digest2 event_hdr d =
        visit_digests (digest_count m event_hdr) (offset event_hdr header2_size) true d

  -- The caller's data is a `size_t *`.
  unfoldable pub digest2_accumulator_callback : Callback (Option ℕ)
  digest2_accumulator_callback digest none = (false, none)
  digest2_accumulator_callback digest (some size) =
      (true, some ((size + sizeof_digest2 digest) % 2 ^ 64))

  -- NULL if the digests could not be summed up.
  next_after : ℕ → Bool × Option ℕ → ℕ
  next_after event_hdr (true, some digests_size) =
      let event = offset (offset event_hdr header2_size) digests_size in
      offset (offset event event2_header) (event_size m event)
  next_after event_hdr _ = null

  unfoldable pub get_next_event : ℕ → ℕ
  unfolding foreach_digest2 digest2_accumulator_callback next_after
  get_next_event event_hdr =
      next_after event_hdr (foreach_digest2 digest2_accumulator_callback event_hdr (some 0))

  module _ {D : Type 0} (callback : Callback D) where
    -- The loop over the events on fuel: `none` means that the fuel ran out.
    unfoldable pub visit_events : ℕ → ℕ → ℕ → D → Option (Bool × D)
    visit_events zero event event_last d = none
    visit_events (suc fuel) event event_last d =
        elim (leb event event_last && not (event == null)) [
          | true ↦
              (let (go_on, d') = callback event d in
                elim go_on [
                  | true ↦ visit_events fuel (get_next_event event) event_last d'
                  | false ↦ some (false, d')
                ])
          | false ↦ some (true, d)
        ]

  -- One round for each address from the first to the last is fuel enough, see `Progress`.
  unfoldable pub foreach_event2 : {D : Type 0} → ℕ → ℕ → Option (Callback D) → D → Option (Bool × D)
  unfolding visit_events
  foreach_event2 event_first event_last none d = some (false, d)
  foreach_event2 event_first event_last (some callback) d =
      if event_first == null || event_last == null
      then some (false, d)
      else visit_events callback (event_last + 1 - event_first + 1) event_first event_last d
