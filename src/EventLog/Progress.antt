-- ===== src/EventLog/Progress.antt =====
-- Where `get_next_event` leads, and that the walk over a log comes to its end.
use tpm2_tcti_uefi.Base.{
  ℕ, zero, suc, ◌≡◌, ◌≤◌, ◌<◌, ◌+◌, ◌*◌, ◌%◌, ◌^◌, ◌==◌, ◌∙◌, ◌-◌, Bool, true, false, not, ◌&&◌,
  ◌||◌, leb, Bool-cases, inl, inr, Option, none, some, arith, refl,
}
use native.Mathlib.Nat.{zero-add}
use tpm2_tcti_uefi.Tpm.{Tpm, IsTpm}
use tpm2_tcti_uefi.Util.Names.{get_alg_size, get_alg_size-le}
use tpm2_tcti_uefi.EventLog.Memory.{
  Memory, null, IsMemory, u32_at-lt, algorithm_id, event_size, digest_count,
}
use tpm2_tcti_uefi.EventLog.Walk.{
  Callback, get_next_digest, sizeof_digest2, visit_digests, digest2_accumulator_callback,
  get_next_event, visit_events, foreach_event2,
}

module _ (t : Tpm) (m : Memory) where
  -- The bytes of `n` digests from an address on.
  unfoldable pub digests_size : ℕ → ℕ → ℕ
  digests_size zero digest = 0
  digests_size (suc n) digest =
      2
      + get_alg_size t (algorithm_id m digest)
      + digests_size n (digest + (2 + get_alg_size t (algorithm_id m digest)))

  -- The address of the TCG_EVENT2 behind the digests of a header.
  abbrev pub body_of : ℕ → ℕ
  body_of hdr = hdr + 12 + digests_size (digest_count m hdr) (hdr + 12)

  module _ (h : IsTpm t) where
    digests_size-le : (n digest : ℕ) → digests_size n digest ≤ 66 * n
    unfolding digests_size
    digests_size-le zero digest = omega arith
    digests_size-le (suc n) digest =
        let size = get_alg_size t (algorithm_id m digest) in
        omega (
          arith,
          digests_size-le n (digest + (2 + size)),
          get_alg_size-le t h (algorithm_id m digest),
        )

    visit_digests-go :
        (n digest : ℕ) (d d' : Option ℕ)
        → 0 < digest
        → digest2_accumulator_callback t m digest d ≡ (true, d')
        → visit_digests t m (digest2_accumulator_callback t m) (suc n) digest true d
          ≡ visit_digests t m
              (digest2_accumulator_callback t m)
              n
              (get_next_digest t m digest)
              true
              d'
    unfolding visit_digests
    visit_digests-go n digest d d' pos e = ground arith

    accumulates :
        (n digest size : ℕ)
        → 0 < digest
        → digest + digests_size n digest < 2 ^ 64
        → size + digests_size n digest < 2 ^ 64
        → visit_digests t m (digest2_accumulator_callback t m) n digest true (some size)
          ≡ (true, some (size + digests_size n digest))
    unfolding visit_digests digests_size digest2_accumulator_callback sizeof_digest2 get_next_digest
    accumulates zero digest size pos a b = ground arith
    accumulates (suc n) digest size pos a b =
        let k = 2 + get_alg_size t (algorithm_id m digest) in
        let next : (digest + k) % 2 ^ 64 ≡ digest + k = omega arith in
        let sum : (size + k) % 2 ^ 64 ≡ size + k = omega arith in
        visit_digests-go n digest (some size) (some ((size + k) % 2 ^ 64)) pos refl
        ∙ rw (next, sum)
            (accumulates n (digest + k) (size + k) (omega arith) (omega arith) (omega arith)
              ∙ ground arith)

    module _ (ok : IsMemory m) (hdr : ℕ) (low : hdr < 2 ^ 63) where
      digests_size-lt : digests_size (digest_count m hdr) (hdr + 12) ≤ 66 * 2 ^ 32
      digests_size-lt =
          omega (arith, digests_size-le (digest_count m hdr) (hdr + 12), u32_at-lt m ok (hdr + 8))

      -- Below 2^63 no address and no size wraps: the next event lies behind the digests of the
      -- header and behind the event's own bytes, whatever the log says.
      pub get_next_event_lem : get_next_event t m hdr ≡ body_of hdr + 4 + event_size m (body_of hdr)
      unfolding get_next_event
      get_next_event_lem =
          let digests = (hdr + 12) % 2 ^ 64 in
          let size = digests_size (digest_count m hdr) (hdr + 12) in
          let start : digests ≡ hdr + 12 = omega arith in
          let summed =
            accumulates (digest_count m hdr) (hdr + 12) 0 (omega arith)
              (omega (arith, digests_size-lt)) (omega (arith, digests_size-lt)) in
          let body : (hdr + 12 + size) % 2 ^ 64 ≡ hdr + 12 + size =
            omega (arith, digests_size-lt) in
          rw (get_next_event, start, summed, zero-add, start, body)
            (omega (arith, digests_size-lt, u32_at-lt m ok (body_of hdr)))

      -- So an event takes at least the 16 bytes of its two headers.
      pub lt-get_next_event : hdr + 16 ≤ get_next_event t m hdr
      lt-get_next_event = omega (arith, get_next_event_lem)

    visit_events_total :
        IsMemory m
        → {D : Type 0} (callback : Callback D) (fuel event event_last : ℕ) (d : D)
        → event_last < 2 ^ 63
        → 0 < fuel
        → event_last + 1 < fuel + event
        → (r : Bool × D) × (visit_events t m callback fuel event event_last d ≡ some r)
    unfolding visit_events
    visit_events_total ok callback zero event event_last d low f g = absurd (omega arith)
    visit_events_total ok callback (suc fuel) event event_last d low f g =
        elim (Bool-cases (leb event event_last && not (event == null))) [
          | inr stop ↦ rw (stop, visit_events) ((true, d), refl)
          | inl here ↦
              rw (here, visit_events)
                (elim (Bool-cases (callback event d).0) [
                  | inr off ↦ rw (off, visit_events) ((false, (callback event d).1), refl)
                  | inl on ↦
                      rw (on, visit_events)
                        (let within : event ≤ event_last = ground arith in
                          let further = lt-get_next_event ok event (omega arith) in
                          visit_events_total ok callback fuel (get_next_event t m event) event_last
                            (callback event d).1 low (omega arith) (omega arith))
                ])
        ]

    -- The walk over a log below 2^63 ends, for every contents of the memory and every callback.
    pub foreach_event2_total :
        IsMemory m
        → {D : Type 0} (callback : Option (Callback D)) (event_first event_last : ℕ) (d : D)
        → event_last < 2 ^ 63
        → (r : Bool × D) × (foreach_event2 t m event_first event_last callback d ≡ some r)
    unfolding foreach_event2
    foreach_event2_total ok none first last d low = ((false, d), refl)
    foreach_event2_total ok (some callback) first last d low =
        elim (Bool-cases (first == null || last == null)) [
          | inl empty ↦ rw empty ((false, d), refl)
          | inr full ↦ rw full (
              visit_events_total ok callback (last + 1 - first + 1) first last d low (omega arith)
                (omega arith))
        ]
