-- ===== src/Tss2.antt =====
-- example/tss2-util.c: the allocation and the teardown of a TCTI context and of the SAPI context
-- over it. A pointer is the address of a block, 0 is NULL.
pub mod External
pub mod Init
pub mod Ready
pub mod Teardown
pub mod Commands
pub mod Call
pub mod Stays
pub mod Leaks
mod Examples
pub mod Handshake
pub mod Session
use tpm2_tcti_uefi.Base.{ℕ, true, false, List, [], ◌∷◌, Option, none, some, ◌==◌, if◌then◌else◌}
use tpm2_tcti_uefi.Platform.{num, print, Machine, M, Platform}
use tpm2_tcti_uefi.Tcti.{Context, Entry, uefi_finalize, Initialised, init, finalize}
use tpm2_tcti_uefi.Pool.{
  Content, tcti, sapi, World, returned, undefined, addresses, find, remove, contains, Act, pure,
  ◌>>=◌, ◌>>◌, lift, with_tcti, with_sapi, say, context_at,
}
use External.{Library, AbiVersion}

-- A context that a function was given by a pointer stays one.
abbrev stored : Context → Option Context → Context
stored c none = c
stored c (some d) = d

-- `size` behind its pointer.
abbrev stored_size : Option ℕ → ℕ
stored_size none = 0
stored_size (some n) = n

-- `abi_version`
abbrev pub abi_version : AbiVersion
abi_version = record { tss_creator = 1; tss_family = 2; tss_level = 1; tss_version = 108 }

module _ {F S : Type 0} (p : Platform F) (l : Library F S) where
  -- AllocatePool; the new block reads as a context of some kind.
  unfoldable pub allocate : (ℕ → F → Content S) → ℕ → Act F S ℕ
  allocate fresh n w =
      let (a, g) = l.allocate_pool (addresses w.blocks) n w.machine.firmware in
      let machine = record w.machine { firmware = g } in
      returned (
        a,
        record {
          machine = machine;
          blocks = if a == 0 then w.blocks else (a, fresh n g) ∷ w.blocks;
        },
      )

  -- FreePool
  unfoldable pub free : ℕ → Act F S (Unit {0})
  free a w =
      if contains a (addresses w.blocks)
      then returned (
        tt,
        record {
          machine = record w.machine { firmware = l.free_pool a w.machine.firmware };
          blocks = remove a w.blocks;
        },
      )
      else undefined

  -- `Tss2_Tcti_Uefi_Init` on a block.
  abbrev init_block : ℕ → Context → M F (Initialised × Context)
  init_block size c s = let (r, s') = init p (some c) (some size) s in ((r, stored c r.context), s')

  -- `tcti_uefi_init`: the return code, and `*ctx`.
  unfoldable pub tcti_uefi_init : ℕ → Act F S (ℕ × ℕ)
  unfolding allocate free
  tcti_uefi_init old = do
    query ← lift (init p none (some p.uninitialised))
    if query.rc == p.rc_success
        then (do
          ctx ← allocate (λ n g. tcti (l.fresh_tcti n g)) (stored_size query.size)
          if ctx == 0
              then (do
                say (print "Failed to allocate 0x%x bytes\n" (num (stored_size query.size) ∷ []))
                pure (p.rc_general_failure, ctx))
              else (do
                made ← with_tcti ctx (init_block (stored_size query.size))
                if made.rc == p.rc_success
                    then pure (made.rc, ctx)
                    else (do free ctx; pure (made.rc, ctx))))
        else pure (query.rc, old)

  -- The call of an entry point of type `TSS2_TCTI_FINALIZE_FCN`; only that of this repository is known.
  abbrev call_finalize : ℕ → Entry → Act F S (Unit {0})
  call_finalize ctx uefi_finalize =
      with_tcti ctx λ c s. let (d, s') = finalize p (some c) s in ((tt, stored c d), s')
  call_finalize ctx _ = λ w. undefined

  -- `Tss2_Tcti_Finalize`, a macro: it calls the entry point of the context, or does nothing.
  abbrev tcti_finalize : ℕ → Act F S (Unit {0})
  tcti_finalize ctx = do
    entry ←
        with_tcti ctx λ c s. ((if l.finalize_calls c then some c.finalize_entry else none, c), s)
    elim entry [ none ↦ pure tt | some e ↦ call_finalize ctx e ]

  unfoldable pub tcti_uefi_teardown : ℕ → Act F S (Unit {0})
  unfolding free
  tcti_uefi_teardown tcti_ctx =
      if tcti_ctx == 0 then pure tt else (do tcti_finalize tcti_ctx; free tcti_ctx)

  -- The return code, and `*sys_ctx`.
  unfoldable pub sys_uefi_init_from_tcti_ctx : ℕ → ℕ → Act F S (ℕ × ℕ)
  unfolding allocate free
  sys_uefi_init_from_tcti_ctx tcti_ctx old = do
    sys_ctx_tmp ← allocate (λ n g. sapi (l.fresh_sapi n g)) (l.sys_get_context_size 0)
    if sys_ctx_tmp == 0
        then (do
          say (
              print "Failed to allocate 0x%zx bytes for the SAPI context\n"
                (num (l.sys_get_context_size 0) ∷ []))
          pure (p.rc_general_failure, old))
        else (do
          context ← context_at tcti_ctx
          rc ←
              with_sapi sys_ctx_tmp
                (l.sys_initialize (l.sys_get_context_size 0) tcti_ctx context abi_version)
          if rc == p.rc_success then pure (p.rc_success, sys_ctx_tmp) else (do
            say (print "Failed to initialize SAPI context: 0x%x\n" (num rc ∷ []))
            free sys_ctx_tmp
            pure (rc, old)))

  unfoldable pub sys_uefi_init : ℕ → Act F S (ℕ × ℕ)
  sys_uefi_init old = do
    made ← tcti_uefi_init p.uninitialised
    if made.0 == p.rc_success then sys_uefi_init_from_tcti_ctx made.1 old else pure (made.0, old)

  unfoldable pub sys_uefi_teardown : ℕ → Act F S (Unit {0})
  unfolding free
  sys_uefi_teardown sys_ctx =
      if sys_ctx == 0
      then pure tt
      else (do with_sapi sys_ctx λ x. (tt, l.sys_finalize x); free sys_ctx)

  unfoldable pub sys_uefi_teardown_full : ℕ → Act F S (Unit {0})
  sys_uefi_teardown_full sys_ctx = if sys_ctx == 0 then pure tt else (do
    got ← with_sapi sys_ctx λ x. (l.sys_get_tcti_context x 0, x)
    if got.0 == p.rc_success
        then (do sys_uefi_teardown sys_ctx; tcti_uefi_teardown got.1)
        else say (print "Tss2_Sys_GetTctiContext failed\n" []))
