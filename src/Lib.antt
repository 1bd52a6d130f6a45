-- ===== src/Lib.antt =====
-- tpm2-tcti-uefi: a TPM2 command transmission interface (TCTI) for UEFI applications, and the helpers
-- of its example programs.
--
-- The parts, bottom up, and where they stand:
-- - Platform: what the code takes from outside: EFI and TSS2 constants and macros, CopyMem and the
--   firmware behind EFI_TCG2_PROTOCOL, as a record that every definition takes as an argument.
--   `IsLawful` states what is relied on. The state of a run is a `Machine`: the firmware's own state
--   and what has been printed so far; `M` is a function from machines to a result and a machine.
-- - Tpm: the constants of tss2/tss2_tpm2_types.h, as a parameter, and what is relied on of them.
-- - Tcg2 (src/tcg2-util.c, src/tcg2-protocol.h): the wrappers of the functions of the protocol.
-- - Tcti (src/tcti-uefi.c, src/tcti-uefi.h): the context and its operations `transmit`, `receive`,
--   `finalize` and `init`, as tcti_uefi_transmit, tcti_uefi_receive, tcti_uefi_finalize and
--   Tss2_Tcti_Uefi_Init. They call Tcg2 to find the protocol and to exchange command and response.
--   Tcti/Spec has the contract as an abstract session, Tcti/Session sequences of calls.
-- - Util (example/util.c): names and sizes of algorithms and event types, the choice of a log format
--   (get_eventlog_format_high), PCR selections (Util/Pcr).
-- - EventLog (example/util.c, example/tcg2-get-eventlog.c): the walk over an event log in memory and
--   its printing. EventLog/Encoding lays events out in memory as the packed structures say.
-- - EventLog/Tpm12 and EventLog/Render12 (example/tcg2-get-eventlog.c): the log of TCG 1.2.
-- - Pool: the world of the code that allocates: the machine and the live blocks of AllocatePool, by
--   address, each with the TCTI or SAPI context in it. An action comes back, or it is `undefined`: it
--   used or freed a block that is not live or holds another kind of context, or wrote beyond an array;
--   or it is `starved`: a loop ran out of fuel. `Returns P` says that it comes back, and with a result such that `P`.
-- - Tss2 (example/tss2-util.c): tcti_uefi_init, sys_uefi_init_from_tcti_ctx, sys_uefi_init and the
--   teardowns. Tss2/External has the pool services and the functions of tpm2-tss on a SAPI context as
--   a parameter with what is relied on of them, Tss2/Commands the TPM commands. Tss2/Ready says what a
--   ready SAPI context is, Tss2/Stays which actions leave it ready, Tss2/Session what a program with
--   both contexts leaves behind.
-- - Programs: the example programs with their efi_main. Programs/Caps is example/tcg2-get-caps.c,
--   Programs/PcrBanks example/tcg2-get-pcr-banks.c, Programs/ReadLog the rest of
--   example/tcg2-get-eventlog.c, Programs/CapsFixed, Programs/PropertyCases, Programs/PropertyText
--   and Programs/CapsMain example/tpm2-get-caps-fixed.c, Programs/NvOps and Programs/NvClean
--   example/tpm2-nv-ops.c, Programs/Pcrs with PcrRound, PcrLeaves, PcrEnd, PcrMain and PcrText
--   example/tpm2-get-pcrs.c, Programs/Compat example/compat.c.
-- - Sample, and the modules named Examples: a firmware and inputs that meet every hypothesis, with
--   tests of the operations.
--
-- A pointer to a context, a size or a buffer is an Option, `none` for NULL; an OUT parameter is an
-- argument with its old contents and a result with its new ones. A buffer is the list of its bytes.
-- Integers are natural numbers; what wraps is written with `% 2 ^ w`, for a size_t and a pointer of
-- 64 bits. A signed timeout is its bit pattern. Memory with an event log is a function from addresses
-- to bytes. The conversion of a char to a wchar_t is a parameter, since a char is signed on x86_64 and
-- not on aarch64. The walk over a log runs on fuel, one round for each address from the first to the last
-- event and one more; each event takes at least 16 bytes, so that is enough. The loop that reads all
-- PCRs runs on fuel for 513 rounds: each round that reads a digest takes a PCR out of a selection of
-- at most 16 banks with 32 PCRs each.
--
-- Not modelled: what the firmware and the TPM do behind their interfaces; how tpm2-tss turns a command
-- into calls of the TCTI; accesses beyond a buffer inside a context, which the theorems exclude by
-- hypotheses; the conversions of Print; InitializeLib; the unit tests. Of the accesses beyond an array,
-- that of select_all_active_pcrs for more than 16 active banks makes the PCR program `undefined`; the
-- function by itself leaves such a write out, and its theorem asks for an array with room. The functions
-- of the protocol that no code here calls are left out of Platform.
pub mod Base
pub mod EventLog
pub mod Platform
pub mod Pool
pub mod Programs
pub mod Sample
pub mod Tcg2
pub mod Tcti
pub mod Tpm
pub mod Tss2
pub mod Util
