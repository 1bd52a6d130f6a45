-- ===== src/EventLog.antt =====
-- example/util.c: the walk over the event log of TCG 2, in the memory that the firmware left it in,
-- and example/tcg2-get-eventlog.c: the walk over that of TCG 1.2.
pub mod Memory
pub mod Walk
pub mod Progress
pub mod Print
pub mod Tpm12
pub mod Render
pub mod Render12
pub mod Encoding
pub mod RoundTrip
mod Examples
mod Examples12
