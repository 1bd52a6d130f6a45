-- ===== src/Util.antt =====
-- example/util.c and example/util.h: what the example programs share.
pub mod Names
pub mod Format
pub mod Pcr
mod Examples
