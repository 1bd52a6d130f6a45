-- ===== src/Programs.antt =====
-- The example programs, one module each.
pub mod PropertyText
pub mod PropertyCases
pub mod CapsFixed
pub mod CapsMain
pub mod Caps
pub mod PcrBanks
pub mod ReadLog
pub mod Compat
pub mod NvOps
pub mod NvClean
pub mod Pcrs
pub mod PcrRound
pub mod PcrText
pub mod PcrLeaves
pub mod PcrEnd
pub mod PcrMain
mod Examples
mod CommandExamples
