-- ===== src/Tests.antt =====
-- Runs of the definitions on concrete inputs, and the theorems at inputs that meet their
-- hypotheses.
pub mod Samples
pub mod Tables
pub mod Machine
mod Commands
mod Indexing
mod Verifying
mod Signatures
mod Capturing
mod Caching
mod Running
