-- ===== src/Signing.antt =====
-- internal/signing: who signed a payload, and whether its log entry is included.
pub mod Types
pub mod Identity
pub mod Envelope
pub mod Certificates
pub mod Bundle
pub mod Rekor
