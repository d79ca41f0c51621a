-- ===== src/Gitbind.antt =====
-- internal/gitbind: the binding of a run to the state of a git checkout.
pub mod Types
pub mod Remote
pub mod Compute
pub mod Laws
