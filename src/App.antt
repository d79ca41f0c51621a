-- ===== src/App.antt =====
-- internal/app: the command line's commands, their exit codes, the summary and the verifier context.
pub mod Context
pub mod Command
pub mod Create
pub mod Report
pub mod Summary
pub mod Main
pub mod EndToEnd
pub mod Answers
