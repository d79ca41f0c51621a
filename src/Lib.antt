-- ===== src/Lib.antt =====
-- agentattest creates and verifies provenance attestations of agent runs: in-toto Statements whose
-- predicate says which agent made a patch. The verifier reads a statement and an out-of-band
-- context, runs five phases and reports stable failure codes in a fixed order. The signing side
-- verifies a DSSE envelope against a certificate chain, a trust root and a transparency log, and
-- derives from the certificate the identity that the verifier's context carries.
--
--   * Prelude and its modules: names of the standard library, Booleans, lists, texts, and the
--     stable contract of a sort by a total order.
--   * Json: decoded JSON values (`map[string]any`, `[]any` and the scalars) with Go's type
--     assertions. An object is an association list; Go's lookup is `get`, assignment is `put`.
--   * Env: the file system, the paths and the JSON, JSON Schema, CUE and Rego libraries, as one
--     record of operations. A call that can fail returns an `Option`.
--   * Statement: internal/statement/statement.go (`Parse`, `PredicateMap`, `New`, `NewV1`).
--   * Policy: internal/policy/rego.go (`FailureCodes`, `collectStrings`).
--   * Contracts: internal/contracts/paths.go (`Locate`, `exist`, `Read`). `Locate` loops on fuel; as
--     fuel it is given one more than the depth of the directory it begins at.
--   * Verify.FailureOrder: internal/verify/failure_order.go (`OrderFailureCodes`).
--   * Verify.Pipeline: internal/verify/verify.go and result.go (`Predicate` and its phases). A phase
--     is an `Early` that ends the verification with a result or hands a value on; `phases` is the body
--     of `Predicate`.
--   * Signing.Types: the data of internal/signing and, in `Crypto`, the cryptographic, encoding, DSSE
--     and Merkle operations that it calls. `Run` is what the DSSE library did with an envelope: the
--     calls of the verifiers it was given, in order, and whether it accepted.
--   * Signing.Identity, Signing.Certificates, Signing.Envelope: internal/signing/signing.go, and
--     `LoadTrustRoot` and what it calls of trustroot.go. `ParseCertificates` loops on fuel; it is
--     given one more than the length of its input.
--   * Signing.Bundle: internal/signing/bundle.go. Signing.Rekor: internal/signing/rekor.go, where the
--     numbers of a proof are those of a `uint64` (`% 2 ^ 64`).
--   * Gitbind: internal/gitbind/gitbind.go. `Git` holds the git subprocess and net/url; the regular
--     expression of scp-like remotes is written out as `scp_groups`.
--   * Predicate: internal/predicate/create.go. `Host` holds the clock, the process id and SHA-256.
--   * Sql: the SQL engine of the registry and the cache as an interface: a table with its insertion
--     and its selection, and the laws of a table with a primary key. Registry:
--     internal/registry/registry.go (`Open`, `migrate`, `Add`, `BySubject`, `ByRepo`, `ByRunID`), over
--     such a table. A column that may be NULL is an `Option`; two rows, one of which has no path,
--     never have the same key.
--   * Capture: internal/capture/capture.go (`Statement`). The objects that it updates in place belong
--     to the predicate, so that each update is one of the predicate.
--   * Cache: internal/cache/cache.go (`Init`, `IndexDigest`, `migrate`). Its functions pass on the
--     state of the disk; the rows of its three tables are told apart by their constructors, and the
--     statements of `migrate` are their SQL texts.
--   * App.Command, App.Create, App.Context: `runVerify`, `runVerifyBundle`, `signatureFailure`, the
--     statement of `runPredicate` and `buildVerifierContext` of internal/app. The functions with early
--     returns are chains of `Prelude.Early`; `World` holds the tools that a command calls.
--   * App.Summary: internal/app/context_summary.go (`renderSummary` and its helpers). A Go string is
--     sliced by its bytes, so that the conversions between the two are parameters.
--   * App.Main: the other commands of internal/app and the dispatch to them, `Main`. A run is given
--     the state of the disk and returns it with the exit code and what was written to the standard
--     output; the standard error is left out. What a TUF client leaves on the disk is a parameter.
--   * Tests: sample inputs, runs of the definitions on them, and an instance of each theorem.
--
-- `sort.Slice` is modelled by an insertion sort. Go visits the fields of a map in no fixed order; the
-- definitions visit them in the order of the association list. Errors keep their kind and not their
-- text. Contexts for cancellation have no part in the model.
--
-- Not modelled: the SQL texts of the registry, the struct tags by which its `Add` decodes a statement,
-- the messages on the standard error, cmd, which exits with the code of `Main`, and the TUF library.
pub mod Prelude
pub mod Json
pub mod Env
pub mod Sql
pub mod Statement
pub mod Policy
pub mod Contracts
pub mod Verify
pub mod Signing
pub mod Gitbind
pub mod Predicate
pub mod Cache
pub mod Capture
pub mod Registry
pub mod App
mod Tests
