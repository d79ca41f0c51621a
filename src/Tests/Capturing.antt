-- ===== src/Tests/Capturing.antt =====
-- The statement of a captured run with one tool, and runs for which there is none.
use agentattest.Prelude.{◌≡◌, ◌↔◌, ◌&&◌, String, refl, true, false, none, some, [], ◌∷◌}
use agentattest.Json.{nil, arr, Fields}
use agentattest.Predicate.{statement_for_v1}
use agentattest.Capture.{
  RunMetadata, Tool, bound_trace, capture_claim, contract_of, captured_statement,
}
use agentattest.Capture.Hex.{is_hex_sha256}
use agentattest.Capture.Claim.{IsCaptured}
use agentattest.Capture.Laws.{IsUncaptured, captured_statement_ok, captured_statement-eq-none_iff}
use agentattest.Tests.Samples.{checkout}
use agentattest.Tests.Machine.{git, host, binding}

abbrev zeros : String
zeros = "0000000000000000000000000000000000000000000000000000000000000000"

abbrev shell : Tool
shell = record { name = "shell"; server = ""; schema_digest = zeros }

abbrev run : RunMetadata
run = record {
  agent_name = "a";
  agent_version = "1";
  invocation_kind = "ci-step";
  execution_type = "";
  model_provider = "";
  model_id = "";
  agent_config_path = "/repo/policies/default.rego";
  trace_format = "";
  trace_ids = "t" ∷ [];
  root_span_id = "";
  trace_uri = "file:///trace.json";
  trace_digest = zeros;
  mcp_servers = [];
  tools = shell ∷ [];
  now = 0;
}

abbrev statement : Fields
statement = statement_for_v1 binding (capture_claim host binding run ("AGENTS.md", "00"))

captured :
    captured_statement (checkout (arr nil)) git host (λ p. "AGENTS.md") binding run ≡ some statement
unfolding captured_statement bound_trace is_hex_sha256 contract_of agentattest.Prelude.◌>>=◌
captured = refl

captured_statement_ok_example : IsCaptured run statement
captured_statement_ok_example =
    captured_statement_ok (checkout (arr nil)) git host (λ p. "AGENTS.md") binding run statement
      captured

abbrev upper_case : RunMetadata
upper_case = record run { trace_digest = "AB" }

upper_case_refused :
    captured_statement (checkout (arr nil)) git host (λ p. "AGENTS.md") binding upper_case ≡ none
unfolding captured_statement bound_trace is_hex_sha256
upper_case_refused = refl

captured_statement-eq-none_iff_example :
    (captured_statement (checkout (arr nil)) git host (λ p. "AGENTS.md") binding upper_case ≡ none)
    ↔ IsUncaptured (checkout (arr nil)) git (λ p. "AGENTS.md") upper_case
captured_statement-eq-none_iff_example =
    captured_statement-eq-none_iff (checkout (arr nil)) git (λ p. "AGENTS.md") host binding
      upper_case
