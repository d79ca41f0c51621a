-- ===== src/Tests/Running.antt =====
-- Runs of the program, and the summaries of two statements that differ in what they must not show.
use agentattest.Prelude.{String, ◌≡◌, refl, false, some, none, List, [], ◌∷◌}
use agentattest.Json.{
  Value, Fields, text, obj, map_of, get, as_text, as_object, as_boolean, object?, array?,
}
use agentattest.Env.{Bytes}
use agentattest.Verify.Pipeline.{Result}
use agentattest.Cache.{Row}
use agentattest.App.Summary.{render_summary, raw_stored, failures_line}
use agentattest.App.Summary.View.{render_summary_blind}
use agentattest.App.Main.{Shell, VersionInfo, build, main, run_version, exit_of, write}
use agentattest.App.Main.Exits.{IsRun, main-IsRun}
use agentattest.Tests.Samples.{sample_context}
use agentattest.Tests.Machine.{world, host, create_flags}
use agentattest.Tests.Caching.{disk, older}

abbrev dev : VersionInfo
dev = record { version = "dev"; commit = "none"; date = "unknown" }

abbrev shell : Shell (List Row)
shell = record {
  world = world;
  host = host;
  disk = disk;
  tuf_cached = λ s dir. s;
  base_name = λ p. p;
  version = dev;
  parse_init = λ args. some ".";
  parse_digest = λ args. some ".";
  parse_context = λ args. some (".", "");
  parse_create = λ args. some (create_flags, "");
  parse_summary = λ args. none;
  marshal_statement = λ m. none;
}

version_run : main shell older ("-v" ∷ []) ≡ (older, record { code = 0; output = build dev ∷ [] })
unfolding main run_version exit_of write
version_run = refl

verify_alone : main shell older ("verify" ∷ []) ≡ (older, record { code = 2; output = [] })
unfolding main
verify_alone = refl

main-IsRun_example :
    IsRun shell older
      ("digest" ∷ "--repo" ∷ "." ∷ [])
      (main shell older ("digest" ∷ "--repo" ∷ "." ∷ []))
main-IsRun_example = main-IsRun shell older ("digest" ∷ "--repo" ∷ "." ∷ [])

abbrev prompted : Value → Fields
prompted content = map_of (
    (
      "predicate",
      obj (
          map_of (
            ("privacy", obj (map_of (("rawPrompt", obj (map_of (("content", content) ∷ []))) ∷ [])))
            ∷ [])),
    )
    ∷ [])

abbrev invalid : Result
invalid = record { valid = false; level = ""; failure_codes = "a" ∷ "b" ∷ [] }

abbrev no_bytes : String → Bytes
no_bytes s = []

failures : failures_line invalid ≡ "\n**Failure codes**: a, b\n"
unfolding failures_line
failures = refl

render_summary_blind_example :
    render_summary no_bytes (λ b. "") invalid (prompted (text "a secret")) sample_context
    ≡ render_summary no_bytes (λ b. "") invalid (prompted (text "another")) sample_context
unfolding get as_object as_text as_boolean object? array? raw_stored
render_summary_blind_example =
    render_summary_blind no_bytes (λ b. "") invalid (prompted (text "a secret"))
      (prompted (text "another")) sample_context sample_context refl
