-- ===== src/Tests/Machine.antt =====
-- A machine with the sample checkout: git, the clock, the flags and the tools of the commands.
use agentattest.Prelude.{String, true, false, none, some, [], ◌∷◌, ◌<>◌, ◌==◌, if◌then◌else◌}
use agentattest.Json.{arr, nil}
use agentattest.Env.{Env}
use agentattest.Gitbind.Types.{Url, Result, Git, missing}
use agentattest.Predicate.{CreateOptions, Host}
use agentattest.App.Command.{World}
use agentattest.App.Create.{CreateFlags}
use agentattest.Tests.Samples.{checkout, toy, toy_tuf, context_json}

abbrev pub remote_url : String → Url
remote_url raw = record {
  scheme = "https";
  opaque = "";
  user = if raw == "https://t@h/o/r.git" then some "t" else none;
  host = "h";
  path = "/o/r.git";
  raw_path = "";
  omit_host = false;
  force_query = false;
  raw_query = "";
  fragment = "";
  raw_fragment = "";
}

abbrev pub git : Git
git = record {
  run = λ dir args. some (1 ∷ []);
  read = λ path. missing;
  string_of = λ b. "https://t@h/o/r.git";
  trim_space = λ s. s;
  parse_url = λ s. some (remote_url s);
  url_text = λ u. u.scheme <> ("://" <> (u.host <> u.path));
  sha256_hex = λ b. "00";
}

abbrev pub binding : Result
binding = record {
  repo_url = "https://h/o/r";
  branch = "https://t@h/o/r.git";
  base_commit = "https://t@h/o/r.git";
  head_commit = "https://t@h/o/r.git";
  patch = record { algorithm = "sha256"; digest = "00" };
  changed_files = record { path = "https://t@h/o/r.git"; sha256 = ""; status = "deleted" } ∷ [];
}

abbrev pub options : CreateOptions
options = record {
  agent_name = "";
  agent_version = "";
  repo_url = "";
  base_commit = "";
  now = 0;
  capture_method = "";
  capture_harness = "";
  agent_config_path = "";
  agent_config_sha256 = "ab";
  model_provider = "p";
  model_id = "";
}

abbrev pub host : Host
host = record {
  time_now = 1;
  stamp = λ t. "t";
  rfc3339 = λ t. "t";
  pid = "7";
  sha256_hex = λ s. "00";
}

abbrev pub host_env : Env
host_env = record (checkout (arr nil)) {
  read_file = λ p. if p == "bundle.json" then some [] else (checkout (arr nil)).read_file p;
}

-- `verify bundle --bundle bundle.json --require-inclusion`, with a root from TUF.
abbrev pub world : World
world = record {
  env = host_env;
  crypto = toy;
  git = git;
  tuf = toy_tuf;
  parse_verify = λ args. none;
  parse_bundle = λ args. some (record {
    bundle = "bundle.json";
    trust_root = "";
    repo = ".";
    required_level = "";
    require_inclusion = true;
    rekor_root = "";
  });
  marshal = λ m. some context_json;
  decode_hex = λ s. none;
  blank = λ b. true;
  writable = true;
}

abbrev pub create_flags : CreateFlags
create_flags = record {
  repo = ".";
  version = "v1";
  repo_url = "";
  base_commit = "";
  agent_name = "a";
  agent_version = "";
  capture_method = "ci-step";
  capture_harness = "";
  agent_config = "";
  model_provider = "p";
  model_id = "m";
}
