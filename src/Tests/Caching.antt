-- ===== src/Tests/Caching.antt =====
-- The cache of the sample binding, over a list of rows.
use agentattest.Prelude.{String, ◌<>◌, ◌≡◌, refl, true, some, List, [], ◌∷◌, same_some, sym}
use agentattest.Cache.{Row, ref, digest, timestamp, same_key, Disk, init, migrate}
use agentattest.Cache.Indexed.{IsDisk}
use agentattest.Tests.Tables.{list_table, list_table_law}

abbrev path_of : List String → String
path_of [] = ""
path_of (part ∷ []) = part
path_of (part ∷ more ∷ parts) = part <> ("/" <> path_of (more ∷ parts))

-- Every file has the same database, which always exists.
abbrev pub disk : Disk (List Row)
disk = record {
  join = path_of;
  to_slash = λ p. p;
  mkdir_all = λ s p. (s, true);
  found = λ s p. true;
  write_file = λ s p c. (s, true);
  opens = λ p. true;
  exec = λ p s m. some s;
  tables = λ p. list_table same_key;
  marshal_config = λ c. some [];
  now = "now";
}

abbrev disk_law : IsDisk disk "./.agentattest/cache.db"
disk_law = record {
  table = list_table_law same_key;
  exec-rows = λ s sql after safe h. sym (same_some h);
  mkdir-rows = λ s p. refl;
  write-rows = λ s p c other. refl;
}

-- An older binding of another repository.
abbrev pub older : List Row
older =
    ref "repo.url" "https://h/old" "then" ∷ digest "sha256" "11" "patch" "patch.diff" "then" ∷ []

abbrev indexed : List Row
indexed =
    timestamp "digest.lastComputedAt" "now" "now"
    ∷ digest "sha256" "00" "patch" "patch.diff" "now"
    ∷ ref "repo.headCommit" "https://t@h/o/r.git" "now"
    ∷ ref "repo.baseCommit" "https://t@h/o/r.git" "now"
    ∷ ref "repo.url" "https://h/o/r" "now"
    ∷ digest "sha256" "11" "patch" "patch.diff" "then"
    ∷ []

second_init : init disk older "." ≡ (older, some "./.agentattest/cache.db")
unfolding init migrate
second_init = refl
