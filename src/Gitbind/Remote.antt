-- ===== src/Gitbind/Remote.antt =====
-- internal/gitbind/gitbind.go: `NormalizeRepoURL`.
use Prim.Native.String.{String, [], ◌∷◌}
use agentattest.Prelude.{Bool, false, Option, none, some, ◌<>◌, ◌==◌, ◌||◌, if◌then◌else◌, ◌>>=◌}
use agentattest.Gitbind.Types.{Url, Git}

-- `strings.TrimSuffix`
unfoldable pub trim_suffix : String → String → String
trim_suffix suffix [] = []
trim_suffix suffix (c ∷ s) =
    let rest = trim_suffix suffix s in if (c ∷ s) == suffix then [] else c ∷ rest

-- `trimGitSuffix`
unfoldable pub trim_git_suffix : String → String
unfolding trim_suffix
trim_git_suffix value = trim_suffix ".git" value

unfoldable pub after_prefix : String → String → Option String
after_prefix [] s = some s
after_prefix (p ∷ ps) [] = none
after_prefix (p ∷ ps) (c ∷ s) =
    let rest = after_prefix ps s in if (p ∷ []) == (c ∷ []) then rest else none

-- The text before the first colon, and the text after it.
unfoldable pub split_colon : String → Option (String × String)
split_colon [] = none
split_colon (c ∷ s) =
    let later = split_colon s in
    if (c ∷ []) == ":"
    then some ("", s)
    else elim later [ none ↦ none | some (before, after) ↦ some (c ∷ before, after) ]

unfoldable pub has_newline : String → Bool
has_newline [] = false
has_newline (c ∷ s) = (c ∷ []) == "\n" || has_newline s

-- The two groups of `scpLikeGitHub`, `^git@([^:]+):(.+)$`.
unfoldable pub scp_groups : String → Option (String × String)
unfolding after_prefix split_colon has_newline
scp_groups raw = do
  rest ← after_prefix "git@" raw
  (host, path) ← split_colon rest
  if host == "" || (path == "" || has_newline path) then none else some (host, path)

module _ (git : Git) where
  https_url : String × String → String
  unfolding trim_git_suffix
  https_url (host, path) = trim_git_suffix ("https://" <> (host <> ("/" <> path)))

  -- A parsed URL without its user, query and fragment.
  unfoldable pub bare_url : Url → Option String
  unfolding trim_suffix
  bare_url parsed =
      if parsed.scheme == "http" || parsed.scheme == "https"
      then some (
          git.url_text (record parsed {
            user = none;
            raw_query = "";
            fragment = "";
            path = trim_suffix ".git" parsed.path;
          }))
      else none

  unfoldable pub from_trimmed : String → Option String
  unfolding https_url scp_groups
  from_trimmed raw = if raw == "" then none else elim (scp_groups raw) [
    | some groups ↦ some (https_url groups)
    | none ↦ git.parse_url raw >>= bare_url
  ]

  unfoldable pub normalize_repo_url : String → Option String
  unfolding from_trimmed
  normalize_repo_url raw = from_trimmed (git.trim_space raw)
