-- ===== src/Gitbind/Compute.antt =====
-- internal/gitbind/gitbind.go: `Compute` and the digests of the changed files.
use agentattest.Prelude.{
  zero, suc, String, Bool, ◌++◌, Option, none, some, List, [], ◌∷◌, ◌==◌, if◌then◌else◌, ◌>>=◌,
}
use agentattest.Prelude.Text.{text_less}
use agentattest.Prelude.Sort.{sort_slice}
use agentattest.Env.{Env, Bytes}
use agentattest.Gitbind.Types.{FileDigest, Result, Content, missing, unreadable, content, Git}
use agentattest.Gitbind.Remote.{normalize_repo_url}

extend_first : List Bytes → Bytes → List Bytes
extend_first [] part = part ∷ []
extend_first (first ∷ parts) part = (part ++ first) ∷ parts

-- `bytes.Split(raw, []byte{0})`
unfoldable pub split_zero : Bytes → List Bytes
unfolding extend_first
split_zero [] = [] ∷ []
split_zero (zero ∷ raw) = [] ∷ split_zero raw
split_zero (suc b ∷ raw) = extend_first (split_zero raw) (suc b ∷ [])

module _ (env : Env) (git : Git) where
  -- `gitOutput`
  unfoldable pub output : String → List String → Option String
  output dir args = elim (git.run dir args) [ none ↦ none | some out ↦ some (git.string_of out) ]

  file_digest : String → Content → Option FileDigest
  file_digest display_path missing =
      some (record { path = display_path; sha256 = ""; status = "deleted" })
  file_digest display_path unreadable = none
  file_digest display_path (content bytes) =
      some (record { path = display_path; sha256 = git.sha256_hex bytes; status = "present" })

  unfoldable pub file_digests : String → List Bytes → Option (List FileDigest)
  unfolding file_digest
  file_digests root [] = some []
  file_digests root ([] ∷ parts) = file_digests root parts
  file_digests root ((b ∷ part) ∷ parts) =
      let rel = env.clean (git.string_of (b ∷ part)) in
      let rest = file_digests root parts in
      file_digest (env.to_slash rel) (git.read (env.join root rel)) >>= λ file.
      rest >>= λ files. some (file ∷ files)

  by_path : FileDigest → FileDigest → Bool
  by_path x y = text_less x.path y.path

  unfoldable pub changed_files : String → Option (List FileDigest)
  unfolding by_path file_digests split_zero sort_slice
  changed_files root = do
    raw ← git.run root ("diff" ∷ "--name-only" ∷ "-z" ∷ [])
    files ← file_digests root (split_zero raw)
    some (sort_slice by_path files)

  -- The branch, which is empty where git fails or the head is detached.
  unfoldable pub branch_of : Option String → String
  branch_of none = ""
  branch_of (some out) = let branch = git.trim_space out in if branch == "HEAD" then "" else branch

  or_head : String → Option String → String
  or_head head none = head
  or_head head (some merge_base) = git.trim_space merge_base

  -- The merge base with the upstream, or the head where there is none.
  unfoldable pub base_of : String → String → Option String → String
  unfolding or_head output
  base_of root head none = head
  base_of root head (some upstream) =
      let name = git.trim_space upstream in
      if name == "" then head else or_head head (output root ("merge-base" ∷ "HEAD" ∷ name ∷ []))

  unfoldable pub compute : String → Option Result
  unfolding output
  compute repo_dir = do
    top ← output repo_dir ("rev-parse" ∷ "--show-toplevel" ∷ [])
    let root = git.trim_space top
    remote ← output root ("config" ∷ "--get" ∷ "remote.origin.url" ∷ [])
    repo_url ← normalize_repo_url git (git.trim_space remote)
    let branch = branch_of (output root ("rev-parse" ∷ "--abbrev-ref" ∷ "HEAD" ∷ []))
    head_out ← output root ("rev-parse" ∷ "HEAD" ∷ [])
    let head = git.trim_space head_out
    let base =
        base_of root head
          (output root ("rev-parse" ∷ "--abbrev-ref" ∷ "--symbolic-full-name" ∷ "@{upstream}" ∷ []))
    patch ← git.run root ("diff" ∷ "--binary" ∷ "--no-color" ∷ [])
    files ← changed_files root
    some (record {
      repo_url = repo_url;
      branch = branch;
      base_commit = base;
      head_commit = head;
      patch = record { algorithm = "sha256"; digest = git.sha256_hex patch };
      changed_files = files;
    })
