-- ===== src/Gitbind/Laws.antt =====
-- What the normalized URL hides, and what a computed binding holds.
use agentattest.Prelude.{
  String, ◌≡◌, ◌≢◌, refl, ap, sym, List, Option-cases, inl, inr, false, Option, none, some, [], ◌∷◌,
  ◌==◌, arith, eq_iff, ◌>>=◌, subst, if◌then◌else◌,
}
use agentattest.Prelude.{option_bind-some, same_some}
use agentattest.Env.{Env, Bytes}
use agentattest.Gitbind.Types.{Result, Url, Git}
use agentattest.Gitbind.Remote.{scp_groups, bare_url, normalize_repo_url, from_trimmed}
use agentattest.Gitbind.Compute.{branch_of, changed_files, compute, output}

-- A remote, trimmed, is a URL and has no scp-like form.
abbrev pub IsUrlRemote : Git → String → Url → Type 0
IsUrlRemote git raw u =
    let remote = git.trim_space raw in
    (remote ≢ "") × (scp_groups remote ≡ none) × (git.parse_url remote ≡ some u)

normalize-eq-bare_url :
    (git : Git) (raw : String) (u : Url)
    → IsUrlRemote git raw u
    → normalize_repo_url git raw ≡ bare_url git u
unfolding normalize_repo_url from_trimmed ◌>>=◌
normalize-eq-bare_url git raw u (given, plain, parsed) =
    let empty : (git.trim_space raw == "") ≡ false =
      ground (arith, eq_iff (git.trim_space raw) "") in
    rw (empty, plain, parsed) refl

-- A URL without its user, its query and its fragment.
abbrev pub anonymous : Url → Url
anonymous u = record u { user = none; raw_query = ""; fragment = "" }

-- Two remotes that are URLs and agree in everything but the user with its password, the query and
-- the fragment are normalized alike.
pub normalize_repo_url_hides :
    (git : Git) (raw other : String) (u v : Url)
    → IsUrlRemote git raw u
    → IsUrlRemote git other v
    → anonymous u ≡ anonymous v
    → normalize_repo_url git raw ≡ normalize_repo_url git other
unfolding bare_url
normalize_repo_url_hides git raw other u v remote remote' same =
    rw (normalize-eq-bare_url git raw u remote, normalize-eq-bare_url git other v remote')
      (ap (bare_url git) same)

attached-ne : (b : String) → (if b == "HEAD" then "" else b) ≢ "HEAD"
attached-ne b = ground (arith, eq_iff b "HEAD", eq_iff "" "HEAD")

branch_of-ne-head : (env : Env) (git : Git) (out : Option String) → branch_of env git out ≢ "HEAD"
unfolding branch_of
branch_of-ne-head env git none = λ e. cc e
branch_of-ne-head env git (some out) = attached-ne (git.trim_space out)

-- What a computed binding holds, of the directory it was computed for: the checkout's root is the
-- one that git finds from there, and everything else is git's answer at that root.
pub record IsBinding (env : Env) (git : Git) (repo_dir : String) (r : Result) : Type 0 where
  pub top : Bytes
  pub rooted : git.run repo_dir ("rev-parse" ∷ "--show-toplevel" ∷ []) ≡ some top
  pub remote : Bytes
  pub configured :
      git.run (git.trim_space (git.string_of top)) ("config" ∷ "--get" ∷ "remote.origin.url" ∷ [])
      ≡ some remote
  pub normalized : normalize_repo_url git (git.trim_space (git.string_of remote)) ≡ some r.repo_url
  pub head : Bytes
  pub headed : git.run (git.trim_space (git.string_of top)) ("rev-parse" ∷ "HEAD" ∷ []) ≡ some head
  pub head_commit : r.head_commit ≡ git.trim_space (git.string_of head)
  pub patch : Bytes
  pub diffed :
      git.run (git.trim_space (git.string_of top)) ("diff" ∷ "--binary" ∷ "--no-color" ∷ [])
      ≡ some patch
  pub algorithm : r.patch.algorithm ≡ "sha256"
  pub digest : r.patch.digest ≡ git.sha256_hex patch
  pub attached : r.branch ≢ "HEAD"
  pub files : changed_files env git (git.trim_space (git.string_of top)) ≡ some r.changed_files

output-some :
    (env : Env) (git : Git) (dir : String) (args : List String) (text : String)
    → output env git dir args ≡ some text
    → (out : Bytes) × (git.run dir args ≡ some out) × (text ≡ git.string_of out)
unfolding output
output-some env git dir args text h = elim (Option-cases (git.run dir args)) [
  | inl p ↦ cc (rw (output, p) at h)
  | inr (out, p) ↦ (out, p, sym (same_some (rw (output, p) at h)))
]

-- A binding that `Compute` returns for a directory is that of the checkout which git finds from
-- there: it has the SHA-256 digest of that checkout's diff, the normalized form of its origin, its
-- head, the digests of its changed files, and a branch that is not the name of a detached head.
pub compute_ok :
    (env : Env) (git : Git) (repo_dir : String) (r : Result)
    → compute env git repo_dir ≡ some r
    → IsBinding env git repo_dir r
unfolding compute
compute_ok env git repo_dir r h =
    let (top_text, top_out, h1) = option_bind-some _ _ h in
    let (remote_text, remote_out, h2) = option_bind-some _ _ h1 in
    let (repo_url, normalized, h3) = option_bind-some _ _ h2 in
    let (head_text, head_out, h4) = option_bind-some _ _ h3 in
    let (patch, diffed, h5) = option_bind-some _ _ h4 in
    let (files, changed, h6) = option_bind-some _ _ h5 in
    let (top, rooted, at_top) = output-some env git repo_dir _ top_text top_out in
    let (remote, configured, at_remote) = output-some env git _ _ remote_text remote_out in
    let (head, headed, at_head) = output-some env git _ _ head_text head_out in
    subst (IsBinding env git repo_dir) (same_some h6) (record {
      top = top;
      rooted = rooted;
      remote = remote;
      configured = rw (sym at_top) configured;
      normalized = rw (sym at_remote) normalized;
      head = head;
      headed = rw (sym at_top) headed;
      head_commit = ap git.trim_space at_head;
      patch = patch;
      diffed = rw (sym at_top) diffed;
      algorithm = refl;
      digest = refl;
      attached = branch_of-ne-head env git _;
      files = rw (sym at_top) changed;
    })
