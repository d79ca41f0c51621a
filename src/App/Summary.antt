-- ===== src/App/Summary.antt =====
-- internal/app/context_summary.go: the Markdown summary of a verification, `renderSummary`.
pub mod View
use agentattest.Prelude.{
  ℕ, ◌-◌, String, Bool, true, false, not, Option, none, some, List, [], ◌∷◌, ◌==◌, ◌&&◌, ◌<>◌, leb,
  length, take, drop, if◌then◌else◌,
}
use agentattest.Json.{
  Value, Fields, Items, nil, cons, get, as_text, as_object, as_boolean, object?, array?,
}
use agentattest.Env.{Bytes}
use agentattest.Verify.Pipeline.{Result}

unfoldable pub or_na : String → String
or_na s = if s == "" then "n/a" else s

unfoldable pub value_or_na : String → String
value_or_na s = if s == "" then "not provided" else s

unfoldable pub yes_no : Bool → String
yes_no b = if b then "yes" else "no"

unfoldable pub digest_hex : Fields → String
unfolding get as_object as_text
digest_hex subject = as_text (get "sha256" (as_object (get "digest" subject)))

unfoldable pub raw_stored : Fields → String → Bool
unfolding get as_object as_boolean
raw_stored privacy key = as_boolean (get "stored" (as_object (get key privacy)))

-- A text that is not empty and that the context has, too.
unfoldable pub is_match : String → String → Bool
is_match s t = not (s == "") && s == t

-- strings.Join
unfoldable pub join : String → List String → String
join separator [] = ""
join separator (s ∷ []) = s
join separator (s ∷ t ∷ ts) = s <> (separator <> join separator (t ∷ ts))

unfoldable pub heading : Result → String
unfolding or_na
heading result =
    if result.valid
    then "## Agent Provenance: valid (" <> (or_na result.level <> ")\n\n")
    else "## Agent Provenance: invalid\n\n"

unfoldable pub identity_section : Fields → String
unfolding value_or_na get as_text
identity_section context =
    "\n**Verified identity** (from out-of-band context)\n"
    <> ("- signer: "
        <> (value_or_na (as_text (get "verifiedSigner" context))
            <> ("\n"
                <> ("- builder: "
                    <> (value_or_na (as_text (get "verifiedBuilderId" context))
                        <> ("\n"
                            <> ("- issuer: "
                                <> (value_or_na (as_text (get "verifiedIssuer" context))
                                    <> "\n"))))))))

unfoldable pub privacy_section : Fields → String
unfolding or_na yes_no raw_stored get as_object as_text
privacy_section predicate =
    let privacy = as_object (get "privacy" predicate) in
    "\n**Privacy**\n"
    <> ("- redaction policy: "
        <> (or_na (as_text (get "redactionPolicy" privacy))
            <> ("\n"
                <> ("- raw prompt stored: "
                    <> (yes_no (raw_stored privacy "rawPrompt")
                        <> ("; raw tool output stored: "
                            <> (yes_no (raw_stored privacy "rawToolOutputs") <> "\n")))))))

unfoldable pub capture_line : Option Fields → String
unfolding or_na get as_text
capture_line none = ""
capture_line (some capture) =
    let harness = as_text (get "harness" capture) in
    let claimed = "\n**Capture**: " <> or_na (as_text (get "method" capture)) in
    if harness == "" then claimed <> "\n" else claimed <> (" (" <> (harness <> ")\n"))

unfoldable pub failures_line : Result → String
unfolding join
failures_line result =
    if result.valid then "" else "\n**Failure codes**: " <> (join ", " result.failure_codes <> "\n")

-- `[]byte(s)` and `string(b)`
module _ (bytes_of : String → Bytes) (string_of : Bytes → String) where
  -- The slices of a Go string are slices of its bytes.
  unfoldable pub short_hash : String → String
  short_hash s =
      let bytes = bytes_of s in
      if s == ""
      then "n/a"
      else if leb (length bytes) 12
      then s
      else string_of (take 8 bytes) <> ("…" <> string_of (drop (length bytes - 4) bytes))

  unfoldable pub subject_line : Value → String
  unfolding or_na short_hash digest_hex get as_object as_text
  subject_line s =
      let subject = as_object (some s) in
      "- `"
      <> (or_na (as_text (get "name" subject))
          <> ("` = `" <> (short_hash (digest_hex subject) <> "`\n")))

  unfoldable pub subject_lines : Items → String
  unfolding subject_line
  subject_lines nil = ""
  subject_lines (cons s subjects) = subject_line s <> subject_lines subjects

  unfoldable pub subjects_section : Option Items → String
  unfolding subject_lines
  subjects_section (some (cons s subjects)) = "**Subjects**\n" <> subject_lines (cons s subjects)
  subjects_section _ = "**Subjects**\n- (none)\n"

  unfoldable pub repository_section : Fields → Fields → String
  unfolding or_na yes_no is_match short_hash get as_object as_text
  repository_section predicate context =
      let repo = as_object (get "repo" predicate) in
      let repo_url = as_text (get "url" repo) in
      let base = as_text (get "baseCommit" repo) in
      let url_matches = is_match repo_url (as_text (get "repoUrl" context)) in
      let base_matches = is_match base (as_text (get "baseCommit" context)) in
      "\n**Repository**: "
      <> (or_na repo_url
          <> ("\n"
              <> ("- repo URL matches context: "
                  <> (yes_no url_matches
                      <> ("\n"
                          <> ("- base commit `"
                              <> (short_hash base
                                  <> ("` matches context: " <> (yes_no base_matches <> "\n")))))))))

  unfoldable pub render_summary : Result → Fields → Fields → String
  unfolding heading subjects_section repository_section identity_section privacy_section
      capture_line failures_line
  render_summary result statement context =
      let predicate = as_object (get "predicate" statement) in
      heading result
      <> (subjects_section (array? (get "subject" statement))
          <> (repository_section predicate context
              <> (identity_section context
                  <> (privacy_section predicate
                      <> (capture_line (object? (get "capture" predicate))
                          <> failures_line result)))))
