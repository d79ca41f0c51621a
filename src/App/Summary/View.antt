-- ===== src/App/Summary/View.antt =====
-- What of a statement and a context can be read off a summary.
use agentattest.Prelude.{
  String, ◌≡◌, refl, sym, ◌∙◌, ap, Bool, Option, none, some, List, [], ◌∷◌, ◌==◌, ◌<>◌, map,
  if◌then◌else◌,
}
use agentattest.Json.{
  Value, Fields, Items, nil, cons, items, get, as_text, as_object, object?, array?,
}
use agentattest.Env.{Bytes}
use agentattest.Verify.Pipeline.{Result}
use agentattest.App.Summary.{
  heading, failures_line, value_or_na, yes_no, or_na, digest_hex, raw_stored, is_match,
  capture_line, short_hash, subject_line, subject_lines, subjects_section, repository_section,
  identity_section, privacy_section, render_summary,
}

-- The method and the harness of a capture descriptor.
abbrev pub captured : Option Fields → Option (String × String)
captured none = none
captured (some capture) = some (as_text (get "method" capture), as_text (get "harness" capture))

abbrev pub elements : Option Items → List Value
elements none = []
elements (some xs) = items xs

-- The names of the subjects with the short forms of their digests, the repository, the short form of
-- the base commit, whether these are those of the context, the identity of the context, the
-- redaction policy, two presence flags and the capture descriptor. Nothing else, no content of a
-- prompt, of a tool or of a trace.
pub record View : Type 0 where
  pub subjects : List (String × String)
  pub repo_url : String
  pub url_matches : Bool
  pub base : String
  pub base_matches : Bool
  pub signer : String
  pub builder : String
  pub issuer : String
  pub redaction : String
  pub raw_prompt : Bool
  pub raw_tool : Bool
  pub capture : Option (String × String)

module _ (bytes_of : String → Bytes) (string_of : Bytes → String) where
  abbrev pub subject_view : Value → String × String
  subject_view s = (
    as_text (get "name" (as_object (some s))),
    short_hash bytes_of string_of (digest_hex (as_object (some s))),
  )

  abbrev pub view : Fields → Fields → View
  view statement context =
      let predicate = as_object (get "predicate" statement) in
      let repo = as_object (get "repo" predicate) in
      let privacy = as_object (get "privacy" predicate) in
      record {
        subjects = map subject_view (elements (array? (get "subject" statement)));
        repo_url = as_text (get "url" repo);
        url_matches = is_match (as_text (get "url" repo)) (as_text (get "repoUrl" context));
        base = short_hash bytes_of string_of (as_text (get "baseCommit" repo));
        base_matches =
            is_match (as_text (get "baseCommit" repo)) (as_text (get "baseCommit" context));
        signer = as_text (get "verifiedSigner" context);
        builder = as_text (get "verifiedBuilderId" context);
        issuer = as_text (get "verifiedIssuer" context);
        redaction = as_text (get "redactionPolicy" privacy);
        raw_prompt = raw_stored privacy "rawPrompt";
        raw_tool = raw_stored privacy "rawToolOutputs";
        capture = captured (object? (get "capture" predicate));
      }

  -- The subjects' lines from what the view has of them.
  line_of : String × String → String
  line_of (name, hash) = "- `" <> (or_na name <> ("` = `" <> (hash <> "`\n")))

  lines_of : List (String × String) → String
  lines_of [] = ""
  lines_of (s ∷ subjects) = line_of s <> lines_of subjects

  section_of : List (String × String) → String
  section_of [] = "**Subjects**\n- (none)\n"
  section_of (s ∷ subjects) = "**Subjects**\n" <> lines_of (s ∷ subjects)

  subject_lines-view :
      (xs : Items) → subject_lines bytes_of string_of xs ≡ lines_of (map subject_view (items xs))
  unfolding subject_lines subject_line line_of lines_of
  subject_lines-view nil = refl
  subject_lines-view (cons s xs) =
      ap (λ rest. subject_line bytes_of string_of s <> rest) (subject_lines-view xs)

  subjects_section-view :
      (o : Option Items)
      → subjects_section bytes_of string_of o ≡ section_of (map subject_view (elements o))
  unfolding subjects_section section_of
  subjects_section-view none = refl
  subjects_section-view (some nil) = refl
  subjects_section-view (some (cons s xs)) =
      ap (λ lines. "**Subjects**\n" <> lines) (subject_lines-view (cons s xs))

  captured_line : Option (String × String) → String
  captured_line none = ""
  captured_line (some (method, harness)) =
      let claimed = "\n**Capture**: " <> or_na method in
      if harness == "" then claimed <> "\n" else claimed <> (" (" <> (harness <> ")\n"))

  capture_line-view : (o : Option Fields) → capture_line o ≡ captured_line (captured o)
  unfolding capture_line captured_line
  capture_line-view none = refl
  capture_line-view (some m) = refl

  -- The summary from the view.
  shown : Result → View → String
  unfolding heading failures_line or_na value_or_na yes_no
  shown result v =
      heading result
      <> (section_of v.subjects
          <> (("\n**Repository**: "
                <> (or_na v.repo_url
                    <> ("\n"
                        <> ("- repo URL matches context: "
                            <> (yes_no v.url_matches
                                <> ("\n"
                                    <> ("- base commit `"
                                        <> (v.base
                                            <> ("` matches context: "
                                                <> (yes_no v.base_matches <> "\n"))))))))))
              <> (("\n**Verified identity** (from out-of-band context)\n"
                    <> ("- signer: "
                        <> (value_or_na v.signer
                            <> ("\n"
                                <> ("- builder: "
                                    <> (value_or_na v.builder
                                        <> ("\n"
                                            <> ("- issuer: "
                                                <> (value_or_na v.issuer <> "\n")))))))))
                  <> (("\n**Privacy**\n"
                        <> ("- redaction policy: "
                            <> (or_na v.redaction
                                <> ("\n"
                                    <> ("- raw prompt stored: "
                                        <> (yes_no v.raw_prompt
                                            <> ("; raw tool output stored: "
                                                <> (yes_no v.raw_tool <> "\n"))))))))
                      <> (captured_line v.capture <> failures_line result)))))

  render_summary-view :
      (result : Result) (statement context : Fields)
      → render_summary bytes_of string_of result statement context
        ≡ shown result (view statement context)
  unfolding render_summary shown repository_section identity_section privacy_section
  render_summary-view result statement context =
      rw
        (
          subjects_section-view (array? (get "subject" statement)),
          capture_line-view (object? (get "capture" (as_object (get "predicate" statement)))),
        )
        refl

-- Two statements with two contexts of the same view give the same summary of a result: what the
-- view leaves out of them never shows.
pub render_summary_blind :
    (bytes_of : String → Bytes) (string_of : Bytes → String) (result : Result)
    (statement statement' context context' : Fields)
    → view bytes_of string_of statement context ≡ view bytes_of string_of statement' context'
    → render_summary bytes_of string_of result statement context
      ≡ render_summary bytes_of string_of result statement' context'
render_summary_blind bytes_of string_of result statement statement' context context' e =
    render_summary-view bytes_of string_of result statement context
    ∙ ap (shown bytes_of string_of result) e
    ∙ sym (render_summary-view bytes_of string_of result statement' context')
