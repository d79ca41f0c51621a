-- ===== src/Predicate/Claims.antt =====
-- What the created predicates say, key by key.
use agentattest.Prelude.{
  if◌then◌else◌, String, ◌≡◌, refl, ◌↔◌, ◌⊎◌, inl, inr, Bool, Bool-cases, ◌||◌, arith, false,
  Option, none, some, [], ◌∷◌, ◌==◌, eq_iff,
}
use agentattest.Json.{Value, text, boolean, obj, Fields, get, as_object}
use agentattest.Json.Laws.{get-put_text, at}
use agentattest.Gitbind.Types.{Result}
use agentattest.Predicate.Laws.{object_of, created_objects}
use agentattest.Predicate.{
  CreateOptions, Host, create, create_v1, capture_object, agent_config_object, model_object,
  privacy_object,
}

-- An optional text: its literal where it is given, and no entry where it is empty.
abbrev pub given_text : Bool → String → Option Value
given_text missing s = if missing then none else some (text s)

-- A predicate that says of itself that no prompt, no tool output and no raw content is kept or
-- published.
abbrev pub NothingRaw : Fields → Type 0
NothingRaw claim =
    (at "privacy" ("redactionPolicy" ∷ []) claim ≡ some (text "default-minimal-v0"))
    × (at "privacy" ("rawPrompt" ∷ "stored" ∷ []) claim ≡ some (boolean false))
    × (at "privacy" ("rawPrompt" ∷ "visibility" ∷ []) claim ≡ some (text "none"))
    × (at "privacy" ("rawToolOutputs" ∷ "stored" ∷ []) claim ≡ some (boolean false))
    × (at "privacy" ("rawToolOutputs" ∷ "visibility" ∷ []) claim ≡ some (text "none"))
    × (at "privacy" ("publicTransparencyLog" ∷ "allowed" ∷ []) claim ≡ some (boolean false))
    × (at "privacy" ("publicTransparencyLog" ∷ "includesRawContent" ∷ []) claim
        ≡ some (boolean false))

pub privacy_object-NothingRaw :
    (claim : Fields) → get "privacy" claim ≡ some privacy_object → NothingRaw claim
unfolding get as_object
privacy_object-NothingRaw claim h = rw h (refl, refl, refl, refl, refl, refl, refl)

-- The descriptors of version 1, as the options give them.
pub record IsDescribed (opts : CreateOptions) (claim : Fields) : Type 0 where
  pub method :
      at "capture" ("method" ∷ []) claim
      ≡ some (text (if opts.capture_method == "" then "wrapper" else opts.capture_method))
  pub harness :
      at "capture" ("harness" ∷ []) claim
      ≡ given_text (opts.capture_harness == "") opts.capture_harness
  pub primary_file :
      at "agentConfig" ("primaryFile" ∷ []) claim
      ≡ given_text
          (opts.agent_config_sha256 == "")
          (if opts.agent_config_path == "" then "AGENTS.md" else opts.agent_config_path)
  pub primary_digest :
      at "agentConfig" ("primaryDigest" ∷ "sha256" ∷ []) claim
      ≡ given_text (opts.agent_config_sha256 == "") opts.agent_config_sha256
  pub provider :
      at "model" ("provider" ∷ []) claim
      ≡ given_text (opts.model_provider == "" || opts.model_id == "") opts.model_provider
  pub model_id :
      at "model" ("modelId" ∷ []) claim
      ≡ given_text (opts.model_provider == "" || opts.model_id == "") opts.model_id
  pub no_config : (get "agentConfig" claim ≡ none) ↔ (opts.agent_config_sha256 ≡ "")
  pub no_model : (get "model" claim ≡ none) ↔ ((opts.model_provider ≡ "") ⊎ (opts.model_id ≡ ""))

config_lem :
    (opts : CreateOptions) (claim : Fields)
    → get "agentConfig" claim ≡ object_of (agent_config_object opts)
    → (at "agentConfig" ("primaryFile" ∷ []) claim
        ≡ given_text
            (opts.agent_config_sha256 == "")
            (if opts.agent_config_path == "" then "AGENTS.md" else opts.agent_config_path))
      × (at "agentConfig" ("primaryDigest" ∷ "sha256" ∷ []) claim
          ≡ given_text (opts.agent_config_sha256 == "") opts.agent_config_sha256)
      × ((get "agentConfig" claim ≡ none) ↔ (opts.agent_config_sha256 ≡ ""))
unfolding agent_config_object get as_object
config_lem opts claim h = elim (Bool-cases (opts.agent_config_sha256 == "")) [
  | inl p ↦
      rw (h, agent_config_object, p)
        (refl, refl, (λ _. (eq_iff opts.agent_config_sha256 "").0 p, λ _. refl))
  | inr p ↦
      rw (h, agent_config_object, p)
        (refl, refl, (λ e. cc e, λ e. ground (arith, eq_iff opts.agent_config_sha256 "", p, e)))
]

model_lem :
    (opts : CreateOptions) (claim : Fields)
    → get "model" claim ≡ object_of (model_object opts)
    → (at "model" ("provider" ∷ []) claim
        ≡ given_text (opts.model_provider == "" || opts.model_id == "") opts.model_provider)
      × (at "model" ("modelId" ∷ []) claim
          ≡ given_text (opts.model_provider == "" || opts.model_id == "") opts.model_id)
      × ((get "model" claim ≡ none) ↔ ((opts.model_provider ≡ "") ⊎ (opts.model_id ≡ "")))
unfolding model_object get as_object
model_lem opts claim h = elim (Bool-cases (opts.model_provider == "" || opts.model_id == "")) [
  | inl p ↦
      rw (h, model_object, p)
        (
          refl,
          refl,
          (
            λ _. ground (arith, eq_iff opts.model_provider "", eq_iff opts.model_id "", p),
            λ _. refl,
          ),
        )
  | inr p ↦
      rw (h, model_object, p)
        (
          refl,
          refl,
          (
            λ e. cc e,
            λ e. ground (arith, eq_iff opts.model_provider "", eq_iff opts.model_id "", p, e),
          ),
        )
]

capture_lem :
    (opts : CreateOptions) (claim : Fields)
    → get "capture" claim ≡ some (obj (capture_object opts))
    → (at "capture" ("method" ∷ []) claim
        ≡ some (text (if opts.capture_method == "" then "wrapper" else opts.capture_method)))
      × (at "capture" ("harness" ∷ []) claim
          ≡ given_text (opts.capture_harness == "") opts.capture_harness)
unfolding capture_object get as_object
capture_lem opts claim h = rw h (
  rw (get-put_text "harness" "method" opts.capture_harness) refl,
  rw (get-put_text "harness" "harness" opts.capture_harness) refl,
)

-- Whatever the options, a created predicate of either version is evidence-grade and says that no
-- prompt, no tool output and no raw content is kept or published; one of version 1 has the given
-- method of capture or else that of the wrapper, the given harness, the given configuration with its
-- digest and the given model, and no configuration and no model where the options give none.
pub created_lem :
    (host : Host) (result : Result) (opts : CreateOptions)
    → let v0 = create host result opts in
      let v1 = create_v1 host result opts in
      NothingRaw v0
      × (get "verificationLevel" v0 ≡ some (text "evidence-grade"))
      × NothingRaw v1
      × (get "verificationLevel" v1 ≡ some (text "evidence-grade"))
      × IsDescribed opts v1
created_lem host result opts =
    let (privacy0, level0, privacy1, level1, captured, config, model) =
      created_objects host result opts in
    let v0 = create host result opts in
    let v1 = create_v1 host result opts in
    let (method, harness) = capture_lem opts v1 captured in
    let (file, digest, no_config) = config_lem opts v1 config in
    let (provider, id, no_model) = model_lem opts v1 model in
    (
      privacy_object-NothingRaw v0 privacy0,
      level0,
      privacy_object-NothingRaw v1 privacy1,
      level1,
      record {
        method = method;
        harness = harness;
        primary_file = file;
        primary_digest = digest;
        provider = provider;
        model_id = id;
        no_config = no_config;
        no_model = no_model;
      },
    )
