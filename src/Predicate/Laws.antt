-- ===== src/Predicate/Laws.antt =====
-- The created predicates meet the first phase of the verifier, and claim no more than they may.
use agentattest.Prelude.{
  if◌then◌else◌, String, ◌≡◌, refl, ◌∙◌, true, false, Option, none, some, [], ◌∷◌, ◌==◌, eq_iff,
}
use agentattest.Json.{Value, text, obj, Fields, get, put, as_text}
use agentattest.Json.Laws.{get-put, get-put_text}
use agentattest.Env.{Document}
use agentattest.Gitbind.Types.{Result}
use agentattest.Verify.Pipeline.{phase01, string_value}
use agentattest.Predicate.{
  CreateOptions, Host, base_predicate, create, create_v1, put_some, capture_object,
  agent_config_object, model_object, statement_for, statement_for_v1, privacy_object,
}

abbrev pub object_of : Option Fields → Option Value
object_of none = none
object_of (some m) = some (obj m)

get-put_some :
    (k j : String) (o : Option Fields) (m : Fields)
    → (k == j) ≡ false
    → get j (put_some k o m) ≡ get j m
unfolding put_some
get-put_some k j none m e = refl
get-put_some k j (some object) m e = get-put k j (obj object) m ∙ rw e refl

get-put_some_same :
    (k : String) (o : Option Fields) (m : Fields)
    → get k m ≡ none
    → get k (put_some k o m) ≡ object_of o
unfolding put_some
get-put_some_same k none m e = e
get-put_some_same k (some object) m e =
    let same : (k == k) ≡ true = (eq_iff k k).1 refl in get-put k k (obj object) m ∙ rw same refl

module _ (host : Host) (result : Result) (opts : CreateOptions) where
  create_v1-kept :
      (key : String)
      → ("model" == key) ≡ false
      → ("agentConfig" == key) ≡ false
      → get key (create_v1 host result opts)
        ≡ get key (
            put "capture"
              (obj (capture_object opts))
              (put "predicateVersion" (text "v1") (base_predicate host result opts "v1-alpha")))
  unfolding create_v1
  create_v1-kept key model config =
      get-put_some "model" key (model_object opts) _ model
      ∙ get-put_some "agentConfig" key (agent_config_object opts) _ config

  v1_config : get "agentConfig" (create_v1 host result opts) ≡ object_of (agent_config_object opts)
  unfolding get put create_v1 base_predicate
  v1_config =
      get-put_some "model" "agentConfig" (model_object opts) _ refl
      ∙ get-put_some_same "agentConfig" (agent_config_object opts) _ refl

  v1_model : get "model" (create_v1 host result opts) ≡ object_of (model_object opts)
  unfolding get put create_v1 base_predicate
  v1_model =
      get-put_some_same "model" (model_object opts) _
        (get-put_some "agentConfig" "model" (agent_config_object opts) _ refl)

  -- The objects of the predicates.
  pub created_objects :
      let v0 = create host result opts in
      let v1 = create_v1 host result opts in
      (get "privacy" v0 ≡ some privacy_object)
      × (get "verificationLevel" v0 ≡ some (text "evidence-grade"))
      × (get "privacy" v1 ≡ some privacy_object)
      × (get "verificationLevel" v1 ≡ some (text "evidence-grade"))
      × (get "capture" v1 ≡ some (obj (capture_object opts)))
      × (get "agentConfig" v1 ≡ object_of (agent_config_object opts))
      × (get "model" v1 ≡ object_of (model_object opts))
  unfolding get put create base_predicate
  created_objects = (
    refl,
    refl,
    create_v1-kept "privacy" refl refl,
    create_v1-kept "verificationLevel" refl refl,
    create_v1-kept "capture" refl refl,
    v1_config,
    v1_model,
  )

  v0_version : string_value (create host result opts) "predicateVersion" ≡ "v0"
  unfolding get put create base_predicate string_value as_text
  v0_version = refl

  v1_version : string_value (create_v1 host result opts) "predicateVersion" ≡ "v1"
  unfolding get put base_predicate string_value as_text
  v1_version = rw (create_v1-kept "predicateVersion" refl refl) refl

-- The header of a decoded statement is that of the generic map.
abbrev pub HasHeader : Document → Fields → Type 0
HasHeader doc statement =
    (doc.type ≡ as_text (get "_type" statement))
    × (doc.predicate_type ≡ as_text (get "predicateType" statement))

-- A created predicate, wrapped by the function of its version, passes the first phase of the
-- verifier; wrapped by that of the other version, it is refused for its declared version alone.
pub created-phase01 :
    (host : Host) (result : Result) (opts : CreateOptions) (doc doc' : Document)
    (claim claim' : Fields)
    → HasHeader doc (statement_for result claim)
    → HasHeader doc' (statement_for_v1 result claim')
    → let v0 = create host result opts in
      let v1 = create_v1 host result opts in
      (phase01 doc v0 ≡ [])
      × (phase01 doc' v1 ≡ [])
      × (phase01 doc v1 ≡ "unsupported_predicate_version" ∷ [])
      × (phase01 doc' v0 ≡ "unsupported_predicate_version" ∷ [])
unfolding phase01 statement_for statement_for_v1 get as_text
created-phase01 host result opts doc doc' claim claim' (t, p) (t', p') =
    rw (t, p, t', p', v0_version host result opts, v1_version host result opts)
      (refl, refl, refl, refl)

-- The method of a capture is the given one, or that of the wrapper.
pub capture_object_lem :
    (opts : CreateOptions)
    → as_text (get "method" (capture_object opts))
      ≡ (if opts.capture_method == "" then "wrapper" else opts.capture_method)
unfolding capture_object get as_text
capture_object_lem opts = rw (get-put_text "harness" "method" opts.capture_harness) refl
