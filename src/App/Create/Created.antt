-- ===== src/App/Create/Created.antt =====
-- What a statement of `predicate create` can be.
use agentattest.Prelude.{
  String, ◌≡◌, ◌≢◌, refl, true, false, Option, none, some, [], ◌==◌, ◌||◌, arith, eq_iff, subst,
  Bool, ◌⊎◌, inl, inr, if◌then◌else◌,
}
use agentattest.Json.{Fields, obj, get, put, as_text, as_object}
use agentattest.Env.{Env, Document}
use agentattest.Statement.{type_v1, predicate_type_v0, predicate_type_v1}
use agentattest.Verify.Pipeline.{phase01}
use agentattest.Gitbind.Types.{Git, Result}
use agentattest.Prelude.{option_bind-some, same_some}
use agentattest.Predicate.{
  CreateOptions, Host, base_predicate, create, create_v1, privacy_object, statement_for,
  statement_for_v1,
}
use agentattest.Predicate.Claims.{NothingRaw, privacy_object-NothingRaw}
use agentattest.Predicate.Laws.{capture_object_lem, HasHeader, created_objects, created-phase01}
use agentattest.App.Create.{
  CreateFlags, base_options, has_v1_flag, cli_method, apply_v1_options, v0_statement, v1_statement,
  statement_of, created_statement,
}

-- A statement whose claim passes the first phase under any header that is read from it, keeps
-- nothing raw, and is not said to be captured by a harness.
pub record IsCreated (stmt : Fields) : Type 0 where
  pub claim : Fields
  pub held : get "predicate" stmt ≡ some (obj claim)
  pub passes : (doc : Document) → HasHeader doc stmt → phase01 doc claim ≡ []
  pub privacy : get "privacy" claim ≡ some privacy_object
  pub nothing_raw : NothingRaw claim
  pub method : as_text (get "method" (as_object (get "capture" claim))) ≢ "harness-native"

cli_method-ne :
    (method allowed : String)
    → cli_method method ≡ some allowed
    → (if allowed == "" then "wrapper" else allowed) ≢ "harness-native"
unfolding cli_method
cli_method-ne method allowed h = ground (
  arith,
  eq_iff allowed "",
  eq_iff method "",
  eq_iff method "wrapper",
  eq_iff method "ci-step",
  eq_iff method "manual",
  eq_iff "harness-native" "wrapper",
  eq_iff "harness-native" "ci-step",
  eq_iff "harness-native" "manual",
)

unless-some {ℓ} :
    {A : Type ℓ} (b : Bool) (a value : A) → (if b then none else some a) ≡ some value → a ≡ value
unless-some true a value h = cc h
unless-some false a value h = same_some h

if-some {ℓ} :
    {A : Type ℓ} (b : Bool) (o p : Option A) (value : A)
    → (if b then o else p) ≡ some value
    → (o ≡ some value) ⊎ (p ≡ some value)
if-some true o p value h = inl h
if-some false o p value h = inr h

abbrev header : String → Document
header t = record { type = type_v1; subject = []; predicate_type = t; predicate = [] }

module _ (host : Host) (result : Result) (opts : CreateOptions) where
  create-IsCreated : IsCreated (statement_for result (create host result opts))
  unfolding statement_for statement_for_v1 get put create base_predicate as_text as_object
  create-IsCreated =
      let v0 = create host result opts in
      record {
        claim = v0;
        held = refl;
        passes = λ doc given.
            (created-phase01 host result opts doc (header predicate_type_v1) v0 v0 given
              (refl, refl)).0;
        privacy = refl;
        nothing_raw = privacy_object-NothingRaw v0 refl;
        method = λ e. cc e;
      }

  create_v1-IsCreated :
      (if opts.capture_method == "" then "wrapper" else opts.capture_method) ≢ "harness-native"
      → IsCreated (statement_for_v1 result (create_v1 host result opts))
  unfolding statement_for statement_for_v1 get as_text as_object
  create_v1-IsCreated other =
      let v1 = create_v1 host result opts in
      let (_, _, privacy, _, captured, _, _) = created_objects host result opts in
      record {
        claim = v1;
        held = refl;
        passes = λ doc given.
            let read =
              created-phase01 host result opts (header predicate_type_v0) doc v1 v1 (refl, refl)
                given in
            read.1;
        privacy = privacy;
        nothing_raw = privacy_object-NothingRaw v1 privacy;
        method = rw (captured, capture_object_lem opts) other;
      }

module _ (env : Env) (git : Git) (host : Host) (base_name : String → String) where
  v0_statement-IsCreated :
      (flags : CreateFlags) (digest : Result) (stmt : Fields)
      → v0_statement env git host base_name flags digest ≡ some stmt
      → IsCreated stmt
  unfolding v0_statement
  v0_statement-IsCreated flags digest stmt h =
      subst IsCreated (unless-some (has_v1_flag flags) _ stmt h)
        (create-IsCreated host digest (base_options flags))

  v1_statement-IsCreated :
      (flags : CreateFlags) (digest : Result) (stmt : Fields)
      → v1_statement env git host base_name flags digest ≡ some stmt
      → IsCreated stmt
  unfolding v1_statement apply_v1_options
  v1_statement-IsCreated flags digest stmt h =
      let (opts, applied, h1) = option_bind-some _ _ h in
      let (method, allowed, a1) = option_bind-some _ _ applied in
      let ((path, sha), _, a2) = option_bind-some _ _ a1 in
      let ((provider, id), _, a3) = option_bind-some _ _ a2 in
      subst IsCreated (same_some h1) (
        create_v1-IsCreated host digest opts (
          subst
            (λ o.
              (if o.capture_method == "" then "wrapper" else o.capture_method) ≢ "harness-native")
            (same_some a3) (cli_method-ne flags.capture_method method allowed)))

  -- A statement that `predicate create` makes, of either version and for any flags, carries a claim
  -- that passes the first phase of the verifier, keeps nothing raw, and is not said to be captured by
  -- a harness.
  pub created_statement_ok :
      (flags : CreateFlags) (stmt : Fields)
      → created_statement env git host base_name flags ≡ some stmt
      → IsCreated stmt
  unfolding created_statement statement_of
  created_statement_ok flags stmt h =
      let (digest, _, h1) = option_bind-some _ _ h in
      let v0 = v0_statement env git host base_name flags digest in
      let v1 = v1_statement env git host base_name flags digest in
      let later : Option Fields = if flags.version == "v1" then v1 else none in
      elim (if-some (flags.version == "" || flags.version == "v0") v0 later stmt h1) [
        | inl made ↦ v0_statement-IsCreated flags digest stmt made
        | inr other ↦ elim (if-some (flags.version == "v1") v1 none stmt other) [
          | inl made ↦ v1_statement-IsCreated flags digest stmt made
          | inr refused ↦ cc refused
        ]
      ]
