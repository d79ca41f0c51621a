-- ===== src/App/Main/Plain.antt =====
-- The commands that write no verdict.
use agentattest.Prelude.{
  String, ◌≡◌, ◌≢◌, refl, inl, inr, Bool, true, false, Option, none, some, List, [], ◌∷◌, ◌==◌,
  ◌>>=◌, Bool-cases, Option-cases, if◌then◌else◌,
}
use agentattest.Verify.Pipeline.{Result as Verdict}
use agentattest.App.Create.{created_statement}
use agentattest.App.Main.{
  Output, verdict, build, binding, statement, markdown, Shell, write, run_version, run_init,
  indexed_output, run_digest, run_context, write_statement, create_statement, run_predicate,
  run_summary,
}

-- A command that writes no verdict, and that writes something unless it may be silent.
pub record IsPlain (silent : Bool) (o : Option (List Output)) : Type 0 where
  pub at : (r : Verdict) → o ≢ some (verdict r ∷ [])
  pub told : o ≡ some [] → silent ≡ true

none-IsPlain : {silent : Bool} → IsPlain silent none
none-IsPlain = record { at = λ r h. cc h; told = λ h. cc h }

empty-IsPlain : IsPlain true (some [])
empty-IsPlain = record { at = λ r h. cc h; told = λ h. refl }

bind-IsPlain {ℓ} :
    {silent : Bool} {A : Type ℓ} (o : Option A) (f : A → Option (List Output))
    → ((a : A) → IsPlain silent (f a))
    → IsPlain silent (o >>= f)
unfolding ◌>>=◌
bind-IsPlain none f h = none-IsPlain
bind-IsPlain (some a) f h = h a

written-IsPlain : (b : Bool) → IsPlain true (if b then some [] else none)
written-IsPlain true = empty-IsPlain
written-IsPlain false = none-IsPlain

module _ {S : Type 0} (sh : Shell S) where
  write-IsPlain :
      {silent : Bool} (out : Output)
      → ((r : Verdict) → out ≢ verdict r)
      → IsPlain silent (write sh out)
  unfolding write
  write-IsPlain out other = elim (Bool-cases sh.world.writable) [
    | inl p ↦ rw p (record { at = λ r h. other r (cc h); told = λ h. cc h })
    | inr p ↦ rw p none-IsPlain
  ]

  pub run_version-IsPlain : IsPlain false (run_version sh)
  unfolding run_version
  run_version-IsPlain = write-IsPlain (build sh.version) (λ r h. cc h)

  pub run_init-IsPlain : (s : S) (args : List String) → IsPlain false (run_init sh s args).1
  unfolding run_init
  run_init-IsPlain s args = elim (Option-cases (sh.parse_init args)) [
    | inl p ↦ rw (run_init, p) none-IsPlain
    | inr (repo, p) ↦ rw (run_init, p) (bind-IsPlain _ _ (λ path. write-IsPlain _ (λ r h. cc h)))
  ]

  indexed_output-IsPlain :
      (s : S) (repo : String) (o : Option _) → IsPlain false (indexed_output sh s repo o).1
  unfolding indexed_output
  indexed_output-IsPlain s repo none = none-IsPlain
  indexed_output-IsPlain s repo (some result) = write-IsPlain (binding result) (λ r h. cc h)

  pub run_digest-IsPlain : (s : S) (args : List String) → IsPlain false (run_digest sh s args).1
  unfolding run_digest
  run_digest-IsPlain s args = elim (Option-cases (sh.parse_digest args)) [
    | inl p ↦ rw (run_digest, p) none-IsPlain
    | inr (repo, p) ↦ rw (run_digest, p) (indexed_output-IsPlain s repo _)
  ]

  pub run_context-IsPlain : (args : List String) → IsPlain false (run_context sh args)
  unfolding run_context
  run_context-IsPlain args =
      bind-IsPlain _ _ (λ flags. bind-IsPlain _ _ (λ result. write-IsPlain _ (λ r h. cc h)))

  write_statement-IsPlain :
      (s : S) (out : String) (stmt : _) → IsPlain true (write_statement sh s out stmt).1
  unfolding write_statement
  write_statement-IsPlain s out stmt = elim (Bool-cases (out == "")) [
    | inl p ↦ rw (write_statement, p) (write-IsPlain (statement stmt) (λ r h. cc h))
    | inr p ↦ elim (Option-cases (sh.marshal_statement stmt)) [
      | inl q ↦ rw (write_statement, p, q) none-IsPlain
      | inr (contents, q) ↦ rw (write_statement, p, q) (written-IsPlain _)
    ]
  ]

  create_statement-IsPlain :
      (s : S) (args : List String) → IsPlain true (create_statement sh s args).1
  unfolding create_statement
  create_statement-IsPlain s args = elim (Option-cases (sh.parse_create args)) [
    | inl p ↦ rw (create_statement, p) none-IsPlain
    | inr ((flags, out), p) ↦
        elim (Option-cases
          (created_statement sh.world.env sh.world.git sh.host sh.base_name flags)) [
            | inl q ↦ rw (create_statement, p, q) none-IsPlain
            | inr (stmt, q) ↦ rw (create_statement, p, q) (write_statement-IsPlain s out stmt)
          ]
  ]

  pub run_predicate-IsPlain :
      (s : S) (args : List String) → IsPlain true (run_predicate sh s args).1
  unfolding run_predicate
  run_predicate-IsPlain s [] = none-IsPlain
  run_predicate-IsPlain s (command ∷ args) = elim (Bool-cases (command == "create")) [
    | inl p ↦ rw (run_predicate, p) (create_statement-IsPlain s args)
    | inr p ↦ rw (run_predicate, p) none-IsPlain
  ]

  markdown-IsPlain : (summary : String) → IsPlain false (write sh (markdown summary))
  markdown-IsPlain summary = write-IsPlain (markdown summary) (λ r h. cc h)

  pub run_summary-IsPlain : (args : List String) → IsPlain false (run_summary sh args)
  unfolding run_summary
  run_summary-IsPlain args = search (bind-IsPlain, markdown-IsPlain) depth 20
