-- ===== src/App/Main/Exits.antt =====
-- What the exit code of the program says, and which commands write to the disk.
use agentattest.Prelude.{
  String, ◌≡◌, ◌≢◌, refl, ap, ◌⊎◌, inl, inr, Bool, true, false, Option, none, some, List, [], ◌∷◌,
  ◌==◌, ◌||◌, Bool-cases, sym, subst, eq_iff, arith, if◌then◌else◌,
}
use mathlib.Core.Bool.{false≢true}
use agentattest.Verify.Pipeline.{Result as Verdict}
use agentattest.App.Command.{Outcome}
use agentattest.App.Report.{IsVerdict, commands-IsVerdict}
use agentattest.App.Main.Fetch.{IsFetch, main_verify-kept}
use agentattest.App.Main.Plain.{
  IsPlain, run_version-IsPlain, run_init-IsPlain, run_digest-IsPlain, run_context-IsPlain,
  run_predicate-IsPlain, run_summary-IsPlain,
}
use agentattest.App.Main.{
  Output, verdict, Exit, Shell, exit_of, misused, reports, main_verify, main,
}

-- The code is at most 2; where it is not 0, nothing was written or a verdict that is not valid; where
-- it is 0, a verdict that was written is valid, and something was written unless the command may be
-- silent.
pub record IsExit (silent : Bool) (e : Exit) : Type 0 where
  pub small : (e.code ≡ 0) ⊎ ((e.code ≡ 1) ⊎ (e.code ≡ 2))
  pub failed :
      e.code ≢ 0
      → (e.output ≡ []) ⊎ ((r : Verdict) × (e.output ≡ verdict r ∷ []) × (r.valid ≡ false))
  pub passed : (r : Verdict) → e.output ≡ verdict r ∷ [] → e.code ≡ 0 → r.valid ≡ true
  pub told : e.code ≡ 0 → e.output ≡ [] → silent ≡ true

module _ {S : Type 0} (sh : Shell S) where
  exit_of-IsExit :
      (silent : Bool) (o : Option (List Output)) → IsPlain silent o → IsExit silent (exit_of sh o)
  unfolding exit_of
  exit_of-IsExit silent none plain = record {
    small = inr (inl refl);
    failed = λ h. inl refl;
    passed = λ r h k. cc h;
    told = λ h k. cc h;
  }
  exit_of-IsExit silent (some output) plain = record {
    small = inl refl;
    failed = λ h. absurd (h refl);
    passed = λ r h k. absurd (plain.at r (ap some h));
    told = λ h k. plain.told (ap some k);
  }

  misused-IsExit : (silent : Bool) → IsExit silent (misused sh)
  misused-IsExit silent = record {
    small = inr (inr refl);
    failed = λ h. inl refl;
    passed = λ r h k. cc h;
    told = λ h k. cc h;
  }

  verdict-IsExit :
      (o : Outcome) (report : Option Verdict)
      → o.report ≡ report
      → IsVerdict o
      → IsExit false (record { code = o.code; output = reports sh report })
  verdict-IsExit o none e v = record {
    small = v.small;
    failed = λ h. inl refl;
    passed = λ r h k. cc h;
    told = λ h k. let (shown, same, good) = v.valid h in cc (e, same);
  }
  verdict-IsExit o (some r) e v = record {
    small = v.small;
    failed = λ h.
        inr (
          r,
          refl,
          elim (Bool-cases r.valid) [ inl p ↦ absurd (h (v.zero_code r e p)) | inr p ↦ p ],
        );
    passed = λ r' h k.
        let (shown, same, good) = v.valid k in
        let one : r ≡ r' = cc h in let two : r ≡ shown = cc (e, same) in cc (one, two, good);
    told = λ h k. cc k;
  }

  main_verify-IsExit : (s : S) (args : List String) → IsExit false (main_verify sh s args).1
  unfolding main_verify
  main_verify-IsExit s [] = misused-IsExit false
  main_verify-IsExit s (command ∷ args) =
      let (predicate, bundle) = commands-IsVerdict sh.world args in
      elim (Bool-cases (command == "predicate")) [
        | inl p ↦ rw (main_verify, p) (verdict-IsExit _ _ refl predicate)
        | inr p ↦ elim (Bool-cases (command == "bundle")) [
          | inl q ↦ rw (main_verify, p, q) (verdict-IsExit _ _ refl bundle)
          | inr q ↦ rw (main_verify, p, q) (misused-IsExit false)
        ]
      ]

-- The commands that write to the disk: those of the cache, and `predicate` with its `--out`.
abbrev pub is_writer : List String → Bool
is_writer [] = false
is_writer (command ∷ args) = command == "init" || (command == "digest" || command == "predicate")

-- The command that may write to a file in place of the standard output.
abbrev pub is_predicate : List String → Bool
is_predicate [] = false
is_predicate (command ∷ args) = command == "predicate"

-- A run of the program has an exit as above, and changes the disk only as a writer or by a fetch.
pub record IsRun {S : Type 0} (sh : Shell S) (s : S) (args : List String) (run : S × Exit)
    : Type 0 where
  pub exit : IsExit (is_predicate args) run.1
  pub kept : (is_writer args ≡ true) ⊎ ((run.0 ≡ s) ⊎ IsFetch sh s args run.0)

chosen {ℓ κ} :
    {A : Type ℓ} (P : A → Type κ) (b : Bool) (x y : A)
    → (b ≡ true → P x)
    → (b ≡ false → P y)
    → P (if b then x else y)
chosen P true x y h k = h refl
chosen P false x y h k = k refl

-- A run that always tells something.
weaken : (silent : Bool) (e : Exit) → IsExit false e → IsExit silent e
weaken silent e h = record {
  small = h.small;
  failed = h.failed;
  passed = h.passed;
  told = λ p q. absurd (false≢true (h.told p q));
}

other_command :
    (command name : String)
    → (command == name) ≡ true
    → (name == "predicate") ≡ false
    → false ≡ (command == "predicate")
other_command command name h other =
    sym (subst (λ c. (c == "predicate") ≡ false) (sym ((eq_iff command name).0 h)) other)

module _ {S : Type 0} (sh : Shell S) (s : S) (args : List String) where
  read_only : (o : Option (List Output)) → IsPlain false o → IsRun sh s args (s, exit_of sh o)
  read_only o plain = record {
    exit = weaken (is_predicate args) (exit_of sh o) (exit_of-IsExit sh false o plain);
    kept = inr (inl refl);
  }

  may_write :
      (silent : Bool) (run : S × Option (List Output))
      → is_writer args ≡ true
      → silent ≡ is_predicate args
      → IsPlain silent run.1
      → IsRun sh s args (run.0, exit_of sh run.1)
  may_write silent run writer same plain = record {
    exit = subst (λ b. IsExit b (exit_of sh run.1)) same (exit_of-IsExit sh silent run.1 plain);
    kept = inl writer;
  }

  exits : (e : Exit) → IsExit false e → IsRun sh s args (s, e)
  exits e h = record { exit = weaken (is_predicate args) e h; kept = inr (inl refl) }

module _ {S : Type 0} (sh : Shell S) where
  verifies :
      (s : S) (command : String) (args : List String)
      → (command == "verify") ≡ true
      → IsRun sh s (command ∷ args) (main_verify sh s args)
  verifies s command args e = record {
    exit = weaken (command == "predicate") (main_verify sh s args).1 (main_verify-IsExit sh s args);
    kept = inr (
        subst
          (λ name.
            ((main_verify sh s args).0 ≡ s) ⊎ IsFetch sh s (name ∷ args) (main_verify sh s args).0)
          (sym ((eq_iff command "verify").0 e)) (main_verify-kept sh s args));
  }

-- For every command line and whatever the tools answer, the program exits with 0, 1 or 2; where the
-- code is not 0, it wrote nothing or a verdict that is not valid; where it is 0, a verdict that it
-- wrote is valid, and it wrote something, except that `predicate` may write a file instead. Beside
-- `init`, `digest` and `predicate`, only `verify bundle` without a PEM text as its trust root changes
-- the disk: it leaves the cache of a TUF client in the default cache directory.
pub main-IsRun :
    {S : Type 0} (sh : Shell S) (s : S) (args : List String) → IsRun sh s args (main sh s args)
unfolding main
main-IsRun sh s [] = exits sh s [] _ (misused-IsExit sh false)
main-IsRun sh s (command ∷ args) =
    let line = command ∷ args in
    let P = IsRun sh s line in
    chosen P (command == "version" || (command == "--version" || command == "-v")) _ _
      (λ p. read_only sh s line _ (run_version-IsPlain sh))
      (λ p.
        chosen P (command == "init") _ _
          (λ q.
            may_write sh s line false _ (ground (arith, q)) (other_command command "init" q refl)
              (run_init-IsPlain sh s args))
          (λ q.
            chosen P (command == "digest") _ _
              (λ q.
                may_write sh s line false _ (ground (arith, q))
                  (other_command command "digest" q refl) (run_digest-IsPlain sh s args))
              (λ q.
                chosen P (command == "context") _ _
                  (λ q. read_only sh s line _ (run_context-IsPlain sh args))
                  (λ q.
                    chosen P (command == "predicate") _ _
                      (λ q.
                        may_write sh s line true _ (ground (arith, q)) (sym q)
                          (run_predicate-IsPlain sh s args))
                      (λ q.
                        chosen P (command == "verify") _ _ (λ q. verifies sh s command args q)
                          (λ q.
                            chosen P (command == "summary") _ _
                              (λ q. read_only sh s line _ (run_summary-IsPlain sh args))
                              (λ q. exits sh s line _ (misused-IsExit sh false))))))))
