-- ===== src/Verify/Pipeline/Chain.antt =====
-- Rules for a chain of phases, and what every result of the verifier is like.
use mathlib.Core.List.Perm
use mathlib.Core.List.{Nodup, Nodup-cons, Nodup-nil, not-mem-nil, mem-cons_self, Pairwise-singleton}
use agentattest.Prelude.{
  String, ◌≡◌, refl, ◌↔◌, Bool, true, false, Option, some, List, [], ◌∷◌, Mem, subst, Bool-cases,
  inl, inr,
}
use agentattest.Prelude.Sort.{IsSorted}
use agentattest.Json.{Value}
use agentattest.Json.Shuffle.{Shuffle}
use agentattest.Env.{Env, Bytes}
use agentattest.Contracts.{Files}
use agentattest.Policy.{collect_strings}
use agentattest.Policy.Order.{collect_strings-perm}
use agentattest.Verify.FailureOrder.{code_less, order_failure_codes}
use agentattest.Verify.FailureOrder.Canonical.{
  order_failure_codes-mem, order_failure_codes-Nodup, order_failure_codes-IsSorted,
  order_failure_codes_canonical,
}
use agentattest.Prelude.Early.{Early, ◌>>=◌, ◌>>◌, require, ensure, ended}
use agentattest.Prelude.Early.Rules.{Ends, early_rules, require-holds, ensure-holds}
use agentattest.Verify.Pipeline.{Result, finish, is_empty, phases, predicate, failing}

order_failure_codes-eq-nil : (codes : List String) → order_failure_codes codes ≡ [] → codes ≡ []
order_failure_codes-eq-nil [] h = refl
order_failure_codes-eq-nil (c ∷ codes) h =
    absurd (not-mem-nil (subst (Mem c) h ((order_failure_codes-mem (c ∷ codes) c).1 mem-cons_self)))

pub is_empty-eq-nil : (codes : List String) → is_empty codes ≡ true → codes ≡ []
is_empty-eq-nil [] h = refl
is_empty-eq-nil (c ∷ codes) h = cc h

-- A verification succeeds exactly when it found no code.
pub finish-valid_iff :
    (level : String) (codes : List String) → ((finish level codes).valid ≡ true) ↔ (codes ≡ [])
unfolding finish order_failure_codes
finish-valid_iff level codes =
    (λ h. order_failure_codes-eq-nil codes (is_empty-eq-nil _ h), λ e. rw e)

pub failing-valid : (level code : String) → (finish level (code ∷ [])).valid ≡ false
failing-valid level code = elim (Bool-cases (finish level (code ∷ [])).valid) [
  | inl h ↦ cc ((finish-valid_iff level (code ∷ [])).0 h)
  | inr h ↦ h
]

-- What a consumer of a result may rely on.
pub record IsReport (r : Result) : Type 0 where
  pub verdict : r.valid ≡ is_empty r.failure_codes
  pub sorted : IsSorted code_less r.failure_codes
  pub distinct : Nodup r.failure_codes

finish-IsReport : (level : String) (codes : List String) → IsReport (finish level codes)
unfolding finish
finish-IsReport level codes = record {
  verdict = refl;
  sorted = order_failure_codes-IsSorted codes;
  distinct = order_failure_codes-Nodup codes;
}

-- Two policy outcomes that differ only in the order in which the entries of their objects are
-- visited, at any depth, give the same result at the same level.
pub finish-collect_strings-Shuffle :
    (level : String) {v w : Value}
    → Shuffle v w
    → finish level (collect_strings v []) ≡ finish level (collect_strings w [])
unfolding finish
finish-collect_strings-Shuffle level s =
    let e = order_failure_codes_canonical _ _ (λ a. Perm.mem_iff (collect_strings-perm s)) in rw e

-- Where a chain ends well, each phase had what it required.
pub require-valid {ℓ} :
    {A : Type ℓ} (o : Option A) (r : Result) (rest : A → Early Result Result)
    → r.valid ≡ false
    → (ended (require o r >>= rest)).valid ≡ true
    → (a : A) × (o ≡ some a) × ((ended (rest a)).valid ≡ true)
require-valid o r rest bad = require-holds (λ s. s.valid ≡ true) o r rest (λ h. cc)

pub ensure-valid :
    (b : Bool) (r : Result) (rest : Early Result Result)
    → r.valid ≡ false
    → (ended (ensure b r >> rest)).valid ≡ true
    → (b ≡ true) × ((ended rest).valid ≡ true)
ensure-valid b r rest bad = ensure-holds (λ s. s.valid ≡ true) b r rest (λ h. cc)

pub ensure-clean :
    (level : String) (codes : List String) (p : Early Result Result)
    → (ended (ensure (is_empty codes) (finish level codes) >> p)).valid ≡ true
    → (codes ≡ []) × ((ended p).valid ≡ true)
unfolding ensure ◌>>=◌
ensure-clean level [] p h = (refl, h)
ensure-clean level (c ∷ codes) p h = cc ((finish-valid_iff level (c ∷ codes)).0 h)

not_located-IsReport :
    IsReport (record { valid = false; level = ""; failure_codes = "schema_invalid" ∷ [] })
not_located-IsReport = record {
  verdict = refl;
  sorted = Pairwise-singleton _ _;
  distinct = Nodup-cons.1 (not-mem-nil, Nodup-nil);
}

ruleset report_rules = (early_rules, finish-IsReport, not_located-IsReport)

phases-IsReport :
    (env : Env) (given : Files) (statement context : Bytes)
    → Ends IsReport (phases env given statement context)
unfolding phases failing
phases-IsReport env given statement context = search report_rules depth 40

-- Whatever the inputs and whatever the tools answer, the result of `Predicate` is valid exactly
-- when it has no failure code, and its failure codes are distinct and in presentation order.
pub predicate-IsReport :
    (env : Env) (given : Files) (statement context : Bytes)
    → IsReport (predicate env given statement context)
unfolding predicate
predicate-IsReport env given statement context = (phases-IsReport env given statement context).at
