-- ===== src/Verify/Pipeline/Phase01.antt =====
-- The checks of the statement's type and of its version, before any schema is consulted.
use agentattest.Prelude.{
  String, ◌≡◌, refl, ◌↔◌, ◌⊎◌, inl, inr, some, [], ◌==◌, eq_iff, arith, not, ◌||◌, ◌&&◌,
}
use agentattest.Json.{Fields, get}
use agentattest.Env.{Document}
use agentattest.Statement.{type_v1, predicate_type_v0, predicate_type_v1}
use agentattest.Contracts.{Files}
use agentattest.Verify.FailureOrder.{contains}
use agentattest.Verify.Pipeline.{Contract, string_value, phase01, contract_for_version}

-- The predicate type and the declared version name the same version.
abbrev pub VersionsAgree : String → String → Type 0
VersionsAgree t declared =
    ((t ≡ predicate_type_v0) × (declared ≡ "v0")) ⊎ ((t ≡ predicate_type_v1) × (declared ≡ "v1"))

-- No code is reported exactly when the container is an in-toto Statement v1 and the predicate's
-- type and declared version agree.
pub phase01-eq-nil_iff :
    (doc : Document) (predicate : Fields)
    → (phase01 doc predicate ≡ []) ↔ (
        (doc.type ≡ type_v1)
        × VersionsAgree doc.predicate_type (string_value predicate "predicateVersion"))
unfolding phase01
phase01-eq-nil_iff doc predicate =
    let declared = string_value predicate "predicateVersion" in
    ground (
      arith,
      eq_iff doc.type type_v1,
      eq_iff doc.predicate_type predicate_type_v0,
      eq_iff doc.predicate_type predicate_type_v1,
      eq_iff declared "v0",
      eq_iff declared "v1",
      eq_iff predicate_type_v0 predicate_type_v1,
      eq_iff "v0" "v1",
    )

-- A statement that passes the first phase has a contract, so that the branch of `Predicate` without
-- a contract is never taken.
pub contract_for_version_total :
    (files : Files) (doc : Document) (predicate : Fields)
    → phase01 doc predicate ≡ []
    → (c : Contract) × (contract_for_version files doc.predicate_type ≡ some c)
unfolding contract_for_version
contract_for_version_total files doc predicate h = elim ((phase01-eq-nil_iff doc predicate).0 h).1 [
  | inl (e, _) ↦ rw e (_, refl)
  | inr (e, _) ↦ rw e (_, refl)
]

-- Each of the three codes of the first phase is reported exactly when its own check fails: the
-- container's type, the predicate type, and the declared version, which must be a known one and,
-- under a known predicate type, that of the type.
pub phase01-codes :
    (doc : Document) (predicate : Fields)
    → let codes = phase01 doc predicate in
      let declared = string_value predicate "predicateVersion" in
      let v0 = doc.predicate_type == predicate_type_v0 in
      let v1 = doc.predicate_type == predicate_type_v1 in
      (contains codes "unsupported_statement_type" ≡ not (doc.type == type_v1))
      × (contains codes "predicate_type_mismatch" ≡ not (v0 || v1))
      × (contains codes "unsupported_predicate_version"
          ≡ not ((declared == "v0" && not v1) || (declared == "v1" && not v0)))
unfolding phase01 contains
phase01-codes doc predicate =
    let declared = string_value predicate "predicateVersion" in
    ground (
      arith,
      eq_iff doc.predicate_type predicate_type_v0,
      eq_iff doc.predicate_type predicate_type_v1,
      eq_iff declared "v0",
      eq_iff declared "v1",
      eq_iff predicate_type_v0 predicate_type_v1,
      eq_iff "v0" "v1",
    )

-- The first phase reads one field of the predicate.
pub phase01_congr :
    (doc : Document) (p q : Fields)
    → get "predicateVersion" p ≡ get "predicateVersion" q
    → phase01 doc p ≡ phase01 doc q
unfolding phase01 string_value
phase01_congr doc p q e = rw e refl
