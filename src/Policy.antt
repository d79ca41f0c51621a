-- ===== src/Policy.antt =====
-- internal/policy/rego.go: the failure codes that the policy's result holds.
pub mod Order
use agentattest.Prelude.{String, Option, none, some, List, [], ◌∷◌, ◌++◌}
use agentattest.Json.{
  Value, null, boolean, number, float, text, arr, obj, Items, nil, cons, Fields, end, field,
}
use agentattest.Env.{Env, Bytes}

-- `collectStrings`; `out` is what the pointer holds.
unfoldable mutual
  pub collect_strings : Value → List String → List String
  collect_strings (text s) out = out ++ s ∷ []
  collect_strings (arr xs) out = collect_items xs out
  collect_strings (obj m) out = collect_fields m out
  collect_strings null out = out
  collect_strings (boolean b) out = out
  collect_strings (number n) out = out
  collect_strings (float x) out = out

  pub collect_items : Items → List String → List String
  collect_items nil out = out
  collect_items (cons v xs) out = collect_items xs (collect_strings v out)

  pub collect_fields : Fields → List String → List String
  collect_fields end out = out
  collect_fields (field k v m) out = collect_fields m (collect_strings v out)

-- The value of the first expression of the first result, if there is one.
unfoldable pub first_codes : List (List Value) → List String
unfolding collect_strings
first_codes ((v ∷ more) ∷ results) = collect_strings v []
first_codes ([] ∷ results) = []
first_codes [] = []

-- `FailureCodes`; `none` where the evaluation fails.
unfoldable pub failure_codes : Env → String → Bytes → Value → Option (List String)
unfolding first_codes
failure_codes env module_name source input = elim (env.eval module_name source input) [
  | none ↦ none
  | some results ↦ some (first_codes results)
]
