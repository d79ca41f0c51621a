-- ===== src/Statement.antt =====
-- internal/statement/statement.go: parsing a statement, and building one.
use agentattest.Prelude.{String, Option, none, some, List, [], ◌∷◌, map}
use agentattest.Json.{Value, text, arr, obj, Fields, map_of, of_list}
use agentattest.Env.{Env, Bytes, Document, Subject}

abbrev pub type_v1 : String
type_v1 = "https://in-toto.io/Statement/v1"

abbrev pub predicate_type_v0 : String
predicate_type_v0 = "https://agentattest.dev/predicate/v0"

abbrev pub predicate_type_v1 : String
predicate_type_v1 = "https://agentattest.dev/predicate/v1"

-- `Parse`: the typed document and the generic map of the same bytes.
unfoldable pub parse : Env → Bytes → Option (Document × Fields)
parse env raw = elim (env.decode_document raw) [
  | none ↦ none
  | some doc ↦ elim (env.decode_object raw) [ none ↦ none | some generic ↦ some (doc, generic) ]
]

unfoldable pub predicate_map : Env → Document → Option Fields
predicate_map env doc = env.decode_object doc.predicate

-- A subject as the JSON object that its struct tags give it.
abbrev pub digest_value : List (String × String) → List (String × Value)
digest_value [] = []
digest_value ((k, v) ∷ m) = (k, text v) ∷ digest_value m

abbrev pub subject_value : Subject → Value
subject_value s =
    obj (map_of (("name", text s.name) ∷ ("digest", obj (map_of (digest_value s.digest))) ∷ []))

unfoldable pub new_with_type : String → List Subject → Fields → Fields
new_with_type predicate_type subjects predicate = map_of (
    ("_type", text type_v1)
    ∷ ("subject", arr (of_list (map subject_value subjects)))
    ∷ ("predicateType", text predicate_type)
    ∷ ("predicate", obj predicate)
    ∷ [])

unfoldable pub new : List Subject → Fields → Fields
unfolding new_with_type
new = new_with_type predicate_type_v0

unfoldable pub new_v1 : List Subject → Fields → Fields
unfolding new_with_type
new_v1 = new_with_type predicate_type_v1
