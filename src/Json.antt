-- ===== src/Json.antt =====
-- The dynamic values of the program (`any`, `map[string]any`, `[]any`), and the type assertions
-- and map operations that the packages use on them. A map is the list of its entries in the order
-- in which a `range` visits them, which Go leaves open; a nil map is the empty one.
pub mod Laws
pub mod Shuffle
use agentattest.Prelude.{
  String, ◌≡◌, refl, Bool, true, false, Option, none, some, List, [], ◌∷◌, ◌==◌, arith,
  if◌then◌else◌,
}

-- `number` is a `json.Number` by its text; `float` a `float64` by the literal it was decoded from.
mutual
  pub data Value : Type 0 where
    null : Value
    boolean : Bool → Value
    number : String → Value
    float : String → Value
    text : String → Value
    arr : Items → Value
    obj : Fields → Value

  pub data Fields : Type 0 where
    end : Fields
    field : String → Value → Fields → Fields

  pub data Items : Type 0 where
    nil : Items
    cons : Value → Items → Items

-- `v, ok := m[key]`
unfoldable pub get : String → Fields → Option Value
get key end = none
get key (field k v m) = if k == key then some v else get key m

-- `m[key] = v`
unfoldable pub put : String → Value → Fields → Fields
put key v end = field key v end
put key v (field k w m) = if k == key then field key v m else field k w (put key v m)

-- `if value != "" { m[key] = value }`
unfoldable pub put_text : String → String → Fields → Fields
unfolding put
put_text key value m = if value == "" then m else put key (text value) m

-- `for k, v := range more { m[k] = v }`
unfoldable pub put_all : Fields → Fields → Fields
unfolding put
put_all end m = m
put_all (field k v more) m = put_all more (put k v m)

-- `s, _ := v.(string)`: the empty text where the assertion fails or the key was missing.
unfoldable pub as_text : Option Value → String
as_text (some (text s)) = s
as_text _ = ""

-- `o, _ := v.(map[string]any)`: a nil map where the assertion fails.
unfoldable pub as_object : Option Value → Fields
as_object (some (obj m)) = m
as_object _ = end

-- `o, ok := v.(map[string]any)`
unfoldable pub object? : Option Value → Option Fields
object? (some (obj m)) = some m
object? _ = none

-- `a, ok := v.([]any)`
unfoldable pub array? : Option Value → Option Items
array? (some (arr xs)) = some xs
array? _ = none

-- `b, _ := v.(bool)`
unfoldable pub as_boolean : Option Value → Bool
as_boolean (some (boolean b)) = b
as_boolean _ = false

abbrev pub items : Items → List Value
items nil = []
items (cons v vs) = v ∷ items vs

abbrev pub of_list : List Value → Items
of_list [] = nil
of_list (v ∷ vs) = cons v (of_list vs)

abbrev pub fields : Fields → List (String × Value)
fields end = []
fields (field k v m) = (k, v) ∷ fields m

-- A map literal, its keys in the order of the source.
abbrev pub map_of : List (String × Value) → Fields
map_of [] = end
map_of ((k, v) ∷ m) = field k v (map_of m)
