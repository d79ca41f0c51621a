-- ===== src/Json/Laws.antt =====
-- How the operations on maps meet.
use agentattest.Prelude.{
  String, ◌≡◌, refl, ◌∙◌, subst, false, Option, none, some, List, [], ◌∷◌, arith, ◌==◌, eq_iff, inl,
  inr, Bool-cases, if◌then◌else◌,
}
use agentattest.Json.{Value, as_object, text, put_text, Fields, end, field, get, put, put_all}

pub get-put :
    (k j : String) (v : Value) (m : Fields)
    → get j (put k v m) ≡ (if k == j then some v else get j m)
unfolding get put
get-put k j v end = refl
get-put k j v (field i w m) = ground (arith, eq_iff k j, eq_iff i k, eq_iff i j, get-put k j v m)

pub get-put_other :
    (k j : String) (v : Value) (m : Fields) → (k == j) ≡ false → get j (put k v m) ≡ get j m
get-put_other k j v m e = get-put k j v m ∙ rw e refl

-- The value that the entries written last give a key, or else the one that it had.
unfoldable pub last_of : String → Fields → Option Value → Option Value
last_of key end old = old
last_of key (field k v m) old = last_of key m (if k == key then some v else old)

pub get-put_all : (j : String) (more m : Fields) → get j (put_all more m) ≡ last_of j more (get j m)
unfolding put_all last_of
get-put_all j end m = refl
get-put_all j (field k v more) m = get-put_all j more (put k v m) ∙ (rw get-put)

pub get-put_text :
    (k j value : String) (m : Fields)
    → get j (put_text k value m)
      ≡ (if k == j then (if value == "" then get j m else some (text value)) else get j m)
unfolding put_text
get-put_text k j value m = ground (arith, get-put k j (text value) m)

-- No key has two entries.
abbrev pub IsMap : Fields → Type 0
IsMap end = Unit
IsMap (field k v m) = (get k m ≡ none) × IsMap m

put-IsMap : (k : String) (v : Value) (m : Fields) → IsMap m → IsMap (put k v m)
unfolding put get
put-IsMap k v end map = (refl, tt)
put-IsMap k v (field i w m) (new, rest) = elim (Bool-cases (i == k)) [
  | inl p ↦ rw p (subst (λ j. get j m ≡ none) ((eq_iff i k).0 p) new, rest)
  | inr p ↦
      let other : (k == i) ≡ false = ground (arith, eq_iff i k, eq_iff k i) in
      rw p (get-put k i v m ∙ rw other new, put-IsMap k v m rest)
]

pub put_text-IsMap : (k value : String) (m : Fields) → IsMap m → IsMap (put_text k value m)
unfolding put_text
put_text-IsMap k value m map = elim (Bool-cases (value == "")) [
  | inl p ↦ rw p map
  | inr p ↦ rw p (put-IsMap k (text value) m map)
]

abbrev pub or_else : Option Value → Option Value → Option Value
or_else (some v) old = some v
or_else none old = old

last_of-eq :
    (j : String) (more : Fields) (old : Option Value)
    → IsMap more
    → last_of j more old ≡ or_else (get j more) old
unfolding last_of get
last_of-eq j end old map = refl
last_of-eq j (field k v m) old (new, rest) = elim (Bool-cases (k == j)) [
  | inl p ↦
      let gone : get j m ≡ none = subst (λ i. get i m ≡ none) ((eq_iff k j).0 p) new in
      rw p (last_of-eq j m (some v) rest ∙ rw gone refl)
  | inr p ↦ rw p (last_of-eq j m old rest)
]

-- A key of a merged map has the value of the map merged in, or else the one that it had.
pub get-merge :
    (j : String) (more m : Fields)
    → IsMap more
    → get j (put_all more m) ≡ or_else (get j more) (get j m)
get-merge j more m map = get-put_all j more m ∙ last_of-eq j more (get j m) map

-- The value at a path of keys, through objects.
abbrev pub at : String → List String → Fields → Option Value
at key [] m = get key m
at key (next ∷ path) m = at next path (as_object (get key m))
