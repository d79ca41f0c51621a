-- ===== src/Policy/Order.antt =====
-- The order in which a map is visited only rearranges the codes that are collected.
use mathlib.Core.List.{append-nil, append_assoc, perm_append_comm}
use mathlib.Core.List.Perm
use agentattest.Prelude.{String, ◌≡◌, refl, sym, ◌∙◌, List, [], ◌∷◌, ◌++◌, Perm, ap}
use agentattest.Json.{
  Value, null, boolean, number, float, text, arr, obj, Items, nil, cons, Fields, end, field,
}
use agentattest.Json.Shuffle.{
  Shuffle, same, arrays, objects, ShuffleItems, none_left, item, ShuffleFields, no_entries, entry,
  swap, chain,
}
use agentattest.Policy.{collect_strings, collect_items, collect_fields}

-- The strings of a value, with no accumulator.
mutual
  pub strings : Value → List String
  strings (text s) = s ∷ []
  strings (arr xs) = strings_items xs
  strings (obj m) = strings_fields m
  strings null = []
  strings (boolean b) = []
  strings (number n) = []
  strings (float x) = []

  strings_items : Items → List String
  strings_items nil = []
  strings_items (cons v xs) = strings v ++ strings_items xs

  strings_fields : Fields → List String
  strings_fields end = []
  strings_fields (field k v m) = strings v ++ strings_fields m

mutual
  unfolding collect_strings strings

  collect-eq-strings_onto :
      (v : Value) (out : List String) → collect_strings v out ≡ out ++ strings v
  collect-eq-strings_onto (text s) out = refl
  collect-eq-strings_onto (arr xs) out = collect_items-eq xs out
  collect-eq-strings_onto (obj m) out = collect_fields-eq m out
  collect-eq-strings_onto null out = sym (append-nil out)
  collect-eq-strings_onto (boolean b) out = sym (append-nil out)
  collect-eq-strings_onto (number n) out = sym (append-nil out)
  collect-eq-strings_onto (float x) out = sym (append-nil out)

  collect_items-eq :
      (xs : Items) (out : List String) → collect_items xs out ≡ out ++ strings_items xs
  collect_items-eq nil out = sym (append-nil out)
  collect_items-eq (cons v xs) out =
      collect_items-eq xs (collect_strings v out)
      ∙ ap (λ l. l ++ strings_items xs) (collect-eq-strings_onto v out)
      ∙ append_assoc out (strings v) (strings_items xs)

  collect_fields-eq :
      (m : Fields) (out : List String) → collect_fields m out ≡ out ++ strings_fields m
  collect_fields-eq end out = sym (append-nil out)
  collect_fields-eq (field k v m) out =
      collect_fields-eq m (collect_strings v out)
      ∙ ap (λ l. l ++ strings_fields m) (collect-eq-strings_onto v out)
      ∙ append_assoc out (strings v) (strings_fields m)

pub collect_strings-eq : (v : Value) → collect_strings v [] ≡ strings v
collect_strings-eq v = collect-eq-strings_onto v []

perm_exchange : (xs ys zs : List String) → Perm (xs ++ (ys ++ zs)) (ys ++ (xs ++ zs))
perm_exchange xs ys zs =
    rw (← append_assoc xs ys zs, ← append_assoc ys xs zs)
      (Perm.append_right zs (perm_append_comm xs ys))

mutual
  unfolding strings

  strings-perm : {v w : Value} → Shuffle v w → Perm (strings v) (strings w)
  strings-perm (same v) = Perm.rfl
  strings-perm (arrays s) = strings_items-perm s
  strings-perm (objects s) = strings_fields-perm s

  strings_items-perm :
      {xs ys : Items} → ShuffleItems xs ys → Perm (strings_items xs) (strings_items ys)
  strings_items-perm none_left = Perm.rfl
  strings_items-perm (item s t) = Perm.append (strings-perm s) (strings_items-perm t)

  strings_fields-perm :
      {m n : Fields} → ShuffleFields m n → Perm (strings_fields m) (strings_fields n)
  strings_fields-perm no_entries = Perm.rfl
  strings_fields-perm (entry s t) = Perm.append (strings-perm s) (strings_fields-perm t)
  strings_fields-perm (swap k l v w m) = perm_exchange (strings v) (strings w) (strings_fields m)
  strings_fields-perm (chain s t) = Perm.trans (strings_fields-perm s) (strings_fields-perm t)

-- A policy result whose maps are visited in another order yields the same codes, rearranged.
pub collect_strings-perm :
    {v w : Value} → Shuffle v w → Perm (collect_strings v []) (collect_strings w [])
collect_strings-perm {v} {w} s = rw (collect_strings-eq v, collect_strings-eq w) (strings-perm s)
