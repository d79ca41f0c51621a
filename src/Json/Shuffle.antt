-- ===== src/Json/Shuffle.antt =====
-- The same value, its maps visited in another order at any depth.
use agentattest.Prelude.{String}
use agentattest.Json.{Value, arr, obj, Items, nil, cons, Fields, end, field}

mutual
  pub data Shuffle : Value → Value → Type 0 where
    same : (v : Value) → Shuffle v v
    arrays : {xs ys : Items} → ShuffleItems xs ys → Shuffle (arr xs) (arr ys)
    objects : {m n : Fields} → ShuffleFields m n → Shuffle (obj m) (obj n)

  pub data ShuffleItems : Items → Items → Type 0 where
    none_left : ShuffleItems nil nil
    item :
        {v w : Value} {xs ys : Items}
        → Shuffle v w
        → ShuffleItems xs ys
        → ShuffleItems (cons v xs) (cons w ys)

  pub data ShuffleFields : Fields → Fields → Type 0 where
    no_entries : ShuffleFields end end
    entry :
        {k : String} {v w : Value} {m n : Fields}
        → Shuffle v w
        → ShuffleFields m n
        → ShuffleFields (field k v m) (field k w n)
    swap :
        (k l : String) (v w : Value) (m : Fields)
        → ShuffleFields (field k v (field l w m)) (field l w (field k v m))
    chain : {m n o : Fields} → ShuffleFields m n → ShuffleFields n o → ShuffleFields m o
