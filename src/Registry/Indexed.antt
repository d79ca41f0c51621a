-- ===== src/Registry/Indexed.antt =====
-- Which digests of a statement are indexed.
use mathlib.Core.List.{Nodup, Nodup-cons, Nodup-nil}
use agentattest.Prelude.{
  String, ◌≡◌, ◌≢◌, ◌↔◌, inl, inr, false, List, [], ◌∷◌, ◌==◌, ◌||◌, map, Mem, arith, eq_iff,
  Bool-cases, if◌then◌else◌,
}
use agentattest.Verify.FailureOrder.{contains}
use agentattest.Verify.FailureOrder.Canonical.{contains_iff}
use agentattest.Registry.{sha256_of, new_digests}

-- Membership as the loop tests it.
contains-new_digests :
    (seen : List String) (subjects : List (List (String × String))) (d : String)
    → contains (new_digests seen subjects) d
      ≡ (if d == "" || contains seen d then false else contains (map sha256_of subjects) d)
unfolding new_digests contains
contains-new_digests seen [] d = ground arith
contains-new_digests seen (s ∷ subjects) d = ground (
  arith,
  eq_iff (sha256_of s) d,
  eq_iff (sha256_of s) "",
  eq_iff d "",
  contains-new_digests seen subjects d,
  contains-new_digests (sha256_of s ∷ seen) subjects d,
)

fresh-new_digests :
    (digest : String) (seen : List String) (subjects : List (List (String × String)))
    → contains (new_digests (digest ∷ seen) subjects) digest ≡ false
unfolding contains
fresh-new_digests digest seen subjects =
    ground (arith, eq_iff digest digest, contains-new_digests (digest ∷ seen) subjects digest)

new_digests-Nodup :
    (seen : List String) (subjects : List (List (String × String)))
    → Nodup (new_digests seen subjects)
unfolding new_digests
new_digests-Nodup seen [] = Nodup-nil
new_digests-Nodup seen (s ∷ subjects) =
    let digest = sha256_of s in
    elim (Bool-cases (digest == "" || contains seen digest)) [
      | inl p ↦ rw p (new_digests-Nodup seen subjects)
      | inr p ↦ rw p (
          Nodup-cons.1 (
            λ m. cc ((contains_iff _ digest).1 m, fresh-new_digests digest seen subjects),
            new_digests-Nodup (digest ∷ seen) subjects,
          ))
    ]

-- The digests that `Add` inserts rows for are the SHA-256 digests of the subjects that are not empty,
-- each of them once and no other.
pub new_digests_lem :
    (subjects : List (List (String × String)))
    → Nodup (new_digests [] subjects)
      × ((d : String)
          → Mem d (new_digests [] subjects) ↔ ((d ≢ "") × Mem d (map sha256_of subjects)))
unfolding contains
new_digests_lem subjects = (
  new_digests-Nodup [] subjects,
  λ d.
      let found = contains_iff (new_digests [] subjects) d in
      let given = contains_iff (map sha256_of subjects) d in
      let same = contains-new_digests [] subjects d in
      (
        λ m.
            let here = found.1 m in
            (
              (λ e. ground (arith, eq_iff d "", same, here)),
              given.0 (ground (arith, eq_iff d "", same, here)),
            ),
        λ (nonempty, m). let here = given.1 m in found.0 (ground (arith, eq_iff d "", same, here)),
      ),
)
