-- ===== src/Contracts/Search.antt =====
-- The search finds the nearest directory above its start that holds a contract pack, and ends.
use agentattest.Prelude.{
  ℕ, zero, suc, ◌<◌, String, ◌≡◌, refl, sym, ap, ◌∙◌, ◌⊎◌, inl, inr, Bool, true, false, Option,
  none, some, arith, ◌==◌, eq_iff, Bool-cases,
}
use agentattest.Env.{Env, DirClimbs}
use agentattest.Contracts.{Files, exist, files_at, search_from, start_directory, found, locate}

module _ (env : Env) where
  -- The directory some steps above.
  unfoldable pub climb : ℕ → String → String
  climb zero dir = dir
  climb (suc k) dir = climb k (env.dir dir)

  unfoldable pub has_pack : String → Bool
  has_pack dir = exist env (files_at env dir)

  -- The root is its own parent.
  climb_root : (k : ℕ) (dir : String) → env.dir dir ≡ dir → climb k dir ≡ dir
  unfolding climb
  climb_root zero dir h = refl
  climb_root (suc k) dir h = rw h (climb_root k dir h)

  -- No pack in the first `k` directories from `dir` upwards.
  abbrev pub NoneBelow : ℕ → String → Type 0
  NoneBelow k dir = (j : ℕ) → j < k → has_pack (climb j dir) ≡ false

  NoneBelow-suc :
      (k : ℕ) (dir : String)
      → has_pack dir ≡ false
      → NoneBelow k (env.dir dir)
      → NoneBelow (suc k) dir
  unfolding climb
  NoneBelow-suc k dir h below zero lt = h
  NoneBelow-suc k dir h below (suc j) lt = below j (omega arith)

  -- One round of the loop.
  search_from_hit :
      (fuel : ℕ) (dir : String)
      → has_pack dir ≡ true
      → search_from env (suc fuel) dir ≡ some (some (files_at env dir))
  unfolding search_from has_pack
  search_from_hit fuel dir h = rw h

  search_from_root :
      (fuel : ℕ) (dir : String)
      → has_pack dir ≡ false
      → (env.dir dir == dir) ≡ true
      → search_from env (suc fuel) dir ≡ some none
  unfolding search_from has_pack
  search_from_root fuel dir h r = rw (h, r)

  search_from_up :
      (fuel : ℕ) (dir : String)
      → has_pack dir ≡ false
      → (env.dir dir == dir) ≡ false
      → search_from env (suc fuel) dir ≡ search_from env fuel (env.dir dir)
  unfolding search_from has_pack
  search_from_up fuel dir h r = rw (h, r)

  -- What the search finds is the pack of the nearest directory that has one.
  pub search_from_found :
      (fuel : ℕ) (dir : String) (files : Files)
      → search_from env fuel dir ≡ some (some files)
      → (k : ℕ) × (files ≡ files_at env (climb k dir))
        × (has_pack (climb k dir) ≡ true)
        × NoneBelow k dir
  unfolding climb
  search_from_found zero dir files h = unfold search_from in cc h
  search_from_found (suc fuel) dir files h = elim (Bool-cases (has_pack dir)) [
    | inl p ↦ (0, cc (h, search_from_hit fuel dir p), p, λ j lt. absurd (omega arith))
    | inr p ↦ elim (Bool-cases (env.dir dir == dir)) [
      | inl r ↦ cc (h, search_from_root fuel dir p r)
      | inr r ↦
          let (k, e, hit, below) =
            search_from_found fuel (env.dir dir) files (sym (search_from_up fuel dir p r) ∙ h) in
          (suc k, e, hit, NoneBelow-suc k dir p below)
    ]
  ]

  -- Where the search gives up, no directory above its start has a pack.
  pub search_from_not_found :
      (fuel : ℕ) (dir : String)
      → search_from env fuel dir ≡ some none
      → (k : ℕ) → has_pack (climb k dir) ≡ false
  search_from_not_found zero dir h k = unfold search_from in cc h
  search_from_not_found (suc fuel) dir h k = elim (Bool-cases (has_pack dir)) [
    | inl p ↦ cc (h, search_from_hit fuel dir p)
    | inr p ↦ elim (Bool-cases (env.dir dir == dir)) [
      | inl r ↦ rw (climb_root k dir ((eq_iff _ _).0 r)) p
      | inr r ↦
          let rest =
            search_from_not_found fuel (env.dir dir) (sym (search_from_up fuel dir p r) ∙ h) in
          NoneBelow-suc k dir p (λ j _. rest j) k (omega arith)
    ]
  ]

  -- One more unit of fuel than the path has elements is enough.
  pub search_from_total :
      DirClimbs env
      → (fuel : ℕ) (dir : String) → env.depth dir < fuel
      → (r : Option Files) × (search_from env fuel dir ≡ some r)
  search_from_total climbs zero dir h = absurd (omega arith)
  search_from_total climbs (suc fuel) dir h = elim (Bool-cases (has_pack dir)) [
    | inl p ↦ (some (files_at env dir), search_from_hit fuel dir p)
    | inr p ↦ elim (Bool-cases (env.dir dir == dir)) [
      | inl r ↦ (none, search_from_root fuel dir p r)
      | inr r ↦
          let closer : env.depth (env.dir dir) < fuel =
            ground (arith, climbs dir, eq_iff (env.dir dir) dir) in
          let (found, e) = search_from_total climbs fuel (env.dir dir) closer in
          (found, search_from_up fuel dir p r ∙ e)
    ]
  ]

  locate-eq :
      (start from : String)
      → start_directory env start ≡ some from
      → locate env start ≡ found env (search_from env (suc (env.depth from)) from)
  unfolding locate agentattest.Prelude.◌>>=◌
  locate-eq start from begin = rw begin

  locate_cases :
      (start from : String)
      → start_directory env start ≡ some from
      → (r : Option Files) → search_from env (suc (env.depth from)) from ≡ some r
      → ((k : ℕ) × (locate env start ≡ some (files_at env (climb k from)))
          × (has_pack (climb k from) ≡ true)
          × NoneBelow k from)
        ⊎ ((locate env start ≡ none) × ((k : ℕ) → has_pack (climb k from) ≡ false))
  unfolding found
  locate_cases start from begin none e =
      inr (locate-eq start from begin ∙ rw e, search_from_not_found _ from e)
  locate_cases start from begin (some files) e =
      let (k, at, hit, below) = search_from_found _ from files e in
      inl (k, locate-eq start from begin ∙ rw e (ap some at), hit, below)

  -- Where every directory's parent is itself or is less deep, `Locate` that begins at a directory
  -- returns the pack of the nearest directory, from there upwards, that has one; or it fails, and
  -- none of these directories has one.
  pub locate_lem :
      DirClimbs env
      → (start from : String) → start_directory env start ≡ some from
      → ((k : ℕ) × (locate env start ≡ some (files_at env (climb k from)))
          × (has_pack (climb k from) ≡ true)
          × NoneBelow k from)
        ⊎ ((locate env start ≡ none) × ((k : ℕ) → has_pack (climb k from) ≡ false))
  locate_lem climbs start from begin =
      let (r, e) = search_from_total climbs (suc (env.depth from)) from (omega arith) in
      locate_cases start from begin r e
