-- ===== src/Base/Table.antt =====
-- A database table as the list of its rows in insertion order, which for a BIGSERIAL key is the
-- order of the key. UPDATE ... WHERE rewrites the rows that pass the test and leaves the others.
use Prim.Native.Nat.{ℕ, zero, suc, ◌+◌}
use mathlib.Core.Path.{◌≡◌, refl, subst}
use mathlib.Core.Logic.{inl, inr}
use mathlib.Core.Bool.{Bool, true, false}
use mathlib.Core.List.{List, [], ◌∷◌, ◌++◌, map}
use mathlib.Core.Option
use mathlib.Core.Option.{Option, none, some}
use native.Mathlib.Omega.{arith}
use agent_orchestrator.Base.Tests.{if◌then◌else◌, ◌==◌, ==_iff, Bool-cases}
use agent_orchestrator.Base.Lists.{All, length, select, take, member, first, Distinct, sum_where}

module _ {ℓ} {R : Type ℓ} where
  abbrev pub update_where : (R → Bool) → (R → R) → List R → List R
  update_where p f [] = []
  update_where p f (r ∷ rs) = (if p r then f r else r) ∷ update_where p f rs

  pub length-update_where :
      (p : R → Bool) (f : R → R) (rs : List R) → length (update_where p f rs) ≡ length rs
  length-update_where p f [] = refl
  length-update_where p f (r ∷ rs) = omega (arith, length-update_where p f rs)

  pub map-update_where {κ} :
      {B : Type κ} (g : R → B) (p : R → Bool) (f : R → R)
      → ((r : R) → g (f r) ≡ g r)
      → (rs : List R) → map g (update_where p f rs) ≡ map g rs
  map-update_where g p f keep [] = refl
  map-update_where g p f keep (r ∷ rs) = elim (Bool-cases (p r)) [
    | inl hit ↦ rw (hit, keep r, map-update_where g p f keep rs) refl
    | inr miss ↦ rw (miss, map-update_where g p f keep rs) refl
  ]

  -- An update of rows that a test selects neither before nor after keeps the test's count.
  pub length-select-update_where_same :
      (q p : R → Bool) (f : R → R)
      → ((r : R) → p r ≡ true → (q r ≡ false) × (q (f r) ≡ false))
      → (rs : List R) → length (select q (update_where p f rs)) ≡ length (select q rs)
  length-select-update_where_same q p f apart [] = refl
  length-select-update_where_same q p f apart (r ∷ rs) =
      ground (arith, apart r, length-select-update_where_same q p f apart rs)

  -- An update that the test does not see keeps its count.
  pub length-select-kept :
      (q p : R → Bool) (f : R → R)
      → ((r : R) → q (f r) ≡ q r)
      → (rs : List R) → length (select q (update_where p f rs)) ≡ length (select q rs)
  length-select-kept q p f keep [] = refl
  length-select-kept q p f keep (r ∷ rs) = ground (arith, keep r, length-select-kept q p f keep rs)

  pub length-select-none :
      (q : R → Bool) (rs : List R) → first (select q rs) ≡ none → length (select q rs) ≡ 0
  length-select-none q [] e = refl
  length-select-none q (r ∷ rs) e = ground (arith, length-select-none q rs)

  pub first-select-added :
      (q : R → Bool) (rs : List R) (x : R)
      → first (select q rs) ≡ none
      → q x ≡ true
      → first (select q (rs ++ x ∷ [])) ≡ some x
  first-select-added q [] x e h = ground (arith, h)
  first-select-added q (r ∷ rs) x e h = ground (arith, first-select-added q rs x)

  -- An update that leaves no row to its own test leaves nothing to select.
  pub first-select-update_where :
      (p : R → Bool) (f : R → R)
      → ((r : R) → p r ≡ true → p (f r) ≡ false)
      → (rs : List R) → first (select p (update_where p f rs)) ≡ none
  first-select-update_where p f cleared [] = refl
  first-select-update_where p f cleared (r ∷ rs) =
      ground (arith, cleared r, first-select-update_where p f cleared rs)

  pub All-update_where {κ} :
      (P : R → Type κ) (p : R → Bool) (f : R → R)
      → ((r : R) → P r → p r ≡ true → P (f r))
      → (rs : List R) → All P rs
      → All P (update_where p f rs)
  All-update_where P p f keep [] h = tt
  All-update_where P p f keep (r ∷ rs) h =
      ground (arith, keep r h.0, All-update_where P p f keep rs h.1)

-- Two tables of the same length whose rows are related one by one.
module _ {ℓ} {R : Type ℓ} (P : R → R → Type 0) where
  abbrev pub Each : List R → List R → Type 0
  Each [] [] = Unit
  Each (r ∷ rs) (s ∷ ss) = P r s × Each rs ss
  Each [] (_ ∷ _) = ⊥
  Each (_ ∷ _) [] = ⊥

  pub Each-refl : ((r : R) → P r r) → (rs : List R) → Each rs rs
  Each-refl p [] = tt
  Each-refl p (r ∷ rs) = (p r, Each-refl p rs)

  pub Each-trans :
      ((a b c : R) → P a b → P b c → P a c)
      → (rs ss ts : List R) → Each rs ss
      → Each ss ts
      → Each rs ts
  Each-trans p [] [] [] h k = tt
  Each-trans p (r ∷ rs) (s ∷ ss) (t ∷ ts) h k = (p r s t h.0 k.0, Each-trans p rs ss ts h.1 k.1)
  Each-trans p [] [] (_ ∷ _) h k = elim k [ ]
  Each-trans p [] (_ ∷ _) _ h k = elim h [ ]
  Each-trans p (_ ∷ _) [] _ h k = elim h [ ]
  Each-trans p (_ ∷ _) (_ ∷ _) [] h k = elim k [ ]

  pub Each-update_where :
      (p : R → Bool) (f : R → R)
      → ((r : R) → P r r)
      → ((r : R) → p r ≡ true → P r (f r))
      → (rs : List R) → Each rs (update_where p f rs)
  Each-update_where p f same moved [] = tt
  Each-update_where p f same moved (r ∷ rs) = (
    elim (Bool-cases (p r)) [ inl hit ↦ rw hit (moved r hit) | inr miss ↦ rw miss (same r) ],
    Each-update_where p f same moved rs,
  )

pub Each-map {ℓ} :
    {R : Type ℓ} (P Q : R → R → Type 0)
    → ((r s : R) → P r s → Q r s)
    → (rs ss : List R) → Each P rs ss
    → Each Q rs ss
Each-map P Q f [] [] h = tt
Each-map P Q f (r ∷ rs) (s ∷ ss) h = (f r s h.0, Each-map P Q f rs ss h.1)
Each-map P Q f [] (_ ∷ _) h = elim h [ ]
Each-map P Q f (_ ∷ _) [] h = elim h [ ]

-- The row with a given key, for a table whose rows have a numeric key.
module _ {ℓ} {R : Type ℓ} (key : R → ℕ) where
  abbrev pub find_row : ℕ → List R → Option R
  find_row k [] = none
  find_row k (r ∷ rs) = let rest = find_row k rs in if key r == k then some r else rest

  -- An UPDATE that keeps the key changes the row under each key as its test says, and no other.
  pub find_row-update_where :
      (p : R → Bool) (f : R → R)
      → ((r : R) → key (f r) ≡ key r)
      → (k : ℕ) (rs : List R)
      → find_row k (update_where p f rs) ≡ Option.map (λ r. if p r then f r else r) (find_row k rs)
  find_row-update_where p f keep k [] = refl
  find_row-update_where p f keep k (r ∷ rs) =
      ground (arith, keep r, find_row-update_where p f keep k rs)

  pub find_row_key : (k : ℕ) (rs : List R) {r : R} → find_row k rs ≡ some r → key r ≡ k
  find_row_key k [] h = cc
  find_row_key k (x ∷ rs) {r} h = ground (arith, find_row_key k rs {r = r})

  pub find_row-All {κ} :
      (P : R → Type κ) (k : ℕ) (rs : List R) {r : R} → All P rs → find_row k rs ≡ some r → P r
  find_row-All P k [] h e = cc
  find_row-All P k (x ∷ rs) {r} h e = ground (arith, find_row-All P k rs {r = r} h.1)

  pub find_row-append_old :
      (k : ℕ) (rs ss : List R) {r : R} → find_row k rs ≡ some r → find_row k (rs ++ ss) ≡ some r
  find_row-append_old k [] ss h = cc
  find_row-append_old k (x ∷ rs) ss {r} h = ground (arith, find_row-append_old k rs ss {r = r})

  pub find_row-append_new :
      (k : ℕ) (rs ss : List R) → find_row k rs ≡ none → find_row k (rs ++ ss) ≡ find_row k ss
  find_row-append_new k [] ss h = refl
  find_row-append_new k (x ∷ rs) ss h = ground (arith, find_row-append_new k rs ss)

  -- The primary key constraint.
  abbrev pub HasUniqueKeys : List R → Type ℓ
  HasUniqueKeys [] = Unit
  HasUniqueKeys (r ∷ rs) = (find_row (key r) rs ≡ none) × HasUniqueKeys rs

  pub member-take :
      (k n : ℕ) (rs : List R) → member k (map key (take n rs)) ≡ true → member k (map key rs) ≡ true
  member-take k zero rs h = cc
  member-take k (suc n) [] h = cc
  member-take k (suc n) (r ∷ rs) h = ground (arith, member-take k n rs)

  pub member-select :
      (p : R → Bool) (k : ℕ) (rs : List R)
      → member k (map key (select p rs)) ≡ true
      → member k (map key rs) ≡ true
  member-select p k [] h = cc
  member-select p k (r ∷ rs) h = ground (arith, member-select p k rs)

  pub find_row_of_member :
      (k : ℕ) (rs : List R) → find_row k rs ≡ none → member k (map key rs) ≡ false
  find_row_of_member k [] h = refl
  find_row_of_member k (r ∷ rs) h = ground (arith, find_row_of_member k rs)

  pub member_of_find_row :
      (k : ℕ) (rs : List R) → member k (map key rs) ≡ false → find_row k rs ≡ none
  member_of_find_row k [] h = refl
  member_of_find_row k (r ∷ rs) h = ground (arith, member_of_find_row k rs)

  -- A selected key belongs to the one row that has it.
  pub select_of_member :
      (p : R → Bool) (k : ℕ) (rs : List R) {r : R}
      → HasUniqueKeys rs
      → find_row k rs ≡ some r
      → member k (map key (select p rs)) ≡ true
      → p r ≡ true
  select_of_member p k [] u e h = cc
  select_of_member p k (x ∷ rs) {r} (fresh, u) e h = ground (
    arith,
    select_of_member p k rs {r = r} u,
    member-select p k rs,
    find_row_of_member (key x) rs fresh,
  )

  pub HasUniqueKeys-update_where :
      (p : R → Bool) (f : R → R)
      → ((r : R) → key (f r) ≡ key r)
      → (rs : List R) → HasUniqueKeys rs
      → HasUniqueKeys (update_where p f rs)
  HasUniqueKeys-update_where p f keep [] u = tt
  HasUniqueKeys-update_where p f keep (r ∷ rs) (fresh, u) = ground (
    arith,
    keep r,
    find_row-update_where p f keep (key r) rs,
    HasUniqueKeys-update_where p f keep rs u,
  )

  pub update_where_absent :
      (f : R → R) (k : ℕ) (rs : List R)
      → find_row k rs ≡ none
      → update_where (λ x. key x == k) f rs ≡ rs
  update_where_absent f k [] h = refl
  update_where_absent f k (x ∷ rs) h = ground (arith, update_where_absent f k rs)

  -- An update of one row changes a count by that row alone.
  pub length-select-update_where :
      (q : R → Bool) (f : R → R) (k : ℕ) (rs : List R) {r : R}
      → HasUniqueKeys rs
      → find_row k rs ≡ some r
      → q r ≡ false
      → length (select q (update_where (λ x. key x == k) f rs))
        ≡ length (select q rs) + (if q (f r) then 1 else 0)
  length-select-update_where q f k [] u e h = cc
  length-select-update_where q f k (x ∷ rs) {r} (fresh, u) e h = ground (
    arith,
    length-select-update_where q f k rs {r = r} u,
    update_where_absent f k rs,
    ==_iff (key x) k,
  )

  -- A table whose rows keep their keys has the related row under each key.
  pub find_row-Each :
      (P : R → R → Type 0)
      → ((r s : R) → P r s → key s ≡ key r)
      → (k : ℕ) (rs ss : List R) {r : R} → Each P rs ss
      → find_row k rs ≡ some r
      → (s : R) × (find_row k ss ≡ some s) × P r s
  find_row-Each P keep k [] [] h e = cc
  find_row-Each P keep k (x ∷ rs) (y ∷ ss) {r} h e = elim (Bool-cases (key x == k)) [
    | inl here ↦ (y, ground (arith, keep x y h.0), subst (λ z. P z y) (ground arith) h.0)
    | inr there ↦
        let (s, found, p) = find_row-Each P keep k rs ss h.1 (ground arith) in
        (s, ground (arith, keep x y h.0), p)
  ]
  find_row-Each P keep k [] (_ ∷ _) h e = elim h [ ]
  find_row-Each P keep k (_ ∷ _) [] h e = elim h [ ]

  pub find_row-Each-none :
      (P : R → R → Type 0)
      → ((r s : R) → P r s → key s ≡ key r)
      → (k : ℕ) (rs ss : List R) → Each P rs ss
      → find_row k rs ≡ none
      → find_row k ss ≡ none
  find_row-Each-none P keep k [] [] h e = refl
  find_row-Each-none P keep k (x ∷ rs) (y ∷ ss) h e =
      ground (arith, keep x y h.0, find_row-Each-none P keep k rs ss h.1)
  find_row-Each-none P keep k [] (_ ∷ _) h e = elim h [ ]
  find_row-Each-none P keep k (_ ∷ _) [] h e = elim h [ ]

  pub HasUniqueKeys-Each :
      (P : R → R → Type 0)
      → ((r s : R) → P r s → key s ≡ key r)
      → (rs ss : List R) → Each P rs ss
      → HasUniqueKeys rs
      → HasUniqueKeys ss
  HasUniqueKeys-Each P keep [] [] h u = tt
  HasUniqueKeys-Each P keep (x ∷ rs) (y ∷ ss) h (fresh, u) = (
    rw (keep x y h.0) (find_row-Each-none P keep (key x) rs ss h.1 fresh),
    HasUniqueKeys-Each P keep rs ss h.1 u,
  )
  HasUniqueKeys-Each P keep [] (_ ∷ _) h u = elim h [ ]
  HasUniqueKeys-Each P keep (_ ∷ _) [] h u = elim h [ ]

  pub HasUniqueKeys-append :
      (rs : List R) (r : R)
      → find_row (key r) rs ≡ none
      → HasUniqueKeys rs
      → HasUniqueKeys (rs ++ r ∷ [])
  HasUniqueKeys-append [] r fresh u = (refl, tt)
  HasUniqueKeys-append (x ∷ rs) r fresh (here, u) = (
    ground (arith, find_row-append_new (key x) rs (r ∷ [])),
    HasUniqueKeys-append rs r (ground arith) u,
  )

  pub select-Distinct :
      (p : R → Bool) (rs : List R) → HasUniqueKeys rs → Distinct (map key (select p rs))
  select-Distinct p [] u = tt
  select-Distinct p (r ∷ rs) (fresh, u) = ground (
    arith,
    select-Distinct p rs u,
    find_row_of_member (key r) rs fresh,
    member-select p (key r) rs,
    Bool-cases (member (key r) (map key (select p rs))),
  )

  pub take-Distinct : (n : ℕ) (rs : List R) → Distinct (map key rs) → Distinct (map key (take n rs))
  take-Distinct zero rs d = tt
  take-Distinct (suc n) [] d = tt
  take-Distinct (suc n) (r ∷ rs) (fresh, d) = (
    ground (arith, member-take (key r) n rs, Bool-cases (member (key r) (map key (take n rs)))),
    take-Distinct n rs d,
  )

  -- The first row that a test on the key and more selects is the row under the key.
  pub first-select :
      (k : ℕ) (p : R → Bool)
      → ((r : R) → p r ≡ true → key r ≡ k)
      → (rs : List R) {r : R} → HasUniqueKeys rs
      → first (select p rs) ≡ some r
      → (find_row k rs ≡ some r) × (p r ≡ true)
  first-select k p keyed [] u e = cc
  first-select k p keyed (x ∷ rs) {r} (fresh, u) e =
      ground (arith, keyed x, keyed r, first-select k p keyed rs {r = r} u)

  pub first-select-find_row :
      (k : ℕ) (p : R → Bool)
      → ((r : R) → p r ≡ true → key r ≡ k)
      → (rs : List R) {r : R} → find_row k rs ≡ some r
      → p r ≡ true
      → HasUniqueKeys rs
      → first (select p rs) ≡ some r
  first-select-find_row k p keyed [] e h u = cc
  first-select-find_row k p keyed (x ∷ rs) {r} e h (fresh, u) =
      ground (arith, keyed x, keyed r, first-select-find_row k p keyed rs {r = r})

  pub update_where_missing :
      (p : R → Bool) (f : R → R) (k : ℕ)
      → ((r : R) → p r ≡ true → key r ≡ k)
      → (rs : List R) → find_row k rs ≡ none
      → update_where p f rs ≡ rs
  update_where_missing p f k keyed [] h = refl
  update_where_missing p f k keyed (x ∷ rs) h =
      ground (arith, keyed x, update_where_missing p f k keyed rs)

  -- SUM(g) ... WHERE q over an update of the one row that has a key.
  pub sum_where-update_where :
      (q p : R → Bool) (g : R → ℕ) (f : R → R) (k : ℕ)
      → ((r : R) → p r ≡ true → key r ≡ k)
      → (rs : List R) {r : R} → HasUniqueKeys rs
      → find_row k rs ≡ some r
      → p r ≡ true
      → sum_where q g (update_where p f rs) + (if q r then g r else 0)
        ≡ sum_where q g rs + (if q (f r) then g (f r) else 0)
  sum_where-update_where q p g f k keyed [] u e h = cc
  sum_where-update_where q p g f k keyed (x ∷ rs) {r} (fresh, u) e h = ground (
    arith,
    keyed x,
    sum_where-update_where q p g f k keyed rs {r = r} u,
    update_where_missing p f k keyed rs,
    ==_iff (key x) k,
  )
