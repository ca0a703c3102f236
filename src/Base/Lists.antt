-- ===== src/Base/Lists.antt =====
-- Lists measured by native numbers, filters by Boolean tests, and a predicate over all members.
use Prim.Native.Nat.{ℕ, zero, suc, ◌+◌, ◌≤◌}
use mathlib.Core.Path.{◌≡◌, refl, ap}
use mathlib.Core.Logic.{◌⊎◌, inl, inr}
use mathlib.Core.Bool.{Bool, true, false, ◌||◌}
use mathlib.Core.List.{List, [], ◌∷◌, ◌++◌, map}
use mathlib.Core.Option.{Option, none, some}
use native.Mathlib.Omega.{arith}
use agent_orchestrator.Base.Tests.{if◌then◌else◌, ◌==◌}

module _ {ℓ} {A : Type ℓ} where
  abbrev pub length : List A → ℕ
  length [] = 0
  length (x ∷ xs) = suc (length xs)

  abbrev pub take : ℕ → List A → List A
  take zero xs = []
  take (suc n) [] = []
  take (suc n) (x ∷ xs) = x ∷ take n xs

  pub take-added :
      (n : ℕ) (xs : List A) (y : A)
      → (take n (xs ++ y ∷ []) ≡ take n xs) ⊎ (take n (xs ++ y ∷ []) ≡ xs ++ y ∷ [])
  take-added zero xs y = inl refl
  take-added (suc zero) [] y = inr refl
  take-added (suc (suc n)) [] y = inr refl
  take-added (suc n) (x ∷ xs) y = elim (take-added n xs y) [
    | inl e ↦ inl (ap (λ zs. x ∷ zs) e)
    | inr e ↦ inr (ap (λ zs. x ∷ zs) e)
  ]

  -- The rows that a WHERE clause selects, in order.
  abbrev pub select : (A → Bool) → List A → List A
  select p [] = []
  select p (x ∷ xs) = let rest = select p xs in if p x then x ∷ rest else rest

  abbrev pub any : (A → Bool) → List A → Bool
  any p [] = false
  any p (x ∷ xs) = p x || any p xs

  abbrev pub first : List A → Option A
  first [] = none
  first (x ∷ xs) = some x

  pub length-append : (xs ys : List A) → length (xs ++ ys) ≡ length xs + length ys
  length-append [] ys = omega arith
  length-append (x ∷ xs) ys = omega (arith, length-append xs ys)

  pub length-take_le : (n : ℕ) (xs : List A) → length (take n xs) ≤ n
  length-take_le zero xs = omega arith
  length-take_le (suc n) [] = omega arith
  length-take_le (suc n) (x ∷ xs) = omega (arith, length-take_le n xs)

  pub length-select-append :
      (p : A → Bool) (xs ys : List A)
      → length (select p (xs ++ ys)) ≡ length (select p xs) + length (select p ys)
  length-select-append p [] ys = omega arith
  length-select-append p (x ∷ xs) ys = ground (arith, length-select-append p xs ys)

  pub length-select_le : (p : A → Bool) (xs : List A) → length (select p xs) ≤ length xs
  length-select_le p [] = omega arith
  length-select_le p (x ∷ xs) = ground (arith, length-select_le p xs)

pub take-map {ℓ κ} :
    {A : Type ℓ} {B : Type κ} (f : A → B) (n : ℕ) (xs : List A)
    → take n (map f xs) ≡ map f (take n xs)
take-map f zero xs = refl
take-map f (suc n) [] = refl
take-map f (suc n) (x ∷ xs) = ap (λ ys. f x ∷ ys) (take-map f n xs)

module _ {ℓ κ} {A : Type ℓ} (P : A → Type κ) where
  abbrev pub All : List A → Type κ
  All [] = Unit
  All (x ∷ xs) = P x × All xs

  pub All-append : (xs ys : List A) → All xs → All ys → All (xs ++ ys)
  All-append [] ys h k = k
  All-append (x ∷ xs) ys h k = (h.0, All-append xs ys h.1 k)

  pub All-take : (n : ℕ) (xs : List A) → All xs → All (take n xs)
  All-take zero xs h = tt
  All-take (suc n) [] h = tt
  All-take (suc n) (x ∷ xs) h = (h.0, All-take n xs h.1)

  pub All-select : (p : A → Bool) → ((x : A) → p x ≡ true → P x) → (xs : List A) → All (select p xs)
  All-select p keep [] = tt
  All-select p keep (x ∷ xs) = ground (arith, keep x, All-select p keep xs)

-- SUM(f) ... WHERE p, 0 over no row.
abbrev pub sum_where {ℓ} : {A : Type ℓ} → (A → Bool) → (A → ℕ) → List A → ℕ
sum_where p f [] = 0
sum_where p f (x ∷ xs) = (if p x then f x else 0) + sum_where p f xs

pub sum_where-append {ℓ} :
    {A : Type ℓ} (p : A → Bool) (f : A → ℕ) (xs ys : List A)
    → sum_where p f (xs ++ ys) ≡ sum_where p f xs + sum_where p f ys
sum_where-append p f [] ys = omega arith
sum_where-append p f (x ∷ xs) ys = omega (arith, sum_where-append p f xs ys)

abbrev pub member : ℕ → List ℕ → Bool
member k [] = false
member k (x ∷ xs) = x == k || member k xs

-- A list of ids with no repetition.
abbrev pub Distinct : List ℕ → Type 0
Distinct [] = Unit
Distinct (x ∷ xs) = (member x xs ≡ false) × Distinct xs

pub All-of_member {ℓ} :
    {A : Type ℓ} (key : A → ℕ) (P : ℕ → Type 0) (xs : List A)
    → ((k : ℕ) → member k (map key xs) ≡ true → P k)
    → All (λ x. P (key x)) xs
All-of_member key P [] h = tt
All-of_member key P (x ∷ xs) h =
    (h (key x) (ground arith), All-of_member key P xs (λ k m. h k (ground (arith, m))))

pub All-map {ℓ κ μ} :
    {A : Type ℓ} {B : Type κ} (P : B → Type μ) (f : A → B)
    → ((x : A) → P (f x))
    → (xs : List A) → All P (map f xs)
All-map P f h [] = tt
All-map P f h (x ∷ xs) = (h x, All-map P f h xs)

pub All-imply {ℓ κ μ} :
    {A : Type ℓ} (P : A → Type κ) (Q : A → Type μ)
    → ((x : A) → P x → Q x)
    → (xs : List A) → All P xs
    → All Q xs
All-imply P Q h [] all = tt
All-imply P Q h (x ∷ xs) all = (h x all.0, All-imply P Q h xs all.1)
