-- ===== src/Base/Sort.antt =====
-- ORDER BY: insertion sort under a test of order.
use native.Mathlib.Omega.{arith}
use mathlib.Core.Path.{◌≡◌, refl}
use mathlib.Core.Logic.{inl, inr}
use Prim.Native.Nat.{ℕ}
use mathlib.Core.Bool.{Bool, true, false, ◌||◌}
use mathlib.Core.List.{List, [], ◌∷◌, map}
use agent_orchestrator.Base.Tests.{◌==◌, if◌then◌else◌, Bool-cases}
use agent_orchestrator.Base.Lists.{All, any, member}

module _ {ℓ} {A : Type ℓ} (before : A → A → Bool) where
  abbrev pub insert : A → List A → List A
  insert x [] = x ∷ []
  insert x (y ∷ ys) = let rest = insert x ys in if before x y then x ∷ y ∷ ys else y ∷ rest

  abbrev pub order_by : List A → List A
  order_by [] = []
  order_by (x ∷ xs) = insert x (order_by xs)

  -- Each entry comes before all that follow it.
  abbrev pub Ordered : List A → Type 0
  Ordered [] = Unit
  Ordered (x ∷ xs) = All (λ y. before x y ≡ true) xs × Ordered xs

  pub All-insert {κ} : (P : A → Type κ) (x : A) (xs : List A) → P x → All P xs → All P (insert x xs)
  All-insert P x [] p h = (p, tt)
  All-insert P x (y ∷ ys) p h = elim (Bool-cases (before x y)) [
    | inl first ↦ rw first (p, h)
    | inr later ↦ rw later (h.0, All-insert P x ys p h.1)
  ]

  pub All-order_by {κ} : (P : A → Type κ) (xs : List A) → All P xs → All P (order_by xs)
  All-order_by P [] h = tt
  All-order_by P (x ∷ xs) h = All-insert P x (order_by xs) h.0 (All-order_by P xs h.1)

  module _ (transitive : (x y z : A) → before x y ≡ true → before y z ≡ true → before x z ≡ true)
      (total : (x y : A) → before x y ≡ false → before y x ≡ true) where
    All-before :
        (x y : A) (ys : List A)
        → before x y ≡ true
        → All (λ z. before y z ≡ true) ys
        → All (λ z. before x z ≡ true) ys
    All-before x y [] p h = tt
    All-before x y (z ∷ zs) p h = (transitive x y z p h.0, All-before x y zs p h.1)

    Ordered-insert : (x : A) (ys : List A) → Ordered ys → Ordered (insert x ys)
    Ordered-insert x [] h = (tt, tt)
    Ordered-insert x (y ∷ ys) h = elim (Bool-cases (before x y)) [
      | inl first ↦ rw first ((first, All-before x y ys first h.0), h)
      | inr later ↦
          rw later (
            All-insert (λ z. before y z ≡ true) x ys (total x y later) h.0,
            Ordered-insert x ys h.1,
          )
    ]

    pub Ordered-order_by : (xs : List A) → Ordered (order_by xs)
    Ordered-order_by [] = tt
    Ordered-order_by (x ∷ xs) = Ordered-insert x (order_by xs) (Ordered-order_by xs)

  any-insert : (p : A → Bool) (x : A) (xs : List A) → any p (insert x xs) ≡ (p x || any p xs)
  any-insert p x [] = refl
  any-insert p x (y ∷ ys) = ground (arith, any-insert p x ys)

  pub any-order_by : (p : A → Bool) (xs : List A) → any p (order_by xs) ≡ any p xs
  any-order_by p [] = refl
  any-order_by p (x ∷ xs) = ground (arith, any-insert p x (order_by xs), any-order_by p xs)

  -- Sorting a table keeps its keys.
  module _ (key : A → ℕ) (k : ℕ) where
    member-insert :
        (x : A) (xs : List A)
        → member k (map key (insert x xs)) ≡ (key x == k || member k (map key xs))
    member-insert x [] = refl
    member-insert x (y ∷ ys) = ground (arith, member-insert x ys)

    pub member-order_by : (xs : List A) → member k (map key (order_by xs)) ≡ member k (map key xs)
    member-order_by [] = refl
    member-order_by (x ∷ xs) = ground (arith, member-insert x (order_by xs), member-order_by xs)
