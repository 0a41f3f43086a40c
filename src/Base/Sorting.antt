-- ===== src/Base/Sorting.antt =====
-- A stable insertion sort by a strict order: `ORDER BY` in a query, and the source's `sort`.
use mathlib.Core.Bool.{Bool}
use mathlib.Core.List.{List, [], ◌∷◌}
use mathlib.Core.Path.{◌≡◌, refl}
use mathlib.Core.Logic.{inl, inr}
use mathlib.Core.Option.{none, some}
use native.Mathlib.Omega.{arith}
use link_suffix.Base.Tests.{if◌then◌else◌, Bool-cases}
use link_suffix.Base.Lists.{All, Pairwise, head?}

module _ {ℓ} {A : Type ℓ} (less : A → A → Bool) where
  -- The element goes in front of the first that is not before it.
  pub insert : A → List A → List A
  insert x [] = x ∷ []
  insert x (y ∷ ys) = if less y x then y ∷ insert x ys else x ∷ y ∷ ys

  -- Later elements are inserted first, so that equal ones keep their order.
  unfoldable pub sort : List A → List A
  unfolding insert
  sort [] = []
  sort (x ∷ xs) = insert x (sort xs)

  module _ {κ} (P : A → Type κ) where
    All-insert : (x : A) (xs : List A) → P x → All P xs → All P (insert x xs)
    unfolding insert
    All-insert x [] p h = (p, tt)
    All-insert x (y ∷ ys) p h = ground (arith, All-insert x ys p h.1)

    pub All-sort : (xs : List A) → All P xs → All P (sort xs)
    unfolding sort
    All-sort [] h = tt
    All-sort (x ∷ xs) h = All-insert x (sort xs) h.0 (All-sort xs h.1)

  insert-head : (x : A) (xs : List A) → (y : A) × (head? (insert x xs) ≡ some y)
  unfolding insert
  insert-head x [] = (x, refl)
  insert-head x (y ∷ ys) = elim (Bool-cases (less y x)) [
    | inl before ↦ (y, ground (arith, before))
    | inr behind ↦ (x, ground (arith, behind))
  ]

  -- Only the empty list has no first element once it is sorted.
  pub sort-head : (xs : List A) → head? (sort xs) ≡ none → xs ≡ []
  unfolding sort
  sort-head [] h = refl
  sort-head (x ∷ xs) h = let (y, found) = insert-head x (sort xs) in ground (arith, found)

  -- A relation that does not look at the order outlives a sort.
  module _ {κ} (R : A → A → Type κ) (swap : (x y : A) → R x y → R y x) where
    Pairwise-insert :
        (x : A) (xs : List A) → All (R x) xs → Pairwise R xs → Pairwise R (insert x xs)
    unfolding insert
    Pairwise-insert x [] p h = (tt, tt)
    Pairwise-insert x (y ∷ ys) p h =
        ground (arith, Pairwise-insert x ys p.1 h.1, All-insert (R y) x ys (swap x y p.0) h.0)

    pub Pairwise-sort : (xs : List A) → Pairwise R xs → Pairwise R (sort xs)
    unfolding sort
    Pairwise-sort [] h = tt
    Pairwise-sort (x ∷ xs) h =
        Pairwise-insert x (sort xs) (All-sort (R x) xs h.0) (Pairwise-sort xs h.1)
