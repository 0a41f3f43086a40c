-- ===== src/Base/Lists.antt =====
-- Lists measured by native numbers and searched by Boolean tests, with predicates by recursion.
use Prim.Native.Nat.{ℕ, zero, suc, ◌≤◌}
use mathlib.Core.Path.{◌≡◌, refl, subst}
use mathlib.Core.Logic.{◌⊎◌, inl, inr}
use mathlib.Core.Bool.{Bool, true, false, ◌||◌}
use mathlib.Core.Option.{Option, none, some}
use mathlib.Core.List.{List, [], ◌∷◌, ◌++◌, map}
use native.Mathlib.Omega.{arith}
use link_suffix.Base.Tests.{if◌then◌else◌, Bool-cases}

module _ {ℓ} {A : Type ℓ} where
  abbrev pub length : List A → ℕ
  length [] = 0
  length (x ∷ xs) = suc (length xs)

  abbrev pub take : ℕ → List A → List A
  take zero xs = []
  take (suc n) [] = []
  take (suc n) (x ∷ xs) = x ∷ take n xs

  abbrev pub filter : (A → Bool) → List A → List A
  filter p [] = []
  filter p (x ∷ xs) = if p x then x ∷ filter p xs else filter p xs

  abbrev pub any : (A → Bool) → List A → Bool
  any p [] = false
  any p (x ∷ xs) = p x || any p xs

  abbrev pub find? : (A → Bool) → List A → Option A
  find? p [] = none
  find? p (x ∷ xs) = if p x then some x else find? p xs

  -- The first element.
  abbrev pub head? : List A → Option A
  head? [] = none
  head? (x ∷ xs) = some x

  pub length-take : (n : ℕ) (xs : List A) → length (take n xs) ≤ n
  length-take zero xs = omega arith
  length-take (suc n) [] = omega arith
  length-take (suc n) (x ∷ xs) = omega (arith, length-take n xs)

  pub length-filter : (p : A → Bool) (xs : List A) → length (filter p xs) ≤ length xs
  length-filter p [] = omega arith
  length-filter p (x ∷ xs) = ground (arith, length-filter p xs)

module _ {ℓ κ} {A : Type ℓ} {B : Type κ} (f : A → B) where
  pub length-map : (xs : List A) → length (map f xs) ≡ length xs
  length-map [] = refl
  length-map (x ∷ xs) = omega (arith, length-map xs)

module _ {ℓ κ} {A : Type ℓ} (P : A → Type κ) where
  abbrev pub All : List A → Type κ
  All [] = Unit
  All (x ∷ xs) = P x × All xs

  pub All-filter : (p : A → Bool) (xs : List A) → All xs → All (filter p xs)
  All-filter p [] h = tt
  All-filter p (x ∷ xs) h = ground (arith, All-filter p xs h.1)

  pub All-head : (xs : List A) (a : A) → All xs → head? xs ≡ some a → P a
  All-head [] a h e = absurd (ground arith)
  All-head (x ∷ xs) a h e = let same : x ≡ a = ground arith in subst P same h.0

  pub All-take : (n : ℕ) (xs : List A) → All xs → All (take n xs)
  All-take zero xs h = tt
  All-take (suc n) [] h = tt
  All-take (suc n) (x ∷ xs) h = (h.0, All-take n xs h.1)

  pub All-append : (xs ys : List A) → All xs → All ys → All (xs ++ ys)
  All-append [] ys h k = k
  All-append (x ∷ xs) ys h k = (h.0, All-append xs ys h.1 k)

  pub All-intro : ((x : A) → P x) → (xs : List A) → All xs
  All-intro h [] = tt
  All-intro h (x ∷ xs) = (h x, All-intro h xs)

module _ {ℓ κ μ} {A : Type ℓ} (P : A → Type κ) (Q : A → Type μ) where
  pub All-imp : ((x : A) → P x → Q x) → (xs : List A) → All P xs → All Q xs
  All-imp f [] h = tt
  All-imp f (x ∷ xs) h = (f x h.0, All-imp f xs h.1)

  -- What passes the test of a filter.
  pub All-filter_of :
      (p : A → Bool)
      → ((x : A) → p x ≡ true → P x → Q x)
      → (xs : List A) → All P xs
      → All Q (filter p xs)
  All-filter_of p f [] h = tt
  All-filter_of p f (x ∷ xs) h = ground (arith, f x, All-filter_of p f xs h.1)

module _ {ℓ κ μ} {A : Type ℓ} {B : Type κ} (P : B → Type μ) (f : A → B) where
  pub All-map : (xs : List A) → All (λ x. P (f x)) xs → All P (map f xs)
  All-map [] h = tt
  All-map (x ∷ xs) h = (h.0, All-map xs h.1)

-- Every two elements are related, the earlier to the later.
module _ {ℓ κ} {A : Type ℓ} (R : A → A → Type κ) where
  abbrev pub Pairwise : List A → Type κ
  Pairwise [] = Unit
  Pairwise (x ∷ xs) = All (R x) xs × Pairwise xs

  pub Pairwise-filter : (p : A → Bool) (xs : List A) → Pairwise xs → Pairwise (filter p xs)
  Pairwise-filter p [] h = tt
  Pairwise-filter p (x ∷ xs) h = ground (arith, Pairwise-filter p xs h.1, All-filter (R x) p xs h.0)

  pub Pairwise-take : (n : ℕ) (xs : List A) → Pairwise xs → Pairwise (take n xs)
  Pairwise-take zero xs h = tt
  Pairwise-take (suc n) [] h = tt
  Pairwise-take (suc n) (x ∷ xs) h = (All-take (R x) n xs h.0, Pairwise-take n xs h.1)

-- A map keeps a relation if it does so between elements that have the property P.
module _ {ℓ κ μ} {A : Type ℓ} {B : Type ℓ} (P : A → Type κ) (R : A → A → Type μ)
    (S : B → B → Type μ) (f : A → B) (keep : (x y : A) → P x → P y → R x y → S (f x) (f y)) where
  map-All_from : (x : A) (ys : List A) → P x → All P ys → All (R x) ys → All (S (f x)) (map f ys)
  map-All_from x [] p ps h = tt
  map-All_from x (y ∷ ys) p ps h = (keep x y p ps.0 h.0, map-All_from x ys p ps.1 h.1)

  pub Pairwise-map : (xs : List A) → All P xs → Pairwise R xs → Pairwise S (map f xs)
  Pairwise-map [] ps h = tt
  Pairwise-map (x ∷ xs) ps h = (map-All_from x xs ps.0 ps.1 h.0, Pairwise-map xs ps.1 h.1)

module _ {ℓ κ μ ν} {A : Type ℓ} (P : A → Type κ) (Q : A → Type μ) (S : A → Type ν) where
  pub All-zip : ((x : A) → P x → Q x → S x) → (xs : List A) → All P xs → All Q xs → All S xs
  All-zip f [] h k = tt
  All-zip f (x ∷ xs) h k = (f x h.0 k.0, All-zip f xs h.1 k.1)

module _ {ℓ} {A : Type ℓ} where
  -- A test that no element passes.
  pub any-false : (p : A → Bool) (xs : List A) → any p xs ≡ false → All (λ x. p x ≡ false) xs
  any-false p [] h = tt
  any-false p (x ∷ xs) h = (ground arith, any-false p xs (ground arith))

-- Every element is each other one, or related to it.
module _ {ℓ κ} {A : Type ℓ} (R : A → A → Type κ) (swap : (x y : A) → R x y → R y x) where
  abbrev pub Sees : List A → A → Type (ℓ ⊔ κ)
  Sees xs y = All (λ x. (x ≡ y) ⊎ R x y) xs

  pub Pairwise-Sees : (xs : List A) → Pairwise R xs → All (Sees xs) xs
  Pairwise-Sees [] h = tt
  Pairwise-Sees (x ∷ xs) h = (
    (inl refl, All-imp (R x) (λ y. (y ≡ x) ⊎ R y x) (λ y r. inr (swap x y r)) xs h.0),
    All-zip (R x) (Sees xs) (Sees (x ∷ xs)) (λ y r s. (inr r, s)) xs h.0 (Pairwise-Sees xs h.1),
  )

module _ {ℓ} {A : Type ℓ} (p : A → Bool) where
  pub find?-passes : (xs : List A) (a : A) → find? p xs ≡ some a → p a ≡ true
  find?-passes [] a h = ground arith
  find?-passes (x ∷ xs) a h = elim (Bool-cases (p x)) [
    | inl hit ↦ let is_x : x ≡ a = ground arith in subst (λ y. p y ≡ true) is_x hit
    | inr miss ↦ find?-passes xs a (ground arith)
  ]

-- A search by a test that an update does not change finds the updated element.
module _ {ℓ} {A : Type ℓ} (p : A → Bool) (f : A → A) (same : (a : A) → p (f a) ≡ p a) where
  pub find?-map-none : (xs : List A) → find? p xs ≡ none → find? p (map f xs) ≡ none
  find?-map-none [] h = refl
  find?-map-none (x ∷ xs) h = ground (arith, same x, find?-map-none xs)

  pub find?-map-some : (xs : List A) (a : A) → find? p xs ≡ some a → find? p (map f xs) ≡ some (f a)
  find?-map-some [] a h = ground arith
  find?-map-some (x ∷ xs) a h = ground (arith, same x, find?-map-some xs a)

-- Two lists of one length, related place by place.
module _ {ℓ} {A : Type ℓ} (R : A → A → Type 0) where
  abbrev pub Each : List A → List A → Type 0
  Each [] [] = Unit
  Each (x ∷ xs) (y ∷ ys) = R x y × Each xs ys
  Each [] (y ∷ ys) = ⊥
  Each (x ∷ xs) [] = ⊥

  pub Each-refl : ((x : A) → R x x) → (xs : List A) → Each xs xs
  Each-refl r [] = tt
  Each-refl r (x ∷ xs) = (r x, Each-refl r xs)

  pub Each-trans :
      ((x y z : A) → R x y → R y z → R x z)
      → (xs ys zs : List A) → Each xs ys
      → Each ys zs
      → Each xs zs
  Each-trans t [] [] [] h k = tt
  Each-trans t (x ∷ xs) (y ∷ ys) (z ∷ zs) h k = (t x y z h.0 k.0, Each-trans t xs ys zs h.1 k.1)
  Each-trans t [] [] (z ∷ zs) h k = k
  Each-trans t [] (y ∷ ys) zs h k = absurd h
  Each-trans t (x ∷ xs) [] zs h k = absurd h
  Each-trans t (x ∷ xs) (y ∷ ys) [] h k = k

  pub Each-map : (f : A → A) → ((x : A) → R x (f x)) → (xs : List A) → Each xs (map f xs)
  Each-map f r [] = tt
  Each-map f r (x ∷ xs) = (r x, Each-map f r xs)
