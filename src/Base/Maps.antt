-- ===== src/Base/Maps.antt =====
-- The source's `Map` from texts, as the list of its entries in the order of their insertion.
use Prim.Native.String.{String}
use text.Mathlib.TextEquality.{eq_iff}
use mathlib.Core.Path.{◌≡◌, refl}
use mathlib.Core.Bool.{true, Bool, false}
use mathlib.Core.Option.{Option, none, some}
use mathlib.Core.List.{List, [], ◌∷◌, map}
use native.Mathlib.Omega.{arith}
use Prim.Native.Nat.{suc, ◌≤◌, ◌<◌}
use link_suffix.Base.Lists.{length, All}
use mathlib.Core.Path.{sym, subst}
use mathlib.Core.Logic.{inl, inr}
use link_suffix.Base.Tests.{Bool-cases, if◌then◌else◌, str_eq, is_some}

abbrev pub Map {ℓ} : Type ℓ → Type ℓ
Map V = List (String × V)

module _ {ℓ} {V : Type ℓ} where
  unfoldable pub get : Map V → String → Option V
  get [] k = none
  get ((a, v) ∷ m) k = if str_eq a k then some v else get m k

  -- `has`
  abbrev pub has : Map V → String → Bool
  has m k = is_some (get m k)

  -- A key that is there keeps its place.
  unfoldable pub put : String → V → Map V → Map V
  put k v [] = (k, v) ∷ []
  put k v ((a, w) ∷ m) = if str_eq a k then (a, v) ∷ m else (a, w) ∷ put k v m

  unfoldable pub delete : String → Map V → Map V
  delete k [] = []
  delete k ((a, w) ∷ m) = if str_eq a k then delete k m else (a, w) ∷ delete k m

  abbrev pub keys : Map V → List String
  keys = map (λ e. e.0)

  abbrev pub values : Map V → List V
  values = map (λ e. e.1)

  pub get-put : (k : String) (v : V) (m : Map V) → get (put k v m) k ≡ some v
  unfolding get put
  get-put k v [] = ground (arith, eq_iff k k)
  get-put k v ((a, w) ∷ m) = ground (arith, get-put k v m)

  pub get-put_other :
      (j k : String) (v : V) (m : Map V) → str_eq k j ≡ false → get (put k v m) j ≡ get m j
  unfolding get put
  get-put_other j k v [] h = ground arith
  get-put_other j k v ((a, w) ∷ m) h =
      ground (arith, get-put_other j k v m h, eq_iff a k, eq_iff a j, eq_iff k j)

  pub get-delete : (k : String) (m : Map V) → get (delete k m) k ≡ none
  unfolding get delete
  get-delete k [] = refl
  get-delete k ((a, w) ∷ m) = ground (arith, get-delete k m)

  pub get-delete_other :
      (j k : String) (m : Map V) → str_eq k j ≡ false → get (delete k m) j ≡ get m j
  unfolding get delete
  get-delete_other j k [] h = refl
  get-delete_other j k ((a, w) ∷ m) h =
      ground (arith, get-delete_other j k m h, eq_iff a k, eq_iff a j, eq_iff k j)

  -- Both cases at once.
  pub get-put_at :
      (j k : String) (v : V) (m : Map V)
      → get (put k v m) j ≡ (if str_eq k j then some v else get m j)
  get-put_at j k v m = ground (arith, get-put k v m, get-put_other j k v m, eq_iff k j)

  pub get-delete_at :
      (j k : String) (m : Map V) → get (delete k m) j ≡ (if str_eq k j then none else get m j)
  get-delete_at j k m = ground (arith, get-delete k m, get-delete_other j k m, eq_iff k j)

  pub length-delete : (k : String) (m : Map V) → length (delete k m) ≤ length m
  unfolding delete
  length-delete k [] = omega arith
  length-delete k ((a, w) ∷ m) = ground (arith, length-delete k m)

  -- A key that is there is gone afterwards.
  pub length-delete_there :
      (k : String) (m : Map V) (v : V) → get m k ≡ some v → length (delete k m) < length m
  unfolding get delete
  length-delete_there k [] v e = absurd (ground arith)
  length-delete_there k ((a, w) ∷ m) v e =
      ground (arith, length-delete k m, length-delete_there k m v)

  pub length-put : (k : String) (v : V) (m : Map V) → length (put k v m) ≤ suc (length m)
  unfolding put
  length-put k v [] = omega arith
  length-put k v ((a, w) ∷ m) = ground (arith, length-put k v m)

  -- A key that is there keeps its place, so that nothing grows.
  pub length-put_there :
      (k : String) (v w : V) (m : Map V) → get m k ≡ some w → length (put k v m) ≡ length m
  unfolding get put
  length-put_there k v w [] e = absurd (ground arith)
  length-put_there k v w ((a, u) ∷ m) e = ground (arith, length-put_there k v w m)

  -- A property of all entries.
  module _ {κ} (P : String → V → Type κ) where
    abbrev pub Entries : Map V → Type κ
    Entries [] = Unit
    Entries ((a, w) ∷ m) = P a w × Entries m

    pub Entries-put : (k : String) (v : V) (m : Map V) → P k v → Entries m → Entries (put k v m)
    unfolding put
    Entries-put k v [] p h = (p, tt)
    Entries-put k v ((a, w) ∷ m) p h = elim (Bool-cases (str_eq a k)) [
      | inl same ↦ rw same (subst (λ j. P j v) (sym ((eq_iff a k).0 same)) p, h.1)
      | inr other ↦ rw other (h.0, Entries-put k v m p h.1)
    ]

    pub Entries-delete : (k : String) (m : Map V) → Entries m → Entries (delete k m)
    unfolding delete
    Entries-delete k [] h = tt
    Entries-delete k ((a, w) ∷ m) h = elim (Bool-cases (str_eq a k)) [
      | inl same ↦ rw same (Entries-delete k m h.1)
      | inr other ↦ rw other (h.0, Entries-delete k m h.1)
    ]

    pub Entries-get : (k : String) (v : V) (m : Map V) → Entries m → get m k ≡ some v → P k v
    unfolding get
    Entries-get k v [] h e = absurd (ground arith)
    Entries-get k v ((a, w) ∷ m) h e = elim (Bool-cases (str_eq a k)) [
      | inl same ↦
          let value : w ≡ v = ground (arith, same, e) in
          subst (λ x. P k x) value (subst (λ j. P j w) ((eq_iff a k).0 same) h.0)
      | inr other ↦ Entries-get k v m h.1 (ground (arith, other, e))
    ]

    pub Entries-values :
        (Q : V → Type κ)
        → ((a : String) (w : V) → P a w → Q w)
        → (m : Map V) → Entries m
        → All Q (values m)
    Entries-values Q f [] h = tt
    Entries-values Q f ((a, w) ∷ m) h = (f a w h.0, Entries-values Q f m h.1)

  -- What the keys of the entries find.
  has-Entries :
      (k : String) (v : V) (m n : Map V)
      → Entries (λ a w. has n a ≡ true) m
      → Entries (λ a w. has ((k, v) ∷ n) a ≡ true) m
  unfolding get
  has-Entries k v [] n h = tt
  has-Entries k v ((a, w) ∷ m) n h = (ground (arith, h.0), has-Entries k v m n h.1)

  pub has_self : (m : Map V) → Entries (λ a w. has m a ≡ true) m
  unfolding get
  has_self [] = tt
  has_self ((a, w) ∷ m) = (ground (arith, eq_iff a a), has-Entries a w m m (has_self m))
