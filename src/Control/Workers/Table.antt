-- ===== src/Control/Workers/Table.antt =====
-- The table of workers as a list without two of one number: what a change or a removal does to it.
use link_suffix.Base.{
  ℕ, ◌+◌, ◌≤◌, ◌≡◌, refl, sym, subst, true, false, List, [], ◌∷◌, ◌++◌, some, ◌==◌, ==_iff, length,
  filter, head?, All, All-imp, All-zip, All-head, All-append, All-filter_of, Pairwise, Bool-cases,
  arith, inl, inr,
}
use link_suffix.Base.Sorting.{sort, All-sort}
use link_suffix.Control.Workers.{
  Worker, Options, find_worker, change_worker, remove_worker, is_available, has_fewer,
}

abbrev pub IsUnique : List Worker → Type 0
IsUnique = Pairwise (λ v w. (v.number == w.number) ≡ false)

abbrev pub total : List Worker → ℕ
total [] = 0
total (w ∷ ws) = length w.tasks + total ws

self-eq : (n : ℕ) → (n == n) ≡ true
self-eq n = (==_iff n n).1 refl

found_here : (w : Worker) (ws : List Worker) → find_worker w.number (w ∷ ws) ≡ some w
found_here w ws = rw (self-eq w.number) refl

-- Each worker is found under its number.
pub finds : (ws : List Worker) → IsUnique ws → All (λ w. find_worker w.number ws ≡ some w) ws
finds [] u = tt
finds (w ∷ ws) u = (
  found_here w ws,
  All-zip (λ x. (w.number == x.number) ≡ false) (λ x. find_worker x.number ws ≡ some x)
      (λ x. find_worker x.number (w ∷ ws) ≡ some x) (λ x differ h. rw differ h) ws u.0
      (finds ws u.1),
)

-- The worker that is chosen is available, and is found under its number.
pub chosen-found :
    (o : Options) (ws : List Worker) (w : Worker)
    → IsUnique ws
    → head? (sort has_fewer (filter (is_available o) ws)) ≡ some w
    → (is_available o w ≡ true) × (find_worker w.number ws ≡ some w)
chosen-found o ws w u e =
    All-head (λ x. (is_available o x ≡ true) × (find_worker x.number ws ≡ some x))
      (sort has_fewer (filter (is_available o) ws)) w
      (All-sort has_fewer (λ x. (is_available o x ≡ true) × (find_worker x.number ws ≡ some x))
        (filter (is_available o) ws)
        (All-filter_of (λ x. find_worker x.number ws ≡ some x)
          (λ x. (is_available o x ≡ true) × (find_worker x.number ws ≡ some x)) (is_available o)
          (λ x free h. (free, h)) ws (finds ws u)))
      e

module _ (n : ℕ) where
  pub number_of_found : (ws : List Worker) (w : Worker) → find_worker n ws ≡ some w → w.number ≡ n
  number_of_found [] w e = absurd (ground arith)
  number_of_found (v ∷ vs) w e = ground (arith, number_of_found vs w, e)

  module _ (f : Worker → Worker) where
    pub length-change : (ws : List Worker) → length (change_worker n f ws) ≡ length ws
    length-change [] = refl
    length-change (w ∷ ws) = ground (arith, length-change ws)

    pub total-change :
        (ws : List Worker) (w : Worker)
        → find_worker n ws ≡ some w
        → total (change_worker n f ws) + length w.tasks ≡ total ws + length (f w).tasks
    total-change [] w e = absurd (ground arith)
    total-change (v ∷ vs) w e = elim (Bool-cases (v.number == n)) [
      | inl hit ↦ let same : v ≡ w = ground (arith, hit, e) in rw (hit, same) (omega arith)
      | inr miss ↦
          let ih = total-change vs w (ground (arith, miss, e)) in rw miss (omega (arith, ih))
    ]

    -- The others keep what they have; the worker of the number has it after the change.
    pub All-change {κ} :
        (P : Worker → Type κ) (ws : List Worker) (w : Worker)
        → IsUnique ws
        → All (λ v. (v.number == n) ≡ false → P v) ws
        → find_worker n ws ≡ some w
        → P (f w)
        → All P (change_worker n f ws)
    All-change P [] w u h e p = tt
    All-change P (v ∷ vs) w u h e p = elim (Bool-cases (v.number == n)) [
      | inl hit ↦
          let same : v ≡ w = ground (arith, hit, e) in
          let other : All (λ x. (x.number == n) ≡ false) vs =
            All-imp (λ x. (v.number == x.number) ≡ false) (λ x. (x.number == n) ≡ false)
              (λ x d. ground (arith, d, hit)) vs u.0 in
          rw hit (
            subst (λ x. P (f x)) (sym same) p,
            All-zip (λ x. (x.number == n) ≡ false) (λ x. (x.number == n) ≡ false → P x) P
                (λ x d g. g d) vs other h.1,
          )
      | inr miss ↦ rw miss (h.0 miss, All-change P vs w u.1 h.1 (ground (arith, miss, e)) p)
    ]

    module _ (keeps : (w : Worker) → (f w).number ≡ w.number) where
      apart-change :
          (v : Worker) (ws : List Worker)
          → All (λ x. (v.number == x.number) ≡ false) ws
          → All (λ x. (v.number == x.number) ≡ false) (change_worker n f ws)
      apart-change v [] h = tt
      apart-change v (w ∷ ws) h = ground (arith, keeps w, apart-change v ws h.1)

      pub IsUnique-change : (ws : List Worker) → IsUnique ws → IsUnique (change_worker n f ws)
      IsUnique-change [] u = tt
      IsUnique-change (w ∷ ws) u = elim (Bool-cases (w.number == n)) [
        | inl hit ↦ rw hit (
          All-imp (λ x. (w.number == x.number) ≡ false) (λ x. ((f w).number == x.number) ≡ false)
              (λ x d. rw (keeps w) d) ws u.0,
          u.1,
        )
        | inr miss ↦ rw miss (apart-change w ws u.0, IsUnique-change ws u.1)
      ]

  pub All-remove {κ} :
      (P : Worker → Type κ) (ws : List Worker)
      → IsUnique ws
      → All (λ v. (v.number == n) ≡ false → P v) ws
      → All P (remove_worker n ws)
  All-remove P [] u h = tt
  All-remove P (v ∷ vs) u h = elim (Bool-cases (v.number == n)) [
    | inl hit ↦ rw hit (
        All-zip (λ x. (v.number == x.number) ≡ false) (λ x. (x.number == n) ≡ false → P x) P
          (λ x d g. g (ground (arith, d, hit))) vs u.0 h.1)
    | inr miss ↦ rw miss (h.0 miss, All-remove P vs u.1 h.1)
  ]

  apart-remove :
      (v : Worker) (ws : List Worker)
      → All (λ x. (v.number == x.number) ≡ false) ws
      → All (λ x. (v.number == x.number) ≡ false) (remove_worker n ws)
  apart-remove v [] h = tt
  apart-remove v (w ∷ ws) h = ground (arith, apart-remove v ws h.1)

  pub IsUnique-remove : (ws : List Worker) → IsUnique ws → IsUnique (remove_worker n ws)
  IsUnique-remove [] u = tt
  IsUnique-remove (w ∷ ws) u = elim (Bool-cases (w.number == n)) [
    | inl hit ↦ rw hit u.1
    | inr miss ↦ rw miss (apart-remove w ws u.0, IsUnique-remove ws u.1)
  ]

  pub total-remove :
      (ws : List Worker) (w : Worker)
      → find_worker n ws ≡ some w
      → total (remove_worker n ws) + length w.tasks ≡ total ws
  total-remove [] w e = absurd (ground arith)
  total-remove (v ∷ vs) w e = elim (Bool-cases (v.number == n)) [
    | inl hit ↦ let same : v ≡ w = ground (arith, hit, e) in rw (hit, same) (omega arith)
    | inr miss ↦ let ih = total-remove vs w (ground (arith, miss, e)) in rw miss (omega (arith, ih))
  ]

  pub length-remove : (ws : List Worker) → length (remove_worker n ws) ≤ length ws
  length-remove [] = omega arith
  length-remove (w ∷ ws) = ground (arith, length-remove ws)

pub total-append : (vs ws : List Worker) → total (vs ++ ws) ≡ total vs + total ws
total-append [] ws = omega arith
total-append (v ∷ vs) ws = omega (arith, total-append vs ws)

-- A new last element that is apart from all.
pub Pairwise-last {ℓ κ} :
    {A : Type ℓ} (R : A → A → Type κ) (xs : List A) (y : A)
    → All (λ x. R x y) xs
    → Pairwise R xs
    → Pairwise R (xs ++ (y ∷ []))
Pairwise-last R [] y h p = (tt, tt)
Pairwise-last R (x ∷ xs) y h p =
    (All-append (R x) xs (y ∷ []) p.0 (h.0, tt), Pairwise-last R xs y h.1 p.1)
