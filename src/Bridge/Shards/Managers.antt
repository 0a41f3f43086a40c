-- ===== src/Bridge/Shards/Managers.antt =====
-- A shard belongs to one manager.
use link_suffix.Base.{
  ◌⊎◌, ◌≡◌, subst, true, false, List, [], ◌∷◌, ◌++◌, Option, none, some, String, arith, Bool-cases,
  inl, inr, str_eq, if◌then◌else◌, length, leb, any, eq_iff, All, All-imp, head?,
}
use link_suffix.Base.Text.{is_empty}
use link_suffix.Bridge.{Store}
use link_suffix.Bridge.Results.{ok, >>=-eq-ok, guard}
use link_suffix.Bridge.Names.{normalize_fleet_manager_id}
use link_suffix.Bridge.Shards.{
  assert_shard_not_deleted, bind_fleet_shard_manager, bind_first, collect, add_new, named_managers,
}

any-append :
    (x y : String) (xs : List String)
    → any (str_eq x) xs ≡ true
    → any (str_eq x) (xs ++ (y ∷ [])) ≡ true
any-append x y [] h = ground arith
any-append x y (z ∷ zs) h = ground (arith, any-append x y zs)

any-last : (x : String) (xs : List String) → any (str_eq x) (xs ++ (x ∷ [])) ≡ true
any-last x [] = ground (arith, eq_iff x x)
any-last x (z ∷ zs) = ground (arith, any-last x zs)

add_new-keeps :
    (x y : String) (xs : List String)
    → any (str_eq x) xs ≡ true
    → any (str_eq x) (add_new y xs) ≡ true
add_new-keeps x y xs h = ground (arith, any-append x y xs)

add_new-adds : (x : String) (xs : List String) → any (str_eq x) (add_new x xs) ≡ true
add_new-adds x xs = ground (arith, any-last x xs)

collect-keeps :
    (x : String) (ms seen found : List String)
    → any (str_eq x) seen ≡ true
    → collect ms seen ≡ ok found
    → any (str_eq x) found ≡ true
unfolding collect
collect-keeps x [] seen found h e = ground arith
collect-keeps x (m ∷ ms) seen found h e = elim (Bool-cases (is_empty m)) [
  | inl blank ↦ collect-keeps x ms seen found h (ground arith)
  | inr named ↦
      let (id, n, rest) =
        >>=-eq-ok (normalize_fleet_manager_id m) (λ i. collect ms (add_new i seen))
          (ground arith) in
      collect-keeps x ms (add_new id seen) found (add_new-keeps x id seen h) rest
]

-- A name that is collected is blank, or one of the managers found once it is normalised.
IsCollected : List String → String → Type 0
IsCollected found m =
    is_empty m ≡ false
    → (id : String) × (normalize_fleet_manager_id m ≡ ok id) × (any (str_eq id) found ≡ true)

collect-IsCollected :
    (ms seen found : List String) → collect ms seen ≡ ok found → All (IsCollected found) ms
unfolding collect IsCollected
collect-IsCollected [] seen found e = tt
collect-IsCollected (m ∷ ms) seen found e = elim (Bool-cases (is_empty m)) [
  | inl blank ↦ (λ named. ground arith, collect-IsCollected ms seen found (ground arith))
  | inr named ↦
      let (id, n, rest) =
        >>=-eq-ok (normalize_fleet_manager_id m) (λ i. collect ms (add_new i seen))
          (ground arith) in
      (
        λ k. (id, n, collect-keeps id ms (add_new id seen) found (add_new-adds id seen) rest),
        collect-IsCollected ms (add_new id seen) found rest,
      )
]

-- A member of a list of one at most is its head.
only-head :
    (x : String) (xs : List String)
    → any (str_eq x) xs ≡ true
    → leb (length xs) 1 ≡ true
    → head? xs ≡ some x
only-head x [] h k = ground arith
only-head x (y ∷ []) h k = ground (arith, eq_iff x y)
only-head x (y ∷ (z ∷ zs)) h k = ground arith

bind_first-manager :
    (s t : Store) (id x m : String) (o : Option String)
    → o ≡ some x
    → bind_first s id o ≡ ok (t, m)
    → x ≡ m
bind_first-manager s t id x m none e h = ground arith
bind_first-manager s t id x m (some y) e h = ground arith

bind_first-keeps :
    (s t : Store) (id m : String) (o : Option String)
    → bind_first s id o ≡ ok (t, m)
    → any (λ b. str_eq b.0 id) s.managers ≡ true
    → t.managers ≡ s.managers
bind_first-keeps s t id m none h k = ground arith
bind_first-keeps s t id m (some x) h k = ground arith

-- When a shard is bound, every manager that its bindings and its targets that are not archived name is blank
-- or, once normalised, the manager returned; a manager that was asked for is the manager returned; and a
-- binding that the shard had before is not changed.
pub bind-Agrees :
    (s t : Store) (id m requested : String)
    → bind_fleet_shard_manager s id requested ≡ ok (t, m)
    → All (λ x. (is_empty x ≡ true) ⊎ (normalize_fleet_manager_id x ≡ ok m)) (named_managers s id)
      × ((is_empty requested ≡ true) ⊎ (requested ≡ m))
      × ((any (λ b. str_eq b.0 id) s.managers ≡ false) ⊎ (t.managers ≡ s.managers))
unfolding bind_fleet_shard_manager IsCollected
bind-Agrees s t id m requested h =
    let (u, live, rest) = >>=-eq-ok (assert_shard_not_deleted s id) _ h in
    let (found, c, rest2) = >>=-eq-ok (collect (named_managers s id) []) _ rest in
    let managers : List String = if is_empty requested then found else add_new requested found in
    let (v, one, rest3) = >>=-eq-ok (guard (leb (length managers) 1) _) _ rest2 in
    let short : leb (length managers) 1 ≡ true = ground arith in
    let single : (x : String) → any (str_eq x) managers ≡ true → x ≡ m =
      λ x k. bind_first-manager s t id x m (head? managers) (only-head x managers k short) rest3 in
    (
      All-imp (IsCollected found) (λ x. (is_empty x ≡ true) ⊎ (normalize_fleet_manager_id x ≡ ok m))
          (λ x k. elim (Bool-cases (is_empty x)) [
            | inl blank ↦ inl blank
            | inr named ↦
                let (i, n, mem) = k named in
                let same : i ≡ m = single i (ground (arith, add_new-keeps i requested found)) in
                inr (subst (λ y. normalize_fleet_manager_id x ≡ ok y) same n)
          ])
          (named_managers s id) (collect-IsCollected (named_managers s id) [] found c),
      elim (Bool-cases (is_empty requested)) [
        | inl blank ↦ inl blank
        | inr named ↦ inr (single requested (ground (arith, add_new-adds requested found)))
      ],
      elim (Bool-cases (any (λ b. str_eq b.0 id) s.managers)) [
        | inl old ↦ inr (bind_first-keeps s t id m (head? managers) rest3 old)
        | inr new ↦ inl new
      ],
    )
