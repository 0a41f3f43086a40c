-- ===== src/Bridge/Names/Shape.antt =====
-- What a normalised name looks like, and that normalising it again changes nothing.
use Prim.Native.Char.{code}
use Prim.Native.String.{String}
use link_suffix.Base.{
  ℕ, ◌≡◌, refl, subst, Bool, true, false, ◌||◌, List, [], ◌∷◌, arith, Bool-cases, inl, inr,
}
use link_suffix.Base.Text.{
  codes, all_codes, is_digit, is_space, is_empty, trim, without, trim_start, trim_end,
}
use link_suffix.Bridge.Results.{ok}
use link_suffix.Bridge.Names.{
  is_shard_name, is_name_code, is_separator, normalize_fleet_shard_id, is_manager_id,
  normalize_fleet_manager_id,
}

-- A text of digits has no separator to remove.
without-digits : (s : String) → all_codes is_digit (codes s) ≡ true → without is_separator s ≡ s
unfolding without
without-digits String.[] h = refl
without-digits (String.◌∷◌ c s) h = ground (arith, without-digits s)

-- A text without white space is its own `trim`.
module _ (p : ℕ → Bool) (no_space : (c : ℕ) → p c ≡ true → is_space c ≡ false) where
  trim_end-solid : (s : String) → all_codes p (codes s) ≡ true → trim_end s ≡ s
  unfolding trim_end
  trim_end-solid String.[] h = refl
  trim_end-solid (String.◌∷◌ c s) h = ground (arith, trim_end-solid s, no_space (code c))

  trim_start-solid : (s : String) → all_codes p (codes s) ≡ true → trim_start s ≡ s
  unfolding trim_start
  trim_start-solid String.[] h = refl
  trim_start-solid (String.◌∷◌ c s) h = ground (arith, no_space (code c))

  trim-solid : (s : String) → all_codes p (codes s) ≡ true → trim s ≡ s
  unfolding trim
  trim-solid s h = rw (trim_start-solid s h) (trim_end-solid s h)

digit_no_space : (c : ℕ) → is_digit c ≡ true → is_space c ≡ false
digit_no_space c h = ground arith

name_no_space : (c : ℕ) → is_name_code c ≡ true → is_space c ≡ false
name_no_space c h = ground arith

-- A shard name that is accepted has the required form, and is accepted as it stands.
pub normalize_fleet_shard_id_again :
    (value id : String)
    → normalize_fleet_shard_id value ≡ ok id
    → (is_shard_name id ≡ true) × (normalize_fleet_shard_id id ≡ ok id)
unfolding normalize_fleet_shard_id
normalize_fleet_shard_id_again value id e = elim (Bool-cases (is_shard_name (trim value))) [
  | inl good ↦
      let same : trim value ≡ id = ground arith in
      let named : is_shard_name id ≡ true = subst (λ s. is_shard_name s ≡ true) same good in
      let solid : trim id ≡ id = trim-solid is_name_code name_no_space id (ground arith) in
      (named, ground (arith, solid, named))
  | inr bad ↦ ground arith
]

digits-separable :
    (s : List ℕ)
    → all_codes is_digit s ≡ true
    → all_codes (λ c. is_digit c || is_separator c) s ≡ true
digits-separable [] h = refl
digits-separable (c ∷ cs) h = ground (arith, digits-separable cs)

digits-not_empty : (s : String) → is_manager_id s ≡ true → is_empty s ≡ false
digits-not_empty String.[] h = ground arith
digits-not_empty (String.◌∷◌ c s) h = refl

-- A manager identifier that is accepted has ten digits, and is accepted as it stands.
pub normalize_fleet_manager_id_again :
    (value id : String)
    → normalize_fleet_manager_id value ≡ ok id
    → (is_manager_id id ≡ true) × (normalize_fleet_manager_id id ≡ ok id)
unfolding normalize_fleet_manager_id
normalize_fleet_manager_id_again value id e =
    let digits : is_manager_id id ≡ true = ground arith in
    let solid : trim id ≡ id = trim-solid is_digit digit_no_space id (ground arith) in
    let same : without is_separator id ≡ id = without-digits id (ground arith) in
    (digits, ground (arith, solid, same, digits, digits-separable (codes id), digits-not_empty id))
