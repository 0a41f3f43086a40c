-- ===== src/Bridge/Results.antt =====
-- What an operation of the fleet store comes to: its answer, or the message of the error that it throws.
use link_suffix.Base.{◌≡◌, refl, Bool, String, if◌then◌else◌}

-- The answer of an operation, or the message of the error that it throws.
pub data Result {ℓ} (A : Type ℓ) : Type ℓ where
  err : String → Result A
  ok : A → Result A

-- The value of an answer, with another one for an error.
abbrev pub or_value {ℓ} : {A : Type ℓ} → Result A → A → A
or_value (err text) other = other
or_value (ok x) other = x

-- The rest of an operation, once a part of it has answered.
infixl 5 ◌>>=◌
abbrev pub ◌>>=◌ {ℓ κ} : {B : Type κ} {A : Type ℓ} → Result A → (A → Result B) → Result B
err text >>= rest = err text
ok x >>= rest = rest x

-- `if (!test) throw new Error(text)`
abbrev pub guard : Bool → String → Result (Unit {0})
guard test text = if test then ok tt else err text

infixl 5 ◌>>◌
abbrev pub ◌>>◌ {κ} : {B : Type κ} → Result (Unit {0}) → Result B → Result B
first >> rest = first >>= λ done. rest

-- Both parts of a chain that succeeds.
pub >>=-eq-ok {ℓ κ} :
    {A : Type ℓ} {B : Type κ} (part : Result A) (rest : A → Result B) {y : B}
    → (part >>= rest) ≡ ok y
    → (x : A) × (part ≡ ok x) × (rest x ≡ ok y)
>>=-eq-ok (err text) rest same = cc
>>=-eq-ok (ok x) rest same = (x, refl, same)
