-- ===== src/Base/Text.antt =====
-- The string operations of the source's language that the components share. A text is walked as
-- the list of its characters' codes.
use Prim.Native.Char.{code}
use Prim.Native.String.{String, ◌++◌ as append}
use link_suffix.Base.{
  ◌≡◌, refl, arith, ℕ, zero, suc, ◌+◌, ◌/◌, ◌%◌, Bool, true, false, ◌&&◌, ◌||◌, List, [], ◌∷◌, map,
  leb, ltb, ◌==◌, if◌then◌else◌,
}

abbrev pub codes : String → List ℕ
codes String.[] = []
codes (String.◌∷◌ c s) = code c ∷ codes s

-- `\d`
abbrev pub is_digit : ℕ → Bool
is_digit c = leb b'0' c && leb c b'9'

-- What `trim` removes: white space and line terminators.
abbrev pub is_space : ℕ → Bool
is_space c =
    (leb 9 c && leb c 13)
    || c == 32
    || c == 160
    || c == 5760
    || (leb 8192 c && leb c 8202)
    || c == 8232
    || c == 8233
    || c == 8239
    || c == 8287
    || c == 12288
    || c == 65279

-- ASCII case folding, as a pattern under the flag `i` has it.
abbrev pub lower : ℕ → ℕ
lower c = if leb b'A' c && leb c b'Z' then c + 32 else c

abbrev pub all_codes : (ℕ → Bool) → List ℕ → Bool
all_codes p [] = true
all_codes p (c ∷ cs) = p c && all_codes p cs

abbrev pub same_codes : List ℕ → List ℕ → Bool
same_codes [] [] = true
same_codes (a ∷ as') (b ∷ bs) = a == b && same_codes as' bs
same_codes _ _ = false

pub same_codes→eq : (as' bs : List ℕ) → same_codes as' bs ≡ true → as' ≡ bs
same_codes→eq [] [] h = refl
same_codes→eq (a ∷ as') (b ∷ bs) h = ground (arith, same_codes→eq as' bs)
same_codes→eq [] (b ∷ bs) h = absurd (ground arith)
same_codes→eq (a ∷ as') [] h = absurd (ground arith)

abbrev pub starts_with : List ℕ → List ℕ → Bool
starts_with [] _ = true
starts_with (p ∷ ps) [] = false
starts_with (p ∷ ps) (c ∷ cs) = p == c && starts_with ps cs

abbrev pub lowered : String → List ℕ
lowered s = map lower (codes s)

-- `s.trim().length === 0`
abbrev pub is_blank : String → Bool
is_blank s = all_codes is_space (codes s)

-- `s.replace(/\D/g, "")`
unfoldable pub digits_only : String → String
digits_only String.[] = ""
digits_only (String.◌∷◌ c s) =
    if is_digit (code c) then String.◌∷◌ c (digits_only s) else digits_only s

-- `s.slice(0, n)`
unfoldable pub slice : ℕ → String → String
slice zero s = ""
slice (suc n) String.[] = ""
slice (suc n) (String.◌∷◌ c s) = String.◌∷◌ c (slice n s)

-- `s === ""`, the text that the source's tests take for false.
abbrev pub is_empty : String → Bool
is_empty String.[] = true
is_empty (String.◌∷◌ c s) = false

-- `s || d`
abbrev pub or_else : String → String → String
or_else s d = if is_empty s then d else s

unfoldable pub trim_start : String → String
trim_start String.[] = ""
trim_start (String.◌∷◌ c s) = if is_space (code c) then trim_start s else String.◌∷◌ c s

unfoldable pub trim_end : String → String
trim_end String.[] = ""
trim_end (String.◌∷◌ c s) =
    let rest = trim_end s in if is_space (code c) && is_empty rest then "" else String.◌∷◌ c rest

-- `s.trim()`
unfoldable pub trim : String → String
unfolding trim_start trim_end
trim s = trim_end (trim_start s)

-- `s.replace(/…/g, "")` for a class of characters.
unfoldable pub without : (ℕ → Bool) → String → String
without p String.[] = ""
without p (String.◌∷◌ c s) = if p (code c) then without p s else String.◌∷◌ c (without p s)

abbrev pick : ℕ → List String → String
pick n [] = ""
pick zero (x ∷ xs) = x
pick (suc n) (x ∷ xs) = pick n xs

abbrev digit_text : ℕ → String
digit_text n = pick n ("0" ∷ "1" ∷ "2" ∷ "3" ∷ "4" ∷ "5" ∷ "6" ∷ "7" ∷ "8" ∷ "9" ∷ [])

digits_within : ℕ → ℕ → String
digits_within zero n = digit_text n
digits_within (suc fuel) n =
    let front = digits_within fuel (n / 10) in
    if ltb n 10 then digit_text n else append front (digit_text (n % 10))

-- A number in decimal digits; the number itself is fuel enough.
unfoldable pub decimal : ℕ → String
unfolding digits_within
decimal n = digits_within n n
