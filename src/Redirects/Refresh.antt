-- ===== src/Redirects/Refresh.antt =====
-- `parseRefreshLocation` of redirectResolver.ts: `/^\s*\d+(?:\.\d+)?\s*;\s*url\s*=\s*(.+?)\s*$/i` and the quotes.
use link_suffix.Base.{
  ℕ, Bool, false, ◌&&◌, ◌||◌, List, [], ◌∷◌, map, Option, none, some, ◌==◌, if◌then◌else◌, length,
  any,
}
use link_suffix.Base.Text.{codes, starts_with, lower, is_digit, is_space}
use link_suffix.Outbound.Addresses.{trim_codes}
use link_suffix.Capture.Query.{drop}

abbrev skip : (ℕ → Bool) → List ℕ → List ℕ
skip p [] = []
skip p (c ∷ cs) = if p c then skip p cs else c ∷ cs

-- One digit at least, and then all that follow.
abbrev digits : List ℕ → Option (List ℕ)
digits [] = none
digits (c ∷ cs) = if is_digit c then some (skip is_digit cs) else none

abbrev or_whole : List ℕ → Option (List ℕ) → List ℕ
or_whole cs none = cs
or_whole cs (some rest) = rest

-- `(?:\.\d+)?`
abbrev fraction : List ℕ → List ℕ
fraction [] = []
fraction (c ∷ cs) = if c == b'.' then or_whole (c ∷ cs) (digits cs) else c ∷ cs

-- A character, and the white space behind it.
abbrev mark : ℕ → List ℕ → Option (List ℕ)
mark m [] = none
mark m (c ∷ cs) = if c == m then some (skip is_space cs) else none

abbrev word_url : List ℕ → Option (List ℕ)
word_url cs =
    if starts_with (codes "url") (map lower cs) then some (skip is_space (drop 3 cs)) else none

abbrev is_line_end : ℕ → Bool
is_line_end c = c == 10 || c == 13 || c == 8232 || c == 8233

abbrev filled : List ℕ → Option (List ℕ)
filled cs =
    if length (trim_codes cs) == 0 || any is_line_end (trim_codes cs)
    then none
    else some (trim_codes cs)

abbrev then_with : Option (List ℕ) → (List ℕ → Option (List ℕ)) → Option (List ℕ)
then_with none f = none
then_with (some cs) f = f cs

abbrev refresh_value : List ℕ → Option (List ℕ)
refresh_value cs = then_with (digits (skip is_space cs)) (λ a.
    then_with (mark b';' (skip is_space (fraction a)))
      (λ b. then_with (word_url b) (λ c. then_with (mark b'=' c) filled)))

abbrev last_is : ℕ → List ℕ → Bool
last_is q [] = false
last_is q (c ∷ []) = c == q
last_is q (c ∷ d ∷ cs) = last_is q (d ∷ cs)

abbrev without_last : List ℕ → List ℕ
without_last [] = []
without_last (c ∷ []) = []
without_last (c ∷ d ∷ cs) = c ∷ without_last (d ∷ cs)

-- Quotes round the whole are taken off; of a lone quote nothing is left.
abbrev unquoted : List ℕ → List ℕ
unquoted [] = []
unquoted (c ∷ cs) =
    if (c == b'"' || c == b'\'') && last_is c (c ∷ cs) then without_last cs else c ∷ cs

abbrev quoted_off : Option (List ℕ) → Option (List ℕ)
quoted_off none = none
quoted_off (some raw) = some (unquoted raw)

unfoldable pub parse_refresh_location : List ℕ → Option (List ℕ)
unfolding trim_codes
parse_refresh_location value = quoted_off (refresh_value value)
