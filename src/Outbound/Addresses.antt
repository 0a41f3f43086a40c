-- ===== src/Outbound/Addresses.antt =====
-- The addresses that are never opened: `ipv4Bytes`, `blockedIpv4`, `normalizedIpv6` and `isBlockedAddress`.
use link_suffix.Base.{
  ℕ, zero, suc, ◌+◌, ◌-◌, ◌*◌, ◌/◌, ◌%◌, Bool, true, false, not, ◌&&◌, ◌||◌, List, [], ◌∷◌, map,
  Option, none, some, leb, ◌==◌, if◌then◌else◌, length,
}
use link_suffix.Base.Text.{codes, same_codes, starts_with, lower, is_digit, is_space, all_codes}

-- A character in front of a text that was split: a separator opens a new first part.
abbrev split_step : ℕ → ℕ → List (List ℕ) → List (List ℕ)
split_step p c [] = []
split_step p c (w ∷ ws) = if c == p then [] ∷ w ∷ ws else (c ∷ w) ∷ ws

-- `split` at a character.
unfoldable pub split_on : ℕ → List ℕ → List (List ℕ)
split_on p [] = [] ∷ []
split_on p (c ∷ cs) = split_step p c (split_on p cs)

unfoldable pub ends_with : List ℕ → List ℕ → Bool
ends_with p [] = same_codes p []
ends_with p (c ∷ cs) = same_codes p (c ∷ cs) || ends_with p cs

abbrev trim_tail : List ℕ → List ℕ
trim_tail [] = []
trim_tail (c ∷ cs) =
    let rest = trim_tail cs in if is_space c && length rest == 0 then [] else c ∷ rest

-- `trim`
unfoldable pub trim_codes : List ℕ → List ℕ
trim_codes [] = []
trim_codes (c ∷ cs) = if is_space c then trim_codes cs else trim_tail (c ∷ cs)

-- `replace(/^\[|\]$/g, "")`
abbrev pub without_open : List ℕ → List ℕ
without_open [] = []
without_open (c ∷ cs) = if c == b'[' then cs else c ∷ cs

abbrev pub without_close : List ℕ → List ℕ
without_close [] = []
without_close (c ∷ cs) = if c == b']' && length cs == 0 then [] else c ∷ without_close cs

-- `split(p)[0]`
abbrev pub before : ℕ → List ℕ → List ℕ
before p [] = []
before p (c ∷ cs) = if c == p then [] else c ∷ before p cs

abbrev pub bare : List ℕ → List ℕ
bare address = before b'%' (without_close (without_open address))

abbrev decimal_from : ℕ → List ℕ → ℕ
decimal_from n [] = n
decimal_from n (c ∷ cs) = decimal_from (n * 10 + (c - 48)) cs

-- `Number` of a part, if that is an integer from 0 to 255. Spellings of numbers other than digits do not come
-- here: `isIP` and the pattern of a mapped address admit none.
abbrev pub byte_of : List ℕ → Option ℕ
byte_of part =
    if all_codes is_digit part && leb (decimal_from 0 part) 255
    then some (decimal_from 0 part)
    else none

pub record Bytes : Type 0 where
  pub a : ℕ
  pub b : ℕ
  pub c : ℕ
  pub d : ℕ

abbrev pub four : Option ℕ → Option ℕ → Option ℕ → Option ℕ → Option Bytes
four (some a) (some b) (some c) (some d) = some (record { a = a; b = b; c = c; d = d })
four _ _ _ _ = none

abbrev pub bytes_of : List (List ℕ) → Option Bytes
bytes_of (a ∷ b ∷ c ∷ d ∷ []) = four (byte_of a) (byte_of b) (byte_of c) (byte_of d)
bytes_of _ = none

-- `ipv4Bytes`
abbrev pub ipv4_bytes : List ℕ → Option Bytes
ipv4_bytes address = bytes_of (split_on b'.' address)

-- The tests of `blockedIpv4`.
unfoldable pub blocked_bytes : Bytes → Bool
blocked_bytes x =
    x.a == 0
    || x.a == 10
    || x.a == 127
    || (x.a == 100 && leb 64 x.b && leb x.b 127)
    || (x.a == 169 && x.b == 254)
    || (x.a == 172 && leb 16 x.b && leb x.b 31)
    || (x.a == 192 && x.b == 0 && x.c == 0)
    || (x.a == 192 && x.b == 0 && x.c == 2)
    || (x.a == 192 && x.b == 168)
    || (x.a == 198 && (x.b == 18 || x.b == 19))
    || (x.a == 198 && x.b == 51 && x.c == 100)
    || (x.a == 203 && x.b == 0 && x.c == 113)
    || leb 224 x.a

abbrev pub blocked_or : Option Bytes → Bool
blocked_or none = true
blocked_or (some x) = blocked_bytes x

-- `blockedIpv4`
abbrev pub blocked_ipv4 : List ℕ → Bool
blocked_ipv4 address = blocked_or (ipv4_bytes address)

abbrev is_digits : List ℕ → Bool
is_digits [] = false
is_digits (c ∷ cs) = all_codes is_digit (c ∷ cs)

abbrev is_dotted : List (List ℕ) → Bool
is_dotted (a ∷ b ∷ c ∷ d ∷ []) = is_digits a && is_digits b && is_digits c && is_digits d
is_dotted _ = false

abbrev drop_front : ℕ → List ℕ → List ℕ
drop_front zero cs = cs
drop_front (suc n) [] = []
drop_front (suc n) (c ∷ cs) = drop_front n cs

-- `match(/^::ffff:(\d+\.\d+\.\d+\.\d+)$/)`
abbrev pub mapped : List ℕ → Option (List ℕ)
mapped cs =
    if starts_with (codes "::ffff:") cs && is_dotted (split_on b'.' (drop_front 7 cs))
    then some (drop_front 7 cs)
    else none

abbrev is_hex_digit : ℕ → Bool
is_hex_digit c = is_digit c || (leb b'a' c && leb c b'f')

abbrev hex_value : ℕ → ℕ
hex_value c = if is_digit c then c - 48 else c - 87

-- `parseInt(…, 16)`; a text without digits gives 0, which the masks below treat as they treat NaN.
abbrev hex_from : ℕ → List ℕ → ℕ
hex_from n [] = n
hex_from n (c ∷ cs) = if is_hex_digit c then hex_from (n * 16 + hex_value c) cs else n

-- `(n & 0xfe00) === 0xfc00 || (n & 0xffc0) === 0xfe80 || (n & 0xff00) === 0xff00`, by the bits that the masks keep.
abbrev pub blocked_group : ℕ → Bool
blocked_group n = n / 512 % 128 == 126 || n / 64 % 1024 == 1018 || n / 256 % 256 == 255

abbrev blocked_unmapped : List ℕ → Option (List ℕ) → Bool
blocked_unmapped cs (some v4) = blocked_ipv4 v4
blocked_unmapped cs none =
    blocked_group (hex_from 0 (before b':' cs)) || starts_with (codes "2001:db8:") cs

-- What follows `isIP` for the sixth version.
abbrev pub blocked_ipv6 : List ℕ → Bool
blocked_ipv6 cs =
    same_codes cs (codes "::") || same_codes cs (codes "::1") || blocked_unmapped cs (mapped cs)

-- `isBlockedAddress`, over the platform's `isIP`.
unfoldable pub is_blocked_address : (List ℕ → ℕ) → List ℕ → Bool
unfolding split_on blocked_bytes
is_blocked_address is_ip address =
    if is_ip (bare address) == 4
    then blocked_ipv4 address
    else if not (is_ip (bare address) == 6)
    then true
    else blocked_ipv6 (before b'%' (without_close (without_open (map lower address))))
