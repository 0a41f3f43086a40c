-- ===== src/Capture/Query.antt =====
-- The query of a captured address, byte for byte: what packages/contracts/src/captureSafety.ts,
-- web/server/exact-suffix.mjs and web/lib/url-security.ts cut out of it, and the tests of two capture runners for it.
pub mod Exact
pub mod Late
use link_suffix.Base.{
  ℕ, zero, suc, ◌+◌, ◌-◌, ◌≤◌, ◌<◌, ◌≡◌, refl, ◌⊎◌, inl, inr, Bool, true, false, not, ◌&&◌, ◌||◌,
  List, [], ◌∷◌, ◌++◌, Option, none, some, ltb, leb, ◌==◌, if◌then◌else◌, length, take, get_or,
  is_some, any, Bool-cases, Option-cases, arith,
}

-- `indexOf` of a character; none is -1.
abbrev shifted : Option ℕ → Option ℕ
shifted none = none
shifted (some i) = some (suc i)

unfoldable pub index_of : ℕ → List ℕ → Option ℕ
index_of c [] = none
index_of c (x ∷ xs) = if x == c then some 0 else shifted (index_of c xs)

abbrev pub drop : ℕ → List ℕ → List ℕ
drop zero cs = cs
drop (suc n) [] = []
drop (suc n) (c ∷ cs) = drop n cs

-- `slice(from, to)`, where `to` is not before `from`.
abbrev pub slice_codes : ℕ → ℕ → List ℕ → List ℕ
slice_codes from to cs = take (to - from) (drop from cs)

-- `fragment >= 0 && query > fragment`
abbrev comes_after : ℕ → Option ℕ → Bool
comes_after query none = false
comes_after query (some fragment) = ltb fragment query

abbrev pub nonempty : List ℕ → Option (List ℕ)
nonempty [] = none
nonempty (c ∷ cs) = some (c ∷ cs)

abbrev cut_query : Option ℕ → Option ℕ → List ℕ → Option (List ℕ)
cut_query none fragment url = none
cut_query (some query) fragment url =
    if comes_after query fragment
    then none
    else nonempty (slice_codes (suc query) (get_or fragment (length url)) url)

-- The suffix of an address: none where it has none, or an empty one.
unfoldable pub query_suffix : List ℕ → Option (List ℕ)
unfolding index_of
query_suffix url = cut_query (index_of b'?' url) (index_of b'#' url) url

abbrev exact_query_from : Option ℕ → Option ℕ → ℕ → Bool
exact_query_from none fragment total = false
exact_query_from (some query) fragment total = ltb (query + 1) (get_or fragment total)

-- `hasExactQuery` of redirectResolver.ts.
unfoldable pub has_exact_query : List ℕ → Bool
unfolding index_of
has_exact_query url = exact_query_from (index_of b'?' url) (index_of b'#' url) (length url)

abbrev moved : ℕ → Option ℕ → Option ℕ
moved n none = none
moved n (some i) = some (n + i)

abbrev landing_query_from : Option ℕ → List ℕ → Bool
landing_query_from none url = false
landing_query_from (some query) url =
    let end = get_or (moved (suc query) (index_of b'#' (drop (suc query) url))) (length url) in
    ltb (query + 1) end

-- The test of `findExactSuffixUrl`, which looks for a fragment only behind the question mark.
unfoldable pub has_landing_query : List ℕ → Bool
unfolding index_of
has_landing_query url = landing_query_from (index_of b'?' url) url

abbrev pub extract_from : Option ℕ → List ℕ → List ℕ
extract_from none url = []
extract_from (some query) url =
    let end = get_or (moved (suc query) (index_of b'#' (drop (suc query) url))) (length url) in
    slice_codes (suc query) end url

-- `extractExactQuerySuffix` of url-security.ts, which looks for a fragment only behind the question mark too.
unfoldable pub extract_exact_query_suffix : List ℕ → List ℕ
unfolding index_of
extract_exact_query_suffix url = extract_from (index_of b'?' url) url
