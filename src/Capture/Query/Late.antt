-- ===== src/Capture/Query/Late.antt =====
-- The two extractions of a suffix under one name, in web/server/exact-suffix.mjs and web/lib/url-security.ts, and the
-- test of the capture runner: where they agree.
use link_suffix.Base.{
  ℕ, suc, ◌+◌, ◌-◌, ◌≡◌, refl, sym, ◌∙◌, Bool, true, false, not, ◌&&◌, List, [], ◌∷◌, Option, none,
  some, ltb, ◌==◌, if◌then◌else◌, length, take, get_or, is_some, arith,
}
use link_suffix.Outbound.Addresses.{before}
use link_suffix.Capture.Query.{
  index_of, shifted, drop, nonempty, query_suffix, has_landing_query, landing_query_from, moved,
  extract_from, extract_exact_query_suffix,
}
use link_suffix.Capture.Query.Exact.{
  exact_query, query_suffix-exact_query, take-index_of, is_some-nonempty, get_or-shifted,
  length-drop,
}

-- A "#" stands before any question mark.
unfoldable pub hash_first : List ℕ → Bool
hash_first [] = false
hash_first (c ∷ cs) = if c == b'?' then false else if c == b'#' then true else hash_first cs

landing_walk : List ℕ → Bool
landing_walk [] = false
landing_walk (c ∷ cs) = if c == b'?' then is_some (nonempty (before b'#' cs)) else landing_walk cs

shift_end :
    (q : ℕ) (o : Option ℕ) (cs : List ℕ)
    → ltb (suc q + 1) (get_or (moved (suc (suc q)) o) (suc (length cs)))
      ≡ ltb (q + 1) (get_or (moved (suc q) o) (length cs))
shift_end q none cs = ground arith
shift_end q (some f) cs = ground arith

open_end :
    (o : Option ℕ) (cs : List ℕ)
    → ltb 1 (get_or (moved 1 o) (suc (length cs))) ≡ ltb 0 (get_or o (length cs))
open_end none cs = ground arith
open_end (some f) cs = ground arith

length-before : (cs : List ℕ) → length (before b'#' cs) ≡ get_or (index_of b'#' cs) (length cs)
unfolding index_of
length-before [] = refl
length-before (c ∷ cs) =
    ground (arith, length-before cs, get_or-shifted (index_of b'#' cs) (length cs))

shift_landing :
    (c : ℕ) (q : Option ℕ) (cs : List ℕ)
    → landing_query_from (shifted q) (c ∷ cs) ≡ landing_query_from q cs
shift_landing c none cs = refl
shift_landing c (some q) cs = shift_end q (index_of b'#' (drop (suc q) cs)) cs

open_landing :
    (c : ℕ) (cs : List ℕ)
    → landing_query_from (some 0) (c ∷ cs) ≡ is_some (nonempty (before b'#' cs))
open_landing c cs =
    rw (is_some-nonempty (before b'#' cs), length-before cs) (open_end (index_of b'#' cs) cs)

has_landing_query-walk : (url : List ℕ) → has_landing_query url ≡ landing_walk url
unfolding has_landing_query landing_walk
has_landing_query-walk [] = refl
has_landing_query-walk (c ∷ cs) =
    ground
      (arith, has_landing_query-walk cs, shift_landing c (index_of b'?' cs) cs, open_landing c cs)

exact_query-walk :
    (url : List ℕ) → is_some (exact_query url) ≡ (landing_walk url && not (hash_first url))
unfolding exact_query landing_walk hash_first
exact_query-walk [] = refl
exact_query-walk (c ∷ cs) = ground (arith, exact_query-walk cs)

-- The test of the capture runner for an exact suffix agrees with the extraction of the suffix exactly as long as
-- no "#" stands before the first question mark; such an address passes the test and has no suffix.
pub has_landing_query_iff :
    (url : List ℕ) → is_some (query_suffix url) ≡ (has_landing_query url && not (hash_first url))
has_landing_query_iff url =
    rw (query_suffix-exact_query url, has_landing_query-walk url) (exact_query-walk url)

late_walk : List ℕ → List ℕ
late_walk [] = []
late_walk (c ∷ cs) = if c == b'?' then before b'#' cs else late_walk cs

late_end :
    (q : ℕ) (o : Option ℕ) (d : List ℕ) (total : ℕ)
    → length d ≡ total - suc q
    → take (get_or (moved (suc q) o) total - suc q) d ≡ take (get_or o (length d)) d
late_end q none d total e = rw e refl
late_end q (some i) d total e = let same : suc q + i - suc q ≡ i = omega arith in rw same refl

extract_from-before :
    (q : ℕ) (url : List ℕ) → extract_from (some q) url ≡ before b'#' (drop (suc q) url)
extract_from-before q url =
    late_end q (index_of b'#' (drop (suc q) url)) (drop (suc q) url) (length url)
      (length-drop (suc q) url)
    ∙ take-index_of b'#' (drop (suc q) url)

shift_late :
    (c : ℕ) (q : Option ℕ) (cs : List ℕ) → extract_from (shifted q) (c ∷ cs) ≡ extract_from q cs
shift_late c none cs = refl
shift_late c (some q) cs = extract_from-before (suc q) (c ∷ cs) ∙ sym (extract_from-before q cs)

extract-late_walk : (url : List ℕ) → extract_exact_query_suffix url ≡ late_walk url
unfolding extract_exact_query_suffix late_walk
extract-late_walk [] = refl
extract-late_walk (c ∷ cs) = ground (
  arith,
  extract-late_walk cs,
  shift_late c (index_of b'?' cs) cs,
  extract_from-before 0 (c ∷ cs),
)

late_walk-exact :
    (url : List ℕ) → exact_query url ≡ (if hash_first url then none else nonempty (late_walk url))
unfolding exact_query late_walk hash_first
late_walk-exact [] = refl
late_walk-exact (c ∷ cs) = ground (arith, late_walk-exact cs)

-- The suffix that the server cuts out is the one that the web application cuts out under the same name, unless a
-- "#" stands before the first question mark (then the server finds none) or that one is empty.
pub query_suffix-extract :
    (url : List ℕ)
    → query_suffix url
      ≡ (if hash_first url then none else nonempty (extract_exact_query_suffix url))
query_suffix-extract url =
    rw (query_suffix-exact_query url, extract-late_walk url) (late_walk-exact url)
