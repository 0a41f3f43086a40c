-- ===== src/Capture/Query/Exact.antt =====
-- The query of an address by one walk over it, and what the cut out suffix is of the address.
use link_suffix.Base.{
  ◌∙◌, sym, ℕ, zero, suc, ◌-◌, ◌≤◌, ◌<◌, ◌≡◌, refl, ap, ◌⊎◌, inl, inr, true, false, ◌||◌, List, [],
  ◌∷◌, ◌++◌, Option, none, some, ltb, ◌==◌, if◌then◌else◌, length, take, get_or, is_some, any,
  Bool-cases, arith,
}
use link_suffix.Outbound.Addresses.{before}
use link_suffix.Capture.Query.{
  index_of, shifted, drop, slice_codes, nonempty, cut_query, query_suffix, has_exact_query,
  exact_query_from,
}

-- The suffix by one walk: a fragment ends the address, the first question mark before it opens the query.
unfoldable pub exact_query : List ℕ → Option (List ℕ)
exact_query [] = none
exact_query (c ∷ cs) =
    if c == b'#' then none else if c == b'?' then nonempty (before b'#' cs) else exact_query cs

take-length : (cs : List ℕ) → take (length cs) cs ≡ cs
take-length [] = refl
take-length (c ∷ cs) = ap (λ (x : List ℕ). c ∷ x) (take-length cs)

-- What stands before the fragment.
pub take-index_of :
    (p : ℕ) (cs : List ℕ) → take (get_or (index_of p cs) (length cs)) cs ≡ before p cs
unfolding index_of
take-index_of p [] = refl
take-index_of p (c ∷ cs) = ground (arith, take-index_of p cs)

shift_cut :
    (c : ℕ) (q f : Option ℕ) (cs : List ℕ)
    → cut_query (shifted q) (shifted f) (c ∷ cs) ≡ cut_query q f cs
shift_cut c none f cs = refl
shift_cut c (some q) none cs = ground arith
shift_cut c (some q) (some f) cs = ground arith

open_query :
    (c : ℕ) (f : Option ℕ) (cs : List ℕ)
    → f ≡ index_of b'#' cs
    → cut_query (some 0) (shifted f) (c ∷ cs) ≡ nonempty (before b'#' cs)
open_query c none cs e = ground (arith, take-index_of b'#' cs, e)
open_query c (some f) cs e = ground (arith, take-index_of b'#' cs, e)

-- The indices of the source find what the walk finds.
pub query_suffix-exact_query : (url : List ℕ) → query_suffix url ≡ exact_query url
unfolding query_suffix exact_query
query_suffix-exact_query [] = refl
query_suffix-exact_query (c ∷ cs) = ground (
  arith,
  query_suffix-exact_query cs,
  shift_cut c (index_of b'?' cs) (index_of b'#' cs) cs,
  open_query c (index_of b'#' cs) cs refl,
)

pub get_or-shifted : (o : Option ℕ) (n : ℕ) → get_or (shifted o) (suc n) ≡ suc (get_or o n)
get_or-shifted none n = refl
get_or-shifted (some i) n = refl

abbrev Within : Option ℕ → ℕ → Type 0
Within none n = Unit
Within (some i) n = i < n

Within-shifted : (o : Option ℕ) (n : ℕ) → Within o n → Within (shifted o) (suc n)
Within-shifted none n h = tt
Within-shifted (some i) n h = omega arith

index_of-lt : (p : ℕ) (cs : List ℕ) → Within (index_of p cs) (length cs)
unfolding index_of
index_of-lt p [] = tt
index_of-lt p (c ∷ cs) = elim (Bool-cases (c == p)) [
  | inl hit ↦ rw hit (omega arith)
  | inr miss ↦ rw miss (Within-shifted (index_of p cs) (length cs) (index_of-lt p cs))
]

pub length-drop : (n : ℕ) (cs : List ℕ) → length (drop n cs) ≡ length cs - n
length-drop zero cs = omega arith
length-drop (suc n) [] = omega arith
length-drop (suc n) (c ∷ cs) = omega (arith, length-drop n cs)

length-take_of : (n : ℕ) (cs : List ℕ) → n ≤ length cs → length (take n cs) ≡ n
length-take_of zero cs h = refl
length-take_of (suc n) [] h = absurd (omega arith)
length-take_of (suc n) (c ∷ cs) h = omega (arith, length-take_of n cs)

pub is_some-nonempty : (cs : List ℕ) → is_some (nonempty cs) ≡ ltb 0 (length cs)
is_some-nonempty [] = refl
is_some-nonempty (c ∷ cs) = ground arith

has_exact-cut :
    (q f : Option ℕ) (url : List ℕ)
    → Within q (length url)
    → Within f (length url)
    → exact_query_from q f (length url) ≡ is_some (cut_query q f url)
has_exact-cut none f url hq hf = refl
has_exact-cut (some q) none url hq hf = ground (
  arith,
  is_some-nonempty (slice_codes (suc q) (length url) url),
  length-take_of (length url - suc q) (drop (suc q) url),
  length-drop (suc q) url,
)
has_exact-cut (some q) (some f) url hq hf = ground (
  arith,
  is_some-nonempty (slice_codes (suc q) f url),
  length-take_of (f - suc q) (drop (suc q) url),
  length-drop (suc q) url,
)

-- The test of the redirect resolver is the presence of a suffix.
pub has_exact_query_iff : (url : List ℕ) → has_exact_query url ≡ is_some (query_suffix url)
unfolding has_exact_query query_suffix
has_exact_query_iff url =
    has_exact-cut (index_of b'?' url) (index_of b'#' url) url (index_of-lt b'?' url)
      (index_of-lt b'#' url)

-- What surrounds a suffix in its address.
pub record IsCut (url suffix : List ℕ) : Type 0 where
  pub front : List ℕ
  pub back : List ℕ
  pub whole : url ≡ front ++ (b'?' ∷ suffix ++ back)
  pub first_query : any (λ c. c == b'?' || c == b'#') front ≡ false
  pub no_fragment : any (λ c. c == b'#') suffix ≡ false
  pub fragment : (back ≡ []) ⊎ ((rest : List ℕ) × (back ≡ b'#' ∷ rest))
  pub some_bytes : 0 < length suffix

record IsBefore (cs front : List ℕ) : Type 0 where
  rest : List ℕ
  whole : cs ≡ front ++ rest
  clean : any (λ c. c == b'#') front ≡ false
  end : (rest ≡ []) ⊎ ((more : List ℕ) × (rest ≡ b'#' ∷ more))

before-IsBefore : (cs : List ℕ) → IsBefore cs (before b'#' cs)
before-IsBefore [] = record { rest = []; whole = refl; clean = refl; end = inl refl }
before-IsBefore (c ∷ cs) = elim (Bool-cases (c == b'#')) [
  | inl hash ↦
      rw hash (record { rest = c ∷ cs; whole = refl; clean = refl; end = inr (cs, ground arith) })
  | inr other ↦
      let h = before-IsBefore cs in
      rw other (record {
        rest = h.rest;
        whole = ap (λ (x : List ℕ). c ∷ x) h.whole;
        clean = ground (arith, h.clean);
        end = h.end;
      })
]

nonempty-eq : (cs suffix : List ℕ) → nonempty cs ≡ some suffix → (cs ≡ suffix) × (0 < length suffix)
nonempty-eq [] suffix e = absurd (ground arith)
nonempty-eq (c ∷ cs) suffix e = ground arith

opened-IsCut :
    (c : ℕ) (cs suffix : List ℕ)
    → (c == b'?') ≡ true
    → nonempty (before b'#' cs) ≡ some suffix
    → IsCut (c ∷ cs) suffix
opened-IsCut c cs suffix opens e =
    let h = before-IsBefore cs in
    let same = nonempty-eq (before b'#' cs) suffix e in
    record {
      front = [];
      back = h.rest;
      whole = ground (arith, opens, h.whole, same);
      first_query = refl;
      no_fragment = ground (arith, h.clean, same);
      fragment = h.end;
      some_bytes = same.1;
    }

exact_query-IsCut : (url suffix : List ℕ) → exact_query url ≡ some suffix → IsCut url suffix
unfolding exact_query
exact_query-IsCut [] suffix e = absurd (ground arith)
exact_query-IsCut (c ∷ cs) suffix e = elim (Bool-cases (c == b'#')) [
  | inl hash ↦ absurd (ground (arith, hash, e))
  | inr other ↦ elim (Bool-cases (c == b'?')) [
    | inl opens ↦ opened-IsCut c cs suffix opens (ground (arith, other, opens, e))
    | inr plain ↦
        let h = exact_query-IsCut cs suffix (ground (arith, other, plain, e)) in
        record {
          front = c ∷ h.front;
          back = h.back;
          whole = ap (λ (x : List ℕ). c ∷ x) h.whole;
          first_query = ground (arith, h.first_query);
          no_fragment = h.no_fragment;
          fragment = h.fragment;
          some_bytes = h.some_bytes;
        }
  ]
]

-- A suffix that is cut out is, byte for byte, what stands in the address between its first question mark and
-- the fragment or the end: there is no "#" in front of that question mark and none in the suffix, and the
-- suffix is not empty.
pub query_suffix-IsCut : (url suffix : List ℕ) → query_suffix url ≡ some suffix → IsCut url suffix
query_suffix-IsCut url suffix e =
    exact_query-IsCut url suffix (sym (query_suffix-exact_query url) ∙ e)
