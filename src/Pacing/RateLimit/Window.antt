-- ===== src/Pacing/RateLimit/Window.antt =====
-- How many requests a window lets through.
use link_suffix.Base.{
  refl, length-map, leb, eq_iff, ◌-◌, if◌then◌else◌, ◌+◌, All, map, any, ℕ, ◌≡◌, ◌≤◌, ◌<◌, Bool,
  true, List, [], ◌∷◌, some, String, ltb, arith, length, filter, find?, length-filter, subst, sym,
  Bool-cases, inl, inr,
}
use link_suffix.Pacing.RateLimit.{
  current, set, Config, admitted, local_limit, Bucket, has_key, prune,
}

-- The key's bucket, in a memory that is not over its limit.
pub record IsCounting (most : ℕ) (key : String) (count reset : ℕ) (buckets : List Bucket)
    : Type 0 where
  pub found :
      find? (has_key key) buckets ≡ some (record { key = key; count = count; reset_at = reset })
  pub small : length buckets ≤ most

find?-filter :
    {A : Type 0} (p q : A → Bool) (xs : List A) (a : A)
    → find? p xs ≡ some a
    → q a ≡ true
    → find? p (filter q xs) ≡ some a
find?-filter p q [] a h k = ground arith
find?-filter p q (x ∷ xs) a h k = elim (Bool-cases (p x)) [
  | inl hit ↦
      let same : x ≡ a = ground arith in
      let passes : q x ≡ true = subst (λ y. q y ≡ true) (sym same) k in ground (arith, passes)
  | inr miss ↦ ground (arith, find?-filter p q xs a)
]

prune-IsCounting :
    (most : ℕ) (key : String) (count reset now : ℕ) (buckets : List Bucket)
    → now < reset
    → IsCounting most key count reset buckets
    → IsCounting most key count reset (prune most now buckets)
unfolding prune
prune-IsCounting most key count reset now buckets lt h =
    let live : Bucket → Bool = λ b. ltb now b.reset_at in
    let short : length (filter live buckets) ≤ most =
      omega (arith, h.small, length-filter live buckets) in
    let kept = find?-filter (has_key key) live buckets _ h.found (ground arith) in
    let same : filter live buckets ≡ prune most now buckets = ground (arith, short) in
    subst (IsCounting most key count reset) same (record { found = kept; small = short })

find?-set :
    (b : Bucket) (buckets : List Bucket)
    → any (has_key b.key) buckets ≡ true
    → find? (has_key b.key) (map (λ x. if has_key b.key x then b else x) buckets) ≡ some b
find?-set b [] h = ground arith
find?-set b (x ∷ xs) h = ground (arith, find?-set b xs, eq_iff b.key b.key)

found-any :
    (key : String) (buckets : List Bucket) (b : Bucket)
    → find? (has_key key) buckets ≡ some b
    → any (has_key key) buckets ≡ true
found-any key [] b h = ground arith
found-any key (x ∷ xs) b h = ground (arith, found-any key xs b)

set-IsCounting :
    (most : ℕ) (key : String) (count reset : ℕ) (buckets : List Bucket)
    → IsCounting most key count reset buckets
    → IsCounting most key
        (count + 1)
        reset
        (set (record { key = key; count = count + 1; reset_at = reset }) buckets)
set-IsCounting most key count reset buckets h =
    let b : Bucket = record { key = key; count = count + 1; reset_at = reset } in
    let there = found-any key buckets _ h.found in
    let same : map (λ x. if has_key key x then b else x) buckets ≡ set b buckets =
      ground (arith, there) in
    subst (IsCounting most key (count + 1) reset) same (record {
      found = find?-set b buckets there;
      small = omega (arith, h.small, length-map (λ x. if has_key key x then b else x) buckets);
    })

-- A request within the window raises the count, and passes if the new count is within the limit.
local_limit-IsCounting :
    (most : ℕ) (key : String) (config : Config) (count reset now : ℕ) (buckets : List Bucket)
    → now < reset
    → IsCounting most key count reset buckets
    → IsCounting most key (count + 1) reset (local_limit most key config now buckets).0
      × ((local_limit most key config now buckets).1.is_ok ≡ leb (count + 1) config.limit)
unfolding local_limit
local_limit-IsCounting most key config count reset now buckets lt h =
    let kept = prune-IsCounting most key count reset now buckets lt h in
    let b : Bucket = record { key = key; count = count; reset_at = reset } in
    let same : current key config now (prune most now buckets) ≡ b = ground (arith, kept.found) in
    (rw same (set-IsCounting most key count reset (prune most now buckets) kept), rw same refl)

-- Of the requests of one key that come before its window ends, however many and in whatever order of
-- instants, no more pass than the limit leaves after those that were counted before.
pub admitted-le-limit :
    (most : ℕ) (key : String) (config : Config) (count reset : ℕ) (times : List ℕ)
    (buckets : List Bucket)
    → IsCounting most key count reset buckets
    → All (λ now. now < reset) times
    → admitted most key config times buckets ≤ config.limit - count
unfolding admitted
admitted-le-limit most key config count reset [] buckets h early = omega arith
admitted-le-limit most key config count reset (now ∷ later) buckets h early =
    let (next, answer) = local_limit-IsCounting most key config count reset now buckets early.0 h in
    let rest =
      admitted-le-limit most key config (count + 1) reset later
        (local_limit most key config now buckets).0 next early.1 in
    ground (arith, answer, rest)
