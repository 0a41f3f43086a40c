-- ===== src/Pacing/RateLimit.antt =====
-- web/lib/rate-limit.ts: the limits on requests, by a count for each key and window. The count that Redis keeps
-- is a parameter: its answer to the script, or its failure.
pub mod Window
use link_suffix.Base.{
  ℕ, ◌+◌, ◌-◌, ◌/◌, Bool, true, false, not, List, [], ◌∷◌, ◌++◌, map, Option, none, some, String,
  max, ltb, leb, length, take, filter, find?, any, str_eq, if◌then◌else◌, is_some,
}
use link_suffix.Base.Sorting.{sort}

pub record Bucket : Type 0 where
  pub key : String
  pub count : ℕ
  pub reset_at : ℕ

-- RateLimitConfig, as far as a check uses it.
pub record Config : Type 0 where
  pub limit : ℕ
  pub window_ms : ℕ

pub data Backend : Type 0 where
  memory redis closed : Backend

-- RateLimitResult; `retryAfterMs` is `resetMs` again.
pub record Verdict : Type 0 where
  pub is_ok : Bool
  pub limit : ℕ
  pub remaining : ℕ
  pub reset_ms : ℕ
  pub retry_after_seconds : ℕ
  pub backend : Backend

-- Math.ceil(ms / 1000)
abbrev pub seconds : ℕ → ℕ
seconds ms = (ms + 999) / 1000

-- What both counters make of a count.
abbrev pub verdict_of : Backend → Config → ℕ → ℕ → Verdict
verdict_of backend config count reset = record {
  is_ok = leb count config.limit;
  limit = config.limit;
  remaining = config.limit - count;
  reset_ms = reset;
  retry_after_seconds = max 1 (seconds reset);
  backend = backend;
}

abbrev pub has_key : String → Bucket → Bool
has_key key b = str_eq b.key key

abbrev resets_before : Bucket → Bucket → Bool
resets_before a b = ltb a.reset_at b.reset_at

-- `prune`: the buckets whose window is over go, and of too many those that end first.
pub prune : ℕ → ℕ → List Bucket → List Bucket
unfolding sort
prune limit now buckets =
    let live = filter (λ b. ltb now b.reset_at) buckets in
    if leb (length live) limit
    then live
    else (let gone = take (length live - limit) (sort resets_before live) in
        filter (λ b. not (any (has_key b.key) gone)) live)

-- The bucket of a key, with its count raised.
abbrev counted : Bucket → Bucket
counted b = record b { count = b.count + 1 }

-- `Map.set`: a key that is there keeps its place, a new one comes last.
abbrev pub set : Bucket → List Bucket → List Bucket
set b buckets =
    if any (has_key b.key) buckets
    then map (λ x. if has_key b.key x then b else x) buckets
    else (buckets ++ (b ∷ []))

abbrev pub current : String → Config → ℕ → List Bucket → Bucket
current key config now buckets =
    let new : Bucket = record { key = key; count = 0; reset_at = now + config.window_ms } in
    elim (find? (has_key key) buckets) [
      | none ↦ new
      | some b ↦ if leb b.reset_at now then new else b
    ]

-- `localLimit`; `most` is MAX_LOCAL_BUCKETS.
unfoldable pub local_limit : ℕ → String → Config → ℕ → List Bucket → List Bucket × Verdict
unfolding prune
local_limit most key config now buckets =
    let kept = prune most now buckets in
    let b = counted (current key config now kept) in
    (set b kept, verdict_of memory config b.count (b.reset_at - now))

-- The environment's number, if there is a positive one.
abbrev configured : Option ℕ → ℕ → ℕ
configured none n = n
configured (some e) n = if leb e 0 then n else e

-- The settings of a check.
abbrev pub normalized : Option ℕ → Option ℕ → Config → Config
normalized env_limit env_window config = record {
  limit = max 1 (configured env_limit config.limit);
  window_ms = max 1_000 (configured env_window config.window_ms);
}

-- What asking Redis comes to.
pub data Answer : Type 0 where
  not_configured failed : Answer
  answered : ℕ → ℕ → Answer

-- `checkRateLimit`, from the normalised settings on.
unfoldable pub check_rate_limit :
    Bool → Answer → ℕ → String → Config → ℕ → List Bucket → List Bucket × Verdict
unfolding local_limit
check_rate_limit fail_closed not_configured most key config now buckets =
    local_limit most key config now buckets
check_rate_limit fail_closed (answered count reset) most key config now buckets =
    (buckets, verdict_of redis config count reset)
check_rate_limit fail_closed failed most key config now buckets =
    let fallback = local_limit most key config now buckets in
    if fail_closed
    then (
      buckets,
      record {
        is_ok = false;
        limit = config.limit;
        remaining = 0;
        reset_ms = config.window_ms;
        retry_after_seconds = seconds config.window_ms;
        backend = closed;
      },
    )
    else fallback

-- The requests of one key, each at its instant; how many of them are let through.
pub admitted : ℕ → String → Config → List ℕ → List Bucket → ℕ
unfolding local_limit
admitted most key config [] buckets = 0
admitted most key config (now ∷ later) buckets =
    let (next, verdict) = local_limit most key config now buckets in
    let rest = admitted most key config later next in if verdict.is_ok then 1 + rest else rest
