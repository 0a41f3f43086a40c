-- ===== src/Bridge/Rooms.antt =====
-- Where a campaign finds room, from `upsertBridgeTarget` of web/lib/script-bridge-store.ts: who is on a shard, which
-- other shard of the manager is available, and the name of the next one.
use Prim.Native.String.{String, ◌++◌ as append}
use link_suffix.Base.{
  ℕ, ◌+◌, ◌-◌, ◌*◌, Bool, true, not, ◌&&◌, ◌||◌, List, [], ◌∷◌, Option, none, some, max, ltb, leb,
  ◌==◌, length, str_eq, if◌then◌else◌, filter, find?, any, head?, get_or,
}
use link_suffix.Base.Sorting.{sort}
use link_suffix.Base.Text.{decimal, codes, all_codes, is_digit, is_empty, starts_with}
use link_suffix.Bridge.Shards.{is_deleted}
use link_suffix.Bridge.{Store, Target, Shard, Env, shard_capacity, find_shard}
use link_suffix.Bridge.Results.{Result, ok, err}

-- `mcc-<manager>-`
abbrev pub shard_prefix : String → String
shard_prefix manager = append "mcc-" (append manager "-")

-- The enabled targets of other campaigns on a shard.
abbrev pub occupants : Store → String → String → List Target
occupants s shard_id record_id =
    filter
      (λ t. t.enabled && str_eq t.shard_id shard_id && not (str_eq t.campaign_record_id record_id))
      s.targets

abbrev named_managers_of : List Target → List String
named_managers_of [] = []
named_managers_of (t ∷ ts) =
    let rest = named_managers_of ts in
    if is_empty t.manager_customer_id || any (str_eq t.manager_customer_id) rest
    then rest
    else t.manager_customer_id ∷ rest

-- The occupants of the first choice are of this manager.
unfoldable pub check_occupants : List Target → String → Result (Unit {0})
check_occupants ts manager =
    if ltb 1 (length (named_managers_of ts))
    then err "Fleet shard contains campaigns from multiple MCC accounts"
    else if any (λ m. not (str_eq m manager)) (named_managers_of ts)
    then err "Fleet shard belongs to another MCC; select a shard for this MCC"
    else ok tt

-- The names of shards with a prefix (`LIKE`), of shards and of targets, each once.
abbrev add_name : String → String → List String → List String
add_name prefix id seen =
    if starts_with (codes prefix) (codes id) && not (any (str_eq id) seen) then id ∷ seen else seen

abbrev names_of_shards : String → List Shard → List String → List String
names_of_shards prefix [] seen = seen
names_of_shards prefix (sh ∷ shs) seen =
    names_of_shards prefix shs (add_name prefix sh.shard_id seen)

abbrev names_of_targets : String → List Target → List String → List String
names_of_targets prefix [] seen = seen
names_of_targets prefix (t ∷ ts) seen = names_of_targets prefix ts (add_name prefix t.shard_id seen)

pub prefixed_shards : Store → String → List String
prefixed_shards s prefix = names_of_targets prefix s.targets (names_of_shards prefix s.shards [])

-- The binding of a shard is to the manager, or there is none.
abbrev is_unbound_or : String → Option (String × String) → Bool
is_unbound_or manager none = true
is_unbound_or manager (some b) = str_eq b.1 manager

-- `min(NULLIF(manager_customer_id,''))`
abbrev least_manager : Env → List Target → Option String
least_manager env ts = head? (sort env.text_before (named_managers_of ts))

abbrev is_none_or : String → Option String → Bool
is_none_or manager none = true
is_none_or manager (some m) = str_eq m manager

-- A shard that has room, is not deleted and is of the manager.
pub is_available : Env → Store → String → String → String → Bool
unfolding sort
is_available env s manager record_id id =
    not (is_deleted (find_shard s id))
    && is_unbound_or manager (find? (λ b. str_eq b.0 id) s.managers)
    && ltb (length (occupants s id record_id)) shard_capacity
    && is_none_or manager
        (least_manager env (filter (λ t. t.enabled && str_eq t.shard_id id) s.targets))

-- The number behind a prefix.
abbrev drop_prefix : List ℕ → List ℕ → Option (List ℕ)
drop_prefix [] cs = some cs
drop_prefix (p ∷ ps) [] = none
drop_prefix (p ∷ ps) (c ∷ cs) = if p == c then drop_prefix ps cs else none

abbrev number_from : ℕ → List ℕ → ℕ
number_from n [] = n
number_from n (c ∷ cs) = number_from (n * 10 + (c - 48)) cs

abbrev number_of : Option (List ℕ) → ℕ
number_of none = 0
number_of (some []) = 0
number_of (some (c ∷ cs)) = if all_codes is_digit (c ∷ cs) then number_from 0 (c ∷ cs) else 0

pub highest_number : String → List String → ℕ
highest_number prefix [] = 0
highest_number prefix (id ∷ ids) =
    max (number_of (drop_prefix (codes prefix) (codes id))) (highest_number prefix ids)

-- `padStart(3, "0")`
abbrev padded : String → String
padded s =
    if leb 3 (length (codes s))
    then s
    else if length (codes s) == 2
    then append "0" s
    else append "00" s

pub next_shard : String → List String → String
next_shard prefix ids = let n = highest_number prefix ids + 1 in append prefix (padded (decimal n))

-- The shard that takes the campaign when the first choice is full or deleted.
unfoldable pub other_shard : Env → Store → String → String → String
unfolding prefixed_shards is_available highest_number next_shard sort
other_shard env s manager record_id =
    let ids = prefixed_shards s (shard_prefix manager) in
    get_or (head? (sort env.text_before (filter (is_available env s manager record_id) ids)))
      (next_shard (shard_prefix manager) ids)
