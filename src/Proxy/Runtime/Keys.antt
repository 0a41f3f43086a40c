-- ===== src/Proxy/Runtime/Keys.antt =====
-- web/server/proxy-setup-core.mjs: the keys under which a pool's endpoints are leased, and the endpoint behind a key.
use Prim.Native.String.{◌++◌ as append}
use link_suffix.Base.{
  ℕ, zero, suc, ◌+◌, ◌*◌, ◌%◌, Bool, false, not, ◌&&◌, ◌||◌, List, [], ◌∷◌, ◌++◌, map, Option, none,
  some, String, leb, ltb, ◌==◌, min, max, str_eq, if◌then◌else◌, length, any, get_or,
}
use link_suffix.Base.Text.{codes, lowered, same_codes, is_digit, all_codes, decimal}

-- A pool, as far as its keys go.
pub record KeyPool : Type 0 where
  pub pool_id : String
  pub endpoint_ports : List ℕ
  pub session_shared_gateway : Bool
  pub session_capacity : Option ℕ

-- EVOMI_HOSTS
abbrev evomi_hosts : List String
evomi_hosts =
    "core-residential.evomi.com" ∷ "premium-residential.evomi.com" ∷ "rp.evomi.com"
    ∷ "rp.evomi-proxy.com" ∷ []

abbrev is_evomi_host : String → Bool
is_evomi_host host = any (λ h. same_codes (lowered host) (codes h)) evomi_hosts

-- `Math.max(1, Math.min(500, Number(capacity) || 100))`
abbrev slots_of : Option ℕ → ℕ
slots_of none = 100
slots_of (some n) = max 1 (min 500 (if n == 0 then 100 else n))

abbrev port_key : String → ℕ → String
port_key host port = append host (append ":" (decimal port))

abbrev slot_key : String → String → ℕ → ℕ → String
slot_key host pool port slot =
    append host
      (append "~" (append pool (append "~" (append (decimal slot) (append ":" (decimal port))))))

-- The keys of one port, from the slot `index` on.
abbrev slot_keys : String → String → ℕ → ℕ → ℕ → ℕ → ℕ → List String
slot_keys host pool port slots offset index zero = []
slot_keys host pool port slots offset index (suc left) =
    slot_key host pool port ((index + offset) % slots)
    ∷ slot_keys host pool port slots offset (suc index) left

abbrev all_slot_keys : String → String → ℕ → ℕ → List ℕ → List String
all_slot_keys host pool slots offset [] = []
all_slot_keys host pool slots offset (port ∷ ports) =
    slot_keys host pool port slots offset 0 slots ++ all_slot_keys host pool slots offset ports

-- `leaseEndpointKeys`, with the first word of the hash of the session; none is its error.
unfoldable pub lease_endpoint_keys : ℕ → KeyPool → String → String → Option (List String)
unfolding decimal
lease_endpoint_keys hash p host rotation_mode =
    let slots = slots_of p.session_capacity in
    if not (is_evomi_host host)
      || not p.session_shared_gateway
      || not (str_eq rotation_mode "sticky-session")
    then some (map (port_key host) p.endpoint_ports)
    else if ltb 5000 (slots * length p.endpoint_ports)
    then none
    else some (all_slot_keys host p.pool_id slots (hash % slots) p.endpoint_ports)

abbrev is_slot_code : ℕ → Bool
is_slot_code c = (leb b'a' c && leb c b'z') || is_digit c || c == b'.' || c == b'_' || c == b'-'

abbrev head_is : (ℕ → Bool) → List ℕ → Bool
head_is p [] = false
head_is p (c ∷ cs) = p c

abbrev drop_while : (ℕ → Bool) → List ℕ → List ℕ
drop_while p [] = []
drop_while p (c ∷ cs) = let rest = drop_while p cs in if p c then rest else c ∷ cs

-- `(?=:[0-9]+$)`
abbrev port_part : List ℕ → Option (List ℕ)
port_part [] = none
port_part (c ∷ cs) =
    if c == b':' && head_is is_digit cs && all_codes is_digit cs then some (c ∷ cs) else none

-- `~[0-9]+`
abbrev after_pool : List ℕ → Option (List ℕ)
after_pool [] = none
after_pool (c ∷ cs) =
    if c == b'~' && head_is is_digit cs then port_part (drop_while is_digit cs) else none

-- What is left behind a match of the pattern, after its first character.
abbrev after_slot : List ℕ → Option (List ℕ)
after_slot cs = if head_is is_slot_code cs then after_pool (drop_while is_slot_code cs) else none

abbrev without_slot : List ℕ → List ℕ
without_slot [] = []
without_slot (c ∷ cs) =
    let rest = without_slot cs in if c == b'~' then get_or (after_slot cs) (c ∷ rest) else c ∷ rest

-- `physicalEndpointKey`
unfoldable pub physical_endpoint_key : String → List ℕ
physical_endpoint_key key = without_slot (codes key)
