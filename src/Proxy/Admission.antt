-- ===== src/Proxy/Admission.antt =====
-- web/server/campaign-proxy-admission.mjs: which runs may start, and on which gateway port. A port is none where
-- it is no integer.
use link_suffix.Base.{
  ℕ, ◌≡◌, Bool, true, false, not, ◌&&◌, ◌||◌, List, Option, none, some, String, leb, ltb, ◌==◌,
  str_eq, if◌then◌else◌, any, find?, find?-passes, get_or, arith,
}
use link_suffix.Base.Sorting.{sort}

-- An error of the module, or a value.
pub data Admitted {ℓ} (A : Type ℓ) : Type ℓ where
  admitted : A → Admitted A
  runtime_disabled direct_networking shared_required invalid_port port_leased : Admitted A

-- The payload, as far as it is read here.
pub record Payload : Type 0 where
  pub tier : String
  pub continuous : Bool
  pub mitm : Bool
  pub proxy_port : Option ℕ

pub record Switches : Type 0 where
  pub runtime_enabled : Bool
  pub no_proxy : Bool
  pub shared_enabled : Bool

-- `registryRunRequired`; `policy` tells whether there is one that is enabled.
unfoldable pub registry_run_required : Bool → Payload → Switches → Admitted Bool
registry_run_required policy payload o =
    if not policy
    then admitted false
    else if not o.runtime_enabled
    then runtime_disabled
    else if o.no_proxy
    then direct_networking
    else if not o.shared_enabled
        || not (str_eq payload.tier "human")
        || not payload.continuous
        || payload.mitm
    then shared_required
    else admitted true

abbrev checked_port : Option ℕ → Admitted (Option ℕ)
checked_port none = invalid_port
checked_port (some port) =
    if ltb port 1 || ltb 65_535 port then invalid_port else admitted (some port)

-- `payload.proxyPort ?? fallbackPort`
abbrev asked_port : Option ℕ → Option ℕ → Option ℕ
asked_port none fallback = fallback
asked_port (some port) fallback = some port

-- `legacyRunPort`
unfoldable pub legacy_run_port : Payload → Bool → Bool → Option ℕ → Admitted (Option ℕ)
legacy_run_port payload registry direct fallback =
    if registry || direct
    then admitted none
    else checked_port (asked_port payload.proxy_port fallback)

-- `assertLegacyPortAvailable`, over the ports of the active runs.
unfoldable pub assert_legacy_port_available : Option ℕ → List ℕ → Admitted Bool
assert_legacy_port_available none runs = admitted true
assert_legacy_port_available (some port) runs =
    if any (λ r. r == port) runs then port_leased else admitted true

pub record QueuedCampaign : Type 0 where
  pub id : String
  pub number : ℕ
  pub queued : Bool
  pub desired_running : Bool
  pub next_retry_at : Option ℕ
  pub proxy_port : ℕ

abbrev comes_before : QueuedCampaign → QueuedCampaign → Bool
comes_before a b = ltb a.number b.number

abbrev pub is_eligible : List ℕ → List String → ℕ → QueuedCampaign → Bool
is_eligible leased registry_ids now c =
    c.queued
    && c.desired_running
    && leb (get_or c.next_retry_at 0) now
    && (any (str_eq c.id) registry_ids || not (any (λ p. p == c.proxy_port) leased))

-- `selectQueuedCampaign`
unfoldable pub select_queued_campaign :
    List QueuedCampaign → List ℕ → List String → ℕ → Option QueuedCampaign
unfolding sort
select_queued_campaign campaigns leased registry_ids now =
    find? (is_eligible leased registry_ids now) (sort comes_before campaigns)

port-range :
    (o : Option ℕ) (port : ℕ)
    → checked_port o ≡ admitted (some port)
    → (leb 1 port && leb port 65_535) ≡ true
port-range none port h = absurd (ground arith)
port-range (some n) port h = ground arith

-- A run that is admitted on a port has a port that a gateway can have, and that no active run uses.
pub legacy_run_port-available :
    (payload : Payload) (registry direct : Bool) (fallback : Option ℕ) (port : ℕ) (runs : List ℕ)
    → legacy_run_port payload registry direct fallback ≡ admitted (some port)
    → assert_legacy_port_available (some port) runs ≡ admitted true
    → ((leb 1 port && leb port 65_535) ≡ true) × (any (λ r. r == port) runs ≡ false)
unfolding legacy_run_port assert_legacy_port_available
legacy_run_port-available payload registry direct fallback port runs h k = (
  port-range (asked_port payload.proxy_port fallback) port (ground (arith, h)),
  ground (arith, k),
)

-- The campaign that is selected may start now.
pub select_queued_campaign-eligible :
    (campaigns : List QueuedCampaign) (leased : List ℕ) (registry_ids : List String) (now : ℕ)
    (c : QueuedCampaign)
    → select_queued_campaign campaigns leased registry_ids now ≡ some c
    → is_eligible leased registry_ids now c ≡ true
unfolding select_queued_campaign
select_queued_campaign-eligible campaigns leased registry_ids now c h =
    find?-passes (is_eligible leased registry_ids now) (sort comes_before campaigns) c h
