-- ===== src/Bridge/Names.antt =====
-- web/lib/fleet-shard-config.ts: the names of shards and the identifiers of Google Ads managers.
pub mod Shape
use link_suffix.Base.{
  ℕ, Bool, true, false, ◌&&◌, ◌||◌, not, List, [], ◌∷◌, String, leb, ◌==◌, if◌then◌else◌, length,
}
use link_suffix.Base.Text.{codes, all_codes, is_digit, is_space, is_empty, trim, without}
use link_suffix.Bridge.Results.{Result, ok, err}

abbrev is_letter : ℕ → Bool
is_letter c = (leb b'A' c && leb c b'Z') || (leb b'a' c && leb c b'z')

-- `[A-Za-z0-9._:-]`
abbrev is_name_code : ℕ → Bool
is_name_code c = is_letter c || is_digit c || c == b'.' || c == b'_' || c == b':' || c == b'-'

abbrev starts_well : List ℕ → Bool
starts_well [] = false
starts_well (c ∷ cs) = is_letter c || is_digit c

-- `/^[A-Za-z0-9][A-Za-z0-9._:-]{0,79}$/`
abbrev pub is_shard_name : String → Bool
is_shard_name s =
    starts_well (codes s) && all_codes is_name_code (codes s) && leb (length (codes s)) 80

unfoldable pub normalize_fleet_shard_id : String → Result String
normalize_fleet_shard_id value =
    if is_shard_name (trim value)
    then ok (trim value)
    else err
        "A valid shard name is required: 1-80 letters, numbers, periods, underscores, colons or hyphens."

-- `/^\d{10}$/`
abbrev pub is_manager_id : String → Bool
is_manager_id s = all_codes is_digit (codes s) && length (codes s) == 10

-- `[\s-]`
abbrev is_separator : ℕ → Bool
is_separator c = is_space c || c == b'-'

unfoldable pub normalize_fleet_manager_id : String → Result String
normalize_fleet_manager_id value =
    let raw = trim value in
    let id = without is_separator raw in
    if not (is_empty raw)
      && all_codes (λ c. is_digit c || is_separator c) (codes raw)
      && is_manager_id id
    then ok id
    else err "A valid 10-digit Google Ads MCC ID is required."
