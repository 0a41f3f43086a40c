-- ===== src/Verdict.antt =====
-- packages/verdict/src/aggregate.ts: one verdict from the votes of several strategies. A strategy is what the
-- aggregate knows of it: its name and its vote on the input, none where it abstains.
pub mod Precedence
use Prim.Native.String.{◌++◌ as append}
use link_suffix.Base.{
  ℕ, Bool, true, false, List, [], ◌∷◌, ◌++◌, map, Option, none, some, String, ltb, ◌==◌, ◌&&◌, any,
  str_eq, if◌then◌else◌,
}
use link_suffix.Base.Text.{is_empty}

pub data Vote : Type 0 where
  block challenge allow unsure : Vote

-- `PRECEDENCE.indexOf`
abbrev pub rank : Vote → ℕ
rank block = 0
rank challenge = 1
rank allow = 2
rank unsure = 3

abbrev pub vote_name : Vote → String
vote_name block = "block"
vote_name challenge = "challenge"
vote_name allow = "allow"
vote_name unsure = "unsure"

pub record Strategy (Input : Type 0) : Type 0 where
  pub name : String
  pub vote : Input → Option Vote

-- AggregatedVerdict, and the state of the loop.
pub record Aggregate : Type 0 where
  pub final : Vote
  pub by_strategy : List (String × Vote)
  pub reason : String

abbrev record_vote : String → Vote → List (String × Vote) → List (String × Vote)
record_vote name v votes =
    if any (λ b. str_eq b.0 name) votes
    then map (λ b. if str_eq b.0 name then (name, v) else b) votes
    else (votes ++ ((name, v) ∷ []))

-- A vote takes the place of the verdict so far if it comes before it.
abbrev pub count_vote : String → Vote → Aggregate → Aggregate
count_vote name v a =
    let votes = record_vote name v a.by_strategy in
    if ltb (rank v) (rank a.final)
    then record { final = v; by_strategy = votes; reason = append name (append ": " (vote_name v)) }
    else record a { by_strategy = votes }

module _ {Input : Type 0} (input : Input) (enabled : List String) where
  abbrev pub count_option : String → Option Vote → Aggregate → Aggregate
  count_option name none a = a
  count_option name (some v) a = if any (str_eq name) enabled then count_vote name v a else a

  abbrev pub count_strategy : Strategy Input → Aggregate → Aggregate
  count_strategy s a = count_option s.name (s.vote input) a

  -- The loop.
  pub count_all : List (Strategy Input) → Aggregate → Aggregate
  count_all [] a = a
  count_all (s ∷ ss) a = count_all ss (count_strategy s a)

  abbrev pub with_reason : Aggregate → Aggregate
  with_reason a = if is_empty a.reason then record a { reason = "no strategy voted" } else a

  -- `aggregateVerdict`
  unfoldable pub aggregate_verdict : List (Strategy Input) → Aggregate
  unfolding count_all
  aggregate_verdict ss =
      with_reason (count_all ss (record { final = allow; by_strategy = []; reason = "" }))

  -- A vote that counts: the strategy is enabled and gives it.
  abbrev pub casts_option : Vote → String → Option Vote → Bool
  casts_option v name none = false
  casts_option v name (some w) = rank w == rank v && any (str_eq name) enabled

  abbrev pub casts : Vote → Strategy Input → Bool
  casts v s = casts_option v s.name (s.vote input)
