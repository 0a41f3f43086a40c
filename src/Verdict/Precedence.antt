-- ===== src/Verdict/Precedence.antt =====
-- The verdict is the gravest vote.
use link_suffix.Base.{
  ◌≡◌, refl, ap, ◌∙◌, ◌||◌, Bool, true, false, List, [], ◌∷◌, Option, none, some, String, any,
  str_eq, if◌then◌else◌, arith, Bool-cases, inl, inr, ltb,
}
use link_suffix.Verdict.{
  Vote, block, challenge, allow, unsure, rank, Strategy, Aggregate, count_strategy, count_option,
  casts_option, count_all, aggregate_verdict, casts,
}

-- What the votes come to when the verdict so far is given: the gravest of all.
abbrev pub gravest : Bool → Bool → Vote → Vote
gravest blocks challenges v =
    if blocks then block else if challenges then (if ltb (rank v) 1 then v else challenge) else v

gravest-known :
    (b c : Bool) (v : Vote) → ltb (rank v) 3 ≡ true → ltb (rank (gravest b c v)) 3 ≡ true
gravest-known true c v h = refl
gravest-known false true v h = elim (Bool-cases (ltb (rank v) 1)) [
  | inl low ↦ ground (arith, low, h)
  | inr high ↦ ground (arith, high)
]
gravest-known false false v h = h

-- The gravest of two parts.
gravest-twice :
    (b c b' c' : Bool) (v : Vote) → gravest b' c' (gravest b c v) ≡ gravest (b || b') (c || c') v
gravest-twice true c b' c' v = ground arith
gravest-twice false true true c' v = refl
gravest-twice false true false c' v = ground arith
gravest-twice false false b' c' v = refl

module _ {Input : Type 0} (input : Input) (enabled : List String) where
  -- One vote, after a verdict that is not "unsure".
  count_option-final :
      (name : String) (o : Option Vote) (a : Aggregate)
      → ltb (rank a.final) 3 ≡ true
      → (count_option input enabled name o a).final
        ≡ gravest
            (casts_option input enabled block name o)
            (casts_option input enabled challenge name o)
            a.final
  count_option-final name none a h = refl
  count_option-final name (some block) a h = by_final a.final refl
    where
      by_final :
          (v : Vote)
          → a.final ≡ v
          → (count_option input enabled name (some block) a).final
            ≡ gravest (any (str_eq name) enabled) false a.final
      by_final block e = ground (arith, e)
      by_final v e = ground (arith, e)
  count_option-final name (some challenge) a h = ground (arith, h)
  count_option-final name (some allow) a h = ground (arith, h)
  count_option-final name (some unsure) a h = ground (arith, h)

  count_all-final :
      (ss : List (Strategy Input)) (a : Aggregate)
      → ltb (rank a.final) 3 ≡ true
      → (count_all input enabled ss a).final
        ≡ gravest
            (any (casts input enabled block) ss)
            (any (casts input enabled challenge) ss)
            a.final
  unfolding count_all
  count_all-final [] a h = refl
  count_all-final (s ∷ ss) a h =
      let next = count_strategy input enabled s a in
      let here = count_option-final s.name (s.vote input) a h in
      let known : ltb (rank next.final) 3 ≡ true = rw here (gravest-known _ _ a.final h) in
      let b = casts input enabled block s in
      let c = casts input enabled challenge s in
      let b' = any (casts input enabled block) ss in
      let c' = any (casts input enabled challenge) ss in
      count_all-final ss next known ∙ ap (gravest b' c') here ∙ gravest-twice b c b' c' a.final

-- The verdict is "block" if an enabled strategy votes so, or else "challenge" if one votes so, or else
-- "allow"; the order of the strategies does not matter.
pub aggregate_verdict-final :
    {Input : Type 0} (input : Input) (enabled : List String) (ss : List (Strategy Input))
    → (aggregate_verdict input enabled ss).final ≡ (
        if any (casts input enabled block) ss
        then block
        else if any (casts input enabled challenge) ss
        then challenge
        else allow)
unfolding aggregate_verdict
aggregate_verdict-final input enabled ss =
    let all =
      count_all-final input enabled ss (record { final = allow; by_strategy = []; reason = "" })
        refl in
    ground (arith, all)
