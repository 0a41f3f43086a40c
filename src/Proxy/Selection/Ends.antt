-- ===== src/Proxy/Selection/Ends.antt =====
-- How a settling of a choice ends, by what comes of its calls.
use link_suffix.Base.{◌≡◌, refl, Bool, true, false, Option, some, String}
use link_suffix.Proxy.Selection.{
  Campaign, Assignment, Selection, World, Point, saving_draft, returned, thrown, Assigning, done,
  lost, lost_late, begin_settling, selection_ready, after_draft, settle,
}
use link_suffix.Proxy.Selection.Settled.{
  IsHeld, Reach, begins, later, drafts, assigns, settles, fails, begins_there, settling-returns,
  settling-throws,
}

-- Each run of the settling goes by its steps.
draft-Reach :
    (status : String) (a : Assignment) (w : World)
    → w.point ≡ saving_draft
    → (drafted : Bool) (o : Assigning) (answers unfailing : Bool)
    → Reach status a w (after_draft status a drafted o answers unfailing w)
draft-Reach status a w e false o answers unfailing = later begins (drafts w false e)
draft-Reach status a w e true done true unfailing =
    later (later (later begins (drafts w true e)) (assigns _ done refl)) (settles _ true refl)
draft-Reach status a w e true done false unfailing =
    later
      (later (later (later begins (drafts w true e)) (assigns _ done refl)) (settles _ false refl))
      (fails _ unfailing refl)
draft-Reach status a w e true lost answers unfailing =
    later (later (later begins (drafts w true e)) (assigns _ lost refl)) (fails _ unfailing refl)
draft-Reach status a w e true lost_late answers unfailing =
    later (later (later begins (drafts w true e)) (assigns _ lost_late refl))
      (fails _ unfailing refl)

-- The calls that a settling needs all answer.
abbrev pub all_answer : Bool → Assigning → Bool → Bool
all_answer true done true = true
all_answer _ _ _ = false

-- How a run ends.
abbrev pub EndsBy : Bool → Point → Type 0
EndsBy true p = p ≡ returned
EndsBy false p = p ≡ thrown

draft-EndsBy :
    (status : String) (a : Assignment) (w : World) (drafted : Bool) (o : Assigning)
    (answers unfailing : Bool)
    → EndsBy
        (all_answer drafted o answers)
        (after_draft status a drafted o answers unfailing w).point
draft-EndsBy status a w false o answers unfailing = refl
draft-EndsBy status a w true done true unfailing = refl
draft-EndsBy status a w true done false true = refl
draft-EndsBy status a w true done false false = refl
draft-EndsBy status a w true lost answers true = refl
draft-EndsBy status a w true lost answers false = refl
draft-EndsBy status a w true lost_late answers true = refl
draft-EndsBy status a w true lost_late answers false = refl

-- What a settling has done that all its calls answer, and what is left by another.
abbrev pub IsOutcome : Bool → Selection → Campaign → World → Type 0
IsOutcome true s c w =
    (w.point ≡ returned)
    × (w.route ≡ some s.assignment)
    × (w.saved ≡ some w.campaign)
    × (selection_ready w.campaign ≡ true)
    × (w.campaign.status ≡ c.status)
IsOutcome false s c w = (w.point ≡ thrown) × IsHeld w.campaign

ends-IsOutcome :
    (s : Selection) (c : Campaign) (before : Option Campaign) (first : Option Assignment)
    (w : World) (answered : Bool)
    → s.changed ≡ true
    → Reach c.status s.assignment (begin_settling (some s) c before first) w
    → EndsBy answered w.point
    → IsOutcome answered s c w
ends-IsOutcome s c before first w true changed r e =
    let h = settling-returns s c before first w changed r e in (e, h.0, h.1, h.2, h.3)
ends-IsOutcome s c before first w false changed r e =
    (e, settling-throws s c before first w changed r e)

-- A settling of a choice that changes something always comes to its end. It returns exactly if the draft is saved, the
-- assignment is done and the campaign is saved: then the route is the one that was chosen, and the campaign that is
-- saved may start and has the status from before. Otherwise it throws, and the campaign in memory may not
-- start, is stopped and is not to run.
pub settle-IsOutcome :
    (s : Selection) (c : Campaign) (before : Option Campaign) (first : Option Assignment)
    (drafted : Bool) (o : Assigning) (answers unfailing : Bool)
    → s.changed ≡ true
    → IsOutcome
        (all_answer drafted o answers)
        s
        c
        (settle s c before first drafted o answers unfailing)
unfolding settle
settle-IsOutcome s c before first drafted o answers unfailing changed =
    let w = begin_settling (some s) c before first in
    let run =
      draft-Reach c.status s.assignment w (begins_there s c before first changed) drafted o answers
        unfailing in
    ends-IsOutcome s c before first
      (after_draft c.status s.assignment drafted o answers unfailing w)
      (all_answer drafted o answers) changed run
      (draft-EndsBy c.status s.assignment w drafted o answers unfailing)
