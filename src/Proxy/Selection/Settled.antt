-- ===== src/Proxy/Selection/Settled.antt =====
-- The settling of a choice, whatever fails and wherever the server stops.
use link_suffix.Base.{
  ◌≡◌, refl, subst, ◌⊎◌, inl, inr, Bool, true, false, Option, some, String, arith,
}
use link_suffix.Proxy.Selection.{
  Campaign, Assignment, Selection, World, Point, saving_draft, assigning, saving_settled,
  saving_failure, returned, thrown, Assigning, done, lost, lost_late, begin_settling, draft_done,
  assign_done, settled_done, failure_done, selection_ready,
}

-- A campaign that waits for its choice: it is not started, by its status or by a wish.
abbrev pub IsHeld : Campaign → Type 0
IsHeld c = (c.proxy_selection_pending ≡ true) × (c.status ≡ "stopped") × (c.desired_running ≡ false)

-- What comes of a wait. In between, another handler may save all campaigns; that is also what an error does that
-- comes after the campaign was saved.
pub data Step (status : String) (a : Assignment) : World → World → Type 0 where
  drafts :
      (w : World) (answers : Bool) → w.point ≡ saving_draft → Step status a w (draft_done answers w)
  assigns :
      (w : World) (o : Assigning) → w.point ≡ assigning → Step status a w (assign_done status a o w)
  settles :
      (w : World) (answers : Bool)
      → w.point ≡ saving_settled
      → Step status a w (settled_done answers w)
  fails :
      (w : World) (answers : Bool)
      → w.point ≡ saving_failure
      → Step status a w (failure_done answers w)
  saves : (w : World) → Step status a w (record w { saved = some w.campaign })

pub data Reach (status : String) (a : Assignment) (first : World) : World → Type 0 where
  begins : Reach status a first first
  later : {v w : World} → Reach status a first v → Step status a v w → Reach status a first w

abbrev pub SavedHeld : World → Type 0
SavedHeld w = (k : Campaign) × (w.saved ≡ some k) × IsHeld k

module _ (status : String) (a : Assignment) (before : Option Campaign)
    (first : Option Assignment) where
  abbrev Untouched : World → Type 0
  Untouched w = (w.saved ≡ before) × (w.route ≡ first)

  -- What holds at each point.
  abbrev At : Point → World → Type 0
  At saving_draft w = IsHeld w.campaign × (Untouched w ⊎ SavedHeld w)
  At assigning w = IsHeld w.campaign × SavedHeld w
  At saving_settled w =
      (w.route ≡ some a)
      × (w.campaign.proxy_selection_pending ≡ false)
      × (w.campaign.status ≡ status)
  At saving_failure w = IsHeld w.campaign × (SavedHeld w ⊎ (w.route ≡ some a))
  At returned w =
      (w.route ≡ some a)
      × (w.campaign.proxy_selection_pending ≡ false)
      × (w.campaign.status ≡ status)
      × (w.saved ≡ some w.campaign)
  At thrown w = IsHeld w.campaign × (Untouched w ⊎ SavedHeld w ⊎ (w.route ≡ some a))

  drafts-At :
      (w : World) (answers : Bool)
      → At saving_draft w
      → At (draft_done answers w).point (draft_done answers w)
  drafts-At w true h = (h.0, (w.campaign, refl, h.0))
  drafts-At w false (held, inl same) = (held, inl same)
  drafts-At w false (held, inr kept) = (held, inr (inl kept))

  assigns-At :
      (w : World) (o : Assigning)
      → At assigning w
      → At (assign_done status a o w).point (assign_done status a o w)
  assigns-At w done h = (refl, refl, refl)
  assigns-At w lost h = ((refl, refl, refl), inl h.1)
  assigns-At w lost_late h = ((refl, refl, refl), inr refl)

  settles-At :
      (w : World) (answers : Bool)
      → At saving_settled w
      → At (settled_done answers w).point (settled_done answers w)
  settles-At w true h = (h.0, h.1, h.2, refl)
  settles-At w false h = ((refl, refl, refl), inr h.0)

  fails-At :
      (w : World) (answers : Bool)
      → At saving_failure w
      → At (failure_done answers w).point (failure_done answers w)
  fails-At w true h = (h.0, inr (inl (w.campaign, refl, h.0)))
  fails-At w false (held, inl kept) = (held, inr (inl kept))
  fails-At w false (held, inr routed) = (held, inr (inr routed))

  saves-At : (w : World) (p : Point) → At p w → At p (record w { saved = some w.campaign })
  saves-At w saving_draft h = (h.0, inr (w.campaign, refl, h.0))
  saves-At w assigning h = (h.0, (w.campaign, refl, h.0))
  saves-At w saving_settled h = h
  saves-At w saving_failure h = (h.0, inl (w.campaign, refl, h.0))
  saves-At w returned h = (h.0, h.1, h.2, refl)
  saves-At w thrown h = (h.0, inr (inl (w.campaign, refl, h.0)))

  Step-At : {v w : World} → Step status a v w → At v.point v → At w.point w
  Step-At (drafts w answers e) h = drafts-At w answers (subst (λ p. At p w) e h)
  Step-At (assigns w o e) h = assigns-At w o (subst (λ p. At p w) e h)
  Step-At (settles w answers e) h = settles-At w answers (subst (λ p. At p w) e h)
  Step-At (fails w answers e) h = fails-At w answers (subst (λ p. At p w) e h)
  Step-At (saves w) h = saves-At w w.point h

  Reach-At : {v w : World} → At v.point v → Reach status a v w → At w.point w
  Reach-At h begins = h
  Reach-At h (later r st) = Step-At st (Reach-At h r)

  -- A campaign that was saved as a draft may not start.
  held-ready :
      (w : World) (k : Campaign) → SavedHeld w → w.saved ≡ some k → selection_ready k ≡ true → ⊥
  held-ready w k (held_one, same, held) e ready = ground (arith, same, e, ready, held.0)

  pub ready-At :
      (w : World) (p : Point) (k : Campaign)
      → At p w
      → w.saved ≡ some k
      → selection_ready k ≡ true
      → Untouched w ⊎ (w.route ≡ some a)
  ready-At w saving_draft k (held, inl same) e ready = inl same
  ready-At w saving_draft k (held, inr kept) e ready = absurd (held-ready w k kept e ready)
  ready-At w assigning k h e ready = absurd (held-ready w k h.1 e ready)
  ready-At w saving_settled k h e ready = inr h.0
  ready-At w saving_failure k (held, inl kept) e ready = absurd (held-ready w k kept e ready)
  ready-At w saving_failure k (held, inr routed) e ready = inr routed
  ready-At w returned k h e ready = inr h.0
  ready-At w thrown k (held, inl same) e ready = inl same
  ready-At w thrown k (held, inr (inl kept)) e ready = absurd (held-ready w k kept e ready)
  ready-At w thrown k (held, inr (inr routed)) e ready = inr routed

begins-At :
    (s : Selection) (c : Campaign) (before : Option Campaign) (first : Option Assignment)
    → s.changed ≡ true
    → let w = begin_settling (some s) c before first in
      At c.status s.assignment before first w.point w
unfolding begin_settling
begins-At s c before first changed = rw changed ((refl, refl, refl), inl (refl, refl))

pub begins_there :
    (s : Selection) (c : Campaign) (before : Option Campaign) (first : Option Assignment)
    → s.changed ≡ true
    → (begin_settling (some s) c before first).point ≡ saving_draft
unfolding begin_settling
begins_there s c before first changed = rw changed refl

module _ (s : Selection) (c : Campaign) (before : Option Campaign) (first : Option Assignment)
    (w : World) (changed : s.changed ≡ true)
    (r : Reach c.status s.assignment (begin_settling (some s) c before first) w) where
  reached : At c.status s.assignment before first w.point w
  reached = Reach-At c.status s.assignment before first (begins-At s c before first changed) r

  -- For a choice that changes something, wherever the server stops and whatever was saved by others meanwhile:
  -- a saved campaign that may start is the one from before with the route from before, or the route is the one
  -- that was chosen.
  pub saved-routed :
      (k : Campaign)
      → w.saved ≡ some k
      → selection_ready k ≡ true
      → ((w.saved ≡ before) × (w.route ≡ first)) ⊎ (w.route ≡ some s.assignment)
  saved-routed k e ready = ready-At c.status s.assignment before first w w.point k reached e ready

  pub settling-returns :
      w.point ≡ returned
      → (w.route ≡ some s.assignment)
        × (w.saved ≡ some w.campaign)
        × (selection_ready w.campaign ≡ true)
        × (w.campaign.status ≡ c.status)
  settling-returns e =
      let there = subst (λ p. At c.status s.assignment before first p w) e reached in
      (there.0, there.3, ground (arith, there.1), there.2)

  pub settling-throws : w.point ≡ thrown → IsHeld w.campaign
  settling-throws e = (subst (λ p. At c.status s.assignment before first p w) e reached).0
