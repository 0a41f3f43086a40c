-- ===== src/Alerts/Raised.antt =====
-- When an evaluation raises an alert.
use link_suffix.Base.{
  ℕ, ◌+◌, ◌≤◌, ◌≡◌, refl, ◌∙◌, ◌⊎◌, inl, inr, true, false, List, [], ◌∷◌, Option, none, some,
  String, str_eq, eq_iff, find?, Pairwise, All, Bool-cases, arith,
}
use link_suffix.Base.Maps.{Map, get, put, get-put, get-put_other}
use link_suffix.Alerts.{observed, observe_all, is_found, persist_evaluation, seen_again}
use link_suffix.Alerts.Table.{
  Candidate, Alert, AlertStatus, AlertStore, Heartbeat, is_active, observing, active, acknowledged,
  resolved,
}
use link_suffix.Alerts.Found.{get-resolve_others}
use link_suffix.Alerts.Life.{saved-alerts}

-- Each fingerprint once, as the values of a map have it.
abbrev pub AreDistinct : List Candidate → Type 0
AreDistinct = Pairwise (λ c d. str_eq c.fingerprint d.fingerprint ≡ false)

abbrev pub candidate_for : String → List Candidate → Option Candidate
candidate_for f = find? (λ c. str_eq c.fingerprint f)

abbrev after_one : ℕ → Option Candidate → Option Alert → Option Alert
after_one now none o = o
after_one now (some c) o = some (observed now c o)

none-after :
    (f : String) (cs : List Candidate)
    → All (λ d. str_eq f d.fingerprint ≡ false) cs
    → candidate_for f cs ≡ none
none-after f [] h = refl
none-after f (c ∷ cs) h =
    ground (arith, h.0, eq_iff f c.fingerprint, eq_iff c.fingerprint f, none-after f cs h.1)

get-observe_all :
    (now : ℕ) (cs : List Candidate) (m : Map Alert) (f : String)
    → AreDistinct cs
    → get (observe_all now cs m) f ≡ after_one now (candidate_for f cs) (get m f)
get-observe_all now [] m f d = refl
get-observe_all now (c ∷ cs) m f d =
    let x = observed now c (get m c.fingerprint) in
    elim (Bool-cases (str_eq c.fingerprint f)) [
      | inl same ↦
          let here : c.fingerprint ≡ f = (eq_iff c.fingerprint f).0 same in
          let rest : candidate_for f cs ≡ none = rw (← here) (none-after c.fingerprint cs d.0) in
          let now_there : get (put c.fingerprint x m) f ≡ some x =
            rw (← here) (get-put c.fingerprint x m) in
          get-observe_all now cs (put c.fingerprint x m) f d.1
          ∙ rw (rest, now_there, same) (rw here refl)
      | inr other ↦
          get-observe_all now cs (put c.fingerprint x m) f d.1
          ∙ rw (get-put_other f c.fingerprint x m other, other) refl
    ]

-- Why an alert may be raised.
abbrev pub MayActivate : ℕ → Candidate → Option Alert → Type 0
MayActivate now c none = c.activation_after_ms ≡ 0
MayActivate now c (some b) =
    (b.status ≡ active)
    ⊎ ((b.status ≡ resolved) × (c.activation_after_ms ≡ 0))
    ⊎ ((b.status ≡ observing) × (b.first_seen_at + c.activation_after_ms ≤ now))

observed-MayActivate :
    (now : ℕ) (c : Candidate) (o : Option Alert)
    → is_active (observed now c o).status ≡ true
    → MayActivate now c o
observed-MayActivate now c none h = ground (arith, h)
observed-MayActivate now c (some b) h = by_status b.status refl
  where
    by_status : (x : AlertStatus) → b.status ≡ x → MayActivate now c (some b)
    by_status observing e = inr (inr (e, ground (arith, e, h)))
    by_status active e = inl e
    by_status acknowledged e = absurd (ground (arith, e, h))
    by_status resolved e = inr (inl (e, ground (arith, e, h)))

candidate_for-is_found :
    (f : String) (cs : List Candidate) (c : Candidate)
    → candidate_for f cs ≡ some c
    → is_found cs f ≡ true
candidate_for-is_found f [] c e = absurd (ground (arith, e))
candidate_for-is_found f (d ∷ ds) c e = ground (arith, e, candidate_for-is_found f ds c)

-- An evaluation that is saved leaves, under the fingerprint of a candidate, what it made of the row there.
pub persist-observed :
    (now : ℕ) (cs : List Candidate) (hs : List (String × Heartbeat)) (s t : AlertStore) (f : String)
    (c : Candidate)
    → AreDistinct cs
    → candidate_for f cs ≡ some c
    → persist_evaluation now cs hs s ≡ some t
    → get t.alerts f ≡ some (observed now c (get s.alerts f))
persist-observed now cs hs s t f c d found e =
    rw
      (
        saved-alerts now cs hs s t e,
        get-resolve_others now cs (observe_all now cs s.alerts) f,
        get-observe_all now cs s.alerts f d,
        found,
      )
      (ground (arith, candidate_for-is_found f cs c found))

-- Where no two conditions that are found have one fingerprint, an evaluation does not raise an alert early: an
-- alert that is active after it was active before, or is one whose condition activates at once and that was not
-- there or resolved, or was observed since an instant that lies back at least by the delay of its condition.
pub persist-raises :
    (now : ℕ) (cs : List Candidate) (hs : List (String × Heartbeat)) (s t : AlertStore) (f : String)
    (c : Candidate) (a : Alert)
    → AreDistinct cs
    → candidate_for f cs ≡ some c
    → persist_evaluation now cs hs s ≡ some t
    → get t.alerts f ≡ some a
    → is_active a.status ≡ true
    → MayActivate now c (get s.alerts f)
persist-raises now cs hs s t f c a d found e there on =
    let made = persist-observed now cs hs s t f c d found e in
    observed-MayActivate now c (get s.alerts f) (ground (arith, made, there, on))

-- An alert that an operator has acknowledged is not raised again while its condition lasts: it stays acknowledged, by
-- the same operator and since the same instant.
pub persist-acknowledged :
    (now : ℕ) (cs : List Candidate) (hs : List (String × Heartbeat)) (s t : AlertStore) (f : String)
    (c : Candidate) (b : Alert)
    → AreDistinct cs
    → candidate_for f cs ≡ some c
    → persist_evaluation now cs hs s ≡ some t
    → get s.alerts f ≡ some b
    → b.status ≡ acknowledged
    → (a : Alert) × (get t.alerts f ≡ some a)
      × (a.status ≡ acknowledged)
      × (a.acknowledged_by ≡ b.acknowledged_by)
      × (a.acknowledged_at ≡ b.acknowledged_at)
persist-acknowledged now cs hs s t f c b d found e there acked = (
  seen_again now c b,
  persist-observed now cs hs s t f c d found e ∙ rw there refl,
  ground (arith, acked),
  ground (arith, acked),
  ground (arith, acked),
)
