-- ===== src/Alerts/Life.antt =====
-- The life of an alert: what every row keeps through evaluations and answers, and when an alert is raised.
use link_suffix.Base.{
  ℕ, ◌≤◌, ◌≡◌, refl, sym, subst, inl, inr, true, ◌&&◌, ◌||◌, List, [], ◌∷◌, Option, none, some,
  String, is_some, Bool-cases, arith,
}
use link_suffix.Base.Maps.{Map, get, put, Entries, Entries-put, Entries-get}
use link_suffix.Alerts.{
  observed, observe_all, resolved_alert, is_found, resolve_others, persist_evaluation,
  acknowledge_found, acknowledge_health_alert, resolve_found, resolve_health_alert, seen_again,
}
use link_suffix.Alerts.Report.{is_acknowledged}
use link_suffix.Alerts.Table.{
  Candidate, Alert, AlertStatus, AlertStore, Heartbeat, is_resolved, is_active, is_open, observing,
  active, acknowledged, resolved,
}

pub record IsSound (a : Alert) : Type 0 where
  pub ended : is_some a.resolved_at ≡ is_resolved a.status
  pub opened : is_open a.status ≡ true → is_some a.opened_at ≡ true
  pub answered :
      is_acknowledged a.status ≡ true
      → (is_some a.acknowledged_at && is_some a.acknowledged_by) ≡ true
  pub counted : 1 ≤ a.occurrence_count

abbrev AllSound : Map Alert → Type 0
AllSound = Entries (λ k a. IsSound a)

seen_again-IsSound :
    (x : AlertStatus) (now : ℕ) (c : Candidate) (a : Alert)
    → a.status ≡ x
    → IsSound a
    → IsSound (seen_again now c a)
seen_again-IsSound observing now c a e s = ground (arith, e)
seen_again-IsSound active now c a e s = ground (arith, e)
seen_again-IsSound acknowledged now c a e s = ground (arith, e)
seen_again-IsSound resolved now c a e s = ground (arith, e)

observed-IsSound :
    (now : ℕ) (c : Candidate) (m : Map Alert) (o : Option Alert)
    → AllSound m
    → get m c.fingerprint ≡ o
    → IsSound (observed now c o)
observed-IsSound now c m none s e = ground arith
observed-IsSound now c m (some a) s e =
    seen_again-IsSound a.status now c a refl (Entries-get (λ k x. IsSound x) c.fingerprint a m s e)

observe_all-AllSound :
    (now : ℕ) (cs : List Candidate) (m : Map Alert) → AllSound m → AllSound (observe_all now cs m)
observe_all-AllSound now [] m s = s
observe_all-AllSound now (c ∷ cs) m s =
    observe_all-AllSound now cs (put c.fingerprint (observed now c (get m c.fingerprint)) m) (
      Entries-put (λ k a. IsSound a) c.fingerprint (observed now c (get m c.fingerprint)) m
        (observed-IsSound now c m (get m c.fingerprint) s refl) s)

resolved-IsSound : (now : ℕ) (a : Alert) → IsSound a → IsSound (resolved_alert now a)
resolved-IsSound now a s = ground arith

resolve_others-AllSound :
    (now : ℕ) (cs : List Candidate) (m : Map Alert)
    → AllSound m
    → AllSound (resolve_others now cs m)
resolve_others-AllSound now cs [] s = tt
resolve_others-AllSound now cs ((k, a) ∷ m) s =
    elim (Bool-cases (is_resolved a.status || is_found cs k)) [
      | inl stays ↦ rw stays (s.0, resolve_others-AllSound now cs m s.1)
      | inr ends ↦ rw ends (resolved-IsSound now a s.0, resolve_others-AllSound now cs m s.1)
    ]

acknowledge-AllSound :
    (now : ℕ) (f actor : String) (s : AlertStore) (o : Option Alert)
    → AllSound s.alerts
    → get s.alerts f ≡ o
    → AllSound (acknowledge_found now f actor s o).0.alerts
acknowledge-AllSound now f actor s none h e = h
acknowledge-AllSound now f actor s (some a) h e =
    let own = Entries-get (λ k x. IsSound x) f a s.alerts h e in
    elim (Bool-cases (is_active a.status)) [
      | inr other ↦ rw other h
      | inl on ↦ rw on (Entries-put (λ k x. IsSound x) f _ s.alerts (ground (arith, on)) h)
    ]

resolve-AllSound :
    (now : ℕ) (f : String) (s : AlertStore) (o : Option Alert)
    → AllSound s.alerts
    → get s.alerts f ≡ o
    → AllSound (resolve_found now f s o).0.alerts
resolve-AllSound now f s none h e = h
resolve-AllSound now f s (some a) h e =
    let own = Entries-get (λ k x. IsSound x) f a s.alerts h e in
    elim (Bool-cases (is_resolved a.status)) [
      | inl over ↦ rw over h
      | inr on ↦ rw on (Entries-put (λ k x. IsSound x) f _ s.alerts (resolved-IsSound now a own) h)
    ]

-- An evaluation that is saved, or an operator's answer.
pub data Step (s : AlertStore) : AlertStore → Type 0 where
  evaluates :
      (now : ℕ) (cs : List Candidate) (hs : List (String × Heartbeat)) {t : AlertStore}
      → persist_evaluation now cs hs s ≡ some t
      → Step s t
  acknowledges : (now : ℕ) (f actor : String) → Step s (acknowledge_health_alert now f actor s).0
  resolves : (now : ℕ) (f : String) → Step s (resolve_health_alert now f s).0

pub data Reach : AlertStore → Type 0 where
  begin : Reach (record { alerts = []; heartbeats = [] })
  later : {s t : AlertStore} → Reach s → Step s t → Reach t

pub saved-alerts :
    (now : ℕ) (cs : List Candidate) (hs : List (String × Heartbeat)) (s t : AlertStore)
    → persist_evaluation now cs hs s ≡ some t
    → t.alerts ≡ resolve_others now cs (observe_all now cs s.alerts)
unfolding persist_evaluation
saved-alerts now cs hs s t e = ground (arith, e)

Reach-AllSound : {s : AlertStore} → Reach s → AllSound s.alerts
unfolding acknowledge_health_alert resolve_health_alert
Reach-AllSound begin = tt
Reach-AllSound (later {s} {t} r (evaluates now cs hs e)) =
    subst AllSound (sym (saved-alerts now cs hs s t e)) (
      resolve_others-AllSound now cs (observe_all now cs s.alerts)
        (observe_all-AllSound now cs s.alerts (Reach-AllSound r)))
Reach-AllSound (later {s} r (acknowledges now f actor)) =
    acknowledge-AllSound now f actor s (get s.alerts f) (Reach-AllSound r) refl
Reach-AllSound (later {s} r (resolves now f)) =
    resolve-AllSound now f s (get s.alerts f) (Reach-AllSound r) refl

-- Whatever is found and answered, in any order and at any instants: a row has an instant of its end exactly if it is
-- resolved, an instant of its opening if it is open, an instant and an operator if it is acknowledged, and
-- was seen at least once.
pub Reach-IsSound :
    {s : AlertStore} → Reach s → (f : String) (a : Alert) → get s.alerts f ≡ some a → IsSound a
Reach-IsSound {s} r f a e = Entries-get (λ k x. IsSound x) f a s.alerts (Reach-AllSound r) e
