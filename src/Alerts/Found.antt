-- ===== src/Alerts/Found.antt =====
-- What an evaluation makes of the alerts, and what a report says of them.
use link_suffix.Base.{
  ◌↔◌, ℕ, ◌+◌, ◌≡◌, refl, inl, inr, Bool, true, false, not, ◌||◌, List, [], ◌∷◌, Option, none, some,
  String, str_eq, eq_iff, if◌then◌else◌, Bool-cases, arith,
}
use link_suffix.Base.Maps.{Map, get, put, get-put_at}
use link_suffix.Alerts.{
  observed, observe_all, resolved_alert, is_found, resolve_others, persist_evaluation,
}
use link_suffix.Alerts.Report.{count, is_open_critical, is_open_warning, summary, report_state}
use link_suffix.Alerts.Table.{
  Candidate, Alert, AlertStore, Heartbeat, healthy, is_resolved, is_open,
}

abbrev pub is_unresolved : Option Alert → Bool
is_unresolved none = false
is_unresolved (some a) = not (is_resolved a.status)

next-unresolved :
    (now : ℕ) (c : Candidate) (o : Option Alert) → is_resolved (observed now c o).status ≡ false
next-unresolved now c none = ground arith
next-unresolved now c (some a) = ground arith

stays_unresolved :
    (now : ℕ) (cs : List Candidate) (m : Map Alert) (f : String)
    → is_unresolved (get m f) ≡ true
    → is_unresolved (get (observe_all now cs m) f) ≡ true
stays_unresolved now [] m f h = h
stays_unresolved now (c ∷ cs) m f h =
    stays_unresolved now cs (put c.fingerprint (observed now c (get m c.fingerprint)) m) f (
      ground (
        arith,
        h,
        next-unresolved now c (get m c.fingerprint),
        get-put_at f c.fingerprint (observed now c (get m c.fingerprint)) m,
      ))

found-unresolved :
    (now : ℕ) (cs : List Candidate) (m : Map Alert) (f : String)
    → is_found cs f ≡ true
    → is_unresolved (get (observe_all now cs m) f) ≡ true
found-unresolved now [] m f h = absurd (ground (arith, h))
found-unresolved now (c ∷ cs) m f h =
    let m' = put c.fingerprint (observed now c (get m c.fingerprint)) m in
    elim (Bool-cases (str_eq c.fingerprint f)) [
      | inl same ↦ stays_unresolved now cs m' f (
          ground (
            arith,
            same,
            next-unresolved now c (get m c.fingerprint),
            get-put_at f c.fingerprint (observed now c (get m c.fingerprint)) m,
          ))
      | inr other ↦ found-unresolved now cs m' f (ground (arith, other, h))
    ]

abbrev pub settled : ℕ → List Candidate → String → Option Alert → Option Alert
settled now cs f none = none
settled now cs f (some a) =
    if is_resolved a.status || is_found cs f then some a else some (resolved_alert now a)

pub get-resolve_others :
    (now : ℕ) (cs : List Candidate) (m : Map Alert) (f : String)
    → get (resolve_others now cs m) f ≡ settled now cs f (get m f)
unfolding get
get-resolve_others now cs [] f = refl
get-resolve_others now cs ((k, a) ∷ m) f = elim (Bool-cases (str_eq k f)) [
  | inl same ↦ let here : k ≡ f = (eq_iff k f).0 same in rw here (ground (arith, eq_iff f f))
  | inr other ↦ ground (arith, other, get-resolve_others now cs m f)
]

-- After an evaluation that is saved, an alert stands unresolved exactly if something was found under its
-- fingerprint, whatever the table held before.
pub persist-open :
    (now : ℕ) (cs : List Candidate) (hs : List (String × Heartbeat)) (s t : AlertStore) (f : String)
    → persist_evaluation now cs hs s ≡ some t
    → is_unresolved (get t.alerts f) ≡ is_found cs f
unfolding persist_evaluation
persist-open now cs hs s t f e =
    let saved : t.alerts ≡ resolve_others now cs (observe_all now cs s.alerts) =
      ground (arith, e) in
    rw (saved, get-resolve_others now cs (observe_all now cs s.alerts) f)
      (settled-open now cs f (get (observe_all now cs s.alerts) f)
        (found-unresolved now cs s.alerts f))
  where
    settled-open :
        (now : ℕ) (cs : List Candidate) (f : String) (o : Option Alert)
        → (is_found cs f ≡ true → is_unresolved o ≡ true)
        → is_unresolved (settled now cs f o) ≡ is_found cs f
    settled-open now cs f none h = elim (Bool-cases (is_found cs f)) [
      | inl there ↦ absurd (ground (arith, h there))
      | inr gone ↦ rw gone refl
    ]
    settled-open now cs f (some a) h = elim (Bool-cases (is_found cs f)) [
      | inl there ↦ ground (arith, there, h there)
      | inr gone ↦ ground (arith, gone)
    ]

count-split :
    (m : Map Alert)
    → count (λ a. is_open a.status) m ≡ count is_open_critical m + count is_open_warning m
count-split [] = omega arith
count-split ((k, a) ∷ m) = ground (arith, count-split m)

-- A report's open alerts are the critical ones and the warnings, and its state is "healthy" exactly if there are
-- none.
pub summary-healthy :
    (now : ℕ) (s : AlertStore)
    → let c = summary now s in
      (c.open_alerts ≡ c.critical_alerts + c.warning_alerts)
      × ((report_state c ≡ healthy) ↔ (c.open_alerts ≡ 0))
unfolding summary report_state
summary-healthy now s = (count-split s.alerts, ground (arith, count-split s.alerts))
