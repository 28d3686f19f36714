-- ===== src/Runs/Evidence.antt =====
-- The evidence of one rank in which `validate_participation` of src/commguard/distributed/launcher.py finds
-- no problem.
use Prim.Native.String.{◌++◌ as append}
use comm_guard.Prelude.{
  ◌≡◌, refl, ◌∙◌, String, Bool, true, false, not, Option, none, some, List, [], ◌∷◌, ◌++◌, ◌==◌,
  arith, ◌⊎◌, inl, inr, Bool-cases, All, is_empty, keep, some_of, contains, str_eq→eq, eq_refl, ok,
  >>=-eq-ok,
}
use comm_guard.Central.Json.{
  Value, obj, arr, text, int, float, bool, null, Fields, get, field_names,
}
use comm_guard.Schemas.Values.{require-then, equals_text}
use comm_guard.Runs.Launcher.{
  Deviates, RankReport, event_name, add_name, names_of, first_event, startup_of, interval_problems,
  rank_report, flagged, when,
}

-- One of the events has the name.
abbrev pub Occurs : String → List Fields → Type 0
Occurs name events = some_of (λ event. equals_text name (get event "event")) events ≡ true

contains-add_name :
    (o : Option String) (names : List String) (name : String)
    → contains (add_name o names) name ≡ true
    → (o ≡ some name) ⊎ (contains names name ≡ true)
unfolding contains
contains-add_name none names name h = inr h
contains-add_name (some s) names name h = elim (Bool-cases (name == s)) [
  | inl same ↦ let e = str_eq→eq name s same in inl (rw e refl)
  | inr other ↦ inr (rw other at h)
]

event_name-text : (v : Value) {name : String} → event_name v ≡ ok (some name) → v ≡ text name
event_name-text (text s) h = cc
event_name-text (arr xs) h = cc
event_name-text (obj fs) h = cc
event_name-text (int n) h = cc
event_name-text (float n) h = cc
event_name-text (bool b) h = cc
event_name-text null h = cc

names_of-Occurs :
    (events : List Fields) (name : String) {names : List String}
    → names_of events ≡ ok names
    → contains names name ≡ true
    → Occurs name events
unfolding names_of some_of contains
names_of-Occurs [] name {names = []} e h = cc
names_of-Occurs [] name {names = x ∷ xs} e h = cc
names_of-Occurs (event ∷ events) name {names = names} e h =
    let (o, first, e1) = >>=-eq-ok (event_name (get event "event")) _ e in
    let (rest, later, e2) = >>=-eq-ok (names_of events) _ e1 in
    let same : names ≡ add_name o rest = cc e2 in
    elim (contains-add_name o rest name (rw same at h)) [
      | inl here ↦ rw (event_name-text _ (rw here at first), eq_refl name) refl
      | inr there ↦ ground (arith, names_of-Occurs events name later there)
    ]

none_missing :
    (names required : List String) (name : String)
    → is_empty (keep (λ n. not (contains names n)) required) ≡ true
    → contains required name ≡ true
    → contains names name ≡ true
unfolding keep contains
none_missing names [] name e h = cc
none_missing names (x ∷ xs) name e h = elim (Bool-cases (contains names x)) [
  | inr gone ↦ cc (rw gone at e)
  | inl there ↦ elim (Bool-cases (name == x)) [
    | inl same ↦ let s = str_eq→eq name x same in rw s there
    | inr other ↦ none_missing names xs name (rw there at e) (rw other at h)
  ]
]

pub is_empty-append : (xs ys : List String) → is_empty (xs ++ ys) ≡ true → (xs ≡ []) × (ys ≡ [])
is_empty-append [] [] h = (refl, refl)
is_empty-append [] (y ∷ ys) h = cc
is_empty-append (x ∷ xs) ys h = cc

when-nil : (test : Bool) (s : String) → when test (s ∷ []) ≡ [] → test ≡ false
when-nil true s h = cc
when-nil false s h = refl

pub flagged-nil : (tests : List (Bool × String)) → flagged tests ≡ [] → All (λ t. t.0 ≡ false) tests
unfolding flagged
flagged-nil [] h = tt
flagged-nil ((test, s) ∷ rest) h =
    let (here, later) = is_empty-append (when test (s ∷ [])) (flagged rest) (rw h refl) in
    (when-nil test s here, flagged-nil rest later)

startup_of-nil :
    (rank : String) (event : Option Fields) {started : List Value × List String}
    → startup_of rank event ≡ ok started
    → started.1 ≡ []
    → (fs : Fields) × (event ≡ some fs) × (started.0 ≡ get fs "details" ∷ [])
startup_of-nil rank none {started = started} h e =
    let same : started ≡ ([], append rank "has no startup identity" ∷ []) = cc in cc (rw same at e)
startup_of-nil rank (some fs) {started = started} h e =
    let (_, e1) = require-then (contains (field_names fs) "details") _ _ h in
    let same : started ≡ (get fs "details" ∷ [], []) = cc e1 in (fs, refl, rw same refl)

-- The evidence of one rank, whose startup event has the details `startup`.
pub record IsRankEvidence (required : List String) (events : List Fields) (startup : Value)
    : Type 0 where
  pub complete : (name : String) → contains required name ≡ true → Occurs name events
  pub started :
      (event : Fields) × (first_event "startup" events ≡ some event)
      × (startup ≡ get event "details")

pub rank_report-IsRankEvidence :
    (deviates : Deviates) (required : List String) (rank : String) (events : List Fields)
    {report : RankReport}
    → rank_report deviates required rank events ≡ ok report
    → report.problems ≡ []
    → (startup : Value) × (report.startups ≡ startup ∷ []) × IsRankEvidence required events startup
unfolding rank_report
rank_report-IsRankEvidence deviates required rank events {report = report} e clean =
    let (names, known, e1) = >>=-eq-ok (names_of events) _ e in
    let (started, begun, e2) = >>=-eq-ok (startup_of rank (first_event "startup" events)) _ e1 in
    let (measured, ended, e3) =
      >>=-eq-ok (interval_problems deviates rank (first_event "measurement_interval" events)) _
        e2 in
    let missing = is_empty (keep (λ name. not (contains names name)) required) in
    let same : when (not missing) (append rank "missing events" ∷ []) ++ (started.1 ++ measured)
        ≡ [] =
      cc (e3, clean) in
    let shown : report.startups ≡ started.0 = cc e3 in
    let (none_gone, others) =
      is_empty-append (when (not missing) (append rank "missing events" ∷ []))
        (started.1 ++ measured) (rw same refl) in
    let found : not missing ≡ false =
      when-nil (not missing) (append rank "missing events") none_gone in
    let (quiet, _) = is_empty-append started.1 measured (rw others refl) in
    let (event, there, details) = startup_of-nil rank _ begun quiet in
    (
      get event "details",
      shown ∙ details,
      record {
        complete = λ name asked.
            names_of-Occurs events name known
              (none_missing names required name (ground (arith, found)) asked);
        started = (event, there, refl);
      },
    )
