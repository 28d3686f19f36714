-- ===== src/Runs/Reasons.antt =====
-- The problems that `validate_participation` of src/commguard/distributed/launcher.py reports are texts that
-- are not empty.
use Prim.Native.String.{◌++◌ as append}
use text.Mathlib.TextLemmas.{append-eq-nil_iff}
use comm_guard.Prelude.{
  ◌≡◌, refl, String, Bool, true, false, not, Option, none, some, List, [], ◌∷◌, ◌++◌, ◌==◌,
  non_empty, arith, inl, inr, Bool-cases, All, is_empty, str_eq→eq, eq→str_eq, ok, >>=-eq-ok, keep,
  contains,
}
use comm_guard.Central.Json.{Value, obj, Fields, end, get, get_default, field_names}
use comm_guard.Schemas.Values.{require-then, as_mapping}
use comm_guard.Runs.Launcher.{
  Deviates, Participation, RankReport, names_of, first_event, startup_of, interval_problems,
  rank_report, values_at, identity_tests, flagged, compare_startups, startup_problems,
  required_events, validate_participation, is_bad_interval, when,
}
use comm_guard.Runs.Outcome.{joined_problems}

abbrev pub IsText : String → Type 0
IsText s = non_empty s ≡ true

pub non_empty-append : (s t : String) → IsText s → IsText (append s t)
non_empty-append s t h = elim (Bool-cases (append s t == "")) [
  | inl gone ↦
      let e = eq→str_eq s "" (append-eq-nil_iff.0 (str_eq→eq (append s t) "" gone)).0 in
      ground arith
  | inr there ↦ rw there refl
]

pub joined_problems-IsText :
    (s : String) (texts : List String) → IsText s → IsText (joined_problems (s ∷ texts))
unfolding joined_problems
joined_problems-IsText s [] h = h
joined_problems-IsText s (t ∷ rest) h = non_empty-append s _ h

pub All-append : (xs ys : List String) → All IsText xs → All IsText ys → All IsText (xs ++ ys)
All-append [] ys a b = b
All-append (x ∷ xs) ys a b = (a.0, All-append xs ys a.1 b)

when-All : (test : Bool) (s : String) → IsText s → All IsText (when test (s ∷ []))
when-All true s h = (h, tt)
when-All false s h = tt

flagged-All :
    (tests : List (Bool × String)) → All (λ t. IsText t.1) tests → All IsText (flagged tests)
unfolding flagged
flagged-All [] h = tt
flagged-All ((test, problem) ∷ rest) h =
    All-append (when test (problem ∷ [])) (flagged rest) (when-All test problem h.0)
      (flagged-All rest h.1)

module _ (deviates : Deviates) where
  startup_of-All :
      (rank : String) (event : Option Fields) {started : List Value × List String}
      → IsText rank
      → startup_of rank event ≡ ok started
      → All IsText started.1
  startup_of-All rank none {started = started} h e =
      let same : started ≡ ([], append rank "has no startup identity" ∷ []) = cc in
      rw same (non_empty-append rank _ h, tt)
  startup_of-All rank (some event) {started = started} h e =
      let (_, e1) = require-then (contains (field_names event) "details") _ _ e in
      let same : started ≡ (get event "details" ∷ [], []) = cc e1 in rw same tt

  interval_problems-All :
      (rank : String) (event : Option Fields) {problems : List String}
      → IsText rank
      → interval_problems deviates rank event ≡ ok problems
      → All IsText problems
  interval_problems-All rank none {problems = []} h e = tt
  interval_problems-All rank none {problems = x ∷ xs} h e = cc
  interval_problems-All rank (some event) {problems = problems} h e =
      let (details, _, e1) = >>=-eq-ok (as_mapping (get_default event "details" (obj end))) _ e in
      let (bad, _, e2) = >>=-eq-ok (is_bad_interval deviates details) _ e1 in
      let same : problems ≡ when bad (append rank "has invalid measurement interval details" ∷ []) =
        cc e2 in
      rw same (when-All bad _ (non_empty-append rank _ h))

  rank_report-All :
      (required : List String) (rank : String) (events : List Fields) {report : RankReport}
      → IsText rank
      → rank_report deviates required rank events ≡ ok report
      → All IsText report.problems
  unfolding rank_report
  rank_report-All required rank events {report = report} h e =
      let (names, _, e1) = >>=-eq-ok (names_of events) _ e in
      let (started, begun, e2) = >>=-eq-ok (startup_of rank (first_event "startup" events)) _ e1 in
      let (measured, ended, e3) =
        >>=-eq-ok (interval_problems deviates rank (first_event "measurement_interval" events)) _
          e2 in
      let missing = is_empty (keep (λ name. not (contains names name)) required) in
      let same : report.problems
          ≡ when (not missing) (append rank "missing events" ∷ []) ++ (started.1 ++ measured) =
        cc e3 in
      rw same (
        All-append _ _ (when-All (not missing) _ (non_empty-append rank _ h)) (
          All-append started.1 measured (startup_of-All rank _ h begun)
            (interval_problems-All rank _ h ended)))

  compare_startups-All :
      (a b : Fields) {problems : List String}
      → compare_startups a b ≡ ok problems
      → All IsText problems
  unfolding compare_startups
  compare_startups-All a b {problems = problems} e =
      let (r, _, e1) = >>=-eq-ok (values_at "rank" a b) _ e in
      let (l, _, e2) = >>=-eq-ok (values_at "local_rank" a b) _ e1 in
      let (g, _, e3) = >>=-eq-ok (values_at "gpu_index" a b) _ e2 in
      let (u, _, e4) = >>=-eq-ok (values_at "gpu_uuid" a b) _ e3 in
      let same : problems ≡ flagged (identity_tests a b r l g u) = cc e4 in
      rw same (
        flagged-All (identity_tests a b r l g u) (refl, (refl, (refl, (refl, (refl, (refl, tt)))))))

  startup_problems-All :
      (startups : List Value) {problems : List String}
      → startup_problems startups ≡ ok problems
      → All IsText problems
  startup_problems-All (a ∷ b ∷ []) e =
      let (first, _, e1) = >>=-eq-ok (as_mapping a) _ e in
      let (second, _, e2) = >>=-eq-ok (as_mapping b) _ e1 in compare_startups-All first second e2
  startup_problems-All [] {problems = problems} e = let same : problems ≡ [] = cc in rw same tt
  startup_problems-All (a ∷ []) {problems = problems} e =
      let same : problems ≡ [] = cc in rw same tt
  startup_problems-All (a ∷ b ∷ c ∷ rest) {problems = problems} e =
      let same : problems ≡ [] = cc in rw same tt

  pub validate_participation-All :
      (events_0 events_1 : List Fields) (mode : String) (designation : Option String)
      {p : Participation}
      → validate_participation deviates events_0 events_1 mode designation ≡ ok p
      → All IsText p.problems × (p.valid ≡ is_empty p.problems)
  unfolding validate_participation
  validate_participation-All events_0 events_1 mode designation {p = p} e =
      let required = required_events mode designation in
      let (first, r0, e1) = >>=-eq-ok (rank_report deviates required "rank 0 " events_0) _ e in
      let (second, r1, e2) = >>=-eq-ok (rank_report deviates required "rank 1 " events_1) _ e1 in
      let (identity, r2, e3) =
        >>=-eq-ok (startup_problems (first.startups ++ second.startups)) _ e2 in
      let same : p.problems ≡ first.problems ++ (second.problems ++ identity) = cc e3 in
      let decided : p.valid ≡ is_empty (first.problems ++ (second.problems ++ identity)) = cc e3 in
      (
        rw same (
            All-append first.problems _ (rank_report-All required "rank 0 " events_0 refl r0) (
              All-append second.problems identity
                (rank_report-All required "rank 1 " events_1 refl r1)
                (startup_problems-All (first.startups ++ second.startups) r2))),
        rw same decided,
      )
