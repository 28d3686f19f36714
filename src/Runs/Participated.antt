-- ===== src/Runs/Participated.antt =====
-- The evidence that `validate_participation` of src/commguard/distributed/launcher.py finds valid.
use comm_guard.Prelude.{
  ◌≡◌, refl, sym, ◌∙◌, String, Bool, true, false, not, ◌&&◌, ◌||◌, Option, List, [], ◌∷◌, ◌++◌, pos,
  arith, ◌⊎◌, inl, inr, Bool-cases, All, is_empty, ok, >>=-eq-ok, raise_if-then,
}
use comm_guard.Central.Json.{Value, obj, text, Fields, get}
use comm_guard.Schemas.Values.{as_mapping, as_mapping-obj, same_value, equals_int, equals_text-eq}
use comm_guard.Runs.Evidence.{
  IsRankEvidence, is_empty-append, flagged-nil, rank_report-IsRankEvidence,
}
use comm_guard.Runs.Launcher.{
  Deviates, Participation, RankReport, rank_report, values_at, are_both_ranks, identity_tests,
  flagged, compare_startups, startup_problems, required_events, validate_participation,
}

-- One of the values equals 0, and the other 1.
abbrev pub AreZeroOne : Value → Value → Type 0
AreZeroOne a b =
    ((equals_int (pos 0) a ≡ true) × (equals_int (pos 1) b ≡ true))
    ⊎ ((equals_int (pos 1) a ≡ true) × (equals_int (pos 0) b ≡ true))

-- The evidence of both ranks, whose startup events have the details `a` and `b`.
pub record IsParticipation (required : List String) (events_0 events_1 : List Fields) (a b : Fields)
    : Type 0 where
  pub rank_0 : IsRankEvidence required events_0 (obj a)
  pub rank_1 : IsRankEvidence required events_1 (obj b)
  pub ranks : AreZeroOne (get a "rank") (get b "rank")
  pub local_ranks : AreZeroOne (get a "local_rank") (get b "local_rank")
  pub gpus : AreZeroOne (get a "gpu_index") (get b "gpu_index")
  pub distinct_uuids : same_value (get a "gpu_uuid") (get b "gpu_uuid") ≡ false
  pub world_sizes :
      (equals_int (pos 2) (get a "world_size") ≡ true)
      × (equals_int (pos 2) (get b "world_size") ≡ true)
  pub backends : (get a "backend" ≡ text "nccl") × (get b "backend" ≡ text "nccl")

values_at-eq :
    (key : String) (a b : Fields) {values : Value × Value}
    → values_at key a b ≡ ok values
    → values ≡ (get a key, get b key)
values_at-eq key a b h = let (_, e) = raise_if-then _ _ (ok (get a key, get b key)) h in cc e

tests_fail :
    (a b : Fields) (r l g u : Value × Value)
    → r ≡ (get a "rank", get b "rank")
    → l ≡ (get a "local_rank", get b "local_rank")
    → g ≡ (get a "gpu_index", get b "gpu_index")
    → u ≡ (get a "gpu_uuid", get b "gpu_uuid")
    → flagged (identity_tests a b r l g u) ≡ []
    → All
        (λ t. t.0 ≡ false)
        (identity_tests a b
          (get a "rank", get b "rank")
          (get a "local_rank", get b "local_rank")
          (get a "gpu_index", get b "gpu_index")
          (get a "gpu_uuid", get b "gpu_uuid"))
tests_fail a b r l g u er el eg eu quiet =
    let er' = sym er in
    let el' = sym el in
    let eg' = sym eg in
    let eu' = sym eu in
    flagged-nil _ ((λ i. flagged (identity_tests a b (er' i) (el' i) (eg' i) (eu' i))) ∙ quiet)

compare_startups-nil :
    (a b : Fields)
    → compare_startups a b ≡ ok []
    → All
        (λ t. t.0 ≡ false)
        (identity_tests a b
          (get a "rank", get b "rank")
          (get a "local_rank", get b "local_rank")
          (get a "gpu_index", get b "gpu_index")
          (get a "gpu_uuid", get b "gpu_uuid"))
unfolding compare_startups
compare_startups-nil a b e =
    let (r, er, e1) = >>=-eq-ok (values_at "rank" a b) _ e in
    let (l, el, e2) = >>=-eq-ok (values_at "local_rank" a b) _ e1 in
    let (g, eg, e3) = >>=-eq-ok (values_at "gpu_index" a b) _ e2 in
    let (u, eu, e4) = >>=-eq-ok (values_at "gpu_uuid" a b) _ e3 in
    let quiet : flagged (identity_tests a b r l g u) ≡ [] = cc e4 in
    tests_fail a b r l g u (values_at-eq "rank" a b er) (values_at-eq "local_rank" a b el)
      (values_at-eq "gpu_index" a b eg) (values_at-eq "gpu_uuid" a b eu) quiet

zero_one : (a b : Value) → not (are_both_ranks (a, b)) ≡ false → AreZeroOne a b
zero_one a b h = elim (Bool-cases (equals_int (pos 0) a && equals_int (pos 1) b)) [
  | inl first ↦ inl (ground arith, ground arith)
  | inr other ↦ inr (ground arith, ground arith)
]

both_hold : (s t : Bool) → (not s || not t) ≡ false → (s ≡ true) × (t ≡ true)
both_hold true true h = (refl, refl)
both_hold true false h = cc
both_hold false t h = cc

abbrev Reported : List String → List Fields → RankReport → Type 0
Reported required events report =
    (startup : Value) × (report.startups ≡ startup ∷ []) × IsRankEvidence required events startup

-- What the comparison of the startups adds to the reports of the two ranks.
reported :
    (required : List String) (events_0 events_1 : List Fields) (first second : RankReport)
    (identity : List String)
    → startup_problems (first.startups ++ second.startups) ≡ ok identity
    → identity ≡ []
    → Reported required events_0 first
    → Reported required events_1 second
    → (a b : Fields) × IsParticipation required events_0 events_1 a b
reported required events_0 events_1 first second identity compared clean (v, ev, evidence_0)
      (w, ew, evidence_1) =
    let both : startup_problems (v ∷ w ∷ []) ≡ ok [] = rw (ev, ew, clean) at compared in
    let (a, va, c1) = >>=-eq-ok (as_mapping v) _ both in
    let (b, wb, c2) = >>=-eq-ok (as_mapping w) _ c1 in
    let tests = compare_startups-nil a b c2 in
    let (size_a, size_b) = both_hold _ _ tests.1.1.1.1.0 in
    let (backend_a, backend_b) = both_hold _ _ tests.1.1.1.1.1.0 in
    (
      a,
      b,
      record {
        rank_0 = rw (as_mapping-obj v va) at evidence_0;
        rank_1 = rw (as_mapping-obj w wb) at evidence_1;
        ranks = zero_one _ _ tests.0;
        local_ranks = zero_one _ _ tests.1.0;
        gpus = zero_one _ _ tests.1.1.0;
        distinct_uuids = tests.1.1.1.0;
        world_sizes = (size_a, size_b);
        backends = (equals_text-eq "nccl" _ backend_a, equals_text-eq "nccl" _ backend_b);
      },
    )

-- If `validate_participation` finds the evidence valid, each rank has an event of every kind that the mode
-- and the designation require, and a startup event with its identity. The two ranks are 0 and 1, and so
-- are their local ranks and GPU indices; their GPU UUIDs differ; both report world size 2 and NCCL.
pub validate_participation-IsParticipation :
    (deviates : Deviates) (events_0 events_1 : List Fields) (mode : String)
    (designation : Option String) {p : Participation}
    → validate_participation deviates events_0 events_1 mode designation ≡ ok p
    → p.valid ≡ true
    → (a b : Fields) × IsParticipation (required_events mode designation) events_0 events_1 a b
unfolding validate_participation
validate_participation-IsParticipation deviates events_0 events_1 mode designation {p = p} e valid =
    let required = required_events mode designation in
    let (first, r0, e1) = >>=-eq-ok (rank_report deviates required "rank 0 " events_0) _ e in
    let (second, r1, e2) = >>=-eq-ok (rank_report deviates required "rank 1 " events_1) _ e1 in
    let (identity, r2, e3) =
      >>=-eq-ok (startup_problems (first.startups ++ second.startups)) _ e2 in
    let decided : is_empty (first.problems ++ (second.problems ++ identity)) ≡ true =
      cc (e3, valid) in
    let (clean_0, rest) = is_empty-append first.problems (second.problems ++ identity) decided in
    let (clean_1, clean_2) = is_empty-append second.problems identity (rw rest refl) in
    reported required events_0 events_1 first second identity r2 clean_2
      (rank_report-IsRankEvidence deviates required "rank 0 " events_0 r0 clean_0)
      (rank_report-IsRankEvidence deviates required "rank 1 " events_1 r1 clean_1)
