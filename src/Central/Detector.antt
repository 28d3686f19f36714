-- ===== src/Central/Detector.antt =====
-- `DetectorService` of src/commguard/central/server.py.
-- Scores, thresholds and margins are fixed-point numbers: `one` stands for 1.0, and the difference of
-- a score and a threshold is exact.
use comm_guard.Prelude.{
  ℕ, ◌*◌, ◌≤◌, ◌<◌, String, ◌≡◌, refl, Bool, true, false, not, ◌&&◌, ◌||◌, Option, none, some, List,
  [], ◌∷◌, arith, ℤ, is_negative, to_nat, leb, ltb, distance, if◌then◌else◌, non_empty, value_error,
  Result, ok, err, ◌>>=◌, ◌>>◌, raise_if,
}
use comm_guard.Central.Server.Window.{Aggregation}

abbrev pub one : ℕ
one = 1000000000

-- `0 <= x <= 1`
abbrev in_unit : ℤ → Bool
in_unit x = not (is_negative x) && leb (to_nat x) one

pub data DecisionReason : Type 0 where
  missing_or_stale_nodes : List String → DecisionReason
  score_within_abstention_margin score_outside_margin : DecisionReason

pub record Decision : Type 0 where
  pub score : Option ℤ
  pub threshold : ℤ
  pub abstained : Bool
  pub reason : DecisionReason
  pub evidence_window_ids : List String

pub record Detector : Type 0 where
  pub scorer : Aggregation → Result ℤ
  pub threshold : ℤ
  pub abstention_margin : ℤ

-- `DetectorService.__init__`
unfoldable pub make_detector : (Aggregation → Result ℤ) → ℤ → ℤ → Result Detector
make_detector scorer threshold margin =
    if not (in_unit threshold) || (is_negative margin || ltb one (2 * to_nat margin))
    then err (value_error "threshold/margin are outside supported bounds")
    else ok (record { scorer = scorer; threshold = threshold; abstention_margin = margin })

abbrev window_ids : String → List String
window_ids id = if non_empty id then id ∷ [] else []

abbrev score_decision : Detector → Aggregation → ℤ → Decision
score_decision d a score =
    let close = leb (distance (to_nat score) (to_nat d.threshold)) (to_nat d.abstention_margin) in
    record {
      score = some score;
      threshold = d.threshold;
      abstained = close;
      reason = if close then score_within_abstention_margin else score_outside_margin;
      evidence_window_ids = window_ids a.window_id;
    }

-- `DetectorService.decide`
unfoldable pub decide : Detector → Aggregation → Result Decision
decide d a =
    if not a.complete
    then ok (record {
      score = none;
      threshold = d.threshold;
      abstained = true;
      reason = missing_or_stale_nodes a.missing_or_stale_nodes;
      evidence_window_ids = window_ids a.window_id;
    })
    else do
      score ← d.scorer a
      raise_if (not (in_unit score)) (value_error "detector scorer must return a value in [0, 1]")
      ok (score_decision d a score)

-- A decision that does not abstain rests on a complete aggregation, and its score lies in [0, 1]
-- and further from the threshold than the margin.
pub decide-definite :
    (d : Detector) (a : Aggregation) (result : Decision)
    → decide d a ≡ ok result
    → result.abstained ≡ false
    → (score : ℤ) × (a.complete ≡ true)
      × (d.scorer a ≡ ok score)
      × (result.score ≡ some score)
      × (to_nat score ≤ one)
      × (is_negative score ≡ false)
      × (to_nat d.abstention_margin < distance (to_nat score) (to_nat d.threshold))
unfolding decide
decide-definite d a result h definite = definite_of (d.scorer a) refl
  where
    definite_of :
        (r : Result ℤ)
        → d.scorer a ≡ r
        → (score : ℤ) × (a.complete ≡ true)
          × (d.scorer a ≡ ok score)
          × (result.score ≡ some score)
          × (to_nat score ≤ one)
          × (is_negative score ≡ false)
          × (to_nat d.abstention_margin < distance (to_nat score) (to_nat d.threshold))
    definite_of (ok score) e =
        (score, ground arith, e, ground arith, ground arith, ground arith, ground arith)
    definite_of (err x) e = absurd (ground arith)

-- An incomplete aggregation is never scored: the decision abstains, whatever the scorer does.
pub decide-incomplete :
    (d : Detector) (a : Aggregation)
    → a.complete ≡ false
    → (result : Decision) × (decide d a ≡ ok result)
      × (result.abstained ≡ true)
      × (result.score ≡ none)
unfolding decide
decide-incomplete d a h = (
  record {
    score = none;
    threshold = d.threshold;
    abstained = true;
    reason = missing_or_stale_nodes a.missing_or_stale_nodes;
    evidence_window_ids = window_ids a.window_id;
  },
  rw h refl,
  refl,
  refl,
)
