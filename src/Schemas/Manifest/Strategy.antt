-- ===== src/Schemas/Manifest/Strategy.antt =====
-- What a valid manifest says of an adversarial run.
use comm_guard.Prelude.{String, ◌≡◌, true, Option, none, some, ok, >>=-eq-ok, if◌then◌else◌}
use comm_guard.Central.Json.{Value, null, bool, int, float, text, arr, obj, Fields, get}
use comm_guard.Central.Messages.{Python}
use comm_guard.Schemas.Values.{
  Calls, require, ◌and◌, mapping_of, as_mapping, equals_text, same_value, is_true, require-then,
  require_that-then, require-ok,
}
use comm_guard.Schemas.Manifest.{
  is_explicit, is_evidence, is_count, summary_of, require_mapping, peak_counts, has_pair,
  validate_counts, validate_metrics, validate_rank, validate_strategy, validate_manifest,
}
use comm_guard.Schemas.Manifest.Interval.{evidence_valid}

-- `summary` is the strategy summary of one rank's evidence, and its two counts of rounds agree.
pub record IsSummary (evidence : Value) (summary : Fields) : Type 0 where
  pub found : summary_of (mapping_of evidence) ≡ some summary
  pub as_expected :
      same_value (get summary "expected_sync_rounds") (get summary "actual_sync_rounds") ≡ true

require_mapping-ok :
    (o : Option Fields) (path message : String) (fs : Fields)
    → require_mapping o path message ≡ ok fs
    → o ≡ some fs
require_mapping-ok none path message fs h = cc
require_mapping-ok (some gs) path message fs h = cc h

as_mapping-ok : (v : Value) (fs : Fields) → as_mapping v ≡ ok fs → v ≡ obj fs
as_mapping-ok (obj gs) fs h = cc h
as_mapping-ok (arr xs) fs h = cc
as_mapping-ok (text s) fs h = cc
as_mapping-ok (int n) fs h = cc
as_mapping-ok (float n) fs h = cc
as_mapping-ok (bool b) fs h = cc
as_mapping-ok null fs h = cc

module _ (m config : Fields) (path : String) where
  validate_rank-IsSummary :
      (evidence count : Value)
      → validate_rank m config path evidence ≡ ok count
      → (summary : Fields) × IsSummary evidence summary × (get summary "actual_sync_rounds" ≡ count)
  unfolding validate_rank validate_counts
  validate_rank-IsSummary evidence count h =
      let (summary, e, h1) =
        >>=-eq-ok
          (require_mapping (summary_of (mapping_of evidence)) path
            "required for completed adversarial runs")
          _ h in
      let (_, counts, h2) = >>=-eq-ok (validate_counts m config path summary) _ h1 in
      let (_, _, h3) = >>=-eq-ok (validate_metrics m config path summary) _ h2 in
      let (rank_fields, _, h4) = >>=-eq-ok (as_mapping evidence) _ h3 in
      let (_, h5) =
        require_that-then (peak_counts m config path (mapping_of (get rank_fields "memory_peak"))) _
          _ h4 in
      let expected = get summary "expected_sync_rounds" in
      let actual = get summary "actual_sync_rounds" in
      let (_, c1) = require_that-then (is_count expected and is_count actual) _ _ counts in
      let (same, _) = require-then (same_value expected actual) _ _ c1 in
      let (_, _, h6) =
        >>=-eq-ok
          (if equals_text "training" (get m "workload_label")
            then require (is_true (get summary "parameter_state_agreement")) path
                "training strategy requires final parameter agreement"
            else ok tt)
          _ h5 in
      let found =
        require_mapping-ok (summary_of (mapping_of evidence)) path
          "required for completed adversarial runs" summary e in
      (summary, record { found = found; as_expected = same }, cc h6)

module _ (c : Calls) (rt : Python) (m : Fields) where
  -- In a valid manifest of the current schema that is not ambiguous, a completed adversarial run with
  -- valid participation has the evidence of both ranks: each rank's strategy summary has as many
  -- actual as expected rounds of synchronisation, and the two ranks have the same number.
  pub validate_manifest-strategy :
      {u : Unit {0}}
      → validate_manifest c rt m ≡ ok u
      → is_explicit m ≡ true
      → is_evidence m ≡ true
      → equals_text "adversarial" (get m "designation") ≡ true
      → (config ranks first second : Fields) × (get m "config" ≡ obj config)
        × (get config "rank_runtime_evidence" ≡ obj ranks)
        × IsSummary (get ranks "0") first
        × IsSummary (get ranks "1") second
        × (same_value (get first "actual_sync_rounds") (get second "actual_sync_rounds") ≡ true)
  unfolding validate_strategy
  validate_manifest-strategy done explicit evidence adversarial =
      let (_, _, checked) = evidence_valid c rt m done explicit evidence in
      let (config, e, h1) = >>=-eq-ok (as_mapping (get m "config")) _ (rw adversarial at checked) in
      let found = get config "rank_runtime_evidence" in
      let (_, h2) = require-then (has_pair (mapping_of found)) _ _ h1 in
      let (ranks, r, h3) = >>=-eq-ok (as_mapping found) _ h2 in
      let (count0, v0, h4) =
        >>=-eq-ok
          (validate_rank m config "config.rank_runtime_evidence.0.strategy_summary" (get ranks "0"))
          _ h3 in
      let (count1, v1, h5) =
        >>=-eq-ok
          (validate_rank m config "config.rank_runtime_evidence.1.strategy_summary" (get ranks "1"))
          _ h4 in
      let (first, is_first, a0) = validate_rank-IsSummary m config _ (get ranks "0") count0 v0 in
      let (second, is_second, a1) = validate_rank-IsSummary m config _ (get ranks "1") count1 v1 in
      let same = require-ok (same_value count0 count1) _ h5 in
      (
        config,
        ranks,
        first,
        second,
        as_mapping-ok _ config e,
        as_mapping-ok _ ranks r,
        is_first,
        is_second,
        rw (a0, a1) same,
      )
