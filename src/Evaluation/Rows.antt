-- ===== src/Evaluation/Rows.antt =====
-- How `_run_groups` of src/commguard/evaluation/splits.py reads a feature row.
use comm_guard.Prelude.{String, Option, none, some, contains, if◌then◌else◌}
use comm_guard.Central.Json.{Fields, get, field_names, truthy}
use comm_guard.Central.Runtime.{str}
use comm_guard.Central.Messages.{Python}
use comm_guard.Schemas.Values.{is_true}
use comm_guard.Evaluation.Groups.{Row}

-- `str(row.get(key, ""))`, where `none` is a missing key.
abbrev text_of : Python → Fields → String → Option String
text_of rt row key = if contains (field_names row) key then some (str rt (get row key)) else none

-- A value that counts only if it is true.
abbrev truthy_of : Python → Fields → String → Option String
truthy_of rt row key = if truthy (get row key) then some (str rt (get row key)) else none

unfoldable pub row_from_dict : Python → Fields → Row
row_from_dict rt row = record {
  run_id = text_of rt row "run_id";
  legacy_grouping_ambiguous = is_true (get row "legacy_grouping_ambiguous");
  experiment_session_id = truthy_of rt row "experiment_session_id";
  target_label = text_of rt row "target_label";
  workload_family = text_of rt row "workload_family";
  workload_config_id = truthy_of rt row "workload_config_id";
  plan_id = truthy_of rt row "plan_id";
}
