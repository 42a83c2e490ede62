-- ===== src/Tests/Tool.antt =====
-- tool.rs on small results under the tightest policy that validation admits.
use pi_agent_core_rs.Prelude.{
  ltb, ℕ, ◌≤◌, ◌≡◌, refl, true, List, [], Option, none, some, Text, codes, length, sat_add,
}
use pi_agent_core_rs.Tool.Failure.{
  ToolFailure, retryable, signed, ToolResultProjectionPolicy, default_policy,
}
use pi_agent_core_rs.Tool.Truncate.{truncate_middle, truncation_marker}
use pi_agent_core_rs.Tool.Truncate.Bounds.{truncate_middle-le}
use pi_agent_core_rs.Tool.Truncate.Utf8.{IsUtf8, ascii-IsUtf8, truncate_middle-IsUtf8}
use pi_agent_core_rs.Tool.Projection.{
  status_line, projected_text, repeated_text, project_tool_result_as_text, validate,
  error_fingerprint, mix_all,
}
use pi_agent_core_rs.Tool.Projection.Bounds.{project_tool_result-le, project_repeated_exceeds}
use pi_agent_core_rs.Tool.Projection.Status.{BeginsWith, projected_text-status}
use pi_agent_core_rs.Tool.Projection.Fingerprint.{project_split_suppressed}

abbrev long_text : Text
long_text = codes "a line that is longer than the limit of the test"

abbrev tight : ToolResultProjectionPolicy
tight = record {
  max_content_bytes = 19;
  max_details_bytes = 19;
  max_total_bytes = 58;
  deduplicate_repeated_errors = true;
}

abbrev refused : Option ToolFailure
refused = some (signed retryable (codes "http"))

truncate_middle-le_example : length (truncate_middle long_text 30) ≤ 30
truncate_middle-le_example = truncate_middle-le long_text 30

truncate_middle-IsUtf8_example : IsUtf8 (truncate_middle long_text 30)
truncate_middle-IsUtf8_example = truncate_middle-IsUtf8 long_text 30 (ascii-IsUtf8 long_text refl)

project_tool_result-le_example :
    length (project_tool_result_as_text long_text (some long_text) true refused tight []).0.content
    ≤ 62
project_tool_result-le_example =
    project_tool_result-le long_text (some long_text) true refused tight []

abbrev after_first : List ℕ
after_first = (project_tool_result_as_text long_text none true refused tight []).1

-- A total of 58 bytes passes the validation, and the repetition has 62.
tight-IsValid : validate tight ≡ true
unfolding validate truncation_marker sat_add
tight-IsValid = refl

project_repeated_exceeds_example :
    let r = (project_tool_result_as_text long_text none true refused tight after_first).0 in
    ltb 58 (length r.content) ≡ true
unfolding project_tool_result_as_text error_fingerprint mix_all
project_repeated_exceeds_example =
    project_repeated_exceeds long_text none true refused tight after_first

projected_text-status_example :
    BeginsWith (status_line refused) (projected_text long_text (some long_text) true refused tight)
unfolding validate truncation_marker sat_add
projected_text-status_example = projected_text-status long_text (some long_text) refused tight refl

project_split_suppressed_example :
    project_tool_result_as_text
      (codes "ab")
      none
      true
      refused
      default_policy
      (project_tool_result_as_text (codes "a") (some (codes "b")) true refused default_policy []).1
    ≡ (
      record { content = repeated_text; is_error = true },
      (project_tool_result_as_text (codes "a") (some (codes "b")) true refused default_policy []).1,
    )
project_split_suppressed_example =
    project_split_suppressed (codes "a") (codes "b") refused default_policy [] refl
