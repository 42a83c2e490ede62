-- ===== src/Tool/Projection/Bounds.antt =====
-- tool.rs: the size of a projected result, and what stands at its front.
use pi_agent_core_rs.Prelude.{
  ℕ, ◌-◌, ◌≤◌, ◌≡◌, Bool, true, false, ◌&&◌, ltb, List, [], ◌∷◌, ◌++◌, Option, none, some, Text,
  codes, arith, length, length-append, max,
}
use pi_agent_core_rs.Tool.Failure.{ToolFailure, ToolResultProjectionPolicy}
use pi_agent_core_rs.Tool.Truncate.{truncate_middle}
use pi_agent_core_rs.Tool.Truncate.Bounds.{truncate_middle-le}
use pi_agent_core_rs.Tool.Projection.{
  append_projected_section, status_line, guidance_section, error_sections, details_section,
  projected_text, seen_contains, error_fingerprint, project_tool_result_as_text,
}

append_projected_section-le :
    (output section : Text) (limit : ℕ)
    → length output ≤ limit
    → length (append_projected_section output section limit) ≤ limit
unfolding append_projected_section
append_projected_section-le [] section limit h =
    ground (arith, truncate_middle-le section (limit - 0 - 0))
append_projected_section-le (b ∷ bs) section limit h =
    let available = limit - length (b ∷ bs) in
    ground (
      arith,
      truncate_middle-le section (available - 1),
      length-append (b ∷ bs) (codes "\n" ++ truncate_middle section (available - 1)),
    )

guidance_section-le :
    (g : Option Text) (p : ToolResultProjectionPolicy) (output : Text)
    → length output ≤ p.max_total_bytes
    → length (guidance_section g p output) ≤ p.max_total_bytes
unfolding guidance_section
guidance_section-le none p output h = h
guidance_section-le (some g) p output h = append_projected_section-le output _ _ h

error_sections-le :
    (is_error : Bool) (f : Option ToolFailure) (p : ToolResultProjectionPolicy)
    → length (error_sections is_error f p) ≤ p.max_total_bytes
unfolding error_sections
error_sections-le false f p = omega arith
error_sections-le true f p =
    guidance_section-le _ p _ (append_projected_section-le [] (status_line f) _ (omega arith))

details_section-le :
    (d : Option Text) (p : ToolResultProjectionPolicy) (output : Text)
    → length output ≤ p.max_total_bytes
    → length (details_section d p output) ≤ p.max_total_bytes
unfolding details_section
details_section-le none p output h = h
details_section-le (some d) p output h = append_projected_section-le output _ _ h

-- A result that is not suppressed as a repetition has at most `max_total_bytes` bytes, whatever its
-- content, details, guidance and policy.
pub projected_text-le :
    (content : Text) (details : Option Text) (is_error : Bool) (f : Option ToolFailure)
    (p : ToolResultProjectionPolicy)
    → length (projected_text content details is_error f p) ≤ p.max_total_bytes
unfolding projected_text
projected_text-le content details is_error f p =
    details_section-le details p _
      (append_projected_section-le _ _ _ (error_sections-le is_error f p))

-- A projected result has at most `max_total_bytes` bytes, or the 62 of the text that stands for a
-- repeated error where that is more.
pub project_tool_result-le :
    (content : Text) (details : Option Text) (is_error : Bool) (f : Option ToolFailure)
    (p : ToolResultProjectionPolicy) (seen : List ℕ)
    → length (project_tool_result_as_text content details is_error f p seen).0.content
      ≤ max p.max_total_bytes 62
unfolding project_tool_result_as_text
project_tool_result-le content details is_error f p seen =
    ground (arith, projected_text-le content details is_error f p)

-- A projected result is over the policy's total in exactly one case: it is an error that is suppressed,
-- deduplication being on and its fingerprint recorded before, and the total is below the 62 bytes of the
-- text in its place.
pub project_repeated_exceeds :
    (content : Text) (details : Option Text) (is_error : Bool) (f : Option ToolFailure)
    (p : ToolResultProjectionPolicy) (seen : List ℕ)
    → let r = (project_tool_result_as_text content details is_error f p seen).0 in
      let suppressed =
        is_error
        && (p.deduplicate_repeated_errors
            && seen_contains (error_fingerprint content details f) seen) in
      ltb p.max_total_bytes (length r.content) ≡ (suppressed && ltb p.max_total_bytes 62)
unfolding project_tool_result_as_text
project_repeated_exceeds content details is_error f p seen =
    ground (arith, projected_text-le content details is_error f p)
