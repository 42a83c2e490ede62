-- ===== src/Tool/Projection.antt =====
-- tool.rs: `project_tool_result_as_text`, its sections and the error fingerprint. A `BTreeMap<u64, ()>`
-- is the list of its keys.
pub mod Bounds
pub mod Status
pub mod Fingerprint
use Prim.Native.Nat.{bit_xor}
use pi_agent_core_rs.Prelude.{
  ℕ, ◌+◌, ◌-◌, ◌*◌, ◌%◌, ◌^◌, Bool, true, false, ◌&&◌, ◌||◌, List, [], ◌∷◌, ◌++◌, Option, none,
  some, Text, codes, sat_add, ltb, leb, ◌==◌, if◌then◌else◌, length, is_empty,
}
use pi_agent_core_rs.Tool.Failure.{
  ToolFailureDisposition, cancelled, invalid_arguments, recoverable, retryable, fatal, ToolFailure,
  ToolResultProjectionPolicy, ModelToolResult,
}
use pi_agent_core_rs.Tool.Truncate.{truncation_marker, truncate_middle}

-- `ToolResultProjectionPolicy::validate`; `true` is `Ok(())`. The longest status line has 38 bytes.
unfoldable pub validate : ToolResultProjectionPolicy → Bool
validate p =
    let marker = length truncation_marker in
    let minimum_error_total =
      sat_add (sat_add (length (codes "[tool error status: invalid_arguments]")) 1) marker in
    if ltb p.max_content_bytes marker
      || (ltb p.max_details_bytes marker || ltb p.max_total_bytes minimum_error_total)
    then false
    else true

-- The prime and the offset of 64-bit FNV-1a; `hash ^= byte; hash = hash.wrapping_mul(prime)`.
abbrev pub fnv_prime : ℕ
fnv_prime = 0x00000100000001b3

abbrev pub fnv_offset : ℕ
fnv_offset = 0xcbf29ce484222325

mix : ℕ → ℕ → ℕ
mix hash byte = bit_xor hash byte * fnv_prime % 2 ^ 64

unfoldable pub mix_all : ℕ → Text → ℕ
unfolding mix
mix_all hash [] = hash
mix_all hash (b ∷ bs) = mix_all (mix hash b) bs

-- `Option::unwrap_or_default` on texts.
abbrev pub or_empty : Option Text → Text
or_empty none = []
or_empty (some t) = t

abbrev pub disposition_code : ToolFailureDisposition → ℕ
disposition_code cancelled = 1
disposition_code invalid_arguments = 2
disposition_code recoverable = 3
disposition_code retryable = 4
disposition_code fatal = 5

mix_failure : ℕ → Option ToolFailure → ℕ
unfolding mix
mix_failure hash none = hash
mix_failure hash (some f) =
    mix_all (mix hash (disposition_code f.disposition)) (or_empty f.recovery_guidance)

abbrev pub failure_signature : Option ToolFailure → Option Text
failure_signature none = none
failure_signature (some f) = f.signature

abbrev pub failure_guidance : Option ToolFailure → Option Text
failure_guidance none = none
failure_guidance (some f) = f.recovery_guidance

unfoldable pub error_fingerprint : Text → Option Text → Option ToolFailure → ℕ
unfolding mix_failure
error_fingerprint content details failure =
    mix_failure
      (mix_all (mix_all (mix_all fnv_offset content) (or_empty details))
        (or_empty (failure_signature failure)))
      failure

-- `append_projected_section`: the output after it.
unfoldable pub append_projected_section : Text → Text → ℕ → Text
append_projected_section output section total_limit =
    let separator_bytes = if is_empty output then 0 else 1 in
    let available = total_limit - length output in
    let separator : Text = if is_empty output then [] else codes "\n" in
    if is_empty section
    then output
    else if leb available separator_bytes
    then output
    else output ++ (separator ++ truncate_middle section (available - separator_bytes))

abbrev pub status_name : ToolFailureDisposition → Text
status_name cancelled = codes "cancelled"
status_name invalid_arguments = codes "invalid_arguments"
status_name recoverable = codes "recoverable"
status_name retryable = codes "retryable"
status_name fatal = codes "fatal"

abbrev pub failure_status : Option ToolFailure → Text
failure_status none = codes "recoverable"
failure_status (some f) = status_name f.disposition

unfoldable pub status_line : Option ToolFailure → Text
status_line failure = codes "[tool error status: " ++ (failure_status failure ++ codes "]")

guidance_section : Option Text → ToolResultProjectionPolicy → Text → Text
guidance_section none p output = output
guidance_section (some guidance) p output =
    append_projected_section output
      (codes "[recovery guidance: " ++ (truncate_middle guidance p.max_details_bytes ++ codes "]"))
      p.max_total_bytes

-- The sections that stand in front of an error's content.
error_sections : Bool → Option ToolFailure → ToolResultProjectionPolicy → Text
unfolding guidance_section
error_sections false failure p = []
error_sections true failure p =
    guidance_section (failure_guidance failure) p
      (append_projected_section [] (status_line failure) p.max_total_bytes)

details_section : Option Text → ToolResultProjectionPolicy → Text → Text
details_section none p output = output
details_section (some details) p output =
    append_projected_section output
      (codes "[tool details (serialized JSON): "
        ++ (truncate_middle details p.max_details_bytes ++ codes "]"))
      p.max_total_bytes

-- The text of a result that is not suppressed.
unfoldable pub projected_text :
    Text → Option Text → Bool → Option ToolFailure → ToolResultProjectionPolicy → Text
unfolding error_sections details_section
projected_text content details is_error failure p = details_section details p (
    append_projected_section (error_sections is_error failure p)
      (truncate_middle content p.max_content_bytes) p.max_total_bytes)

abbrev pub repeated_text : Text
repeated_text = codes "[repeated tool error omitted; see the earlier matching result]"

abbrev pub seen_contains : ℕ → List ℕ → Bool
seen_contains k [] = false
seen_contains k (j ∷ js) = j == k || seen_contains k js

-- `project_tool_result_as_text`, with the fingerprints seen after it.
unfoldable pub project_tool_result_as_text :
    Text
    → Option Text
    → Bool
    → Option ToolFailure
    → ToolResultProjectionPolicy
    → List ℕ
    → ModelToolResult × List ℕ
unfolding projected_text
project_tool_result_as_text content details is_error failure p seen =
    let fingerprint = error_fingerprint content details failure in
    let result : ModelToolResult = record {
      content = projected_text content details is_error failure p;
      is_error = is_error;
    } in
    if is_error && (p.deduplicate_repeated_errors && seen_contains fingerprint seen)
    then (record { content = repeated_text; is_error = true }, seen)
    else (result, (if is_error then fingerprint ∷ seen else seen))
