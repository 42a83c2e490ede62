-- ===== src/Tool/Projection/Fingerprint.antt =====
-- tool.rs: which errors the projection takes for repetitions.
use pi_agent_core_rs.Prelude.{
  ℕ, ◌≡◌, refl, true, false, List, [], ◌∷◌, ◌++◌, Option, none, some, Text, arith,
}
use pi_agent_core_rs.Tool.Failure.{ToolFailure, ToolResultProjectionPolicy}
use pi_agent_core_rs.Tool.Projection.{
  mix, mix_all, error_fingerprint, fnv_offset, repeated_text, projected_text,
  project_tool_result_as_text,
}

mix_all-append : (hash : ℕ) (s t : Text) → mix_all hash (s ++ t) ≡ mix_all (mix_all hash s) t
unfolding mix_all
mix_all-append hash [] t = refl
mix_all-append hash (b ∷ s) t = mix_all-append (mix hash b) s t

-- The fingerprint does not see where the content ends and the details begin: an error whose content
-- is `s ++ t` has the fingerprint of one with content `s` and details `t`.
pub error_fingerprint-split :
    (s t : Text) (f : Option ToolFailure)
    → error_fingerprint (s ++ t) none f ≡ error_fingerprint s (some t) f
unfolding error_fingerprint mix_all
error_fingerprint-split s t f = rw (mix_all-append fnv_offset s t) refl

-- Under deduplication, after an error with content `s` and details `t` an error with content `s ++ t`
-- and no details, which is another error, is suppressed as its repetition.
pub project_split_suppressed :
    (s t : Text) (f : Option ToolFailure) (p : ToolResultProjectionPolicy) (seen : List ℕ)
    → p.deduplicate_repeated_errors ≡ true
    → let seen' = (project_tool_result_as_text s (some t) true f p seen).1 in
      project_tool_result_as_text (s ++ t) none true f p seen'
      ≡ (record { content = repeated_text; is_error = true }, seen')
unfolding project_tool_result_as_text
project_split_suppressed s t f p seen d = ground (arith, error_fingerprint-split s t f)

-- A success is never suppressed, and leaves no fingerprint.
pub project_success :
    (content : Text) (details : Option Text) (f : Option ToolFailure)
    (p : ToolResultProjectionPolicy) (seen : List ℕ)
    → project_tool_result_as_text content details false f p seen
      ≡ (record { content = projected_text content details false f p; is_error = false }, seen)
unfolding project_tool_result_as_text
project_success content details f p seen = refl

-- Under deduplication an error that was projected once is suppressed when it comes again next, whatever
-- was projected before it, and nothing more is recorded.
project_repeat_suppressed :
    (content : Text) (details : Option Text) (f : Option ToolFailure)
    (p : ToolResultProjectionPolicy) (seen : List ℕ)
    → p.deduplicate_repeated_errors ≡ true
    → let seen' = (project_tool_result_as_text content details true f p seen).1 in
      project_tool_result_as_text content details true f p seen'
      ≡ (record { content = repeated_text; is_error = true }, seen')
unfolding project_tool_result_as_text
project_repeat_suppressed content details f p seen d = ground arith
