-- ===== src/Tool/Projection/Status.antt =====
-- tool.rs: the status line stands in full at the front of every projected error.
use mathlib.Core.List.{append_assoc, append-nil}
use pi_agent_core_rs.Prelude.{
  ℕ, ◌-◌, ◌≤◌, ◌≡◌, refl, sym, true, false, [], ◌++◌, Option, none, some, Text, arith, inl, inr,
  sat_add, leb, if◌then◌else◌, length, is_empty, Bool-cases,
}
use pi_agent_core_rs.Tool.Failure.{ToolFailure, ToolResultProjectionPolicy}
use pi_agent_core_rs.Tool.Truncate.{truncate_middle}
use pi_agent_core_rs.Tool.Truncate.Bounds.{length-truncation_marker}
use pi_agent_core_rs.Tool.Projection.{
  validate, append_projected_section, status_line, guidance_section, error_sections,
  details_section, projected_text, failure_guidance,
}

-- `s` begins with `front`.
abbrev pub BeginsWith : Text → Text → Type 0
BeginsWith front s = (rest : Text) × (s ≡ front ++ rest)

begins_trans : (a b c : Text) → BeginsWith a b → BeginsWith b c → BeginsWith a c
begins_trans a b c (r, p) (t, q) = (r ++ t, rw (q, p) (append_assoc a r t))

append_keeps_front :
    (output section : Text) (limit : ℕ)
    → BeginsWith output (append_projected_section output section limit)
unfolding append_projected_section
append_keeps_front output section limit = elim (Bool-cases (is_empty section)) [
  | inl e ↦ rw e ([], sym (append-nil output))
  | inr e ↦
      let separator_bytes : ℕ = if is_empty output then 0 else 1 in
      rw e (elim (Bool-cases (leb (limit - length output) separator_bytes)) [
        | inl full ↦ rw full ([], sym (append-nil output))
        | inr room ↦ rw room (_, refl)
      ])
]

guidance_keeps_front :
    (g : Option Text) (p : ToolResultProjectionPolicy) (output : Text)
    → BeginsWith output (guidance_section g p output)
unfolding guidance_section
guidance_keeps_front none p output = ([], sym (append-nil output))
guidance_keeps_front (some g) p output = append_keeps_front output _ _

details_keeps_front :
    (d : Option Text) (p : ToolResultProjectionPolicy) (output : Text)
    → BeginsWith output (details_section d p output)
unfolding details_section
details_keeps_front none p output = ([], sym (append-nil output))
details_keeps_front (some d) p output = append_keeps_front output _ _

length-status_line : (f : Option ToolFailure) → length (status_line f) ≤ 38
unfolding status_line
length-status_line f = ground arith

truncate_small : (s : Text) (limit : ℕ) → length s ≤ limit → truncate_middle s limit ≡ s
unfolding truncate_middle
truncate_small s limit h = ground arith

validate_total : (p : ToolResultProjectionPolicy) → validate p ≡ true → 58 ≤ p.max_total_bytes
unfolding validate sat_add
validate_total p v = ground (arith, length-truncation_marker)

status_line_not_empty : (f : Option ToolFailure) → is_empty (status_line f) ≡ false
unfolding status_line
status_line_not_empty f = refl

status_first :
    (f : Option ToolFailure) (limit : ℕ)
    → 58 ≤ limit
    → append_projected_section [] (status_line f) limit ≡ status_line f
unfolding append_projected_section
status_first f limit h = ground (
  arith,
  status_line_not_empty f,
  length-status_line f,
  truncate_small (status_line f) (limit - 0 - 0),
)

-- Under a policy that passes validation the projection of an error that is not suppressed begins with
-- its whole status line, whatever the sizes of the content, the details and the guidance.
pub projected_text-status :
    (content : Text) (details : Option Text) (f : Option ToolFailure)
    (p : ToolResultProjectionPolicy)
    → validate p ≡ true
    → BeginsWith (status_line f) (projected_text content details true f p)
unfolding projected_text error_sections
projected_text-status content details f p v =
    let first = status_first f p.max_total_bytes (validate_total p v) in
    rw first (
      begins_trans _ _ _ (guidance_keeps_front (failure_guidance f) p (status_line f))
        (begins_trans _ _ _ (append_keeps_front _ _ _) (details_keeps_front details p _)))
