-- ===== src/Tool/Truncate.antt =====
-- tool.rs: `truncate_middle` and the search for character boundaries. A slice `&value[..end]` panics
-- off a boundary; `Truncate.Utf8` shows that the ends that are computed lie on one.
pub mod Bounds
pub mod Utf8
use pi_agent_core_rs.Prelude.{
  ℕ, zero, suc, ◌+◌, ◌-◌, ◌/◌, Bool, true, false, not, ◌&&◌, ◌||◌, List, [], ◌∷◌, ◌++◌, Option,
  none, some, Text, min, ltb, leb, ◌==◌, if◌then◌else◌, length, get_elem?, take, drop,
}

-- The marker "… [truncated] …" in UTF-8.
unfoldable pub truncation_marker : Text
truncation_marker =
    226 ∷ 128 ∷ 166 ∷ 32 ∷ 91 ∷ 116 ∷ 114 ∷ 117 ∷ 110 ∷ 99 ∷ 97 ∷ 116 ∷ 101 ∷ 100 ∷ 93 ∷ 32 ∷ 226
    ∷ 128 ∷ 166 ∷ []

-- A byte of the form 10xxxxxx.
abbrev pub is_continuation : ℕ → Bool
is_continuation b = leb 128 b && ltb b 192

boundary_at : Option ℕ → Bool
boundary_at none = false
boundary_at (some b) = not (is_continuation b)

-- `str::is_char_boundary`.
unfoldable pub is_char_boundary : Text → ℕ → Bool
unfolding boundary_at
is_char_boundary value zero = true
is_char_boundary value (suc i) = suc i == length value || boundary_at (get_elem? value (suc i))

-- `while end > 0 && !value.is_char_boundary(end) { end -= 1; }`
lower : Text → ℕ → ℕ
lower value zero = zero
lower value (suc end) =
    let rest = lower value end in if is_char_boundary value (suc end) then suc end else rest

unfoldable pub utf8_prefix_end : Text → ℕ → ℕ
unfolding lower
utf8_prefix_end value limit = lower value (min limit (length value))

-- `while start < value.len() && !value.is_char_boundary(start) { start += 1; }`, by the bytes that
-- are left behind `start`.
raise : Text → ℕ → ℕ → ℕ
raise value zero start = start
raise value (suc left) start =
    let rest = raise value left (suc start) in if is_char_boundary value start then start else rest

unfoldable pub utf8_suffix_start : Text → ℕ → ℕ
unfolding raise
utf8_suffix_start value limit = raise value (min limit (length value)) (length value - limit)

-- The text around the marker, of at most `remaining` bytes.
around_marker : Text → ℕ → Text
around_marker value remaining =
    let prefix_limit = remaining / 2 in
    take (utf8_prefix_end value prefix_limit) value
    ++ (truncation_marker ++ drop (utf8_suffix_start value (remaining - prefix_limit)) value)

unfoldable pub truncate_middle : Text → ℕ → Text
unfolding around_marker
truncate_middle value limit =
    if leb (length value) limit
    then value
    else if leb limit (length truncation_marker)
    then take (utf8_prefix_end truncation_marker limit) truncation_marker
    else around_marker value (limit - length truncation_marker)
