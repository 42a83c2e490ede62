-- ===== src/Tool/Truncate/Bounds.antt =====
-- tool.rs: the size of a truncated text.
use pi_agent_core_rs.Prelude.{
  ℕ, zero, suc, ◌+◌, ◌-◌, ◌/◌, ◌≤◌, ◌≡◌, refl, ◌++◌, Text, min, arith, length, take, drop,
  length-append, length-take, length-drop,
}
use pi_agent_core_rs.Tool.Truncate.{
  truncation_marker, lower, utf8_prefix_end, raise, utf8_suffix_start, around_marker,
  truncate_middle,
}

lower-le : (value : Text) (end : ℕ) → lower value end ≤ end
unfolding lower
lower-le value zero = omega arith
lower-le value (suc end) = ground (arith, lower-le value end)

pub utf8_prefix_end-le : (value : Text) (limit : ℕ) → utf8_prefix_end value limit ≤ limit
unfolding utf8_prefix_end
utf8_prefix_end-le value limit = omega (arith, lower-le value (min limit (length value)))

raise_bounds :
    (value : Text) (left start : ℕ)
    → (start ≤ raise value left start) × (raise value left start ≤ start + left)
unfolding raise
raise_bounds value zero start = omega arith
raise_bounds value (suc left) start = ground (arith, raise_bounds value left (suc start))

pub utf8_suffix_start_bounds :
    (value : Text) (limit : ℕ)
    → (length value - limit ≤ utf8_suffix_start value limit)
      × (utf8_suffix_start value limit ≤ length value)
unfolding utf8_suffix_start
utf8_suffix_start_bounds value limit =
    let h = raise_bounds value (min limit (length value)) (length value - limit) in
    (omega (arith, h.0), omega (arith, h.1))

pub length-truncation_marker : length truncation_marker ≡ 19
unfolding truncation_marker
length-truncation_marker = refl

length-around_marker :
    (value : Text) (remaining : ℕ)
    → remaining ≤ length value
    → length (around_marker value remaining) ≤ remaining + 19
unfolding around_marker
length-around_marker value remaining h =
    let half = remaining / 2 in
    let front = take (utf8_prefix_end value half) value in
    let back = drop (utf8_suffix_start value (remaining - half)) value in
    omega (
      arith,
      length-append front (truncation_marker ++ back),
      length-append truncation_marker back,
      length-truncation_marker,
      length-take (utf8_prefix_end value half) value,
      utf8_prefix_end-le value half,
      length-drop (utf8_suffix_start value (remaining - half)) value,
      (utf8_suffix_start_bounds value (remaining - half)).0,
    )

-- A truncated text never has more bytes than the limit.
pub truncate_middle-le : (value : Text) (limit : ℕ) → length (truncate_middle value limit) ≤ limit
unfolding truncate_middle
truncate_middle-le value limit = ground (
  arith,
  length-truncation_marker,
  length-around_marker value (limit - length truncation_marker),
  length-take (utf8_prefix_end truncation_marker limit) truncation_marker,
  utf8_prefix_end-le truncation_marker limit,
)
